-- ===== src/Prelude/Decimal.antt =====
-- Numbers as printf(3) writes them.
use Prim.Native.Nat.{ℕ, zero, suc, ◌+◌, ◌/◌, ◌%◌}
use mathlib.Core.List.{[], ◌∷◌}
use cmogstored.Prelude.Lists.{Bytes}
use cmogstored.Prelude.Tests.{if◌then◌else◌, ltb}

-- printf's %llu; twenty digits are enough for 64 bits
abbrev pub decimal_from : ℕ → ℕ → Bytes → Bytes
decimal_from zero n acc = acc
decimal_from (suc fuel) n acc =
    let rest = decimal_from fuel (n / 10) ((48 + n % 10) ∷ acc) in
    if ltb n 10 then (48 + n) ∷ acc else rest

unfoldable pub decimal : ℕ → Bytes
decimal n = decimal_from 20 n []
