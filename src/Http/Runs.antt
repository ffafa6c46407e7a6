-- ===== src/Http/Runs.antt =====
-- What holds of the results of the calls, and of a client's write buffer.
use cmogstored.Prelude.{Bool, true, false, if◌then◌else◌, ◌≡◌, refl, ◌⊎◌, inl, inr}
use cmogstored.TryWrite.{WbufPtr, null, wr_error, buffered, Wbuf}
use cmogstored.Http.State.{Run, returns, aborted, ◌>>=◌}

-- a predicate on what a call returns; a failed assertion ends the process
abbrev pub Holds {ℓ} : {A : Type ℓ} → (A → Type 0) → Run A → Type 0
Holds P (returns a) = P a
Holds P aborted = Unit

-- a call, and what follows it
pub Holds-bind {ℓ κ} :
    {A : Type ℓ} {B : Type κ} (P : A → Type 0) (Q : B → Type 0) (r : Run A) (f : A → Run B)
    → Holds P r
    → ((a : A) → P a → Holds Q (f a))
    → Holds Q (r >>= f)
Holds-bind P Q (returns a) f p each = each a p
Holds-bind P Q aborted f p each = tt

abbrev pub IsBuffered : WbufPtr → Type 0
IsBuffered p = (w : Wbuf) × (p ≡ buffered w)

pub ptr_cases : (p : WbufPtr) → (p ≡ null) ⊎ (p ≡ wr_error) ⊎ IsBuffered p
ptr_cases null = inl refl
ptr_cases wr_error = inr (inl refl)
ptr_cases (buffered w) = inr (inr (w, refl))

-- both branches of a test
pub if_both {ℓ} :
    {A : Type ℓ} (P : A → Type 0) (b : Bool) (x y : A) → P x → P y → P (if b then x else y)
if_both P true x y p q = p
if_both P false x y p q = q
