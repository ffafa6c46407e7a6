-- ===== src/FdMap/Slots.antt =====
-- fdmap.c: every descriptor gets the slot that carries its number.
use cmogstored.Prelude.{
  true, false, length, length-append, leb, ◌≤◌, ◌<◌, ℕ, zero, suc, ◌+◌, ◌/◌, ◌%◌, ◌*◌, ◌<◌, List,
  [], ◌∷◌, ◌++◌, some, ltb, get_elem?, ◌≡◌, refl, inl, inr, Bool-cases, arith, ◌∙◌,
}
use cmogstored.FdMap.{
  MogFd, FdMap, heap_elem, aref, slots_of, int_max, new_heap, grow, grow_ref, fd_get,
}

-- slot j of heap i carries the number of its descriptor
abbrev pub Numbered : ℕ → List (List MogFd) → Type 0
Numbered first heaps =
    (i j : ℕ)
    → i < length heaps
    → j < 256
    → (mfd : MogFd) × (heap_elem heaps i j ≡ some mfd) × (mfd.fd ≡ first + 256 * i + j)

pub record IsWf (m : FdMap) : Type 0 where
  pub numbered : Numbered 0 m.fd_map
  pub sized : m.max_fd ≡ 256 * length m.fd_map

new_heap-fd :
    (n first j : ℕ)
    → j < n
    → (mfd : MogFd) × (get_elem? (new_heap n first) j ≡ some mfd) × (mfd.fd ≡ first + j)
unfolding new_heap
new_heap-fd zero first j l = absurd (omega arith)
new_heap-fd (suc n) first zero l = (_, refl, omega arith)
new_heap-fd (suc n) first (suc j) l =
    let (mfd, e, f) = new_heap-fd n (suc first) j (omega arith) in (mfd, e, f ∙ omega arith)

snoc-Numbered :
    (first base : ℕ) (hs : List (List MogFd))
    → base ≡ first + 256 * length hs
    → Numbered first hs
    → Numbered first (hs ++ new_heap 256 base ∷ [])
unfolding heap_elem
snoc-Numbered first base [] b w zero j l k =
    let (mfd, e, f) = new_heap-fd 256 base j k in (mfd, e, f ∙ omega arith)
snoc-Numbered first base [] b w (suc i) j l k = absurd (omega arith)
snoc-Numbered first base (h ∷ hs) b w zero j l k = w zero j (omega arith) k
snoc-Numbered first base (h ∷ hs) b w (suc i) j l k =
    let tail : Numbered (first + 256) hs =
      λ a c x y. let (mfd, e, f) = w (suc a) c (omega arith) y in (mfd, e, f ∙ omega arith) in
    let (mfd, e, f) = snoc-Numbered (first + 256) base hs (omega arith) tail i j (omega arith) k in
    (mfd, e, f ∙ omega arith)

-- the map with one more heap
abbrev grown : FdMap → FdMap
grown m = record { max_fd = m.max_fd + 256; fd_map = m.fd_map ++ new_heap 256 m.max_fd ∷ [] }

grown-IsWf : (m : FdMap) → IsWf m → IsWf (grown m)
grown-IsWf m w = record {
  numbered = snoc-Numbered 0 m.max_fd m.fd_map (let e = w.sized in omega arith) w.numbered;
  sized = let e = w.sized in omega (arith, length-append m.fd_map (new_heap 256 m.max_fd ∷ []));
}

-- a heap for a descriptor below `open_max` fits into the array
grow-grown :
    (open_max : ℕ) (m : FdMap) (fd : ℕ)
    → IsWf m
    → fd < open_max
    → 256 * slots_of open_max ≤ int_max
    → ltb fd m.max_fd ≡ false
    → grow open_max m ≡ some (grown m)
unfolding grow
grow-grown open_max m fd w l fits beyond =
    let sized = w.sized in
    let far : m.max_fd ≤ fd = ground arith in
    let room : ltb (length m.fd_map) (slots_of open_max) ≡ true = ground arith in
    let small : leb (m.max_fd + 256) int_max ≡ true = ground arith in rw (room, small) refl

-- enough turns are given: each adds 256 descriptors
grow_ref-IsWf :
    (open_max turns : ℕ) (m : FdMap) (fd : ℕ)
    → IsWf m
    → fd < open_max
    → 256 * slots_of open_max ≤ int_max
    → fd < m.max_fd + turns
    → (m' : FdMap) × (grow_ref open_max turns m fd ≡ some m') × IsWf m' × (fd < m'.max_fd)
unfolding grow_ref
grow_ref-IsWf open_max zero m fd w o fits l = (m, refl, w, omega arith)
grow_ref-IsWf open_max (suc turns) m fd w o fits l = elim (Bool-cases (ltb fd m.max_fd)) [
  | inl there ↦ (m, rw there refl, w, ground arith)
  | inr beyond ↦
      let (m', e, w', l') =
        grow_ref-IsWf open_max turns (grown m) fd (grown-IsWf m w) o fits (omega arith) in
      (m', rw (beyond, grow-grown open_max m fd w o fits beyond) e, w', l')
]

aref-fd :
    (m : FdMap) (fd : ℕ)
    → IsWf m
    → fd < m.max_fd
    → (mfd : MogFd) × (aref m fd ≡ some mfd) × (mfd.fd ≡ fd)
unfolding aref
aref-fd m fd w l =
    let sized = w.sized in
    let (mfd, e, f) = w.numbered (fd / 256) (fd % 256) (omega arith) (omega arith) in
    (mfd, e, f ∙ omega arith)

-- For a descriptor below the limit sysconf(_SC_OPEN_MAX), where the descriptors that the array has
-- room for are numbers of type int, `mog_fd_get` stays inside the array, fails no assertion, and
-- finds a slot in a map that is still well formed; the slot carries the descriptor's number, as
-- `mog_fd_init` asserts.
pub fd_get-IsWf :
    (open_max : ℕ) (m : FdMap) (fd : ℕ)
    → IsWf m
    → fd < open_max
    → 256 * slots_of open_max ≤ int_max
    → (m' : FdMap) × (mfd : MogFd) × (fd_get open_max m fd ≡ some (m', some mfd))
      × IsWf m'
      × (mfd.fd ≡ fd)
unfolding fd_get
fd_get-IsWf open_max m fd w o fits = elim (Bool-cases (ltb fd m.max_fd)) [
  | inl there ↦
      let (mfd, e, f) = aref-fd m fd w (ground arith) in (m, mfd, rw (there, e) refl, w, f)
  | inr beyond ↦
      let (m', e, w', l') = grow_ref-IsWf open_max (suc fd) m fd w o fits (omega arith) in
      let (mfd, e', f) = aref-fd m' fd w' l' in
      let small : ltb fd int_max ≡ true = ground arith in
      (m', mfd, rw (beyond, small, e, e') refl, w', f)
]
