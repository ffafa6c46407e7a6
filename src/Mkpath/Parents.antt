-- ===== src/Mkpath/Parents.antt =====
-- mkpath_for.c: what exists afterwards above the file.
use mathlib.Core.Path.{subst}
use cmogstored.Prelude.{
  ℕ, Bytes, [], ◌∷◌, ◌++◌, Bool, true, false, ◌||◌, ◌==◌, if◌then◌else◌, Bool-cases, ◌≡◌, refl, sym,
  ap, ◌∙◌, append-nil, append_assoc, ==_iff, inl, inr, ◌≢◌, arith,
}
use cmogstored.Mkpath.{
  MkDir, mkdir_made, mkdir_exists, mkdir_failed, MkPath, path_made, top_level, not_made, has_slash,
  after_mkdir, mkpath_step, mkpath_loop, mkpath_for,
}

or_true : (b : Bool) → (b || true) ≡ true
or_true true = refl
or_true false = refl

pub has_slash-append : (s t : Bytes) → has_slash (s ++ (b'/' ∷ t)) ≡ true
unfolding has_slash
has_slash-append [] t = refl
has_slash-append (c ∷ s) t = simp (has_slash-append s t) (or_true (c == b'/'))

nil-slash : (d post : Bytes) → [] ≢ d ++ (b'/' ∷ post)
nil-slash [] post e = cc
nil-slash (x ∷ d) post e = cc

-- what lies behind the first byte of a directory's name
data Parent (c : ℕ) (rest : Bytes) (later : Bool) : Bytes → Type 0 where
  here : (c == b'/') ≡ true → later ≡ true → Parent c rest later []
  below :
      (d post : Bytes)
      → rest ≡ d ++ (b'/' ∷ post)
      → (later || ((c == b'/') || has_slash d)) ≡ true
      → Parent c rest later (c ∷ d)

parent :
    (c : ℕ) (rest : Bytes) (later : Bool) (d post : Bytes)
    → c ∷ rest ≡ d ++ (b'/' ∷ post)
    → (later || has_slash d) ≡ true
    → Parent c rest later d
unfolding has_slash
parent c rest later [] post e on =
    let slash : c ≡ b'/' = cc in here ((==_iff c b'/').1 slash) (ground arith)
parent c rest later (x ∷ d) post e on =
    let same : c ≡ x = cc in
    let behind : rest ≡ d ++ (b'/' ∷ post) = cc in
    subst (λ y. Parent c rest later (y ∷ d)) same
      (below d post behind
        (subst (λ y. (later || ((y == b'/') || has_slash d)) ≡ true) (sym same) on))

module _ {ℓ} {Fs : Type ℓ} (mkdir : Fs → Bytes → MkDir × Fs) (Exists : Fs → Bytes → Type 0)
    (keeps : (fs : Fs) (p d : Bytes) → Exists fs d → Exists (mkdir fs p).1 d)
    (makes : (fs : Fs) (p : Bytes) → (mkdir fs p).0 ≢ mkdir_failed → Exists (mkdir fs p).1 p) where
  -- what a path below `seen` gets done where the answer is success
  abbrev pub Made : Fs → Bytes → Bool → Bytes → MkPath × Fs → Type 0
  Made fs seen later rest r =
      (r.0 ≡ path_made)
      → ((d : Bytes) → Exists fs d → Exists r.1 d)
        × ((d post : Bytes)
            → rest ≡ d ++ (b'/' ∷ post)
            → (later || has_slash d) ≡ true
            → Exists r.1 (seen ++ d))

  -- the parents behind a byte, from those behind the rest
  further :
      (fs : Fs) (seen : Bytes) (c : ℕ) (rest : Bytes) (later later' : Bool)
      → ((d post : Bytes)
          → rest ≡ d ++ (b'/' ∷ post)
          → (later' || has_slash d) ≡ true
          → Exists fs ((seen ++ (c ∷ [])) ++ d))
      → ((d : Bytes)
          → (later || ((c == b'/') || has_slash d)) ≡ true
          → (later' || has_slash d) ≡ true)
      → ((c == b'/') ≡ true → later ≡ true → Exists fs seen)
      → (d post : Bytes) → c ∷ rest ≡ d ++ (b'/' ∷ post)
      → (later || has_slash d) ≡ true
      → Exists fs (seen ++ d)
  further fs seen c rest later later' all flag here_too d post e on =
      go (parent c rest later d post e on)
    where
      go : {d : Bytes} → Parent c rest later d → Exists fs (seen ++ d)
      go (here slash on) = subst (Exists fs) (sym (append-nil seen)) (here_too slash on)
      go (below d post e on) =
          subst (Exists fs) (append_assoc seen (c ∷ []) d) (all d post e (flag d on))

  at_directory :
      (fs : Fs) (seen : Bytes) (c : ℕ) (rest : Bytes) (a : MkDir) (fs' : Fs)
      → mkdir fs seen ≡ (a, fs')
      → a ≢ mkdir_failed
      → (r : MkPath × Fs) → Made fs' (seen ++ (c ∷ [])) true rest r
      → Made fs seen true (c ∷ rest) r
  at_directory fs seen c rest a fs' eq good r ih made =
      let (kept, all) = ih made in
      let there =
        subst (λ (x : MkDir × Fs). Exists x.1 seen) eq
          (makes fs seen (λ z. good (sym (ap (λ (x : MkDir × Fs). x.0) eq) ∙ z))) in
      (
        (λ d x. kept d (subst (λ (y : MkDir × Fs). Exists y.1 d) eq (keeps fs seen d x))),
        further _ seen c rest true true all (λ d on. refl) (λ s on. kept seen there),
      )

  after_mkdir-Made :
      (fs : Fs) (seen : Bytes) (c : ℕ) (rest : Bytes) (r : MkDir × Fs)
      → mkdir fs seen ≡ r
      → (go : Fs → MkPath × Fs) → ((fs' : Fs) → Made fs' (seen ++ (c ∷ [])) true rest (go fs'))
      → Made fs seen true (c ∷ rest) (after_mkdir mkdir r go)
  unfolding after_mkdir
  after_mkdir-Made fs seen c rest (mkdir_failed, fs') eq go ih made =
      absurd (let z : not_made ≡ path_made = made in cc)
  after_mkdir-Made fs seen c rest (mkdir_made, fs') eq go ih made =
      at_directory fs seen c rest mkdir_made fs' eq (λ z. cc) (go fs') (ih fs') made
  after_mkdir-Made fs seen c rest (mkdir_exists, fs') eq go ih made =
      at_directory fs seen c rest mkdir_exists fs' eq (λ z. cc) (go fs') (ih fs') made

  mkpath_step-Made :
      (fs : Fs) (seen : Bytes) (later : Bool) (c : ℕ) (rest : Bytes) (go : Fs → Bool → MkPath × Fs)
      → ((fs' : Fs) (later' : Bool) → Made fs' (seen ++ (c ∷ [])) later' rest (go fs' later'))
      → (slash : Bool) → (c == b'/') ≡ slash
      → Made fs seen later (c ∷ rest) (mkpath_step mkdir fs seen later slash go)
  unfolding mkpath_step
  mkpath_step-Made fs seen later c rest go ih false name made =
      let (kept, all) = ih fs later made in
      (
        kept,
        further _ seen c rest later later all
            (λ d on. subst (λ b. (later || (b || has_slash d)) ≡ true) name on) (λ slash on. cc),
      )
  mkpath_step-Made fs seen false c rest go ih true slash made =
      let (kept, all) = ih fs true made in
      (kept, further _ seen c rest false true all (λ d on. refl) (λ s on. cc))
  mkpath_step-Made fs seen true c rest go ih true slash made =
      after_mkdir-Made fs seen c rest (mkdir fs seen) refl (λ fs'. go fs' true) (λ fs'. ih fs' true)
        made

  pub mkpath_loop-Made :
      (rest : Bytes) (fs : Fs) (seen : Bytes) (later : Bool)
      → Made fs seen later rest (mkpath_loop mkdir fs seen later rest)
  unfolding mkpath_loop
  mkpath_loop-Made [] fs seen later =
      λ e. ((λ d x. x), λ d post eq on. absurd (nil-slash d post eq))
  mkpath_loop-Made (c ∷ rest) fs seen later =
      mkpath_step-Made fs seen later c rest _
        (λ fs' later'. mkpath_loop-Made rest fs' (seen ++ (c ∷ [])) later') (c == b'/') refl

  -- If mog_mkpath_for succeeds, the path is not one at the top level, and for every directory above
  -- the file, but for the uppermost one, which is the device's and not made, something with its name
  -- exists: the directory, or what made mkdir(2) answer EEXIST. `Exists` is the existence of a name;
  -- mkdir(2) is any function that removes no name, and after which the name exists unless it
  -- answers with an error other than EEXIST.
  pub mkpath_for-parents :
      (fs : Fs) (first : ℕ) (tip : Bytes)
      → (mkpath_for mkdir fs first tip).0 ≡ path_made
      → (has_slash tip ≡ true)
        × ((device d post : Bytes)
            → tip ≡ (device ++ (b'/' ∷ d)) ++ (b'/' ∷ post)
            → Exists (mkpath_for mkdir fs first tip).1 (first ∷ (device ++ (b'/' ∷ d))))
  unfolding mkpath_for
  mkpath_for-parents fs first tip made =
      let loop = mkpath_loop mkdir fs (first ∷ []) false tip in
      let result : (b : Bool)
          → has_slash tip ≡ b
          → (if b then loop else (top_level, fs)).0 ≡ path_made =
        λ b e. subst (λ x. (if x then loop else (top_level, fs)).0 ≡ path_made) e made in
      elim (Bool-cases (has_slash tip)) [
        | inl slash ↦
            let (kept, all) = mkpath_loop-Made tip fs (first ∷ []) false (result true slash) in
            rw slash (
              refl,
              λ device d post e. all (device ++ (b'/' ∷ d)) post e (has_slash-append device d),
            )
        | inr without ↦ absurd (let z : top_level ≡ path_made = result false without in cc)
      ]
