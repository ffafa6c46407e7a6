-- ===== src/Tests/Making.antt =====
-- Directories.
use mathlib.Core.List.{Memᴰ}
use cmogstored.Prelude.{
  Bytes, List, [], ◌∷◌, ◌++◌, Bool, true, false, ◌≡◌, refl, codes, ap, drop, if◌then◌else◌,
}
use cmogstored.Mkpath.{
  MkDir, mkdir_made, mkdir_exists, mkdir_failed, mkpath_loop, mkpath_step, after_mkdir, MkPath,
  path_made, top_level, not_made, has_slash, mkpath_for, OpenPut, put_fd, put_missing,
  mkpath_open_put, after_open, put_again,
}
use cmogstored.Mkpath.Parents.{mkpath_for-parents}

-- a file system as the list of its directories, on which mkdir(2) always makes one
abbrev mkdir : List Bytes → Bytes → MkDir × List Bytes
mkdir fs p = (mkdir_made, p ∷ fs)

abbrev Exists : List Bytes → Bytes → Type 0
Exists fs d = Memᴰ d fs

abbrev device : List Bytes
device = codes "/d" ∷ []

-- behind the first slash
abbrev tip : Bytes
tip = codes "d/0/7"

-- the device's directory is not made, a path at the top level is refused, and an error ends the loop
mkpath_for_runs :
    (mkpath_for mkdir device b'/' tip ≡ (path_made, codes "/d/0" ∷ device))
    × (mkpath_for mkdir device b'/' (codes "7") ≡ (top_level, device))
    × (mkpath_for (λ fs p. (mkdir_failed, fs)) device b'/' tip ≡ (not_made, device))
    × (mkpath_for (λ fs p. (mkdir_exists, fs)) device b'/' tip ≡ (path_made, device))
unfolding mkpath_for mkpath_loop mkpath_step after_mkdir has_slash
mkpath_for_runs = (refl, refl, refl, refl)

tip_made : (mkpath_for mkdir device b'/' tip).0 ≡ path_made
tip_made = ap (λ (x : MkPath × List Bytes). x.0) mkpath_for_runs.0

mkpath_for-parents_example :
    (has_slash tip ≡ true)
    × ((dev d post : Bytes)
        → tip ≡ (dev ++ (b'/' ∷ d)) ++ (b'/' ∷ post)
        → Exists (mkpath_for mkdir device b'/' tip).1 (b'/' ∷ (dev ++ (b'/' ∷ d))))
mkpath_for-parents_example =
    mkpath_for-parents mkdir Exists (λ fs p d x. Memᴰ.tail x) (λ fs p good. Memᴰ.head refl) device
      b'/' tip tip_made

-- a file system with the directory "/d" in which all the others are missing, or all are there
abbrev mkdir_all : Bool → Bytes → MkDir × Bool
mkdir_all there p = (mkdir_made, true)

abbrev open_below : Bool → Bytes → OpenPut × Bool
open_below true p = (put_fd 3, true)
open_below false p = if has_slash (drop 3 p) then (put_missing, false) else (put_fd 3, false)

-- the second open finds the file
open_below_runs : mkpath_open_put mkdir_all open_below false b'/' tip ≡ (put_fd 3, true)
unfolding mkpath_open_put after_open put_again mkpath_for mkpath_loop mkpath_step after_mkdir
    has_slash
open_below_runs = refl
