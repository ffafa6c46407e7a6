-- ===== src/Mkpath.antt =====
-- mkpath_for.c: the directories above a file that is to be created; mkpath_open_put of file.c.
use cmogstored.Prelude.{ℕ, Bytes, List, [], ◌∷◌, ◌++◌, Bool, true, false, ◌||◌, ◌==◌, if◌then◌else◌}
pub mod Parents

-- How mkdir(2) answers: it makes the directory, or errno is EEXIST, or another error.
pub data MkDir : Type 0 where
  mkdir_made : MkDir
  mkdir_exists : MkDir
  mkdir_failed : MkDir

-- What mog_mkpath_for returns: 0, or -1 with errno EACCES of its own, or -1 with that of mkdir(2).
pub data MkPath : Type 0 where
  path_made : MkPath
  top_level : MkPath
  not_made : MkPath

-- What open(2) answers for writing: the descriptor, or errno ENOENT, or another error.
pub data OpenPut : Type 0 where
  put_fd : ℕ → OpenPut
  put_missing : OpenPut
  put_failed : OpenPut

-- strchr(s, '/') finds one
unfoldable pub has_slash : Bytes → Bool
has_slash [] = false
has_slash (c ∷ cs) = c == b'/' || has_slash cs

-- mkdir(2) takes the file system and a path.
module _ {ℓ} {Fs : Type ℓ} (mkdir : Fs → Bytes → MkDir × Fs) where
  -- errno EEXIST is no error
  unfoldable pub after_mkdir : MkDir × Fs → (Fs → MkPath × Fs) → MkPath × Fs
  after_mkdir (mkdir_made, fs) go = go fs
  after_mkdir (mkdir_exists, fs) go = go fs
  after_mkdir (mkdir_failed, fs) go = (not_made, fs)

  -- A byte of the path behind the bytes `seen`. At a slash the path is cut there for mkdir(2), but
  -- not at the first slash (i > 0).
  unfoldable pub mkpath_step :
      Fs → Bytes → (later : Bool) → (slash : Bool) → (Fs → Bool → MkPath × Fs) → MkPath × Fs
  mkpath_step fs seen later false go = go fs later
  mkpath_step fs seen false true go = go fs true
  mkpath_step fs seen true true go = after_mkdir (mkdir fs seen) (λ fs'. go fs' true)

  -- the loop from slash to slash, with strchr
  unfoldable pub mkpath_loop : Fs → Bytes → Bool → Bytes → MkPath × Fs
  mkpath_loop fs seen later [] = (path_made, fs)
  mkpath_loop fs seen later (c ∷ rest) =
      mkpath_step fs seen later (c == b'/')
        (λ fs' later'. mkpath_loop fs' (seen ++ (c ∷ [])) later' rest)

  -- The path is `first ∷ tip`.
  unfoldable pub mkpath_for : Fs → ℕ → Bytes → MkPath × Fs
  mkpath_for fs first tip =
      if has_slash tip then mkpath_loop fs (first ∷ []) false tip else (top_level, fs)

  -- open(2) takes the file system and a path.
  module _ (open_put : Fs → Bytes → OpenPut × Fs) where
    -- the second open, where the directories could be made
    unfoldable pub put_again : ℕ → Bytes → MkPath × Fs → OpenPut × Fs
    put_again first tip (path_made, fs) = open_put fs (first ∷ tip)
    put_again first tip (top_level, fs) = (put_missing, fs)
    put_again first tip (not_made, fs) = (put_missing, fs)

    -- after the first open
    unfoldable pub after_open : ℕ → Bytes → OpenPut × Fs → OpenPut × Fs
    after_open first tip (put_missing, fs) = put_again first tip (mkpath_for fs first tip)
    after_open first tip (put_fd fd, fs) = (put_fd fd, fs)
    after_open first tip (put_failed, fs) = (put_failed, fs)

    unfoldable pub mkpath_open_put : Fs → ℕ → Bytes → OpenPut × Fs
    mkpath_open_put fs first tip = after_open first tip (open_put fs (first ∷ tip))
