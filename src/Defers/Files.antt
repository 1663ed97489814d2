-- ===== src/Defers/Files.antt =====
-- The file system that bosun-core/src/defers/journal.rs calls, for the directory of the journal:
-- std::fs and the clock.
pub mod Ends
use bonsun.Base.{ℕ, List, [], ◌∷◌, Option, none, some, map, Text, text_eq, if◌then◌else◌}

pub data IoError : Type 0 where
  not_found : IoError
  other : (message : Text) → IoError

pub data Result (E A : Type 0) : Type 0 where
  ok : A → Result E A
  err : E → Result E A

-- The files of the directory, by name, in no particular order. A name is UTF-8.
abbrev pub Directory : Type 0 → Type 0
Directory F = List (Text × F)

-- `faults` are the ways in which the system calls to come end: `some e` fails with `e` and changes
-- nothing, `none` and every call beyond the list do what they are asked to do. `clock` holds the
-- readings to come, in nanoseconds, `none` where the clock stands before 1970; beyond the list it
-- reads 0.
pub record Fs (F : Type 0) : Type 0 where
  pub files : Directory F
  pub faults : List (Option IoError)
  pub clock : List (Option ℕ)

module _ {F : Type 0} where
  unfoldable pub lookup : Text → Directory F → Option F
  lookup name [] = none
  lookup name ((n, f) ∷ d) = if text_eq n name then some f else lookup name d

  unfoldable pub unlink : Text → Directory F → Directory F
  unlink name [] = []
  unlink name ((n, f) ∷ d) = if text_eq n name then unlink name d else (n, f) ∷ unlink name d

  abbrev pub store : Text → F → Directory F → Directory F
  store name f d = (name, f) ∷ unlink name d

  -- A directory without failing calls.
  abbrev pub quiet : Directory F → List ℕ → Fs F
  quiet d readings = record { files = d; faults = []; clock = map some readings }

-- Operations that change the file system, and may fail; what they did stands also if they fail.
abbrev pub Exec : Type 0 → Type 0 → Type 0 → Type 0
Exec F E A = Fs F → Result E A × Fs F

-- A file that is not there.
abbrev pub found : {A : Type 0} → Option A → Result IoError A
found none = err not_found
found (some f) = ok f

module _ {F E : Type 0} where
  abbrev pub pure : {A : Type 0} → A → Exec F E A
  pure a fs = (ok a, fs)

  abbrev pub throw : {A : Type 0} → E → Exec F E A
  throw e fs = (err e, fs)

  abbrev pub and_then : {A B : Type 0} → Result E A × Fs F → (A → Exec F E B) → Result E B × Fs F
  and_then (ok a, fs) f = f a fs
  and_then (err e, fs) f = (err e, fs)

  infixl 5 ◌>>=◌
  abbrev pub ◌>>=◌ : {A B : Type 0} → Exec F E A → (A → Exec F E B) → Exec F E B
  (m >>= f) fs = and_then (m fs) f

  abbrev pub with_error : {E' A : Type 0} → (E → E') → Result E A × Fs F → Result E' A × Fs F
  with_error f (ok a, fs) = (ok a, fs)
  with_error f (err e, fs) = (err (f e), fs)

  -- `map_err`
  abbrev pub map_err : {E' A : Type 0} → (E → E') → Exec F E A → Exec F E' A
  map_err f m fs = with_error f (m fs)

  abbrev pub with_result :
      {E' A B : Type 0} → (Result E A → Exec F E' B) → Result E A × Fs F → Result E' B × Fs F
  with_result f (r, fs) = f r fs

  -- `match` on the result of an operation.
  abbrev pub match_result :
      {E' A B : Type 0} → Exec F E A → (Result E A → Exec F E' B) → Exec F E' B
  match_result m f fs = with_result f (m fs)

module _ {F : Type 0} where
  abbrev pub commit : {A : Type 0} → Result IoError A × Directory F → Fs F → Result IoError A × Fs F
  commit (r, d) fs = (r, record fs { files = d })

  abbrev pub run_call :
      {A : Type 0}
      → List (Option IoError)
      → (Directory F → Result IoError A × Directory F)
      → Exec F IoError A
  run_call [] call fs = commit (call fs.files) fs
  run_call (none ∷ rest) call fs = commit (call fs.files) (record fs { faults = rest })
  run_call (some e ∷ rest) call fs = (err e, record fs { faults = rest })

  -- A system call.
  unfoldable pub syscall :
      {A : Type 0} → (Directory F → Result IoError A × Directory F) → Exec F IoError A
  syscall call fs = run_call fs.faults call fs

  -- A call that leaves the directory as it is: `open` to read, `fsync`, the next entry of `readdir`.
  abbrev pub touch : Exec F IoError Unit
  touch = syscall (λ d. (ok tt, d))

  -- `open` with `create` and `truncate`, and a `write` at the start of the file.
  abbrev pub write_file : Text → F → Exec F IoError Unit
  write_file name f = syscall (λ d. (ok tt, store name f d))

  -- `fs::read`
  abbrev pub read_file : Text → Exec F IoError F
  read_file name = syscall (λ d. (found (lookup name d), d))

  abbrev pub unlinked : Text → Option F → Directory F → Result IoError Unit × Directory F
  unlinked name none d = (err not_found, d)
  unlinked name (some f) d = (ok tt, unlink name d)

  -- `fs::remove_file`
  abbrev pub remove_file : Text → Exec F IoError Unit
  remove_file name = syscall (λ d. unlinked name (lookup name d) d)

  abbrev pub renamed : Text → Text → Option F → Directory F → Result IoError Unit × Directory F
  renamed from to none d = (err not_found, d)
  renamed from to (some f) d = (ok tt, store to f (unlink from d))

  -- `fs::rename`, which replaces a file of the new name.
  abbrev pub rename : Text → Text → Exec F IoError Unit
  rename from to = syscall (λ d. renamed from to (lookup from d) d)

  abbrev pub file_names : Directory F → List Text
  file_names [] = []
  file_names ((n, f) ∷ d) = n ∷ file_names d

  -- `fs::read_dir`
  abbrev pub read_dir : Exec F IoError (List Text)
  read_dir = syscall (λ d. (ok (file_names d), d))

  -- `SystemTime::now().duration_since(UNIX_EPOCH)`, in nanoseconds.
  abbrev pub read_clock_in : List (Option ℕ) → Fs F → Option ℕ × Fs F
  read_clock_in [] fs = (some 0, fs)
  read_clock_in (r ∷ rest) fs = (r, record fs { clock = rest })

  unfoldable pub read_clock : Fs F → Option ℕ × Fs F
  read_clock fs = read_clock_in fs.clock fs
