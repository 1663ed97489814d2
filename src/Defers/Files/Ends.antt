-- ===== src/Defers/Files/Ends.antt =====
-- How an operation on files ends, whichever of its calls fail: what holds of the directory behind it.
use bonsun.Base.{List, [], ◌∷◌, Option, none, some, Text}
use bonsun.Defers.Files.{
  Directory, Fs, Result, ok, err, IoError, Exec, map_err, and_then, with_error, with_result, commit,
  run_call, syscall, touch, store, write_file,
}

module _ {F E A : Type 0} where
  -- `good` holds behind a success, `bad` behind a failure.
  abbrev pub Ends : (good bad : Directory F → Type 0) → Result E A × Fs F → Type 0
  Ends good bad (ok a, fs) = good fs.files
  Ends good bad (err e, fs) = bad fs.files

module _ {F : Type 0} (good bad : Directory F → Type 0) where
  commit-Ends :
      {A : Type 0} (x : Result IoError A × Directory F) (fs fs' : Fs F)
      → Ends good bad (commit x fs)
      → Ends good bad (commit x fs')
  commit-Ends (ok a, d) fs fs' h = h
  commit-Ends (err e, d) fs fs' h = h

  run_call-Ends :
      {A : Type 0} (faults : List (Option IoError))
      → (call : Directory F → Result IoError A × Directory F) (fs : Fs F) → bad fs.files
      → Ends good bad (commit (call fs.files) fs)
      → Ends good bad (run_call faults call fs)
  run_call-Ends [] call fs before behind = behind
  run_call-Ends (none ∷ rest) call fs before behind =
      commit-Ends (call fs.files) fs (record fs { faults = rest }) behind
  run_call-Ends (some e ∷ rest) call fs before behind = before

  -- Behind a call holds what holds of the directory before it, if the call fails, and of what the
  -- call makes of it.
  pub syscall-Ends :
      {A : Type 0} (call : Directory F → Result IoError A × Directory F) (fs : Fs F)
      → bad fs.files
      → Ends good bad (commit (call fs.files) fs)
      → Ends good bad (syscall call fs)
  unfolding syscall
  syscall-Ends call fs before behind = run_call-Ends fs.faults call fs before behind

  pub map_err-Ends :
      {E E' A : Type 0} (f : E → E') (x : Result E A × Fs F)
      → Ends good bad x
      → Ends good bad (with_error f x)
  map_err-Ends f (ok a, fs) h = h
  map_err-Ends f (err e, fs) h = h

  pub and_then-Ends :
      {E A B : Type 0} (between : Directory F → Type 0) (x : Result E A × Fs F) (f : A → Exec F E B)
      → Ends between bad x
      → ((a : A) (fs : Fs F) → between fs.files → Ends good bad (f a fs))
      → Ends good bad (and_then x f)
  and_then-Ends between (ok a, fs) f h next = next a fs h
  and_then-Ends between (err e, fs) f h next = h

  pub with_result-Ends :
      {E E' A B : Type 0} (done failed : Directory F → Type 0)
      → (f : Result E A → Exec F E' B) (x : Result E A × Fs F) → Ends done failed x
      → ((a : A) (fs : Fs F) → done fs.files → Ends good bad (f (ok a) fs))
      → ((e : E) (fs : Fs F) → failed fs.files → Ends good bad (f (err e) fs))
      → Ends good bad (with_result f x)
  with_result-Ends done failed f (ok a, fs) h next other = next a fs h
  with_result-Ends done failed f (err e, fs) h next other = other e fs h

  -- A call that leaves the directory as it is.
  pub touch-Ends :
      {E : Type 0} (f : IoError → E) (fs : Fs F)
      → bad fs.files
      → good fs.files
      → Ends good bad (map_err f touch fs)
  touch-Ends f fs before behind =
      map_err-Ends f (touch fs) (syscall-Ends (λ d. (ok tt, d)) fs before behind)

  pub write_file-Ends :
      {E : Type 0} (f : IoError → E) (name : Text) (content : F) (fs : Fs F)
      → bad fs.files
      → good (store name content fs.files)
      → Ends good bad (map_err f (write_file name content) fs)
  write_file-Ends f name content fs before behind =
      map_err-Ends f (write_file name content fs)
        (syscall-Ends (λ d. (ok tt, store name content d)) fs before behind)

pub Ends-weaken :
    {F E A : Type 0} (good bad bad' : Directory F → Type 0) (x : Result E A × Fs F)
    → ((d : Directory F) → bad d → bad' d)
    → Ends good bad x
    → Ends good bad' x
Ends-weaken good bad bad' (ok a, fs) f h = h
Ends-weaken good bad bad' (err e, fs) f h = f fs.files h
