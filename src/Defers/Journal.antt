-- ===== src/Defers/Journal.antt =====
-- bosun-core/src/defers/journal.rs: the journal of deferred actions in a directory.
pub mod Quiet
pub mod Listing
pub mod Repeat
pub mod Covered
pub mod Removal
pub mod Reduced
pub mod Atomic
pub mod Untouched
pub mod Root
pub mod Examples
use bonsun.Base.{
  ℕ, suc, zero, ◌+◌, ◌-◌, ◌/◌, ◌%◌, ◌^◌, Bool, true, false, ◌&&◌, List, [], ◌∷◌, ◌++◌, Option, none,
  some, Text, text_eq, codes, keep, sort_texts, any, ltb, ◌==◌, if◌then◌else◌,
}
use bonsun.Defers.Format.{DeferAction, DeferEntry, filename, manual_clear_filename}
use bonsun.Defers.Files.{
  IoError, not_found, Result, ok, err, Fs, Exec, pure, throw, ◌>>=◌, map_err, match_result, touch,
  write_file, read_file, remove_file, rename, read_dir, read_clock,
}

-- `DeferError`. The path of a file of the journal is told by its name, the directory by none.
pub data DeferError : Type 0 where
  io : (name : Option Text) (source : IoError) → DeferError
  serde : (name : Text) (source : Text) → DeferError
  clock : DeferError
  unsafe_root : (reason : Text) → DeferError

pub data EnqueueResult : Type 0 where
  created already_exists subsumed replaced_lower_priority : EnqueueResult

-- The crate serde_json, on entries.
pub record Serde : Type 0 where
  pub to_json : DeferEntry → Text
  pub from_json : Text → Result Text DeferEntry

abbrev pub Op : Type 0 → Type 0
Op A = Exec Text DeferError A

-- `subsumes`
unfoldable pub subsumes : DeferAction → DeferAction → Bool
subsumes DeferAction.restart DeferAction.reload = true
subsumes DeferAction.restart DeferAction.reload_or_restart = true
subsumes DeferAction.reload_or_restart DeferAction.reload = true
subsumes _ _ = false

-- `fsync_dir`
unfoldable pub fsync_dir : Op Unit
fsync_dir = map_err (io none) touch >>= λ _. map_err (io none) touch

-- The decimal digits of a number; `fuel` exceeds their number.
abbrev digits : (fuel : ℕ) → ℕ → Text → Text
digits zero n acc = acc
digits (suc fuel) n acc =
    let next = (b'0' + n % 10) ∷ acc in if n / 10 == 0 then next else digits fuel (n / 10) next

abbrev pub decimal : ℕ → Text
decimal n = digits (suc n) n []

abbrev pub tmp_name : DeferEntry → ℕ → Text
tmp_name e nanos = filename e ++ (codes ".tmp." ++ decimal nanos)

-- The name up to the last dot, and what is behind it.
abbrev pub rsplit_dot : Text → Option (Text × Text)
rsplit_dot [] = none
rsplit_dot (c ∷ cs) = elim (rsplit_dot cs) [
  | none ↦ if c == b'.' then some ([], cs) else none
  | some (stem, rest) ↦ some (c ∷ stem, rest)
]

-- `Path::extension` of a file name
abbrev pub extension : Text → Option Text
extension name = elim (rsplit_dot name) [
  | none ↦ none
  | some ([], rest) ↦ none
  | some (c ∷ stem, rest) ↦ some rest
]

unfoldable pub is_deferred : Text → Bool
is_deferred name = elim (extension name) [ none ↦ false | some x ↦ text_eq x (codes "deferred") ]

-- `u32::saturating_add` of 1
unfoldable pub saturating_succ : ℕ → ℕ
saturating_succ n = if ltb n (2 ^ 32 - 1) then n + 1 else 2 ^ 32 - 1

abbrev pub bumped : DeferEntry → DeferEntry
bumped e = record e { attempt_count = saturating_succ e.attempt_count }

-- `result` of `fs::remove_file`, where a missing file is no error.
abbrev unless_missing : {A : Type 0} → Text → Op A → Op A → Result IoError Unit → Op A
unless_missing name done missing (ok _) = done
unless_missing name done missing (err not_found) = missing
unless_missing name done missing (err e) = throw (io (some name) e)

-- `Journal::remove`
unfoldable pub remove : DeferEntry → Op Unit
remove e = match_result (remove_file (filename e)) (unless_missing (filename e) fsync_dir (pure tt))

-- `Journal::move_to_manual_clear`
unfoldable pub move_to_manual_clear : DeferEntry → Op Unit
move_to_manual_clear e =
    map_err (io (some (filename e))) (rename (filename e) (manual_clear_filename e)) >>= λ _.
    fsync_dir

-- The entries of the directory stream, each of which may fail.
unfoldable pub walk : List Text → Op (List Text)
walk [] = pure []
walk (n ∷ ns) = map_err (io none) touch >>= λ _. walk ns >>= λ rest. pure (n ∷ rest)

abbrev pub same_target : DeferEntry → DeferEntry → Bool
same_target e x = text_eq x.init_system e.init_system && text_eq x.target e.target

-- Step 3 of `enqueue`; the result is `replaced_any`.
unfoldable pub drop_subsumed : DeferEntry → List DeferEntry → (replaced_any : Bool) → Op Bool
drop_subsumed e [] replaced_any = pure replaced_any
drop_subsumed e (old ∷ rest) replaced_any =
    if subsumes e.action old.action
    then match_result (remove_file (filename old)) (
        unless_missing (filename old) (drop_subsumed e rest true)
          (drop_subsumed e rest replaced_any))
    else drop_subsumed e rest replaced_any

-- `match read_entry(..)`, with the rest of the loop.
abbrev pub read_on : Op (List DeferEntry) → Result DeferError DeferEntry → Op (List DeferEntry)
read_on rest (ok e) = rest >>= λ es. pure (e ∷ es)
read_on rest (err x) = rest

module _ (json : Serde) where
  -- Steps 1 to 4 of `atomic_write`. The bytes arrive when the buffer is flushed, in `into_inner`.
  unfoldable pub write_tmp : Text → DeferEntry → Op Unit
  write_tmp tmp e = map_err (io (some tmp)) (write_file tmp []) >>= λ _.
      map_err (λ _. serde tmp (codes "write")) touch >>= λ _. map_err (io (some tmp)) touch >>= λ _.
      map_err (io (some tmp)) (write_file tmp (json.to_json e ++ codes "\n")) >>= λ _.
      map_err (io (some tmp)) touch

  -- The result of `rename`: after a failure the temporary file is removed, if that works.
  abbrev pub after_rename : Text → DeferEntry → Result IoError Unit → Op Unit
  after_rename tmp e (ok _) = fsync_dir
  after_rename tmp e (err x) =
      match_result (remove_file tmp) (λ _. throw (io (some (filename e)) x))

  -- `Journal::atomic_write`
  abbrev pub write_as : DeferEntry → Option ℕ → Op Unit
  write_as e none = throw clock
  write_as e (some nanos) =
      let tmp = tmp_name e nanos in
      write_tmp tmp e >>= λ _. match_result (rename tmp (filename e)) (after_rename tmp e)

  unfoldable pub atomic_write : DeferEntry → Op Unit
  atomic_write e fs = let (nanos, fs') = read_clock fs in write_as e nanos fs'

  -- `Journal::bump_attempt`, less the text of the error, which it does not use
  unfoldable pub bump_attempt : DeferEntry → Op DeferEntry
  bump_attempt e = atomic_write (bumped e) >>= λ _. pure (bumped e)

  abbrev parsed : Text → Result Text DeferEntry → Op DeferEntry
  parsed name (ok e) = pure e
  parsed name (err x) = throw (serde name x)

  -- `read_entry`
  unfoldable pub read_entry : Text → Op DeferEntry
  read_entry name =
      map_err (io (some name)) (read_file name) >>= λ bytes. parsed name (json.from_json bytes)

  -- The files that can be read, in order; the others are skipped.
  unfoldable pub read_all : List Text → Op (List DeferEntry)
  read_all [] = pure []
  read_all (n ∷ ns) = match_result (read_entry n) (read_on (read_all ns))

  -- `Journal::list_sorted`
  unfoldable pub list_sorted : Op (List DeferEntry)
  list_sorted = map_err (io none) read_dir >>= walk >>= λ names.
      read_all (sort_texts (keep is_deferred names))

  unfoldable pub write_entry : DeferEntry → (replaced_any : Bool) → Op EnqueueResult
  write_entry e replaced_any = (if replaced_any then fsync_dir else pure tt) >>= λ _.
      atomic_write e >>= λ _. pure (if replaced_any then replaced_lower_priority else created)

  -- Steps 1 to 3 of `enqueue`, on the entries of the same target.
  unfoldable pub admit : DeferEntry → List DeferEntry → Op EnqueueResult
  admit e same =
      if any (λ x. text_eq x.id e.id) same
      then pure already_exists
      else if any (λ x. subsumes x.action e.action) same
      then pure subsumed
      else drop_subsumed e same false >>= write_entry e

  -- `Journal::enqueue`
  unfoldable pub enqueue : DeferEntry → Op EnqueueResult
  enqueue e = list_sorted >>= λ existing. admit e (keep (same_target e) existing)
