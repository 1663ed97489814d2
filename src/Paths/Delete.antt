-- ===== src/Paths/Delete.antt =====
-- bosun-primitives/src/file_delete: the decision and the apply of a deletion, and what it leads to.
use bonsun.Base.{◌≡◌, refl, Bool, true, false, ◌++◌, Text, codes, if◌then◌else◌}
use bonsun.Resource.{Resource}
use bonsun.Primitive.{
  PrimitiveError, io, invalid_payload, apply_failed, Diff, is_no_change, ChangeReport, unchanged,
  changed_with,
}
use bonsun.Defers.Files.{IoError, not_found, other}
use bonsun.Paths.{Metadata, FileSystem, validate_path}
use bonsun.Paths.Settled.{Entry, missing}
use bonsun.Effects.{
  Result, ok, err, Act, pure, throw, ◌>>=◌, from_result, match_result, Ends, bind-Ends,
  match_result-Ends, Ends-ok, anyhow,
}

pub record FileDeleteSpec : Type 0 where
  pub path : Text
  pub recursive : Bool

pub data DeleteAction : Type 0 where
  nothing delete_file delete_dir : DeleteAction

module _ {W : Type 0} (fs : FileSystem W) where
  abbrev pub Job : (A : Type 0) → Type 0
  Job A = Act W PrimitiveError A

  abbrev decide_on : Text → Result IoError Metadata → Job DeleteAction
  decide_on path (err not_found) = pure nothing
  decide_on path (err e) = throw (io (codes "symlink_metadata " ++ path) (fs.display e))
  decide_on path (ok meta) = pure (if meta.is_dir then delete_dir else delete_file)

  -- `decide_action_delete`
  unfoldable pub decide_action_delete : Text → Job DeleteAction
  decide_action_delete path = match_result (fs.symlink_metadata path) (decide_on path)

  abbrev after_removal : (context message : Text) → Result IoError Unit → Job ChangeReport
  after_removal context message (ok _) = pure (changed_with message)
  after_removal context message (err not_found) = pure unchanged
  after_removal context message (err e) = throw (io context (fs.display e))

  -- `remove_file`
  unfoldable pub remove_file : FileDeleteSpec → Job ChangeReport
  remove_file spec =
      match_result (fs.remove_file spec.path)
        (after_removal (codes "remove_file " ++ spec.path) (codes "deleted " ++ spec.path))

  abbrev emptiness : Text → Result IoError Bool → Job Bool
  emptiness path (ok empty) = pure empty
  emptiness path (err not_found) = pure true
  emptiness path (err e) = throw (io (codes "read_dir " ++ path) (fs.display e))

  -- `is_empty_dir`
  unfoldable pub is_empty_dir : Text → Job Bool
  is_empty_dir path = match_result (fs.is_empty_dir path) (emptiness path)

  abbrev refused_unless : FileDeleteSpec → Bool → Job Unit
  refused_unless spec true = pure tt
  refused_unless spec false = throw (
      apply_failed (
        codes "refusing to delete non-empty directory "
        ++ spec.path
        ++ codes " without recursive=true"))

  abbrev guarded : FileDeleteSpec → Job Unit
  guarded spec =
      if spec.recursive then pure tt else (is_empty_dir spec.path >>= refused_unless spec)

  -- `remove_directory`
  unfoldable pub remove_directory : FileDeleteSpec → Job ChangeReport
  remove_directory spec = guarded spec >>= λ _. match_result (fs.remove_dir_all spec.path) (
      after_removal (codes "remove_dir_all " ++ spec.path)
        (codes "deleted directory " ++ spec.path))

  abbrev perform : FileDeleteSpec → DeleteAction → Job ChangeReport
  perform spec nothing = pure unchanged
  perform spec delete_file = remove_file spec
  perform spec delete_dir = remove_directory spec

  -- `apply` behind the payload.
  unfoldable pub converge : FileDeleteSpec → Job ChangeReport
  converge spec = from_result (validate_path (codes "file.delete") spec.path) >>= λ _.
      decide_action_delete spec.path >>= perform spec

  abbrev with_payload : Result Text FileDeleteSpec → Job ChangeReport
  with_payload (err e) = throw (invalid_payload (codes "file.delete payload: " ++ e))
  with_payload (ok spec) = converge spec

  -- `apply`; `from_value` is serde.
  unfoldable pub delete_apply :
      {P J : Type 0}
      → (from_value : P → Result Text FileDeleteSpec) → Resource P
      → Diff J
      → Job ChangeReport
  delete_apply from_value r diff =
      if is_no_change diff then pure unchanged else with_payload (from_value r.payload)

-- Removals remove, and symlink_metadata and they say not_found only of a path where nothing is.
pub record IsRemover {W : Type 0} (fs : FileSystem W) (at : Text → W → Entry) : Type 0 where
  pub looks :
      (p : Text) (w : W)
      → Ends (λ meta w'. Unit) (λ e w'. e ≡ not_found → at p w' ≡ missing) (fs.symlink_metadata p w)
  pub removes :
      (p : Text) (w : W)
      → Ends
          (λ _ w'. at p w' ≡ missing)
          (λ e w'. e ≡ not_found → at p w' ≡ missing)
          (fs.remove_file p w)
  pub removes_all :
      (p : Text) (w : W)
      → Ends
          (λ _ w'. at p w' ≡ missing)
          (λ e w'. e ≡ not_found → at p w' ≡ missing)
          (fs.remove_dir_all p w)

module _ {W : Type 0} {fs : FileSystem W} {at : Text → W → Entry} (whole : IsRemover fs at)
    (spec : FileDeleteSpec) where
  abbrev Gone : W → Type 0
  Gone w = at spec.path w ≡ missing

  -- What is known behind a decision.
  abbrev Decided : DeleteAction → W → Type 0
  Decided nothing w = Gone w
  Decided delete_file w = Unit
  Decided delete_dir w = Unit

  type-Decided : (b : Bool) (w : W) → Decided (if b then delete_dir else delete_file) w
  type-Decided true w = tt
  type-Decided false w = tt

  decide_on-Decided :
      (e : IoError) (w : W)
      → (e ≡ not_found → Gone w)
      → Ends Decided (λ e w'. Unit) (decide_on fs spec.path (err e) w)
  decide_on-Decided not_found w h = record { holds = h refl }
  decide_on-Decided (other message) w h = record { holds = tt }

  decide_action_delete-Decided :
      (w : W) → Ends Decided (λ e w'. Unit) (decide_action_delete fs spec.path w)
  unfolding decide_action_delete
  decide_action_delete-Decided w =
      match_result-Ends _ _ (whole.looks spec.path w)
        (λ meta w1 _. record { holds = type-Decided meta.is_dir w1 })
        (λ e w1 h. decide_on-Decided e w1 h)

  after_removal-Gone :
      (context message : Text) (e : IoError) (w : W)
      → (e ≡ not_found → Gone w)
      → Ends (λ _. Gone) (λ e w'. Unit) (after_removal fs context message (err e) w)
  after_removal-Gone context message not_found w h = record { holds = h refl }
  after_removal-Gone context message (other m) w h = record { holds = tt }

  remove_file-Gone : (w : W) → Ends (λ _. Gone) (λ e w'. Unit) (remove_file fs spec w)
  unfolding remove_file
  remove_file-Gone w =
      match_result-Ends _ _ (whole.removes spec.path w) (λ _ w1 h. record { holds = h })
        (λ e w1 h. after_removal-Gone _ (codes "deleted " ++ spec.path) e w1 h)

  remove_directory-Gone : (w : W) → Ends (λ _. Gone) (λ e w'. Unit) (remove_directory fs spec w)
  unfolding remove_directory
  remove_directory-Gone w = bind-Ends _ (anyhow _) (λ _ w1 _.
      match_result-Ends _ _ (whole.removes_all spec.path w1) (λ _ w2 h. record { holds = h })
        (λ e w2 h. after_removal-Gone _ (codes "deleted directory " ++ spec.path) e w2 h))

  perform-Gone :
      (action : DeleteAction) (w : W)
      → Decided action w
      → Ends (λ _. Gone) (λ e w'. Unit) (perform fs spec action w)
  perform-Gone nothing w h = record { holds = h }
  perform-Gone delete_file w h = remove_file-Gone w
  perform-Gone delete_dir w h = remove_directory-Gone w

  converge-Gone : (w : W) → Ends (λ _. Gone) (λ e w'. Unit) (converge fs spec w)
  unfolding converge
  converge-Gone w = bind-Ends _ (anyhow _) (λ _ w1 _.
      bind-Ends _ (decide_action_delete-Decided w1) (λ action w2 h. perform-Gone action w2 h))

  -- If removals remove, then behind a deletion that succeeds with a difference to apply nothing is at the path.
  pub delete_apply-Gone :
      {P J : Type 0} (from_value : P → Result Text FileDeleteSpec) (r : Resource P) (diff : Diff J)
      → (w w' : W) (report : ChangeReport) → is_no_change diff ≡ false
      → from_value r.payload ≡ ok spec
      → delete_apply fs from_value r diff w ≡ (ok report, w')
      → at spec.path w' ≡ missing
  unfolding delete_apply
  delete_apply-Gone from_value r diff w w' report some_diff read h =
      Ends-ok report w' (rw (some_diff, read) at h) (converge-Gone w)
