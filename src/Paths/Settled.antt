-- ===== src/Paths/Settled.antt =====
-- What an apply of a symlink and a deletion lead to (bosun-primitives/src/file_symlink and file_delete).
use bonsun.Base.{◌≡◌, refl, true, false, Text, inl, inr, Bool-cases}
use bonsun.Resource.{Resource}
use bonsun.Primitive.{Diff, is_no_change, ChangeReport}
use bonsun.Defers.Files.{IoError, not_found, other}
use bonsun.Paths.Components.{path_eq, path_eq_refl}
use bonsun.Paths.{Metadata, FileSystem}
use bonsun.Paths.Symlink.{
  SymlinkState, present, absent, FileSymlinkSpec, Action, no_change, create, update, delete,
  if_missing, compared, decide_in, decide_on, decide_action_symlink, create_symlink,
  replace_symlink, after_unlink, delete_symlink, perform, converge, symlink_apply,
}
use bonsun.Effects.{
  Result, ok, err, Ends, bind-Ends, match_result-Ends, map_err-Ends, Ends-ok, anyhow,
}

-- What stands at a path.
pub data Entry : Type 0 where
  missing file directory : Entry
  link_to : (target : Text) → Entry

-- `at` is what stands at a path. symlink_metadata says not_found only of a path where nothing is, read_link
-- reads the link, a link that is made is there, and a file that is removed, or not found, is gone.
pub record IsFileSystem {W : Type 0} (fs : FileSystem W) (at : Text → W → Entry) : Type 0 where
  pub looks :
      (p : Text) (w : W)
      → Ends (λ meta w'. Unit) (λ e w'. e ≡ not_found → at p w' ≡ missing) (fs.symlink_metadata p w)
  pub reads :
      (p : Text) (w : W) → Ends (λ t w'. at p w' ≡ link_to t) (λ e w'. Unit) (fs.read_link p w)
  pub links :
      (t p : Text) (w : W) → Ends (λ _ w'. at p w' ≡ link_to t) (λ e w'. Unit) (fs.symlink t p w)
  pub removes :
      (p : Text) (w : W)
      → Ends
          (λ _ w'. at p w' ≡ missing)
          (λ e w'. e ≡ not_found → at p w' ≡ missing)
          (fs.remove_file p w)

-- Nothing, or a link to the path, component by component.
abbrev pub Settled : SymlinkState → (target : Text) → Entry → Type 0
Settled present target entry = (t : Text) × (entry ≡ link_to t) × (path_eq t target ≡ true)
Settled absent target entry = entry ≡ missing

module _ {W : Type 0} {fs : FileSystem W} {at : Text → W → Entry} (whole : IsFileSystem fs at)
    (spec : FileSymlinkSpec) where
  abbrev IsSettled : SymlinkState → W → Type 0
  IsSettled state w = Settled state spec.target (at spec.path w)

  -- What is known behind a decision.
  abbrev Decided : SymlinkState → Action → W → Type 0
  Decided state no_change w = IsSettled state w
  Decided state create w = state ≡ present
  Decided state update w = state ≡ present
  Decided state delete w = state ≡ absent

  missing-Decided :
      (state : SymlinkState) (w : W) → at spec.path w ≡ missing → Decided state (if_missing state) w
  missing-Decided present w gone = refl
  missing-Decided absent w gone = gone

  compared-Decided :
      (current : Text) (w : W)
      → at spec.path w ≡ link_to current
      → Ends (Decided present) (λ e w'. Unit) (compared fs spec current w)
  compared-Decided current w h = elim (Bool-cases (path_eq current spec.target)) [
    | inl alike ↦ rw alike (record { holds = (current, h, alike) })
    | inr apart ↦ rw apart (record { holds = refl })
  ]

  decide_in-Decided :
      (state : SymlinkState) (meta : Metadata) (w : W)
      → Ends (Decided state) (λ e w'. Unit) (decide_in fs spec state meta w)
  decide_in-Decided absent meta w = elim (Bool-cases meta.is_symlink) [
    | inl is ↦ rw is (record { holds = refl })
    | inr not ↦ rw not (record { holds = tt })
  ]
  decide_in-Decided present meta w = elim (Bool-cases meta.is_symlink) [
    | inl is ↦ rw is (
        bind-Ends _ (map_err-Ends _ _ (whole.reads spec.path w))
          (λ t w1 h. compared-Decided t w1 h))
    | inr not ↦ elim (Bool-cases spec.force) [
      | inl force ↦ rw (not, force) (record { holds = refl })
      | inr mild ↦ rw (not, mild) (record { holds = tt })
    ]
  ]

  decide_on-Decided :
      (e : IoError) (w : W)
      → (e ≡ not_found → at spec.path w ≡ missing)
      → Ends (Decided spec.state) (λ e w'. Unit) (decide_on fs spec (err e) w)
  decide_on-Decided not_found w h = record { holds = missing-Decided spec.state w (h refl) }
  decide_on-Decided (other message) w h = record { holds = tt }

  decide_action_symlink-Decided :
      (w : W) → Ends (Decided spec.state) (λ e w'. Unit) (decide_action_symlink fs spec w)
  unfolding decide_action_symlink
  decide_action_symlink-Decided w =
      match_result-Ends _ _ (whole.looks spec.path w)
        (λ meta w1 _. decide_in-Decided spec.state meta w1) (λ e w1 h. decide_on-Decided e w1 h)

  create-Settled : (w : W) → Ends (λ _. IsSettled present) (λ e w'. Unit) (create_symlink fs spec w)
  unfolding create_symlink
  create-Settled w = bind-Ends _ (anyhow _) (λ _ w1 _.
      bind-Ends _ (map_err-Ends _ _ (whole.links spec.target spec.path w1))
        (λ _ w2 h. record { holds = (spec.target, h, path_eq_refl spec.target) }))

  replace-Settled :
      (w : W) → Ends (λ _. IsSettled present) (λ e w'. Unit) (replace_symlink fs spec w)
  unfolding replace_symlink
  replace-Settled w = bind-Ends _ (anyhow _) (λ meta w1 _. bind-Ends _ (anyhow _) (λ _ w2 _.
      bind-Ends _ (map_err-Ends _ _ (whole.links spec.target spec.path w2))
        (λ _ w3 h. record { holds = (spec.target, h, path_eq_refl spec.target) })))

  after_unlink-Settled :
      (e : IoError) (w : W)
      → (e ≡ not_found → at spec.path w ≡ missing)
      → Ends (λ _. IsSettled absent) (λ e w'. Unit) (after_unlink fs spec (err e) w)
  after_unlink-Settled not_found w h = record { holds = h refl }
  after_unlink-Settled (other message) w h = record { holds = tt }

  delete-Settled : (w : W) → Ends (λ _. IsSettled absent) (λ e w'. Unit) (delete_symlink fs spec w)
  unfolding delete_symlink
  delete-Settled w =
      match_result-Ends _ _ (whole.removes spec.path w) (λ _ w1 h. record { holds = h })
        (λ e w1 h. after_unlink-Settled e w1 h)

  perform-Settled :
      (state : SymlinkState) (action : Action) (w : W)
      → Decided state action w
      → Ends (λ _. IsSettled state) (λ e w'. Unit) (perform fs spec action w)
  perform-Settled state no_change w h = record { holds = h }
  perform-Settled present create w h = create-Settled w
  perform-Settled present update w h = replace-Settled w
  perform-Settled absent delete w h = delete-Settled w
  perform-Settled absent create w h = absurd cc
  perform-Settled absent update w h = absurd cc
  perform-Settled present delete w h = absurd cc

  converge-Settled : (w : W) → Ends (λ _. IsSettled spec.state) (λ e w'. Unit) (converge fs spec w)
  unfolding converge
  converge-Settled w = bind-Ends _ (anyhow _) (λ _ w1 _.
      bind-Ends _ (decide_action_symlink-Decided w1)
        (λ action w2 h. perform-Settled spec.state action w2 h))

  -- If the file system does what it is asked to do, then behind an apply of a symlink that succeeds with a
  -- difference to apply, the path is a link to the target, component by component, or nothing is there, as
  -- the state asks.
  pub symlink_apply-settles :
      {P J : Type 0} (from_value : P → Result Text FileSymlinkSpec) (r : Resource P) (diff : Diff J)
      → (w w' : W) (report : ChangeReport) → is_no_change diff ≡ false
      → from_value r.payload ≡ ok spec
      → symlink_apply fs from_value r diff w ≡ (ok report, w')
      → Settled spec.state spec.target (at spec.path w')
  unfolding symlink_apply
  symlink_apply-settles from_value r diff w w' report some_diff read h =
      Ends-ok report w' (rw (some_diff, read) at h) (converge-Settled w)
