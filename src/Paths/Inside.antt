-- ===== src/Paths/Inside.antt =====
-- What a path that bosun-core/src/path_safety.rs resolves satisfies.
use bonsun.Base.{
  ◌≡◌, ◌≢◌, refl, ap, false, List, [], ◌∷◌, ◌++◌, Text, All, arith, inl, inr, Bool-cases,
}
use bonsun.Paths.Components.{
  Component, root_dir, cur_dir, parent_dir, normal, components, path_starts_with, path_join,
  is_prefix-append,
}
use bonsun.Paths.{Metadata, FileSystem, has_nul}
use bonsun.Paths.Resolve.{
  PathSafetyError, io_error, check_components, check_relative, within, below, resolve_within_root,
}
use bonsun.Effects.{
  Result, ok, err, Ends, bind-Ends, Ends-weaken, Ends-ok, map_err-Ends, from_result, map_err, ◌>>=◌,
  anyhow,
}

-- Neither the root nor a step to a parent.
abbrev pub StepsDown : Component → Type 0
StepsDown c = (c ≢ root_dir) × (c ≢ parent_dir)

checked_components :
    (relative : Text) (cs : List Component)
    → check_components relative cs ≡ ok tt
    → All StepsDown cs
unfolding check_components
checked_components relative [] h = tt
checked_components relative (root_dir ∷ cs) h = absurd cc
checked_components relative (parent_dir ∷ cs) h = absurd cc
checked_components relative (cur_dir ∷ cs) h =
    ((λ e. absurd cc, λ e. absurd cc), checked_components relative cs h)
checked_components relative (normal s ∷ cs) h =
    ((λ e. absurd cc, λ e. absurd cc), checked_components relative cs h)

checked_relative :
    (relative : Text)
    → check_relative relative ≡ ok tt
    → (has_nul relative ≡ false) × All StepsDown (components relative)
unfolding check_relative
checked_relative relative h = elim (Bool-cases (has_nul relative)) [
  | inl nul ↦ absurd (ground (arith, nul, h))
  | inr fine ↦ (fine, checked_components relative (components relative) (rw fine at h))
]

told :
    {S E A : Type 0} (m : S → Result E A × S) (s : S) (x : Result E A × S)
    → m s ≡ x
    → Ends (λ a s'. m s ≡ (ok a, s')) (λ e s'. Unit) x
told m s (ok a, s') h = record { holds = h }
told m s (err e, s') h = record { holds = tt }

given :
    {S E A : Type 0} {r' : Result E A} (r : Result E A) (s : S)
    → r' ≡ r
    → Ends (λ a s'. (s' ≡ s) × (r' ≡ ok a)) (λ e s'. Unit) (from_result r s)
given (ok a) s same = record { holds = (refl, same) }
given (err e) s same = record { holds = tt }

module _ {W : Type 0} (fs : FileSystem W) where
  -- The path lies below the root as std::fs tells it, and what stands there is no symlink.
  abbrev pub IsBelow : (root candidate path : Text) → W → Type 0
  IsBelow root candidate path w' =
      (rest : List Component) × (components path ≡ components root ++ rest)
      × (w : W) × (meta : Metadata) × (fs.symlink_metadata candidate w ≡ (ok meta, w'))
      × (meta.is_symlink ≡ false)

  within-IsBelow :
      (root candidate canonical : Text) (w : W)
      → Ends (IsBelow root candidate) (λ e w'. Unit) (within fs root candidate canonical w)
  within-IsBelow root candidate canonical w = elim (Bool-cases (path_starts_with canonical root)) [
    | inr outside ↦ rw outside (record { holds = tt })
    | inl inside ↦
        let (rest, same) = is_prefix-append (components root) (components canonical) inside in
        rw inside (
          bind-Ends _ (map_err-Ends _ _ (told (fs.symlink_metadata candidate) w _ refl))
            (λ meta w1 h. elim (Bool-cases meta.is_symlink) [
              | inl link ↦ rw link (record { holds = tt })
              | inr plain ↦ rw plain (record { holds = (rest, same, w, meta, h, plain) })
            ]))
  ]

  -- What a resolved path satisfies.
  abbrev pub IsInside : (root relative : Text) → W → (path : Text) → W → Type 0
  IsInside root relative w path w' =
      (has_nul relative ≡ false)
      × All StepsDown (components relative)
      × (canonical_root : Text) × ((fs.canonicalize root w).0 ≡ ok canonical_root)
      × IsBelow canonical_root (path_join canonical_root relative) path w'

  canonical-IsInside :
      (root relative : Text) (w : W)
      → has_nul relative ≡ false
      → All StepsDown (components relative)
      → Ends
          (IsInside root relative w)
          (λ e w'. Unit)
          ((map_err (io_error root) (fs.canonicalize root) >>= below fs relative) w)
  canonical-IsInside root relative w fine down =
      bind-Ends _ (map_err-Ends _ _ (told (fs.canonicalize root) w _ refl)) (λ root' w1 h1.
        bind-Ends _ (anyhow _) (λ canonical w2 _.
          Ends-weaken {bad = λ e w'. Unit} (λ path w' h. (fine, down, root', ap (λ x. x.0) h1, h))
            (λ e w' h. h) (within-IsBelow root' (path_join root' relative) canonical w2)))

  checked-IsInside :
      (root relative : Text) (w : W) (r : Result PathSafetyError Unit)
      → check_relative relative ≡ r
      → Ends
          (IsInside root relative w)
          (λ e w'. Unit)
          ((from_result r >>= λ _.
              map_err (io_error root) (fs.canonicalize root) >>= below fs relative)
            w)
  checked-IsInside root relative w r same = bind-Ends _ (given r w same) (λ _ w1 h1. rw h1.0 (
      canonical-IsInside root relative w (checked_relative relative h1.1).0
        (checked_relative relative h1.1).1))

  -- A path that is resolved lies, component by component, below the root as canonicalize tells it. The
  -- relative path has no NUL, is not absolute and has no step to a parent, and the last component was no
  -- symlink when the file system was asked last.
  pub resolve_within_root-IsInside :
      (root relative path : Text) (w w' : W)
      → resolve_within_root fs root relative w ≡ (ok path, w')
      → IsInside root relative w path w'
  unfolding resolve_within_root
  resolve_within_root-IsInside root relative path w w' h =
      Ends-ok path w' h (checked-IsInside root relative w (check_relative relative) refl)
