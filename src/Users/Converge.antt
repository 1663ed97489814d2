-- ===== src/Users/Converge.antt =====
-- What an apply of a user reaches (bosun-primitives/src/users_user): nothing is left to do.
use bonsun.Base.{◌≡◌, refl, sym, ◌∙◌, false, List, [], ◌∷◌, Option, none, some, Text, ap}
use bonsun.Resource.{Resource}
use bonsun.Primitive.{Diff, is_no_change, ChangeReport, PrimitiveError}
use bonsun.Users.{
  UserState, present, absent, UserSpec, UserInfo, FieldDiff, no_change, create, delete,
  collect_diffs, update_unless_empty, decide_in, decide_action_user, add_opts, UserAddOpts,
  UserModOpts, build_usermod_opts,
}
use bonsun.Users.Apply.{
  Debug, UsersBackend, perform, converge, run, named_diff, user_diff, compute_diff_user,
  validate_user_name, call, with_payload,
}
use bonsun.Effects.{
  Result, ok, Ends, bind-Ends, map_err-Ends, Ends-ok, anyhow, err, from_result, ◌>>=◌,
}
use bonsun.Users.Satisfied.{
  Has, HasPath, Reached, number_differs-Has, text_differs-Has, path_differs-HasPath,
  decide_in-Reached,
}
use bonsun.Users.Diffs.{modified, apply_diffs-set_by, collect_diffs-modified}

-- `lookup_user` tells what `user` says, and changes no user. Behind a `useradd` that succeeds the user has what
-- its options set; `usermod` changes what its options set, and `userdel` removes the user.
pub record IsDatabase {W : Type 0} (backend : UsersBackend W) (user : Text → W → Option UserInfo)
    : Type 0 where
  pub looks_up :
      (n : Text) (w : W)
      → Ends
          (λ found w'. (found ≡ user n w) × (user n w' ≡ user n w))
          (λ e w'. Unit)
          (backend.lookup_user n w)
  pub adds :
      (opts : UserAddOpts) (w : W)
      → Ends
          (λ _ w'.
            (info : UserInfo) × (user opts.name w' ≡ some info)
            × Has opts.uid info.uid
            × Has opts.group info.primary_group_name
            × Has opts.shell info.shell
            × HasPath opts.home info.home
            × Has opts.comment info.comment)
          (λ e w'. Unit)
          (backend.useradd opts w)
  pub modifies :
      (opts : UserModOpts) (info : UserInfo) (w : W)
      → user opts.name w ≡ some info
      → Ends
          (λ _ w'. user opts.name w' ≡ some (modified opts info))
          (λ e w'. Unit)
          (backend.usermod opts w)
  pub deletes :
      (n : Text) (w : W) → Ends (λ _ w'. user n w' ≡ none) (λ e w'. Unit) (backend.userdel n w)

module _ {W : Type 0} {backend : UsersBackend W} {user : Text → W → Option UserInfo} (debug : Debug)
    (database : IsDatabase backend user) where
  -- Nothing is left to do.
  abbrev Settles : UserSpec → UserState → Result PrimitiveError ChangeReport × W → Type 0
  Settles spec state x =
      Ends (λ report w. decide_in spec state (user spec.name w) ≡ no_change) (λ e w. Unit) x

  create-Settles :
      (spec : UserSpec) (w : W) → Settles spec present (perform debug backend spec create w)
  unfolding perform collect_diffs
  create-Settles spec w =
      bind-Ends _ (map_err-Ends _ _ (database.adds (add_opts spec) w))
        (λ _ w1 (info, there, u, g, s, h, c). record {
          holds = rw (
            there,
            number_differs-Has spec.uid info.uid u,
            text_differs-Has spec.group info.primary_group_name g,
            text_differs-Has spec.shell info.shell s,
            path_differs-HasPath spec.home info.home h,
            text_differs-Has spec.comment info.comment c,
          );
        })

  delete-Settles :
      (spec : UserSpec) (w : W) → Settles spec absent (perform debug backend spec delete w)
  unfolding perform
  delete-Settles spec w =
      bind-Ends _ (map_err-Ends _ _ (database.deletes spec.name w))
        (λ _ w1 gone. record { holds = rw gone })

  usermod_opts-name :
      (spec : UserSpec) (ds : List FieldDiff) → (build_usermod_opts spec ds).name ≡ spec.name
  usermod_opts-name spec ds = ap (λ opts. opts.name) (apply_diffs-set_by spec ds _)

  update-Settles :
      (spec : UserSpec) (info : UserInfo) (ds : List FieldDiff) (w : W)
      → user spec.name w ≡ some info
      → collect_diffs spec info ≡ ds
      → Settles spec present (perform debug backend spec (update_unless_empty ds) w)
  unfolding perform
  update-Settles spec info [] w there same = record { holds = rw (there, same) }
  update-Settles spec info (d ∷ ds) w there same =
      let named = usermod_opts-name spec (d ∷ ds) in
      bind-Ends _
        (map_err-Ends _ _ (
          database.modifies (build_usermod_opts spec (d ∷ ds)) info w
            (ap (λ n. user n w) named ∙ there)))
        (λ _ w1 changed. record {
          holds =
              let here = ap (λ n. user n w1) (sym named) ∙ changed in
              let settled = rw same at (collect_diffs-modified spec info) in rw (here, settled);
        })

  perform-Settles :
      (spec : UserSpec) (state : UserState) (current : Option UserInfo) (w : W)
      → user spec.name w ≡ current
      → Settles spec state (perform debug backend spec (decide_in spec state current) w)
  unfolding perform
  perform-Settles spec present none w same = create-Settles spec w
  perform-Settles spec present (some info) w same =
      update-Settles spec info (collect_diffs spec info) w same refl
  perform-Settles spec absent none w same = record { holds = rw same }
  perform-Settles spec absent (some info) w same = delete-Settles spec w

  converge-Settles :
      (spec : UserSpec) (w : W) → Settles spec spec.state (converge debug backend spec w)
  unfolding converge decide_action_user
  converge-Settles spec w = bind-Ends _ (anyhow _) (λ _ w1 _.
      bind-Ends _ (map_err-Ends _ _ (database.looks_up spec.name w1))
        (λ current w2 told. perform-Settles spec spec.state current w2 (told.1 ∙ sym told.0)))

  -- If the backend keeps a database of users as its operations say, then behind an apply of a user that
  -- succeeds with a difference to apply, a user that is to be present is found, with the number, the group, the
  -- shell, the comment and, by its components, the home that its specification asks for, and one that is to be
  -- absent is not found; and the plan for what is found then is to change nothing.
  pub users_run-settles :
      {P J : Type 0} (from_value : P → Result Text UserSpec) (r : Resource P) (diff : Diff J)
      → (w w' : W) (spec : UserSpec) (report : ChangeReport) → is_no_change diff ≡ false
      → from_value r.payload ≡ ok spec
      → run debug backend from_value r diff w ≡ (ok report, w')
      → Reached spec spec.state (user spec.name w')
        × (decide_action_user spec (user spec.name w') ≡ no_change)
  unfolding run decide_action_user
  users_run-settles from_value r diff w w' spec report some_diff read h =
      let idle = Ends-ok report w' (rw (some_diff, read) at h) (converge-Settles spec w) in
      (decide_in-Reached spec spec.state (user spec.name w') idle, idle)

module _ {W : Type 0} (debug : Debug) (backend : UsersBackend W) where
  refused_name :
      {P : Type 0} (pending payload : P) (spec : UserSpec) (x : Result PrimitiveError Unit)
      → (e : PrimitiveError) (w : W) → named_diff debug pending payload spec x ≡ err e
      → (from_result x >>= λ _. call debug backend (backend.lookup_user spec.name) >>= λ current.
            perform debug backend spec (decide_action_user spec current))
          w
        ≡ (err e, w)
  unfolding ◌>>=◌
  refused_name pending payload spec (err e') e w h = cc
  refused_name pending payload spec (ok _) e w h = absurd cc

  refused :
      {P : Type 0} (pending payload : P) (x : Result Text UserSpec) (e : PrimitiveError) (w : W)
      → user_diff debug pending payload x ≡ err e
      → with_payload debug backend x w ≡ (err e, w)
  unfolding converge
  refused pending payload (err e') e w h = cc
  refused pending payload (ok spec) e w h =
      refused_name pending payload spec (validate_user_name debug spec.name) e w h

  -- What the plan of a user refuses, an apply with a difference refuses with the same error, and does nothing.
  pub users_run-refused :
      {P J : Type 0} (pending : P) (from_value : P → Result Text UserSpec) (r : Resource P)
      → (diff : Diff J) (e : PrimitiveError) (w : W) → is_no_change diff ≡ false
      → compute_diff_user debug pending from_value r ≡ err e
      → run debug backend from_value r diff w ≡ (err e, w)
  unfolding run compute_diff_user
  users_run-refused pending from_value r diff e w some_diff h =
      rw some_diff (refused pending r.payload (from_value r.payload) e w h)
