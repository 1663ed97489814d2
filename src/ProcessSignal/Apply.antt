-- ===== src/ProcessSignal/Apply.antt =====
-- What an apply of a signal does (bosun-primitives/src/process_signal/apply.rs).
use bonsun.Base.{ℕ, ◌≡◌, refl, Bool, true, false, List, [], ◌++◌, Text, codes}
use bonsun.Resource.{Resource}
use bonsun.Primitive.{PrimitiveError, Diff, is_no_change, ChangeReport}
use bonsun.Defers.Format.{command, DeferEntry}
use bonsun.Defers.Files.{Directory, quiet}
use bonsun.Defers.Journal.Covered.{Filed, enqueue-Filed}
use bonsun.Service.{Node, Tools, kept_beside}
use bonsun.Service.Deferral.{Survives, filed_as}
use bonsun.ProcessSignal.{
  ProcessSignalSpec, build_signal_argv, compute_diff, plan_of, planned, signal_entry, enqueue_defer,
  sent, execute_sync, carry_out, with_payload, run,
}
use bonsun.ProcessSignal.Argv.{IsSignal, build_signal_argv-IsSignal}
use bonsun.Effects.{
  Result, ok, err, Act, ◌>>=◌, from_result, Ends, bind-Ends, match_result-Ends, map_err-Ends,
  Ends-ok, Ends-weaken,
}

module _ (debug : Text → Text) {V : Type 0} (tools : Tools V) (runner : List Text → Act V Text Unit)
    (spec : ProcessSignalSpec) where
  -- A deferred signal is filed with the call as its action, and no command ran; another was handed to the
  -- runner once, which succeeded, and the journal is as it was.
  abbrev pub Done : (node : Node V) (argv : List Text) → Bool → ChangeReport → Node V → Type 0
  Done node argv true report node' =
      (report.deferred ≡ true)
      × (node'.outside ≡ node.outside)
      × (e : DeferEntry) × (e.id ≡ codes "process.signal:" ++ spec.name)
      × (e.target ≡ spec.name)
      × (e.init_system ≡ [])
      × (e.action ≡ command argv)
      × Filed tools.json e node.defers.files node'.defers.files
  Done node argv false report node' =
      (report ≡ sent debug tools runner spec)
      × (runner argv node.outside ≡ (ok tt, node'.outside))
      × (node'.defers ≡ node.defers)

  enqueue_defer-Done :
      (argv : List Text) (d : Directory Text) (ns : List ℕ) (node : Node V)
      → Survives tools (signal_entry debug tools runner spec argv node.outside)
      → node.defers ≡ quiet d ns
      → Ends
          (Done node argv true)
          (λ e node'. Unit)
          (enqueue_defer debug tools runner spec argv node)
  unfolding enqueue_defer
  enqueue_defer-Done argv d ns node back calm =
      let e = signal_entry debug tools runner spec argv node.outside in
      let (r, fs, done, filed) = enqueue-Filed tools.json e d ns back in
      match_result-Ends _ _
        (filed_as tools node _ r fs
          (λ r node'. (node'.outside ≡ node.outside) × Filed tools.json e d node'.defers.files)
          (rw calm done) (refl, filed))
        (λ r node1 h. record { holds = (refl, h.0, e, refl, refl, refl, refl, rw calm h.1) })
        (λ e node1 _. record { holds = tt })

  handed :
      (argv : List Text) (node : Node V) (x : Result Text Unit × V)
      → runner argv node.outside ≡ x
      → Ends
          (λ a node'.
            (runner argv node.outside ≡ (ok tt, node'.outside)) × (node'.defers ≡ node.defers))
          (λ e node'. Unit)
          (kept_beside node x)
  handed argv node (ok _, v) h = record { holds = (h, refl) }
  handed argv node (err e, v) h = record { holds = tt }

  execute_sync-Done :
      (argv : List Text) (node : Node V)
      → Ends
          (Done node argv false)
          (λ e node'. Unit)
          (execute_sync debug tools runner spec argv node)
  unfolding execute_sync
  execute_sync-Done argv node =
      bind-Ends _ (map_err-Ends _ _ (handed argv node (runner argv node.outside) refl))
        (λ a node1 h. record { holds = (refl, h.0, h.1) })

  carry_out-Done :
      (argv : List Text) (deferred : Bool) (d : Directory Text) (ns : List ℕ) (node : Node V)
      → Survives tools (signal_entry debug tools runner spec argv node.outside)
      → node.defers ≡ quiet d ns
      → Ends
          (Done node argv deferred)
          (λ e node'. Unit)
          (carry_out debug tools runner spec argv deferred node)
  carry_out-Done argv true d ns node back calm = enqueue_defer-Done argv d ns node back calm
  carry_out-Done argv false d ns node back calm = execute_sync-Done argv node

  -- What an apply of the signal comes to.
  abbrev pub Signals : Node V → ChangeReport → Node V → Type 0
  Signals node report node' =
      (argv : List Text) × IsSignal spec argv × Done node argv spec.deferred report node'

  built :
      (r : Result PrimitiveError (List Text)) (d : Directory Text) (ns : List ℕ) (node : Node V)
      → build_signal_argv debug spec ≡ r
      → ((argv : List Text)
          → build_signal_argv debug spec ≡ ok argv
          → Survives tools (signal_entry debug tools runner spec argv node.outside))
      → node.defers ≡ quiet d ns
      → Ends
          (Signals node)
          (λ e node'. Unit)
          ((from_result r >>= λ argv. carry_out debug tools runner spec argv spec.deferred) node)
  unfolding ◌>>=◌
  built (err e) d ns node same back calm = record { holds = tt }
  built (ok argv) d ns node same back calm =
      Ends-weaken {bad = λ e node'. Unit}
        (λ report node' h. (argv, build_signal_argv-IsSignal debug spec argv same, h))
        (λ e node' h. h) (carry_out-Done argv spec.deferred d ns node (back argv same) calm)

  -- If an apply of a signal succeeds with a difference to apply, where no call of the journal fails and the
  -- entry survives its encoding, it built a call of pkill with one selector and an allowed signal, the one of
  -- the resource with or without SIG. Of a deferred call nothing ran, and its entry, with this call as its
  -- action, is what the file with its name holds, unless the journal had an entry with its identifier or an
  -- action that subsumes it and is as it was; another call was handed to the runner, which succeeded, and the
  -- journal is as it was.
  pub signal_run-Signals :
      {P J : Type 0} (from_value : P → Result Text ProcessSignalSpec) (r : Resource P)
      (diff : Diff J)
      → (d : Directory Text) (ns : List ℕ) (node node' : Node V) (report : ChangeReport)
      → is_no_change diff ≡ false
      → from_value r.payload ≡ ok spec
      → node.defers ≡ quiet d ns
      → ((argv : List Text)
          → build_signal_argv debug spec ≡ ok argv
          → Survives tools (signal_entry debug tools runner spec argv node.outside))
      → run debug tools runner from_value r diff node ≡ (ok report, node')
      → Signals node report node'
  unfolding run
  signal_run-Signals from_value r diff d ns node node' report some_diff read calm back h =
      Ends-ok report node' (rw (some_diff, read) at h)
        (built (build_signal_argv debug spec) d ns node refl back calm)

module _ (debug : Text → Text) {V : Type 0} (tools : Tools V)
    (runner : List Text → Act V Text Unit) where
  refused_argv :
      {P : Type 0} (stateless payload : P) (spec : ProcessSignalSpec)
      → (x : Result PrimitiveError (List Text)) (node : Node V) (e : PrimitiveError)
      → planned debug stateless payload spec x ≡ err e
      → (from_result x >>= λ argv. carry_out debug tools runner spec argv spec.deferred) node
        ≡ (err e, node)
  unfolding ◌>>=◌
  refused_argv stateless payload spec (err e') node e h = cc
  refused_argv stateless payload spec (ok argv) node e h = absurd cc

  refused :
      {P : Type 0} (stateless payload : P) (x : Result Text ProcessSignalSpec) (node : Node V)
      → (e : PrimitiveError) → plan_of debug stateless payload x ≡ err e
      → with_payload debug tools runner x node ≡ (err e, node)
  unfolding ◌>>=◌
  refused stateless payload (err e') node e h = cc
  refused stateless payload (ok spec) node e h =
      refused_argv stateless payload spec (build_signal_argv debug spec) node e h

  -- What the plan of a signal refuses, an apply with a difference refuses with the same error, and does nothing.
  pub run-refused :
      {P J : Type 0} (stateless : P) (from_value : P → Result Text ProcessSignalSpec)
      (r : Resource P)
      → (diff : Diff J) (node : Node V) (e : PrimitiveError) → is_no_change diff ≡ false
      → compute_diff debug stateless from_value r ≡ err e
      → run debug tools runner from_value r diff node ≡ (err e, node)
  unfolding run compute_diff
  run-refused stateless from_value r diff node e some_diff h =
      rw some_diff (refused stateless r.payload (from_value r.payload) node e h)
