-- ===== src/Runner/Complete.antt =====
-- connectivity/check/test.go and context.go: a suite that passes is reported as a success, and no other.
use cilium_cli.Prelude.{
  some, List, [], ◌∷◌, ◌++◌, Bool, true, false, not, ◌==◌, nat_eq, if◌then◌else◌, ◌≡◌, ◌↔◌, refl,
  sym, ap, subst, ◌∙◌, arith, length,
}
use cilium_cli.Runner.{
  Scenario, Test, done, is_empty, succeeded, Finalizer, Applied, TestState, Running, Environment,
  will_run, count_disabled, fail_unless, skip, skip_scenario,
}
use cilium_cli.Runner.Testing.{
  run_finalizers, registered, after_step, setup_policies, run_scenarios, completed, paused,
  after_run, run_goroutine, new_test,
}
use cilium_cli.Runner.Suite.{run_all, failed_tests, delete_pods, run_and_report, run_suite}
use cilium_cli.Runner.Passing.{
  Passes, no_more, passed, left_out, Finalizes, all_done, and_then, TestPasses, SuitePasses,
  no_tests, test_skipped, test_passed, finalizers-skipped,
}
use cilium_cli.Runner.Success.{
  at_start, prepare, finish, at_start-finalizers, goroutine-ran, goroutine-left_out, leave_out,
  leave_out-world, succeeded-SuitePasses,
}

module _ {World : Type 0} (env : Environment World) where
  -- the scenarios have ended in this world and left the mark and the finalizers alone
  abbrev Ended : TestState World → World → Running World → Type 0
  Ended s u r =
      (r.end ≡ done)
      × (r.world ≡ u)
      × (r.state.failed ≡ s.failed)
      × (r.state.finalizers ≡ s.finalizers)

  scenarios-Ended :
      (t : Test) (scs : List Scenario) (w u : World) (s : TestState World)
      → Passes env t scs w u
      → Ended s u (run_scenarios env t scs s w)
  unfolding run_scenarios
  scenarios-Ended t [] w u s (no_more _) = (refl, refl, refl, refl)
  scenarios-Ended t (_ ∷ _) w u s (passed sc scs _ v _ c e r rest) =
      rw (c, run_scenarios) (rw e (rw r (scenarios-Ended t scs v u s rest)))
  scenarios-Ended t (_ ∷ _) w u s (left_out sc scs _ _ c e rest) =
      rw (c, run_scenarios) (rw e (scenarios-Ended t scs w u (skip_scenario env sc s) rest))

  finalizers-ended :
      (fs : List (Finalizer World)) (w u : World) (s : TestState World)
      → Finalizes env fs w u
      → run_finalizers env fs s w ≡ (s, u)
  unfolding run_finalizers
  finalizers-ended [] w u s (all_done _) = refl
  finalizers-ended (_ ∷ _) w u s (and_then f fs _ _ ok rest) =
      rw ok (finalizers-ended fs (f w).0 u s rest)

  step-next :
      (a : Applied World) (s : TestState World) (next : TestState World → World → Running World)
      → a.ok ≡ true
      → after_step env a s next ≡ next (registered env a s) a.world
  step-next a s next ok = rw ok refl

  has_scenario :
      (t : Test) (b : Bool) (scs : List Scenario)
      → (if b then not (count_disabled env t scs == length scs) else false) ≡ true
      → not (is_empty scs) ≡ true
  has_scenario t b [] h = ground (arith, h)
  has_scenario t b (sc ∷ scs) h = refl

  to_run-has_scenario : (t : Test) → will_run env t ≡ true → not (is_empty t.scenarios) ≡ true
  to_run-has_scenario t runs = has_scenario t _ t.scenarios runs

  at_start-unmarked :
      (t : Test) (w : World) → will_run env t ≡ true → (at_start env t w).failed ≡ false
  at_start-unmarked t w runs =
      ap (λ b. (fail_unless env b (new_test env)).failed) (to_run-has_scenario t runs)

  -- the finalizers end in this world after the scenarios
  finish-ended :
      (r : Running World) (fs : List (Finalizer World)) (v u : World)
      → r.end ≡ done
      → r.world ≡ v
      → r.state.finalizers ≡ fs
      → Finalizes env fs v u
      → finish env r ≡ ((completed env r).state, paused env u)
  finish-ended r fs v u e w f h =
      let h' =
        subst (λ x. Finalizes env x r.world u) (sym f)
          (subst (λ x. Finalizes env fs x u) (sym w) h) in
      ap (λ x. after_run env r.end x.0 x.1)
        (finalizers-ended r.state.finalizers r.world u (completed env r).state h')
      ∙ ap (λ x. after_run env x (completed env r).state u) e

  prepare-scenarios :
      (t : Test) (w : World)
      → (env.apply_secrets t w).ok ≡ true
      → (env.apply_policies t (env.apply_secrets t w).world).ok ≡ true
      → prepare env t w
        ≡ run_scenarios env t t.scenarios
            (registered env
              (env.apply_policies t (env.apply_secrets t w).world)
              (registered env (env.apply_secrets t w) (at_start env t w)))
            (env.apply_policies t (env.apply_secrets t w).world).world
  prepare-scenarios t w ok ok' =
      let secrets = env.apply_secrets t w in
      let run = run_scenarios env t t.scenarios in
      let s = registered env secrets (at_start env t w) in
      step-next secrets (at_start env t w) (setup_policies env t run) ok
      ∙ step-next (env.apply_policies t secrets.world) s run ok'

  -- A test that passes is left unmarked.
  passes-unmarked :
      (t : Test) (w u : World)
      → TestPasses env t w u
      → ((finish env (prepare env t w)).0.failed ≡ false)
        × ((finish env (prepare env t w)).1 ≡ paused env u)
  passes-unmarked t w u (v, runs, ok, ok', passes, finalizes) =
      let secrets = env.apply_secrets t w in
      let policies = env.apply_policies t secrets.world in
      let s = registered env policies (registered env secrets (at_start env t w)) in
      let r = prepare env t w in
      let (e, same, mark, fs) =
        subst (Ended s v) (sym (prepare-scenarios t w ok ok'))
          (scenarios-Ended t t.scenarios policies.world v s passes) in
      let kept =
        fs
        ∙ ap (λ fs. (fs ++ secrets.finalizers) ++ policies.finalizers)
            (at_start-finalizers env t w) in
      let ended =
        finish-ended r (secrets.finalizers ++ policies.finalizers) v u e same kept finalizes in
      (ap (λ x. x.0.failed) ended ∙ mark ∙ at_start-unmarked t w runs, ap (λ x. x.1) ended)

  leave_out-skipped : (t : Test) (w : World) → (leave_out env t w).0.skipped ≡ true
  leave_out-skipped t w =
      let s = skip env (fail_unless env (not (is_empty t.scenarios)) (new_test env)) in
      finalizers-skipped env s.finalizers s w

  -- the run of a suite counts no test as failed
  abbrev CountsNone : List Test → World → Type 0
  CountsNone ts w =
      (states : List (TestState World)) × (u : World) × (run_all env ts w ≡ some (states, u))
      × (failed_tests env states ≡ 0)

  and-CountsNone :
      (t : Test) (ts : List Test) (w u : World) (r : TestState World × World)
      → env.cancelled w ≡ false
      → run_goroutine env t (new_test env) w ≡ r
      → r.1 ≡ u
      → ((states : List (TestState World))
          → failed_tests env states ≡ 0
          → failed_tests env (r.0 ∷ states) ≡ 0)
      → CountsNone ts u
      → CountsNone (t ∷ ts) w
  unfolding run_all
  and-CountsNone t ts w u r c e at uncounted (states, v, h, z) =
      (r.0 ∷ states, v, rw (c, run_all) (rw e (rw at (rw h refl))), uncounted states z)

  skipped-uncounted :
      (s : TestState World) (states : List (TestState World))
      → s.skipped ≡ true
      → failed_tests env states ≡ 0
      → failed_tests env (s ∷ states) ≡ 0
  unfolding failed_tests
  skipped-uncounted s states h z = rw h z

  unmarked-uncounted :
      (s : TestState World) (states : List (TestState World))
      → s.failed ≡ false
      → failed_tests env states ≡ 0
      → failed_tests env (s ∷ states) ≡ 0
  unfolding failed_tests
  unmarked-uncounted s states h z = ground (arith, h, z)

  all-CountsNone : (ts : List Test) (w : World) → SuitePasses env ts w → CountsNone ts w
  unfolding run_all failed_tests
  all-CountsNone [] w (no_tests _) = ([], w, refl, refl)
  all-CountsNone (_ ∷ _) w (test_skipped t ts _ c idle rest) =
      let r = leave_out env t w in
      and-CountsNone t ts w (paused env w) r c (goroutine-left_out env t w c idle)
        (leave_out-world env t w) (λ states. skipped-uncounted r.0 states (leave_out-skipped t w))
        (all-CountsNone ts (paused env w) rest)
  all-CountsNone (_ ∷ _) w (test_passed t ts _ u c passes rest) =
      let r = finish env (prepare env t w) in
      let (unmarked, next) = passes-unmarked t w u passes in
      and-CountsNone t ts w (paused env u) r c (goroutine-ran env t w c passes.1) next
        (λ states. unmarked-uncounted r.0 states unmarked) (all-CountsNone ts (paused env u) rest)

  report-uncounted :
      (ts : List Test) (w : World) → CountsNone ts w → run_and_report env ts w ≡ succeeded
  report-uncounted ts w (states, u, h, z) = rw (h, run_and_report) (rw z refl)

  SuitePasses-succeeded :
      (ts : List Test) (w : World)
      → env.cancelled w ≡ false
      → (delete_pods env w).1 ≡ true
      → SuitePasses env ts (delete_pods env w).0
      → run_suite env ts w ≡ succeeded
  unfolding run_suite
  SuitePasses-succeeded ts w c d passes =
      rw (c, run_suite)
        (rw (d, run_suite)
          (report-uncounted ts (delete_pods env w).0
            (all-CountsNone ts (delete_pods env w).0 passes)))

  -- The run of the suite reports success exactly where the context is not cancelled at the start nor
  -- before any test or scenario, the Cilium pods to delete are deleted, and each test is left out by
  -- its requirements and the filters, or it passes: its secrets and policies are applied, each of its
  -- scenarios that is enabled returns without a failure, and its finalizers return no error.
  pub run_suite-SuitePasses :
      (ts : List Test) (w : World)
      → (run_suite env ts w ≡ succeeded) ↔ (
          (env.cancelled w ≡ false)
          × ((delete_pods env w).1 ≡ true)
          × SuitePasses env ts (delete_pods env w).0)
  run_suite-SuitePasses ts w =
      (succeeded-SuitePasses env ts w, λ h. SuitePasses-succeeded ts w h.0 h.1 h.2)
