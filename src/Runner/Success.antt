-- ===== src/Runner/Success.antt =====
-- connectivity/check/test.go and context.go: a suite that reports success has passed.
use cilium_cli.Prelude.{
  Option, none, some, List, [], ◌∷◌, ◌++◌, Bool, true, false, not, ◌==◌, nat_eq, ◌≡◌, ◌≢◌, refl,
  sym, ap, subst, ◌∙◌, inl, inr, arith, Bool-cases, Option-cases, some_injective,
}
use cilium_cli.Runner.{
  Test, End, done, errored, exited, is_empty, succeeded, TestState, Running, Environment, will_run,
  fail_unless, skip,
}
use cilium_cli.Runner.Testing.{
  run_finalizers, finalize, setup, run_scenarios, started, completed, run_body, run_test, paused,
  after_run, run_goroutine, new_test,
}
use cilium_cli.Runner.Suite.{
  and_state, run_all, failed_tests, report, delete_pods, run_and_report, run_suite,
}
use cilium_cli.Runner.Passing.{
  Finalizes, Finished, TestPasses, SuitePasses, no_tests, test_skipped, test_passed,
  finalizers-Finalizes, finalizers-skipped, setup-skipped, setup-Prepared, fail_unless-skipped,
}

module _ {World : Type 0} (env : Environment World) where
  fail_unless-finalizers :
      (b : Bool) (s : TestState World) → (fail_unless env b s).finalizers ≡ s.finalizers
  fail_unless-finalizers true s = refl
  fail_unless-finalizers false s = refl

  pub after_run-skipped :
      (e : End) (s : TestState World) (u : World) → (after_run env e s u).0.skipped ≡ s.skipped
  after_run-skipped done s u = refl
  after_run-skipped errored s u = refl
  after_run-skipped exited s u = refl

  after_run-unfailed :
      (e : End) (s : TestState World) (u : World)
      → (after_run env e s u).0.failed ≡ false
      → (e ≢ errored) × (s.failed ≡ false)
  after_run-unfailed done s u h = (λ e. absurd cc, h)
  after_run-unfailed errored s u h = absurd cc
  after_run-unfailed exited s u h = (λ e. absurd cc, h)

  -- the state in which the setup of a test starts
  abbrev pub at_start : Test → World → TestState World
  at_start t w = started env w (fail_unless env (not (is_empty t.scenarios)) (new_test env))

  abbrev pub prepare : Test → World → Running World
  prepare t w = setup env t (run_scenarios env t t.scenarios) (at_start t w) w

  abbrev pub finish : Running World → TestState World × World
  finish r = let f = finalize env (completed env r) in after_run env f.end f.state f.world

  at_start-skipped : (t : Test) (w : World) → (at_start t w).skipped ≡ false
  at_start-skipped t w = fail_unless-skipped env (not (is_empty t.scenarios)) (new_test env)

  pub at_start-finalizers : (t : Test) (w : World) → (at_start t w).finalizers ≡ []
  at_start-finalizers t w = fail_unless-finalizers (not (is_empty t.scenarios)) (new_test env)

  finish-skipped : (t : Test) (w : World) → (finish (prepare t w)).0.skipped ≡ false
  finish-skipped t w =
      let r = prepare t w in
      let f = finalize env (completed env r) in
      after_run-skipped f.end f.state f.world
      ∙ finalizers-skipped env r.state.finalizers (completed env r).state r.world
      ∙ setup-skipped env t (at_start t w) w
      ∙ at_start-skipped t w

  finish-Finished : (r : Running World) → (finish r).0.failed ≡ false → Finished env r
  finish-Finished r h =
      let f = finalize env (completed env r) in
      let (ended, unfailed) = after_run-unfailed f.end f.state f.world h in
      let (finalized, before) =
        finalizers-Finalizes env r.state.finalizers (completed env r).state r.world unfailed in
      (ended, before)

  finish-TestPasses :
      (t : Test) (w : World)
      → will_run env t ≡ true
      → (finish (prepare t w)).0.failed ≡ false
      → (u : World) × TestPasses env t w u × ((finish (prepare t w)).1 ≡ paused env u)
  finish-TestPasses t w runs h =
      let r = prepare t w in
      let f = finalize env (completed env r) in
      let secrets = env.apply_secrets t w in
      let policies = env.apply_policies t secrets.world in
      let (ended, unfailed) = after_run-unfailed f.end f.state f.world h in
      let (finalized, before) =
        finalizers-Finalizes env r.state.finalizers (completed env r).state r.world unfailed in
      let (ok, ok', passes, at_end, fresh, same) =
        setup-Prepared env t (at_start t w) w (finish-Finished r h) in
      (
        f.world,
        (
          r.world,
          runs,
          ok,
          ok',
          passes,
          subst (λ fs. Finalizes env fs r.world f.world)
              (same
                ∙ ap (λ fs. (fs ++ secrets.finalizers) ++ policies.finalizers)
                    (at_start-finalizers t w))
              finalized,
        ),
        ap (λ e. (after_run env e f.state f.world).1) at_end,
      )

  pub goroutine-ran :
      (t : Test) (w : World)
      → env.cancelled w ≡ false
      → will_run env t ≡ true
      → run_goroutine env t (new_test env) w ≡ finish (prepare t w)
  unfolding run_test run_body
  goroutine-ran t w c runs = rw (c, run_test) (rw (runs, run_body) refl)

  -- the goroutine of a test that is not to run
  abbrev pub leave_out : Test → World → TestState World × World
  leave_out t w =
      let s = skip env (fail_unless env (not (is_empty t.scenarios)) (new_test env)) in
      let f = finalize env (record { state = s; world = w; end = done }) in
      after_run env f.end f.state f.world

  pub goroutine-left_out :
      (t : Test) (w : World)
      → env.cancelled w ≡ false
      → will_run env t ≡ false
      → run_goroutine env t (new_test env) w ≡ leave_out t w
  unfolding run_test run_body
  goroutine-left_out t w c idle = rw (c, run_test) (rw (idle, run_body) refl)

  pub leave_out-world : (t : Test) (w : World) → (leave_out t w).1 ≡ paused env w
  unfolding run_finalizers
  leave_out-world t w = elim (Bool-cases (is_empty t.scenarios)) [
    | inl e ↦ rw e refl
    | inr e ↦ rw e refl
  ]

  failed_tests-zero :
      (s : TestState World) (states : List (TestState World))
      → failed_tests env (s ∷ states) ≡ 0
      → (s.skipped ≡ false → s.failed ≡ false) × (failed_tests env states ≡ 0)
  unfolding failed_tests
  failed_tests-zero s states h = (λ e. ground arith, ground arith)

  and_state-some :
      (s : TestState World) (o : Option (List (TestState World) × World))
      (states : List (TestState World)) (u : World)
      → and_state env s o ≡ some (states, u)
      → (rest : List (TestState World)) × (o ≡ some (rest, u)) × (states ≡ s ∷ rest)
  and_state-some s none states u h = absurd cc
  and_state-some s (some (rest, v)) states u h =
      let both = some_injective h in (rest, rw (ap (λ x. x.1) both) refl, sym (ap (λ x. x.0) both))

  first_test :
      (t : Test) (ts : List Test) (w : World)
      → env.cancelled w ≡ false
      → ((run_goroutine env t (new_test env) w).0.skipped ≡ false
          → (run_goroutine env t (new_test env) w).0.failed ≡ false)
      → SuitePasses env ts (run_goroutine env t (new_test env) w).1
      → SuitePasses env (t ∷ ts) w
  first_test t ts w c unfailed rest = elim (Bool-cases (will_run env t)) [
    | inl runs ↦
        let e = goroutine-ran t w c runs in
        let ok = subst (λ r. r.0.skipped ≡ false → r.0.failed ≡ false) e unfailed in
        let (u, passes, next) = finish-TestPasses t w runs (ok (finish-skipped t w)) in
        test_passed t ts w u c passes (subst (SuitePasses env ts) (ap (λ r. r.1) e ∙ next) rest)
    | inr idle ↦
        let e = ap (λ r. r.1) (goroutine-left_out t w c idle) ∙ leave_out-world t w in
        test_skipped t ts w c idle (subst (SuitePasses env ts) e rest)
  ]

  -- the states of a suite whose first test has run
  run_all-first :
      (t : Test) (ts : List Test) (w u : World) (states : List (TestState World))
      → run_all env (t ∷ ts) w ≡ some (states, u)
      → (env.cancelled w ≡ false)
        × (and_state env
              (run_goroutine env t (new_test env) w).0
              (run_all env ts (run_goroutine env t (new_test env) w).1)
            ≡ some (states, u))
  unfolding run_all
  run_all-first t ts w u states = elim (Bool-cases (env.cancelled w)) [
    | inl c ↦ rw (c, run_all) (λ h. absurd cc)
    | inr c ↦ rw (c, run_all) (λ h. (refl, h))
  ]

  all-SuitePasses :
      (ts : List Test) (w u : World) (states : List (TestState World))
      → run_all env ts w ≡ some (states, u)
      → failed_tests env states ≡ 0
      → SuitePasses env ts w
  unfolding run_all
  all-SuitePasses [] w u states h z = no_tests w
  all-SuitePasses (t ∷ ts) w u states h z =
      let r = run_goroutine env t (new_test env) w in
      let (c, h) = run_all-first t ts w u states h in
      let (rest, later, e) = and_state-some r.0 (run_all env ts r.1) states u h in
      let (unfailed, z) = failed_tests-zero r.0 rest (subst (λ xs. failed_tests env xs ≡ 0) e z) in
      first_test t ts w c unfailed (all-SuitePasses ts r.1 u rest later z)

  report-succeeded :
      (states : List (TestState World))
      → report env states ≡ succeeded
      → failed_tests env states ≡ 0
  report-succeeded states h = elim (Bool-cases (failed_tests env states == 0)) [
    | inl e ↦ (nat_eq.same_iff (failed_tests env states) 0).0 e
    | inr e ↦ absurd (ground (arith, e))
  ]

  run_and_report-SuitePasses :
      (ts : List Test) (w : World) → run_and_report env ts w ≡ succeeded → SuitePasses env ts w
  run_and_report-SuitePasses ts w = elim (Option-cases (run_all env ts w)) [
    | inl e ↦ rw (e, run_and_report) (λ h. absurd cc)
    | inr ((states, u), e) ↦
        rw (e, run_and_report) (λ h. all-SuitePasses ts w u states e (report-succeeded states h))
  ]

  pub succeeded-SuitePasses :
      (ts : List Test) (w : World)
      → run_suite env ts w ≡ succeeded
      → (env.cancelled w ≡ false)
        × ((delete_pods env w).1 ≡ true)
        × SuitePasses env ts (delete_pods env w).0
  unfolding run_suite
  succeeded-SuitePasses ts w = elim (Bool-cases (env.cancelled w)) [
    | inl c ↦ rw (c, run_suite) (λ h. absurd cc)
    | inr c ↦
        rw (c, run_suite)
          (elim (Bool-cases (delete_pods env w).1) [
            | inl d ↦
                rw (d, run_suite)
                  (λ h. (refl, refl, run_and_report-SuitePasses ts (delete_pods env w).0 h))
            | inr d ↦ rw (d, run_suite) (λ h. absurd cc)
          ])
  ]
