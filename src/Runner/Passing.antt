-- ===== src/Runner/Passing.antt =====
-- connectivity/check/test.go and context.go: what a suite that succeeds has run.
use cilium_cli.Prelude.{
  List, [], ◌∷◌, ◌++◌, Bool, true, false, nat_eq, ◌≡◌, ◌≢◌, refl, sym, subst, ◌∙◌, inl, inr,
  Bool-cases,
}
use cilium_cli.Runner.{
  Scenario, Test, ScenarioEnd, returned, returned_failed, goexited, done, errored, Finalizer,
  Applied, TestState, Running, Environment, scenario_enabled, will_run, fail, fail_unless,
  skip_scenario,
}
use cilium_cli.Runner.Testing.{
  run_finalizers, registered, after_step, setup_policies, setup, after_scenario, run_scenarios,
  paused,
}

module _ {World : Type 0} (env : Environment World) where
  -- From one world to the next, each enabled scenario is run and returns without a failure, and the
  -- context is not cancelled before any of them.
  pub data Passes (t : Test) : List Scenario → World → World → Type 0 where
    no_more : (w : World) → Passes t [] w w
    passed :
        (sc : Scenario) (scs : List Scenario) (w v u : World)
        → env.cancelled w ≡ false
        → scenario_enabled env t sc ≡ true
        → env.run t sc w ≡ (v, returned)
        → Passes t scs v u
        → Passes t (sc ∷ scs) w u
    left_out :
        (sc : Scenario) (scs : List Scenario) (w u : World)
        → env.cancelled w ≡ false
        → scenario_enabled env t sc ≡ false
        → Passes t scs w u
        → Passes t (sc ∷ scs) w u

  -- each finalizer returns no error
  pub data Finalizes : List (Finalizer World) → World → World → Type 0 where
    all_done : (w : World) → Finalizes [] w w
    and_then :
        (f : Finalizer World) (fs : List (Finalizer World)) (w u : World)
        → (f w).1 ≡ true
        → Finalizes fs (f w).0 u
        → Finalizes (f ∷ fs) w u

  abbrev pub Finished : Running World → Type 0
  Finished r = (r.end ≢ errored) × (r.state.failed ≡ false)

  pub fail_unless-kept :
      (b : Bool) (s : TestState World)
      → (fail_unless env b s).failed ≡ false
      → (b ≡ true) × (s.failed ≡ false)
  fail_unless-kept true s h = (refl, h)
  fail_unless-kept false s h = absurd cc

  pub fail_unless-skipped :
      (b : Bool) (s : TestState World) → (fail_unless env b s).skipped ≡ s.skipped
  fail_unless-skipped true s = refl
  fail_unless-skipped false s = refl

  pub finalizers-Finalizes :
      (fs : List (Finalizer World)) (s : TestState World) (w : World)
      → (run_finalizers env fs s w).0.failed ≡ false
      → Finalizes fs w (run_finalizers env fs s w).1 × (s.failed ≡ false)
  unfolding run_finalizers
  finalizers-Finalizes [] s w h = (all_done w, h)
  finalizers-Finalizes (f ∷ fs) s w h =
      let (rest, kept) = finalizers-Finalizes fs (fail_unless env (f w).1 s) (f w).0 h in
      let (ok, unfailed) = fail_unless-kept (f w).1 s kept in (and_then f fs w _ ok rest, unfailed)

  pub finalizers-skipped :
      (fs : List (Finalizer World)) (s : TestState World) (w : World)
      → (run_finalizers env fs s w).0.skipped ≡ s.skipped
  unfolding run_finalizers
  finalizers-skipped [] s w = refl
  finalizers-skipped (f ∷ fs) s w =
      finalizers-skipped fs (fail_unless env (f w).1 s) (f w).0 ∙ fail_unless-skipped (f w).1 s

  after_scenario-skipped :
      (p : World × ScenarioEnd) (s : TestState World)
      (next : TestState World → World → Running World)
      → ((s : TestState World) (w : World) → (next s w).state.skipped ≡ s.skipped)
      → (after_scenario env p s next).state.skipped ≡ s.skipped
  after_scenario-skipped (v, returned) s next later = later s v
  after_scenario-skipped (v, returned_failed) s next later = later (fail env s) v
  after_scenario-skipped (v, goexited) s next later = refl

  scenarios-skipped :
      (t : Test) (scs : List Scenario) (s : TestState World) (w : World)
      → (run_scenarios env t scs s w).state.skipped ≡ s.skipped
  unfolding run_scenarios
  scenarios-skipped t [] s w = refl
  scenarios-skipped t (sc ∷ scs) s w = elim (Bool-cases (env.cancelled w)) [
    | inl c ↦ rw (c, run_scenarios) refl
    | inr c ↦
        rw (c, run_scenarios)
          (elim (Bool-cases (scenario_enabled env t sc)) [
            | inl e ↦ rw e (
                after_scenario-skipped (env.run t sc w) s (run_scenarios env t scs)
                  (scenarios-skipped t scs))
            | inr e ↦ rw e (scenarios-skipped t scs (skip_scenario env sc s) w)
          ])
  ]

  -- what a run of these scenarios shows, where it finishes
  abbrev Sound : Test → List Scenario → TestState World → World → Running World → Type 0
  Sound t scs s w r =
      Finished r
      → Passes t scs w r.world
        × (r.end ≡ done)
        × (s.failed ≡ false)
        × (r.state.finalizers ≡ s.finalizers)

  ran-Sound :
      (t : Test) (sc : Scenario) (scs : List Scenario) (s : TestState World) (w : World)
      (p : World × ScenarioEnd) (next : TestState World → World → Running World)
      → env.cancelled w ≡ false
      → scenario_enabled env t sc ≡ true
      → env.run t sc w ≡ p
      → ((s : TestState World) (v : World) → Sound t scs s v (next s v))
      → Sound t (sc ∷ scs) s w (after_scenario env p s next)
  ran-Sound t sc scs s w (v, returned) next c e r later h =
      let (passes, ended, unfailed, same) = later s v h in
      (passed sc scs w v _ c e r passes, ended, unfailed, same)
  ran-Sound t sc scs s w (v, returned_failed) next c e r later h =
      let (passes, ended, unfailed, same) = later (fail env s) v h in absurd cc
  ran-Sound t sc scs s w (v, goexited) next c e r later h = let marked = h.1 in absurd cc

  scenarios-Sound :
      (t : Test) (scs : List Scenario) (s : TestState World) (w : World)
      → Sound t scs s w (run_scenarios env t scs s w)
  unfolding run_scenarios
  scenarios-Sound t [] s w = λ h. (no_more w, refl, h.1, refl)
  scenarios-Sound t (sc ∷ scs) s w = elim (Bool-cases (env.cancelled w)) [
    | inl c ↦ rw (c, run_scenarios) (λ h. absurd (h.0 refl))
    | inr c ↦
        rw (c, run_scenarios)
          (elim (Bool-cases (scenario_enabled env t sc)) [
            | inl e ↦ rw e (
                ran-Sound t sc scs s w (env.run t sc w) (run_scenarios env t scs) c e refl
                  (scenarios-Sound t scs))
            | inr e ↦ rw e (λ h.
                let (passes, ended, unfailed, same) =
                  scenarios-Sound t scs (skip_scenario env sc s) w h in
                (left_out sc scs w _ c e passes, ended, unfailed, same))
          ])
  ]

  -- The test passes, from one world to the next: it is to run, its secrets and policies are applied,
  -- its enabled scenarios return without a failure, and then its finalizers return no error.
  abbrev pub TestPasses : Test → World → World → Type 0
  TestPasses t w u =
      let secrets = env.apply_secrets t w in
      let policies = env.apply_policies t secrets.world in
      (v : World) × (will_run env t ≡ true)
      × (secrets.ok ≡ true)
      × (policies.ok ≡ true)
      × Passes t t.scenarios policies.world v
      × Finalizes (secrets.finalizers ++ policies.finalizers) v u

  -- each test of the suite is left out, or it passes
  pub data SuitePasses : List Test → World → Type 0 where
    no_tests : (w : World) → SuitePasses [] w
    test_skipped :
        (t : Test) (ts : List Test) (w : World)
        → env.cancelled w ≡ false
        → will_run env t ≡ false
        → SuitePasses ts (paused env w)
        → SuitePasses (t ∷ ts) w
    test_passed :
        (t : Test) (ts : List Test) (w u : World)
        → env.cancelled w ≡ false
        → TestPasses t w u
        → SuitePasses ts (paused env u)
        → SuitePasses (t ∷ ts) w

  step-applied :
      (a : Applied World) (s : TestState World) (next : TestState World → World → Running World)
      → (after_step env a s next).end ≢ errored
      → (a.ok ≡ true) × (after_step env a s next ≡ next (registered env a s) a.world)
  step-applied a s next = elim (Bool-cases a.ok) [
    | inl e ↦ rw e (λ h. (refl, refl))
    | inr e ↦ rw e (λ h. absurd (h refl))
  ]

  step-skipped :
      (a : Applied World) (s : TestState World) (next : TestState World → World → Running World)
      → ((s : TestState World) (w : World) → (next s w).state.skipped ≡ s.skipped)
      → (after_step env a s next).state.skipped ≡ s.skipped
  step-skipped a s next later = elim (Bool-cases a.ok) [
    | inl e ↦ rw e (later (registered env a s) a.world)
    | inr e ↦ rw e refl
  ]

  pub setup-skipped :
      (t : Test) (s : TestState World) (w : World)
      → (setup env t (run_scenarios env t t.scenarios) s w).state.skipped ≡ s.skipped
  setup-skipped t s w =
      step-skipped (env.apply_secrets t w) s
        (setup_policies env t (run_scenarios env t t.scenarios))
        (λ s. λ w.
          step-skipped (env.apply_policies t w) s (run_scenarios env t t.scenarios)
            (scenarios-skipped t t.scenarios))

  -- The setup and the scenarios have run without a failure.
  abbrev pub Prepared : Test → TestState World → World → Running World → Type 0
  Prepared t s w r =
      let secrets = env.apply_secrets t w in
      let policies = env.apply_policies t secrets.world in
      (secrets.ok ≡ true)
      × (policies.ok ≡ true)
      × Passes t t.scenarios policies.world r.world
      × (r.end ≡ done)
      × (s.failed ≡ false)
      × (r.state.finalizers ≡ (s.finalizers ++ secrets.finalizers) ++ policies.finalizers)

  pub setup-Prepared :
      (t : Test) (s : TestState World) (w : World)
      → Finished (setup env t (run_scenarios env t t.scenarios) s w)
      → Prepared t s w (setup env t (run_scenarios env t t.scenarios) s w)
  setup-Prepared t s w h =
      let secrets = env.apply_secrets t w in
      let policies = env.apply_policies t secrets.world in
      let run = run_scenarios env t t.scenarios in
      let s1 = registered env secrets s in
      let s2 = registered env policies s1 in
      let (ok, e1) = step-applied secrets s (setup_policies env t run) h.0 in
      let (ok', e2) = step-applied policies s1 run (subst (λ r. r.end ≢ errored) e1 h.0) in
      let e = e1 ∙ e2 in
      let (passes, ended, unfailed, same) =
        scenarios-Sound t t.scenarios s2 policies.world (subst Finished e h) in
      subst (Prepared t s w) (sym e) (ok, ok', passes, ended, unfailed, same)
