-- ===== src/Runner/Testing.antt =====
-- connectivity/check/test.go and context.go: the run of one test, and the goroutine that it has.
use cilium_cli.Prelude.{List, [], ◌∷◌, ◌++◌, true, false, not, ◌==◌, nat_eq, if◌then◌else◌}
use cilium_cli.Runner.{
  scenario_enabled, will_run, fail, fail_unless, skip_scenario, skip, Scenario, Test, ScenarioEnd,
  End, Finalizer, Applied, TestState, Running, Environment, is_empty, returned, returned_failed,
  goexited, done, errored, exited,
}

module _ {World : Type 0} (env : Environment World) where
  unfoldable pub run_finalizers :
      List (Finalizer World) → TestState World → World → TestState World × World
  run_finalizers [] s w = (s, w)
  run_finalizers (f ∷ fs) s w = run_finalizers fs (fail_unless env (f w).1 s) (f w).0

  -- `finalize`
  abbrev pub finalize : Running World → Running World
  finalize r =
      let after = run_finalizers r.state.finalizers r.state r.world in
      record { state = after.0; world = after.1; end = r.end }

  abbrev pub registered : Applied World → TestState World → TestState World
  registered a s = record s { finalizers = s.finalizers ++ a.finalizers }

  -- `setup`
  abbrev pub after_step :
      Applied World → TestState World → (TestState World → World → Running World) → Running World
  after_step a s next = elim a.ok [
    | true ↦ next (registered a s) a.world
    | false ↦ record { state = registered a s; world = env.cilium_logs a.world; end = errored }
  ]

  abbrev pub setup_policies :
      Test → (TestState World → World → Running World) → TestState World → World → Running World
  setup_policies t next s w = after_step (env.apply_policies t w) s next

  abbrev pub setup :
      Test → (TestState World → World → Running World) → TestState World → World → Running World
  setup t next s w = after_step (env.apply_secrets t w) s (setup_policies t next)

  abbrev pub after_scenario :
      World × ScenarioEnd
      → TestState World
      → (TestState World → World → Running World)
      → Running World
  after_scenario (w, returned) s next = next s w
  after_scenario (w, returned_failed) s next = next (fail env s) w
  after_scenario (w, goexited) s next = record { state = fail env s; world = w; end = exited }

  -- the loop of `Run` over the scenarios
  unfoldable pub run_scenarios : Test → List Scenario → TestState World → World → Running World
  run_scenarios t [] s w = record { state = s; world = w; end = done }
  run_scenarios t (sc ∷ scs) s w = elim (env.cancelled w) [
    | true ↦ record { state = s; world = w; end = errored }
    | false ↦ elim (scenario_enabled env t sc) [
      | true ↦ after_scenario (env.run t sc w) s (run_scenarios t scs)
      | false ↦ run_scenarios t scs (skip_scenario env sc s) w
    ]
  ]

  abbrev pub started : World → TestState World → TestState World
  started w s = record s { start_time = env.now w }

  abbrev pub completed : Running World → Running World
  completed r = record r { state = record r.state { completion_time = env.now r.world } }

  -- `Run` of a test between the check of the context and the finalizers
  unfoldable pub run_body : Test → TestState World → World → Running World
  run_body t s w =
      let s = fail_unless env (not (is_empty t.scenarios)) s in
      elim (will_run env t) [
        | true ↦ completed (setup t (run_scenarios t t.scenarios) (started w s) w)
        | false ↦ record { state = skip env s; world = w; end = done }
      ]

  -- `Run` of a test
  unfoldable pub run_test : Test → TestState World → World → Running World
  run_test t s w = elim (env.cancelled w) [
    | true ↦ record { state = s; world = w; end = errored }
    | false ↦ finalize (run_body t s w)
  ]

  abbrev pub sysdump : World → World
  sysdump w = if env.collect_sysdump_on_failure then env.collect_sysdump w else w

  abbrev pub paused : World → World
  paused w =
      if env.cancelled w
      then w
      else if env.post_test_sleep == 0
      then w
      else env.pause env.post_test_sleep w

  abbrev pub after_run : End → TestState World → World → TestState World × World
  after_run errored s w = (fail env s, sysdump w)
  after_run exited s w = (s, w)
  after_run done s w = (s, paused w)

  -- the goroutine of a test
  abbrev pub run_goroutine : Test → TestState World → World → TestState World × World
  run_goroutine t s w = let r = run_test t s w in after_run r.end r.state r.world

  -- `NewTest` leaves this state.
  abbrev pub new_test : TestState World
  new_test = record {
    skipped = false;
    failed = false;
    scenarios_skipped = [];
    start_time = 0;
    completion_time = 0;
    finalizers = [];
  }
