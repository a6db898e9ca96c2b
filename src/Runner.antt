-- ===== src/Runner.antt =====
-- connectivity/check/test.go and context.go: a suite runs its tests one after the other, each test runs
-- its scenarios, and the suite reports.
pub mod Testing
pub mod Suite
pub mod Passing
pub mod Success
pub mod Complete
pub mod Junit
use cilium_cli.Prelude.{
  ℕ, suc, String, Option, none, some, List, [], ◌∷◌, ◌++◌, Bool, true, false, not, ◌&&◌, ◌==◌,
  nat_eq, if◌then◌else◌, any, length,
}
use cilium_cli.Features.{FeatureSet, FeatureRequirement, match_requirements}

pub record Scenario : Type 0 where
  pub name : String
  pub requirements : List FeatureRequirement

pub record Test : Type 0 where
  pub name : String
  pub requirements : List FeatureRequirement
  pub scenarios : List Scenario

-- What a scenario's `Run` does: it returns, with the test marked as failed or not, or it calls
-- `Fatal`, which marks the test as failed and ends the goroutine.
pub data ScenarioEnd : Type 0 where
  returned returned_failed goexited : ScenarioEnd

-- how `Run` of a test ends: without an error, with one, or with the goroutine
pub data End : Type 0 where
  done errored exited : End

-- how `Run` of the suite ends
pub data SuiteEnd : Type 0 where
  succeeded stopped : SuiteEnd
  tests_failed : ℕ → SuiteEnd

-- a finalizer, and whether it returns no error
abbrev pub Finalizer : Type 0 → Type 0
Finalizer World = World → World × Bool

-- what a step of the setup leaves, and whether it returns no error
pub record Applied (World : Type 0) : Type 0 where
  pub world : World
  pub finalizers : List (Finalizer World)
  pub ok : Bool

-- what a test keeps of its run
pub record TestState (World : Type 0) : Type 0 where
  pub skipped : Bool
  pub failed : Bool
  pub scenarios_skipped : List Scenario
  pub start_time : ℕ
  pub completion_time : ℕ
  pub finalizers : List (Finalizer World)

pub record Running (World : Type 0) : Type 0 where
  pub state : TestState World
  pub world : World
  pub end : End

-- What the runner calls: the context (`ctx.Err`), the clock, regular expressions, the steps of the
-- setup and of the suite, and the scenarios. The parameters of the run stand with them; `pause` is
-- the sleep after a test.
pub record Environment (World : Type 0) : Type 0 where
  pub cancelled : World → Bool
  pub now : World → ℕ
  pub matches : String → String → Bool
  pub join_names : String → String → String
  pub apply_secrets : Test → World → Applied World
  pub apply_policies : Test → World → Applied World
  pub cilium_logs : World → World
  pub run : Test → Scenario → World → World × ScenarioEnd
  pub delete_cilium_pods : World → World × Bool
  pub collect_sysdump : World → World
  pub pause : ℕ → World → World
  pub skip_tests : List String
  pub run_tests : List String
  pub features : FeatureSet
  pub delete_cilium_on_nodes : List String
  pub collect_sysdump_on_failure : Bool
  pub post_test_sleep : ℕ

abbrev pub is_empty {ℓ} : {A : Type ℓ} → List A → Bool
is_empty [] = true
is_empty (x ∷ xs) = false

module _ {World : Type 0} (env : Environment World) where
  -- `testEnabled`
  abbrev pub test_enabled : String → Bool
  test_enabled test =
      if any (λ re. env.matches re test) env.skip_tests
      then false
      else if any (λ re. env.matches re test) env.run_tests
      then true
      else is_empty env.run_tests

  abbrev pub scenario_name : Test → Scenario → String
  scenario_name t sc = env.join_names t.name sc.name

  abbrev pub scenario_enabled : Test → Scenario → Bool
  scenario_enabled t sc =
      test_enabled (scenario_name t sc) && match_requirements env.features sc.requirements

  abbrev pub count_disabled : Test → List Scenario → ℕ
  count_disabled t [] = 0
  count_disabled t (sc ∷ scs) =
      let rest = count_disabled t scs in
      if test_enabled (scenario_name t sc) then rest else suc rest

  -- `willRun`
  abbrev pub will_run : Test → Bool
  will_run t =
      if match_requirements env.features t.requirements
      then not (count_disabled t t.scenarios == length t.scenarios)
      else false

  abbrev pub fail : TestState World → TestState World
  fail s = record s { failed = true }

  abbrev pub fail_unless : Bool → TestState World → TestState World
  fail_unless true s = s
  fail_unless false s = fail s

  -- `skip` of a scenario, and of a test
  abbrev pub skip_scenario : Scenario → TestState World → TestState World
  skip_scenario sc s = record s { scenarios_skipped = s.scenarios_skipped ++ sc ∷ [] }

  abbrev pub skip : TestState World → TestState World
  skip s = record s { skipped = true }
