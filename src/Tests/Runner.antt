-- ===== src/Tests/Runner.antt =====
-- A suite of two tests: one has a scenario that is left out, and one asks for a feature that is off.
use cilium_cli.Prelude.{
  Bool, String, ◌≡◌, ◌↔◌, refl, ℕ, ◌+◌, List, [], ◌∷◌, true, false, ◌==◌, string_eq, lookup, get_or,
  insert,
}
use cilium_cli.Features.{
  require_feature_enabled, feature_host_port, feature_cnp, match_requirements, set_enabled,
}
use cilium_cli.Runner.{Test, TestState, Scenario, Environment, returned, succeeded}
use cilium_cli.Runner.Testing.{run_finalizers, run_scenarios, run_body, run_test}
use cilium_cli.Runner.Suite.{report, delete_pods, run_all, failed_tests, run_suite}
use cilium_cli.Runner.Passing.{SuitePasses}
use cilium_cli.Runner.Junit.{
  junit_suite, case_names, names_of, states_of, counted, junit_suite-report,
}
use cilium_cli.Runner.Complete.{run_suite-SuitePasses}

-- The world counts what has happened.
abbrev environment : Environment ℕ
environment = record {
  cancelled = λ w. false;
  now = λ w. w;
  matches = λ re. λ name. re == name;
  join_names = λ t. λ sc. sc;
  apply_secrets = λ t. λ w. record { world = w + 1; finalizers = []; ok = true };
  apply_policies =
      λ t. λ w. record { world = w + 1; finalizers = (λ w. (w + 1, true)) ∷ []; ok = true };
  cilium_logs = λ w. w;
  run = λ t. λ sc. λ w. (w + 10, returned);
  delete_cilium_pods = λ w. (w, false);
  collect_sysdump = λ w. w;
  pause = λ n. λ w. w + n;
  skip_tests = "pod-to-world" ∷ [];
  run_tests = [];
  features = set_enabled feature_cnp true [];
  delete_cilium_on_nodes = [];
  collect_sysdump_on_failure = false;
  post_test_sleep = 5;
}

abbrev pod_to_pod : Scenario
pod_to_pod = record { name = "pod-to-pod"; requirements = [] }

abbrev pod_to_world : Scenario
pod_to_world = record { name = "pod-to-world"; requirements = [] }

abbrev tests : List Test
tests =
    record {
      name = "allow-all";
      requirements = require_feature_enabled feature_cnp ∷ [];
      scenarios = pod_to_world ∷ pod_to_pod ∷ [];
    }
    ∷ record {
      name = "host-port";
      requirements = require_feature_enabled feature_host_port ∷ [];
      scenarios = pod_to_pod ∷ [];
    }
    ∷ []

suite_succeeds : run_suite environment tests 0 ≡ succeeded
unfolding run_suite run_all run_test run_body run_scenarios run_finalizers failed_tests
    match_requirements insert lookup get_or
suite_succeeds = refl

run_suite-SuitePasses_example : (run_suite environment tests 0 ≡ succeeded) ↔ (
    (environment.cancelled 0 ≡ false)
    × ((delete_pods environment 0).1 ≡ true)
    × SuitePasses environment tests (delete_pods environment 0).0)
run_suite-SuitePasses_example = run_suite-SuitePasses environment tests 0

-- A test without a scenario is marked as failed and left out of the report.
abbrev empty_test : Test
empty_test = record { name = "empty"; requirements = []; scenarios = [] }

empty_test_succeeds : run_suite environment (empty_test ∷ []) 0 ≡ succeeded
unfolding run_suite run_all run_test run_body run_scenarios run_finalizers failed_tests
    match_requirements insert lookup get_or
empty_test_succeeds = refl

-- a test that has failed and one that was left out
abbrev marked : Bool → Bool → TestState ℕ
marked skipped failed = record {
  skipped = skipped;
  failed = failed;
  scenarios_skipped = [];
  start_time = 3;
  completion_time = 8;
  finalizers = [];
}

abbrev ran : List (Test × TestState ℕ)
ran = (empty_test, marked true false) ∷ (empty_test, marked false true) ∷ []

abbrev no_messages : Test → List String
no_messages t = []

junit_suite-report_example :
    (case_names (junit_suite no_messages ran).cases ≡ names_of ran)
    × (counted (junit_suite no_messages ran) ≡ (junit_suite no_messages ran).tests)
    × ((junit_suite no_messages ran).failures ≡ failed_tests environment (states_of ran))
    × ((report environment (states_of ran) ≡ succeeded)
        ↔ ((junit_suite no_messages ran).failures ≡ 0))
junit_suite-report_example = junit_suite-report no_messages environment ran
