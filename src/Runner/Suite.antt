-- ===== src/Runner/Suite.antt =====
-- connectivity/check/context.go: the run of the suite, and its report.
use cilium_cli.Prelude.{
  ℕ, suc, Option, none, some, List, [], ◌∷◌, Bool, true, false, ◌==◌, nat_eq, if◌then◌else◌,
}
use cilium_cli.Runner.{
  Test, SuiteEnd, TestState, Environment, is_empty, succeeded, stopped, tests_failed,
}
use cilium_cli.Runner.Testing.{run_goroutine, new_test}

module _ {World : Type 0} (env : Environment World) where
  abbrev pub and_state :
      TestState World
      → Option (List (TestState World) × World)
      → Option (List (TestState World) × World)
  and_state s none = none
  and_state s (some (states, w)) = some (s ∷ states, w)

  -- the loop of `Run` over the tests: `none` where the context is cancelled before one
  unfoldable pub run_all : List Test → World → Option (List (TestState World) × World)
  run_all [] w = some ([], w)
  run_all (t ∷ ts) w = elim (env.cancelled w) [
    | true ↦ none
    | false ↦ let r = run_goroutine env t (new_test env) w in and_state r.0 (run_all ts r.1)
  ]

  -- `failedTests`, counted
  unfoldable pub failed_tests : List (TestState World) → ℕ
  failed_tests [] = 0
  failed_tests (s ∷ states) =
      let rest = failed_tests states in
      if s.skipped then rest else if s.failed then suc rest else rest

  -- `report`
  abbrev pub report : List (TestState World) → SuiteEnd
  report states = if failed_tests states == 0 then succeeded else tests_failed (failed_tests states)

  abbrev pub delete_pods : World → World × Bool
  delete_pods w =
      if is_empty env.delete_cilium_on_nodes then (w, true) else env.delete_cilium_pods w

  abbrev pub run_and_report : List Test → World → SuiteEnd
  run_and_report ts w = elim (run_all ts w) [ none ↦ stopped | some (states, w) ↦ report states ]

  -- `Run` of the suite. An error from `writeJunit` is only logged.
  unfoldable pub run_suite : List Test → World → SuiteEnd
  run_suite ts w = elim (env.cancelled w) [
    | true ↦ stopped
    | false ↦ elim (delete_pods w).1 [
      | true ↦ run_and_report ts (delete_pods w).0
      | false ↦ stopped
    ]
  ]
