-- ===== src/Runner/Junit.antt =====
-- connectivity/check/context.go: the JUnit suite that `writeJunit` makes of the tests. Its attributes that
-- name the program, the arguments and the time of day are left out, and so is the writing of the file.
use cilium_cli.Prelude.{
  ℕ, ◌+◌, ℤ, pos, sub_ℕ, ◌+ℤ◌, String, Option, none, some, List, [], ◌∷◌, ◌++◌, length,
  if◌then◌else◌, ◌==◌, nat_eq, ◌≡◌, ◌↔◌, refl, sym, ap, ◌∙◌, arith, append_assoc, append_nil,
  Bool-cases, inl, inr, nat_beq_iff,
}
use cilium_cli.Runner.{Test, TestState, Environment, succeeded}
use cilium_cli.Runner.Suite.{failed_tests, report}

pub data Status : Type 0 where
  passed_status skipped_status failed_status : Status

-- a failure has the messages of the test's failed actions
pub record TestCase : Type 0 where
  pub name : String
  pub status : Status
  pub time : ℤ
  pub failure : Option (List String)

pub record TestSuite : Type 0 where
  pub tests : ℕ
  pub skipped : ℕ
  pub failures : ℕ
  pub time : ℤ
  pub cases : List TestCase

abbrev pub new_suite : ℕ → TestSuite
new_suite n = record { tests = n; skipped = 0; failures = 0; time = pos 0; cases = [] }

abbrev pub with_case : TestCase → TestSuite → TestSuite
with_case c suite = record suite { cases = suite.cases ++ c ∷ [] }

abbrev pub has_passed : Status → ℕ
has_passed passed_status = 1
has_passed skipped_status = 0
has_passed failed_status = 0

-- how many cases have passed
abbrev pub count_passed : List TestCase → ℕ
count_passed [] = 0
count_passed (c ∷ cs) = has_passed c.status + count_passed cs

abbrev pub counted : TestSuite → ℕ
counted suite = count_passed suite.cases + suite.skipped + suite.failures

abbrev pub case_names : List TestCase → List String
case_names [] = []
case_names (c ∷ cs) = c.name ∷ case_names cs

zero_plus : (n : ℕ) → 0 + n ≡ n
zero_plus n = omega arith

count_passed-append :
    (xs : List TestCase) (c : TestCase)
    → count_passed (xs ++ c ∷ []) ≡ count_passed xs + count_passed (c ∷ [])
count_passed-append [] c = ground arith
count_passed-append (x ∷ xs) c = omega (arith, count_passed-append xs c)

case_names-append :
    (xs : List TestCase) (c : TestCase) → case_names (xs ++ c ∷ []) ≡ case_names xs ++ c.name ∷ []
case_names-append [] c = refl
case_names-append (x ∷ xs) c = ap (λ ns. x.name ∷ ns) (case_names-append xs c)

module _ {World : Type 0} where
  abbrev pub states_of : List (Test × TestState World) → List (TestState World)
  states_of [] = []
  states_of ((t, s) ∷ rest) = s ∷ states_of rest

  abbrev pub names_of : List (Test × TestState World) → List String
  names_of [] = []
  names_of ((t, s) ∷ rest) = t.name ∷ names_of rest

module _ (messages : Test → List String) where
  abbrev pub skipped_case : Test → TestCase
  skipped_case t = record { name = t.name; status = skipped_status; time = pos 0; failure = none }

  abbrev pub failed_case : Test → ℤ → TestCase
  failed_case t time = record {
    name = t.name;
    status = failed_status;
    time = time;
    failure = some (messages t);
  }

  abbrev pub passed_case : Test → ℤ → TestCase
  passed_case t time = record { name = t.name; status = passed_status; time = time; failure = none }

  -- one round of the loop, for a test that is skipped, failed, or neither
  abbrev pub add_skipped : Test → TestSuite → TestSuite
  add_skipped t suite = with_case (skipped_case t) (record suite { skipped = suite.skipped + 1 })

  abbrev pub add_failed : Test → ℤ → TestSuite → TestSuite
  add_failed t time suite =
      with_case (failed_case t time) (record suite { failures = suite.failures + 1 })

  abbrev pub add_passed : Test → ℤ → TestSuite → TestSuite
  add_passed t time suite = with_case (passed_case t time) suite

  module _ {World : Type 0} where
    abbrev pub duration : TestState World → ℤ
    duration s = sub_ℕ s.completion_time s.start_time

    abbrev pub add_test : Test → TestState World → TestSuite → TestSuite
    add_test t s suite =
        let timed = record suite { time = suite.time +ℤ duration s } in
        if s.skipped
        then add_skipped t timed
        else if s.failed
        then add_failed t (duration s) timed
        else add_passed t (duration s) timed

    unfoldable pub add_tests : List (Test × TestState World) → TestSuite → TestSuite
    add_tests [] suite = suite
    add_tests ((t, s) ∷ rest) suite = add_tests rest (add_test t s suite)

    -- the suite of `writeJunit`
    abbrev pub junit_suite : List (Test × TestState World) → TestSuite
    junit_suite ts = add_tests ts (new_suite (length ts))

    add_test-counted :
        (t : Test) (s : TestState World) (suite : TestSuite)
        → counted (add_test t s suite) ≡ counted suite + 1
    add_test-counted t s suite = elim (Bool-cases s.skipped) [
      | inl skip ↦ rw skip (omega (arith, count_passed-append suite.cases (skipped_case t)))
      | inr run ↦ rw run (elim (Bool-cases s.failed) [
        | inl fail ↦
            rw fail (omega (arith, count_passed-append suite.cases (failed_case t (duration s))))
        | inr pass ↦
            rw pass (omega (arith, count_passed-append suite.cases (passed_case t (duration s))))
      ])
    ]

    add_test-names :
        (t : Test) (s : TestState World) (suite : TestSuite)
        → case_names (add_test t s suite).cases ≡ case_names suite.cases ++ t.name ∷ []
    add_test-names t s suite = elim (Bool-cases s.skipped) [
      | inl skip ↦ rw skip (case_names-append suite.cases (skipped_case t))
      | inr run ↦ rw run (elim (Bool-cases s.failed) [
        | inl fail ↦ rw fail (case_names-append suite.cases (failed_case t (duration s)))
        | inr pass ↦ rw pass (case_names-append suite.cases (passed_case t (duration s)))
      ])
    ]

    add_tests-names :
        (ts : List (Test × TestState World)) (suite : TestSuite)
        → case_names (add_tests ts suite).cases ≡ case_names suite.cases ++ names_of ts
    unfolding add_tests
    add_tests-names [] suite = sym (append_nil (case_names suite.cases))
    add_tests-names ((t, s) ∷ ts) suite =
        add_tests-names ts (add_test t s suite)
        ∙ ap (λ ns. ns ++ names_of ts) (add_test-names t s suite)
        ∙ append_assoc (case_names suite.cases) (t.name ∷ []) (names_of ts)

    add_tests-counted :
        (ts : List (Test × TestState World)) (suite : TestSuite)
        → counted (add_tests ts suite) ≡ counted suite + length ts
    unfolding add_tests
    add_tests-counted [] suite = omega arith
    add_tests-counted ((t, s) ∷ ts) suite =
        omega (arith, add_tests-counted ts (add_test t s suite), add_test-counted t s suite)

    add_test-tests :
        (t : Test) (s : TestState World) (suite : TestSuite)
        → (add_test t s suite).tests ≡ suite.tests
    add_test-tests t s suite = ground arith

    add_tests-tests :
        (ts : List (Test × TestState World)) (suite : TestSuite)
        → (add_tests ts suite).tests ≡ suite.tests
    unfolding add_tests
    add_tests-tests [] suite = refl
    add_tests-tests ((t, s) ∷ ts) suite =
        add_tests-tests ts (add_test t s suite) ∙ add_test-tests t s suite

    module _ (env : Environment World) where
      -- what one round adds to the failures, and to the cases that are counted
      add_test-failures :
          (t : Test) (s : TestState World) (states : List (TestState World)) (suite : TestSuite)
          → (add_test t s suite).failures + failed_tests env states
            ≡ suite.failures + failed_tests env (s ∷ states)
      unfolding failed_tests
      add_test-failures t s states suite = ground arith

      add_tests-failures :
          (ts : List (Test × TestState World)) (suite : TestSuite)
          → (add_tests ts suite).failures ≡ suite.failures + failed_tests env (states_of ts)
      unfolding add_tests failed_tests
      add_tests-failures [] suite = omega arith
      add_tests-failures ((t, s) ∷ ts) suite =
          add_tests-failures ts (add_test t s suite) ∙ add_test-failures t s (states_of ts) suite

      report-failures :
          (states : List (TestState World))
          → (report env states ≡ succeeded) ↔ (failed_tests env states ≡ 0)
      report-failures states = elim (Bool-cases (failed_tests env states == 0)) [
        | inl e ↦ rw e (λ _. (nat_beq_iff (failed_tests env states) 0).0 e, λ _. refl)
        | inr e ↦ rw e (λ h. absurd cc, λ h. absurd (ground (arith, e, h)))
      ]

      -- The JUnit suite has a case for each test by its name and in order; the cases that have passed, the
      -- skipped and the failures add up to its tests; its failures are the tests that the report counts as
      -- failed, so the report is a success exactly if there are none.
      pub junit_suite-report :
          (ts : List (Test × TestState World))
          → (case_names (junit_suite ts).cases ≡ names_of ts)
            × (counted (junit_suite ts) ≡ (junit_suite ts).tests)
            × ((junit_suite ts).failures ≡ failed_tests env (states_of ts))
            × ((report env (states_of ts) ≡ succeeded) ↔ ((junit_suite ts).failures ≡ 0))
      junit_suite-report ts =
          let start = new_suite (length ts) in
          let failures =
            add_tests-failures ts start ∙ zero_plus (failed_tests env (states_of ts)) in
          let (to, from) = report-failures (states_of ts) in
          (
            add_tests-names ts start,
            add_tests-counted ts start ∙ zero_plus (length ts) ∙ sym (add_tests-tests ts start),
            failures,
            (λ h. failures ∙ to h, λ h. from (sym failures ∙ h)),
          )
