-- ===== src/Execution.antt =====
-- connectivity/check/action.go: `ExecInPod` runs the command of an action and judges how it ended.
pub mod Judgement
use cilium_cli.Prelude.{
  ℕ, zero, suc, String, Option, none, some, List, [], ◌∷◌, Bool, true, false, not, ◌&&◌, ◌||◌, ◌==◌,
  string_eq, int_eq, if◌then◌else◌, ℤ, pos, ltbℤ, Run, returns, panics,
}
use cilium_cli.Expectations.{exit_any_error, exit_invalid_code}

-- From Go's library: whether `strings.TrimSpace` leaves nothing, what `FindStringSubmatch` of
-- `exitCodeRegex` answers, and `strconv.Atoi`.
pub record CommandLibrary : Type 0 where
  pub is_blank : String → Bool
  pub submatches : String → List String
  pub atoi : String → Option ℤ

-- what the Kubernetes client answers: the output, and the text of the error if there is one
pub record Answer : Type 0 where
  pub output : String
  pub error : Option String

abbrev pub in_range : Option ℤ → ℤ
in_range none = exit_invalid_code
in_range (some i) = if ltbℤ i (pos 0) || ltbℤ (pos 255) i then exit_invalid_code else i

-- the code alone: the error that goes with an invalid one is only logged
abbrev pub submatch_code : CommandLibrary → List String → ℤ
submatch_code lib [] = exit_invalid_code
submatch_code lib (m0 ∷ []) = exit_invalid_code
submatch_code lib (m0 ∷ m1 ∷ []) = if m1 == "" then exit_invalid_code else in_range (lib.atoi m1)
submatch_code lib (m0 ∷ m1 ∷ m2 ∷ ms) = exit_invalid_code

unfoldable pub extract_exit_code : CommandLibrary → String → ℤ
extract_exit_code lib err = submatch_code lib (lib.submatches err)

abbrev pub inconclusive : CommandLibrary → Answer → Bool
inconclusive lib a = elim a.error [ none ↦ lib.is_blank a.output | some _ ↦ false ]

-- The attempts, the i-th with `answers i`, where `n` more are allowed after this one.
unfoldable pub run_attempts : CommandLibrary → ℕ → (ℕ → Answer) → ℕ → Answer
run_attempts lib zero answers i = answers i
run_attempts lib (suc n) answers i =
    let later = run_attempts lib n answers (suc i) in
    if inconclusive lib (answers i) then later else answers i

-- what `ExecInPod` changes
pub record ExecState : Type 0 where
  pub cmd_output : String
  pub failed : Bool

-- `stopped`: `Fatal` ends the goroutine. `executed` also tells whether the output is shown.
pub data Execution : Type 0 where
  stopped : ExecState → Execution
  executed : ExecState → Bool → Execution

abbrev pub fail_if : Bool → ExecState → ExecState
fail_if b s = if b then record s { failed = true } else s

unfoldable pub judge : CommandLibrary → ℤ → Answer → ExecState → Execution
judge lib expected a s = elim a.error [
  | none ↦ executed (fail_if (not (expected == pos 0)) s) (not (expected == pos 0))
  | some err ↦
      if expected == pos 0
      then executed (fail_if true s) true
      else executed
          (fail_if (not ((expected == exit_any_error) || (extract_exit_code lib err == expected)))
            s)
          false
]

unfoldable pub exec_in_pod :
    CommandLibrary → Bool → Bool → List String → ℤ → (ℕ → Answer) → ExecState → Run Execution
exec_in_pod lib cancelled has_source cmd expected answers s =
    if cancelled || not has_source then returns (stopped (fail_if true s)) else elim cmd [
      | [] ↦ panics
      | name ∷ arguments ↦
          let a : Answer = run_attempts lib 2 answers 0 in
          returns (
            judge lib expected a
              (fail_if (inconclusive lib a) (record s { cmd_output = a.output })))
    ]
