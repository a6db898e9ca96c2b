-- ===== src/Tests/Execution.antt =====
-- A command of curl that times out, after a blank answer.
use cilium_cli.Prelude.{
  ℕ, zero, suc, ◌≡◌, refl, some, none, [], ◌∷◌, true, false, ◌==◌, string_eq, ◌≤◌, pos, returns,
  if◌then◌else◌, not, int_eq,
}
use cilium_cli.Expectations.{exit_any_error, exit_curl_timeout}
use cilium_cli.Execution.{
  CommandLibrary, Answer, ExecState, executed, run_attempts, exec_in_pod, extract_exit_code,
  inconclusive,
}
use cilium_cli.Execution.Judgement.{
  Ended, exited, Decisive, run_attempts-Decisive, judged, shown, exec_in_pod-check,
  exec_in_pod-inconclusive,
}

abbrev lib : CommandLibrary
lib = record {
  is_blank = λ s. s == "";
  submatches = λ s. if s == "exit code 28" then "exit code 28" ∷ "28" ∷ [] else [];
  atoi = λ s. if s == "28" then some (pos 28) else none;
}

abbrev answers : ℕ → Answer
answers zero = record { output = ""; error = none }
answers (suc i) = record { output = "curl"; error = some "exit code 28" }

abbrev state : ExecState
state = record { cmd_output = ""; failed = false }

timed_out : Ended lib (run_attempts lib 2 answers 0) 28
unfolding run_attempts extract_exit_code
timed_out = exited refl refl

exec_in_pod-check_example :
    exec_in_pod lib false true ("curl" ∷ []) exit_curl_timeout answers state
    ≡ returns (
        executed
          (judged state exit_curl_timeout (run_attempts lib 2 answers 0) 28)
          (shown exit_curl_timeout 28))
exec_in_pod-check_example =
    exec_in_pod-check lib "curl" [] exit_curl_timeout answers 28 state timed_out

run_attempts-Decisive_example : Decisive lib 2 0 answers (run_attempts lib 2 answers 0)
run_attempts-Decisive_example = run_attempts-Decisive lib 2 answers 0

abbrev silence : ℕ → Answer
silence i = record { output = ""; error = none }

silence-inconclusive : (j : ℕ) → j ≤ 2 → inconclusive lib (silence j) ≡ true
silence-inconclusive j h = refl

exec_in_pod-inconclusive_example :
    exec_in_pod lib false true ("curl" ∷ []) exit_any_error silence state
    ≡ returns (executed (record { cmd_output = ""; failed = true }) (not (exit_any_error == pos 0)))
exec_in_pod-inconclusive_example =
    exec_in_pod-inconclusive lib "curl" [] exit_any_error silence state silence-inconclusive
