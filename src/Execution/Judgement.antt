-- ===== src/Execution/Judgement.antt =====
-- connectivity/check/action.go: which attempt of a command counts, and that its exit code is judged as
-- `ExitCode.Check` of connectivity/check/policy.go judges it.
use cilium_cli.Prelude.{
  ℕ, zero, suc, ◌+◌, ◌<◌, ◌≤◌, ◌≡◌, refl, sym, ap, String, none, some, List, ◌∷◌, Bool, true, false,
  not, ◌||◌, ◌⊎◌, inl, inr, ◌==◌, nat_eq, int_eq, int_beq_iff, ℤ, pos, returns, arith, Bool-cases,
  if◌then◌else◌,
}
use cilium_cli.Expectations.{check, exit_any_error}
use cilium_cli.Execution.{
  CommandLibrary, Answer, extract_exit_code, inconclusive, run_attempts, ExecState, executed, judge,
  exec_in_pod, fail_if,
}

-- The attempt that counts: all before it were inconclusive, and it is only if it is the last one.
pub record Decisive (lib : CommandLibrary) (n i : ℕ) (answers : ℕ → Answer) (a : Answer)
    : Type 0 where
  pub deciding : ℕ
  pub in_time : deciding ≤ i + n
  pub is_answer : a ≡ answers deciding
  pub before : (j : ℕ) → i ≤ j → j < deciding → inconclusive lib (answers j) ≡ true
  pub last : inconclusive lib a ≡ true → deciding ≡ i + n

at-or-after : (i j : ℕ) → i ≤ j → (i ≡ j) ⊎ (suc i ≤ j)
at-or-after i j h = ground arith

before-again :
    (lib : CommandLibrary) (answers : ℕ → Answer) (i j : ℕ)
    → i ≤ j
    → inconclusive lib (answers i) ≡ true
    → (suc i ≤ j → inconclusive lib (answers j) ≡ true)
    → inconclusive lib (answers j) ≡ true
before-again lib answers i j le h later = elim (at-or-after i j le) [
  | inl e ↦ rw (sym e) h
  | inr lt ↦ later lt
]

-- The attempts of a command end at the first conclusive answer, or at the last one allowed.
pub run_attempts-Decisive :
    (lib : CommandLibrary) (n : ℕ) (answers : ℕ → Answer) (i : ℕ)
    → Decisive lib n i answers (run_attempts lib n answers i)
unfolding run_attempts
run_attempts-Decisive lib zero answers i = record {
  deciding = i;
  in_time = omega arith;
  is_answer = refl;
  before = λ j le lt. absurd (omega arith);
  last = λ _. omega arith;
}
run_attempts-Decisive lib (suc n) answers i = elim (Bool-cases (inconclusive lib (answers i))) [
  | inl again ↦
      let d = run_attempts-Decisive lib n answers (suc i) in
      rw again (record {
        deciding = d.deciding;
        in_time = omega (arith, d.in_time);
        is_answer = d.is_answer;
        before = λ j le lt. before-again lib answers i j le again (λ le'. d.before j le' lt);
        last = λ h. omega (arith, d.last h);
      })
  | inr done ↦ rw done (record {
    deciding = i;
    in_time = omega arith;
    is_answer = refl;
    before = λ j le lt. absurd (omega arith);
    last = λ h. absurd cc;
  })
]

-- the answer reports that the command ended with this status
pub data Ended (lib : CommandLibrary) (a : Answer) : ℕ → Type 0 where
  succeeded : a.error ≡ none → lib.is_blank a.output ≡ false → Ended lib a 0
  exited :
      {err : String} {status : ℕ}
      → a.error ≡ some err
      → extract_exit_code lib err ≡ pos (suc status)
      → Ended lib a (suc status)

-- what the command's output and mark are after it was judged by its status
abbrev pub judged : ExecState → ℤ → Answer → ℕ → ExecState
judged s expected a status = record {
  cmd_output = a.output;
  failed = s.failed || not (check expected status);
}

-- the output is shown where the command failed or succeeded against the expectation
abbrev pub shown : ℤ → ℕ → Bool
shown expected status = if status == 0 then not (expected == pos 0) else (expected == pos 0)

judge-Ended :
    (lib : CommandLibrary) (expected : ℤ) (a : Answer) (status : ℕ) (s : ExecState)
    → Ended lib a status
    → judge lib expected a (fail_if (inconclusive lib a) (record s { cmd_output = a.output }))
      ≡ executed (judged s expected a status) (shown expected status)
unfolding judge check
judge-Ended lib expected a zero s (succeeded no_error output) =
    rw (no_error, output)
      (ground (arith, int_beq_iff expected (pos 0), int_beq_iff expected exit_any_error))
judge-Ended lib expected a (suc status) s (exited {err} error code) =
    rw (error, code)
      (ground (
        arith,
        int_beq_iff expected (pos 0),
        int_beq_iff expected exit_any_error,
        int_beq_iff (pos (suc status)) expected,
        int_beq_iff expected (pos (suc status)),
      ))

-- Where the context is not cancelled, there is a source pod, and the attempt that counts reports the
-- status of the command, `ExecInPod` marks the action as failed exactly where `Check` of the expected
-- exit code refuses that status (a mark that is there stays), and keeps the attempt's output.
pub exec_in_pod-check :
    (lib : CommandLibrary) (name : String) (arguments : List String) (expected : ℤ)
    (answers : ℕ → Answer) (status : ℕ) (s : ExecState)
    → Ended lib (run_attempts lib 2 answers 0) status
    → exec_in_pod lib false true (name ∷ arguments) expected answers s
      ≡ returns (
          executed
            (judged s expected (run_attempts lib 2 answers 0) status)
            (shown expected status))
unfolding exec_in_pod
exec_in_pod-check lib name arguments expected answers status s h =
    ap returns (judge-Ended lib expected (run_attempts lib 2 answers 0) status s h)

no_error_if-inconclusive :
    (lib : CommandLibrary) (a : Answer) → inconclusive lib a ≡ true → a.error ≡ none
no_error_if-inconclusive lib a h = ground arith

judge-inconclusive :
    (lib : CommandLibrary) (expected : ℤ) (a : Answer) (s : ExecState)
    → inconclusive lib a ≡ true
    → judge lib expected a (fail_if (inconclusive lib a) (record s { cmd_output = a.output }))
      ≡ executed (record { cmd_output = a.output; failed = true }) (not (expected == pos 0))
unfolding judge
judge-inconclusive lib expected a s h = rw (h, no_error_if-inconclusive lib a h) (ground arith)

-- Where the context is not cancelled, there is a source pod, and all three attempts succeed without
-- output, `ExecInPod` marks the action as failed, whatever
-- exit code was expected, and keeps the output of the third attempt.
pub exec_in_pod-inconclusive :
    (lib : CommandLibrary) (name : String) (arguments : List String) (expected : ℤ)
    (answers : ℕ → Answer) (s : ExecState)
    → ((j : ℕ) → j ≤ 2 → inconclusive lib (answers j) ≡ true)
    → exec_in_pod lib false true (name ∷ arguments) expected answers s
      ≡ returns (
          executed
            (record { cmd_output = (answers 2).output; failed = true })
            (not (expected == pos 0)))
unfolding exec_in_pod run_attempts
exec_in_pod-inconclusive lib name arguments expected answers s h =
    rw (h 0 (omega arith), h 1 (omega arith))
      (ap returns (judge-inconclusive lib expected (answers 2) s (h 2 (omega arith))))
