-- ===== src/Logging/Marked.antt =====
-- connectivity/check/logging.go: a test is marked as failed by its failing output methods only.
use cilium_cli.Prelude.{
  String, List, [], ◌∷◌, Bool, true, false, ◌||◌, any, string_eq, if◌then◌else◌, ◌≡◌, refl, ◌∙◌,
  arith, inl, inr, Option-cases,
}
use cilium_cli.Logging.{
  Piece, TestLog, LogParameters, Call, log, logf, debug, debugf, info, infof, fail, failf, fatal,
  fatalf, headerf, progress, debug_sign, fail_sign, fatal_sign, write, line, put, flush, mark,
  put_failure, show_progress, call, calls,
}

module _ (params : LogParameters) where
  abbrev pub fails : Call → Bool
  fails (fail time message) = true
  fails (failf time message) = true
  fails (fatal time message) = true
  fails (fatalf time message) = true
  fails _ = false

  write-failed : (pieces : List Piece) (t : TestLog) → (write pieces t).failed ≡ t.failed
  write-failed pieces t = elim (Option-cases t.buffer) [
    | inl e ↦ rw e refl
    | inr (b, e) ↦ rw e refl
  ]

  flush-failed : (t : TestLog) → (flush params t).failed ≡ t.failed
  flush-failed t = elim (Option-cases t.buffer) [ inl e ↦ rw e refl | inr (b, e) ↦ rw e refl ]

  progress-failed : (t : TestLog) → (show_progress params t).failed ≡ t.failed
  progress-failed t = elim (Option-cases t.buffer) [ inl e ↦ rw e refl | inr (b, e) ↦ rw e refl ]

  put_failure-failed :
      (time prefix message : String) (t : TestLog)
      → (put_failure params time prefix message t).failed ≡ true
  put_failure-failed time prefix message t =
      write-failed (line params time prefix message) (flush params (mark params t))
      ∙ flush-failed (mark params t)

  maybe-failed :
      (b : Bool) (t u : TestLog) → u.failed ≡ t.failed → (if b then u else t).failed ≡ t.failed
  maybe-failed true t u e = e
  maybe-failed false t u e = refl

  call-failed : (c : Call) (t : TestLog) → (call params c t).failed ≡ (fails c || t.failed)
  unfolding call
  call-failed (log time message) t = write-failed _ t
  call-failed (logf time message) t = write-failed _ t
  call-failed (info time message) t = write-failed _ t
  call-failed (infof time message) t = write-failed _ t
  call-failed (fail time message) t = put_failure-failed time fail_sign message t
  call-failed (failf time message) t = put_failure-failed time fail_sign message t
  call-failed (fatal time message) t = put_failure-failed time fatal_sign message t
  call-failed (fatalf time message) t = put_failure-failed time fatal_sign message t
  call-failed (debug time message) t =
      maybe-failed params.debug t (put params time debug_sign message t)
        (write-failed (line params time debug_sign message) t)
  call-failed (debugf time message) t =
      maybe-failed params.debug t (put params time debug_sign message t)
        (write-failed (line params time debug_sign message) t)
  call-failed (headerf message) t = refl
  call-failed progress t = progress-failed t

  pub calls-failed :
      (cs : List Call) (t : TestLog) → (calls params cs t).failed ≡ (t.failed || any fails cs)
  unfolding calls
  calls-failed [] t = ground arith
  calls-failed (c ∷ cs) t = ground (arith, calls-failed cs (call params c t), call-failed c t)
