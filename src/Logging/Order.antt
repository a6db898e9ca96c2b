-- ===== src/Logging/Order.antt =====
-- connectivity/check/logging.go: the text of a test is printed whole and in order, or not at all.
use cilium_cli.Prelude.{
  String, Option, none, some, List, [], ◌∷◌, ◌++◌, Bool, true, false, ◌==◌, string_eq,
  if◌then◌else◌, ◌≡◌, ◌⊎◌, refl, sym, ap, ◌∙◌, append_nil, append_assoc, Bool-cases, any, inl, inr,
}
use cilium_cli.Logging.{
  Piece, own, header, dot, newline, TestLog, LogParameters, Call, log, logf, debug, debugf, info,
  infof, fail, failf, fatal, fatalf, headerf, progress, debug_sign, info_sign, fail_sign,
  fatal_sign, write, line, put, flush, mark, put_failure, show_progress, call, calls, new_log,
}
use cilium_cli.Logging.Marked.{fails, calls-failed}

-- the test's own pieces
abbrev pub own_pieces : List Piece → List Piece
own_pieces [] = []
own_pieces (own text ∷ ps) = own text ∷ own_pieces ps
own_pieces (header text ∷ ps) = own_pieces ps
own_pieces (dot ∷ ps) = own_pieces ps
own_pieces (newline ∷ ps) = own_pieces ps

abbrev pub buffered : Option (List Piece) → List Piece
buffered none = []
buffered (some b) = b

own_pieces-append : (xs ys : List Piece) → own_pieces (xs ++ ys) ≡ own_pieces xs ++ own_pieces ys
own_pieces-append [] ys = refl
own_pieces-append (own text ∷ xs) ys = ap (λ ps. own text ∷ ps) (own_pieces-append xs ys)
own_pieces-append (header text ∷ xs) ys = own_pieces-append xs ys
own_pieces-append (dot ∷ xs) ys = own_pieces-append xs ys
own_pieces-append (newline ∷ xs) ys = own_pieces-append xs ys

module _ (params : LogParameters) where
  -- the text that a call is to print, and that of a list of calls in order
  abbrev pub text_of : Call → List Piece
  text_of (log time message) = line params time "" message
  text_of (logf time message) = line params time "" message
  text_of (debug time message) = if params.debug then line params time debug_sign message else []
  text_of (debugf time message) = if params.debug then line params time debug_sign message else []
  text_of (info time message) = line params time info_sign message
  text_of (infof time message) = line params time info_sign message
  text_of (fail time message) = line params time fail_sign message
  text_of (failf time message) = line params time fail_sign message
  text_of (fatal time message) = line params time fatal_sign message
  text_of (fatalf time message) = line params time fatal_sign message
  text_of (headerf message) = []
  text_of progress = []

  abbrev pub transcript : List Call → List Piece
  transcript [] = []
  transcript (c ∷ cs) = text_of c ++ transcript cs

  -- So much of its own text the test has logged: what is printed of it and what is in the buffer is
  -- the text in order, none is printed while there is a buffer, and there is none after a failure.
  abbrev pub Logged : List Piece → TestLog → Type 0
  Logged text t =
      (own_pieces t.written ++ own_pieces (buffered t.buffer) ≡ text)
      × ((own_pieces t.written ≡ []) ⊎ (t.buffer ≡ none))
      × ((t.failed ≡ false) ⊎ (t.buffer ≡ none))

  abbrev log_of : Option (List Piece) → List Piece → Bool → TestLog
  log_of b w f = record { buffer = b; written = w; failed = f }

  line-own :
      (time prefix message : String)
      → own_pieces (line params time prefix message) ≡ line params time prefix message
  line-own time prefix message = elim (Bool-cases params.timestamp) [
    | inl stamp ↦
        rw stamp (elim (Bool-cases (prefix == "")) [ inl e ↦ rw e refl | inr e ↦ rw e refl ])
    | inr plain ↦
        rw plain (elim (Bool-cases (prefix == "")) [ inl e ↦ rw e refl | inr e ↦ rw e refl ])
  ]

  write-Logged :
      (pieces text : List Piece) (b : Option (List Piece)) (w : List Piece) (f : Bool)
      → own_pieces pieces ≡ pieces
      → Logged text (log_of b w f)
      → Logged (text ++ pieces) (write pieces (log_of b w f))
  write-Logged pieces text none w f p (h, once, fresh) = (
    cc (
      append_nil (own_pieces (w ++ pieces)),
      own_pieces-append w pieces,
      append_nil (own_pieces w),
    ),
    inr refl,
    inr refl,
  )
  write-Logged pieces text (some b) w f p (h, inl unprinted, inl unmarked) = (
    cc (own_pieces-append b pieces, append_assoc (own_pieces w) (own_pieces b) pieces),
    inl unprinted,
    inl unmarked,
  )
  write-Logged pieces text (some b) w f p (h, inl unprinted, inr e) = absurd cc
  write-Logged pieces text (some b) w f p (h, inr e, fresh) = absurd cc

  flush-Logged :
      (text : List Piece) (b : Option (List Piece)) (w : List Piece) (f : Bool)
      → Logged text (log_of b w f)
      → Logged text (flush params (log_of b w true))
  flush-Logged text none w f (h, once, fresh) = (h, inr refl, inr refl)
  flush-Logged text (some b) w f (h, once, fresh) = (
    cc (
      append_nil (own_pieces ((w ++ newline ∷ []) ++ b)),
      own_pieces-append (w ++ newline ∷ []) b,
      own_pieces-append w (newline ∷ []),
      append_nil (own_pieces w),
    ),
    inr refl,
    inr refl,
  )

  other-Logged :
      (p : Piece) (text : List Piece) (b : Option (List Piece)) (w : List Piece) (f : Bool)
      → own_pieces (p ∷ []) ≡ []
      → Logged text (log_of b w f)
      → Logged text (log_of b (w ++ p ∷ []) f)
  other-Logged p text b w f other (h, once, fresh) =
      let same =
        own_pieces-append w (p ∷ [])
        ∙ ap (λ ps. own_pieces w ++ ps) other
        ∙ append_nil (own_pieces w) in
      (rw same h, rw same once, fresh)

  put-Logged :
      (time prefix message : String) (text : List Piece) (t : TestLog)
      → Logged text t
      → Logged (text ++ line params time prefix message) (put params time prefix message t)
  put-Logged time prefix message text t =
      write-Logged (line params time prefix message) text t.buffer t.written t.failed
        (line-own time prefix message)

  failure-Logged :
      (time prefix message : String) (text : List Piece) (t : TestLog)
      → Logged text t
      → Logged (text ++ line params time prefix message) (put_failure params time prefix message t)
  failure-Logged time prefix message text t h =
      put-Logged time prefix message text (flush params (mark params t))
        (flush-Logged text t.buffer t.written t.failed h)

  maybe-Logged :
      (b : Bool) (pieces text : List Piece) (t u : TestLog)
      → Logged text t
      → Logged (text ++ pieces) u
      → Logged (text ++ (if b then pieces else [])) (if b then u else t)
  maybe-Logged true pieces text t u h k = k
  maybe-Logged false pieces text t u h k = rw (append_nil text) h

  progress-Logged :
      (text : List Piece) (b : Option (List Piece)) (w : List Piece) (f : Bool)
      → Logged text (log_of b w f)
      → Logged text (show_progress params (log_of b w f))
  progress-Logged text none w f h = h
  progress-Logged text (some b) w f h = other-Logged dot text (some b) w f refl h

  call-Logged :
      (c : Call) (text : List Piece) (t : TestLog)
      → Logged text t
      → Logged (text ++ text_of c) (call params c t)
  unfolding call
  call-Logged (log time message) = put-Logged time "" message
  call-Logged (logf time message) = put-Logged time "" message
  call-Logged (info time message) = put-Logged time info_sign message
  call-Logged (infof time message) = put-Logged time info_sign message
  call-Logged (fail time message) = failure-Logged time fail_sign message
  call-Logged (failf time message) = failure-Logged time fail_sign message
  call-Logged (fatal time message) = failure-Logged time fatal_sign message
  call-Logged (fatalf time message) = failure-Logged time fatal_sign message
  call-Logged (debug time message) = λ text t h.
      maybe-Logged params.debug (line params time debug_sign message) text t
        (put params time debug_sign message t) h (put-Logged time debug_sign message text t h)
  call-Logged (debugf time message) = λ text t h.
      maybe-Logged params.debug (line params time debug_sign message) text t
        (put params time debug_sign message t) h (put-Logged time debug_sign message text t h)
  call-Logged (headerf message) = λ text t h.
      rw (append_nil text) (other-Logged (header message) text t.buffer t.written t.failed refl h)
  call-Logged progress =
      λ text t h. rw (append_nil text) (progress-Logged text t.buffer t.written t.failed h)

  calls-Logged :
      (cs : List Call) (text : List Piece) (t : TestLog)
      → Logged text t
      → Logged (text ++ transcript cs) (calls params cs t)
  unfolding calls
  calls-Logged [] text t h = rw (append_nil text) h
  calls-Logged (c ∷ cs) text t h =
      rw (sym (append_assoc text (text_of c) (transcript cs)))
        (calls-Logged cs (text ++ text_of c) (call params c t) (call-Logged c text t h))

  new_log-Logged : Logged [] (new_log params)
  new_log-Logged = elim (Bool-cases params.verbose) [
    | inl v ↦ rw v (refl, inl refl, inl refl)
    | inr q ↦ rw q (elim (Bool-cases params.debug) [
      | inl d ↦ rw d (refl, inl refl, inl refl)
      | inr n ↦ rw n (refl, inl refl, inl refl)
    ])
  ]

  -- After any calls of a test's output methods, what is printed of its own text and what is left in its
  -- buffer are together just the lines of the calls in order (those of `Debug` only in debug mode);
  -- none of it is printed while there is a buffer, there is no buffer once the test is marked as failed,
  -- and it is marked exactly if one of the calls was of `Fail`, `Fatal` or their f-variants.
  pub new_log-calls-Logged :
      (cs : List Call)
      → Logged (transcript cs) (calls params cs (new_log params))
        × ((calls params cs (new_log params)).failed ≡ any (fails params) cs)
  new_log-calls-Logged cs =
      (calls-Logged cs [] (new_log params) new_log-Logged, calls-failed params cs (new_log params))
