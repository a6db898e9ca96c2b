-- ===== src/Copy/Delivery.antt =====
-- k8s/pipe.go: what is copied is a prefix of the file, and all of it where the copy ends well.
use cilium_cli.Prelude.{
  ℕ, suc, ◌+◌, ◌≤◌, ◌≡◌, refl, sym, ap, ◌∙◌, List, [], ◌∷◌, ◌++◌, Bool, true, false, ◌==◌, nat_eq,
  take, drop, length, take-append-drop, length-take, drop-append, append_nil, append_assoc,
  length-append, ℤ, arith,
}
use cilium_cli.Copy.{
  Tail, CopyPipe, Event, received, closed, failed, Outcome, finished, dropped, copying, new_pipe,
  exhausted, restart, on_failure, read, and_so_on, copy, copy_from_pod,
}

-- What a read of the pipe can meet: no more bytes than the command has still to write, and its end
-- only after the last of them.
abbrev pub Possible : Event → List ℕ → Type 0
Possible (received n) stream = n ≤ length stream
Possible closed stream = stream ≡ []
Possible failed stream = Unit

plus_one : (n : ℕ) → n + 1 ≡ suc n
plus_one n = omega arith

not_zero : (n : ℕ) → (suc n == 0) ≡ false
not_zero n = ground arith

module _ (tail : Tail) (file : List ℕ) (max_tries : ℤ) where
  -- each event can happen where it does
  abbrev pub AllPossible : List Event → CopyPipe → Type 0
  AllPossible [] p = Unit
  AllPossible (e ∷ events) p =
      Possible e p.stream × AllPossible events (read tail file max_tries e p).0

  -- what was read, and what the command has still to write, make up the file
  pub record InStep (out : List ℕ) (p : CopyPipe) : Type 0 where
    pub whole : out ++ p.stream ≡ file
    pub counted : p.bytes_read ≡ length out

  pub restart-stream :
      (out : List ℕ) (p : CopyPipe)
      → InStep out p
      → (restart tail file max_tries p).stream ≡ p.stream
  restart-stream [] p s = rw s.counted (tail.from_zero file ∙ sym s.whole)
  restart-stream (x ∷ out) p s =
      rw (s.counted, sym s.whole)
        (rw (plus_one (suc (length out)), not_zero (length out))
          (tail.from_suc (suc (length out)) ((x ∷ out) ++ p.stream) ∙ drop-append out p.stream))

  pub received-InStep :
      (n : ℕ) (out : List ℕ) (p : CopyPipe)
      → n ≤ length p.stream
      → InStep out p
      → InStep (out ++ take n p.stream) (read tail file max_tries (received n) p).0
  unfolding read
  received-InStep n out p h s = record {
    whole =
        append_assoc out (take n p.stream) (drop n p.stream)
        ∙ ap (λ xs. out ++ xs) (take-append-drop n p.stream)
        ∙ s.whole;
    counted =
        omega (arith, s.counted, length-append out (take n p.stream), length-take n p.stream h);
  }

  pub restart-InStep :
      (out : List ℕ) (p : CopyPipe) → InStep out p → InStep out (restart tail file max_tries p)
  restart-InStep out p s = record {
    whole = ap (λ xs. out ++ xs) (restart-stream out p s) ∙ s.whole;
    counted = s.counted;
  }

  pub new_pipe-InStep : InStep [] (new_pipe tail file max_tries)
  new_pipe-InStep = record { whole = tail.from_zero file; counted = refl }

  -- how much of the file was copied
  abbrev pub Ends : List ℕ → Outcome → Type 0
  Ends out finished = out ≡ file
  Ends out dropped = (rest : List ℕ) × (out ++ rest ≡ file)
  Ends out (copying p) = InStep out p

  -- a failed read, by whether the tries are exhausted
  failed-Ends :
      (b : Bool) (events : List Event) (p : CopyPipe) (out : List ℕ)
      → AllPossible events (on_failure tail file max_tries b p).0
      → InStep out p
      → (AllPossible events (restart tail file max_tries p)
          → Ends
              (out ++ (copy tail file max_tries events (restart tail file max_tries p)).0)
              (copy tail file max_tries events (restart tail file max_tries p)).1)
      → Ends
          (out
            ++ (and_so_on tail file max_tries
                (on_failure tail file max_tries b p).1
                (on_failure tail file max_tries b p).0
                (copy tail file max_tries events)).0)
          (and_so_on tail file max_tries
            (on_failure tail file max_tries b p).1
            (on_failure tail file max_tries b p).0
            (copy tail file max_tries events)).1
  failed-Ends true events p out h s later = rw (append_nil out) (p.stream, s.whole)
  failed-Ends false events p out h s later = later h

  pub copy-Ends :
      (events : List Event) (p : CopyPipe) (out : List ℕ)
      → AllPossible events p
      → InStep out p
      → Ends (out ++ (copy tail file max_tries events p).0) (copy tail file max_tries events p).1
  unfolding copy read
  copy-Ends [] p out h s = rw (append_nil out) s
  copy-Ends (received n ∷ events) p out h s =
      rw
        (sym (
          append_assoc out (take n p.stream)
            (copy tail file max_tries events (read tail file max_tries (received n) p).0).0))
        (copy-Ends events _ (out ++ take n p.stream) h.1 (received-InStep n out p h.0 s))
  copy-Ends (closed ∷ events) p out h s =
      rw (append_nil out) (sym (append_nil out) ∙ ap (λ xs. out ++ xs) (sym h.0) ∙ s.whole)
  copy-Ends (failed ∷ events) p out h s =
      failed-Ends (exhausted tail file max_tries p) events p out h.1 s (λ possible.
        copy-Ends events (restart tail file max_tries p) out possible (restart-InStep out p s))

  -- Whatever the reads meet, as long as the command writes no more than it has and ends only after
  -- that: what `CopyFromPod` appends to the local file is a prefix of the remote file, also where it
  -- was resumed and where it is given up; and it is all of it where no error is returned.
  pub copy_from_pod-Ends :
      (events : List Event) (local : List ℕ)
      → AllPossible events (new_pipe tail file max_tries)
      → (out : List ℕ) × ((copy_from_pod tail file max_tries events local).0 ≡ local ++ out)
        × Ends out (copy_from_pod tail file max_tries events local).1
  copy_from_pod-Ends events local h = (
    (copy tail file max_tries events (new_pipe tail file max_tries)).0,
    refl,
    copy-Ends events (new_pipe tail file max_tries) [] h new_pipe-InStep,
  )
