-- ===== src/Copy/Progress.antt =====
-- k8s/pipe.go: with enough tries, the copy comes to the end of the file.
use cilium_cli.Prelude.{
  ℕ, suc, ◌+◌, ◌≤◌, ◌<◌, ◌≡◌, refl, ◌⊎◌, inl, inr, List, [], ◌∷◌, ◌++◌, Bool, true, false, take,
  length, length-drop, ℤ, pos, ltbℤ, arith,
}
use cilium_cli.Copy.{
  Tail, CopyPipe, Event, received, closed, failed, Outcome, finished, dropped, copying, new_pipe,
  exhausted, restart, on_failure, read, and_so_on, copy, copy_from_pod,
}
use cilium_cli.Copy.Delivery.{
  AllPossible, InStep, restart-InStep, received-InStep, new_pipe-InStep, restart-stream, copy-Ends,
  Ends,
}

abbrev pub failures : List Event → ℕ
failures [] = 0
failures (received n ∷ events) = failures events
failures (closed ∷ events) = failures events
failures (failed ∷ events) = suc (failures events)

-- every read that gets bytes gets at least one
abbrev pub AllProductive : List Event → Type 0
AllProductive [] = Unit
AllProductive (received n ∷ events) = (0 < n) × AllProductive events
AllProductive (closed ∷ events) = AllProductive events
AllProductive (failed ∷ events) = AllProductive events

-- so many tries are allowed, or any number is
abbrev pub Allows : ℤ → ℕ → Type 0
Allows max_tries n = (ltbℤ max_tries (pos 0) ≡ true) ⊎ ((m : ℕ) × (max_tries ≡ pos m) × (n ≤ m))

zero_plus : (n : ℕ) → 0 + n ≡ n
zero_plus n = omega arith

module _ (tail : Tail) (file : List ℕ) (max_tries : ℤ) where
  allowed_not_exhausted :
      (p : CopyPipe) (n : ℕ)
      → Allows max_tries (p.retries + suc n)
      → exhausted tail file max_tries p ≡ false
  allowed_not_exhausted p n (inl unlimited) = rw unlimited refl
  allowed_not_exhausted p n (inr (m, e, h)) = rw e (ground arith)

  one_more : (r n : ℕ) → Allows max_tries (r + suc n) → Allows max_tries (r + 1 + n)
  one_more r n (inl unlimited) = inl unlimited
  one_more r n (inr (m, e, h)) = inr (m, e, omega arith)

  failed_goes_on :
      (b : Bool) (events : List Event) (p : CopyPipe)
      → b ≡ false
      → AllPossible tail file max_tries events (on_failure tail file max_tries b p).0
      → (AllPossible tail file max_tries events (restart tail file max_tries p)
          → (copy tail file max_tries events (restart tail file max_tries p)).1 ≡ finished)
      → (and_so_on tail file max_tries
          (on_failure tail file max_tries b p).1
          (on_failure tail file max_tries b p).0
          (copy tail file max_tries events)).1
        ≡ finished
  failed_goes_on true events p e h later = absurd cc
  failed_goes_on false events p e h later = later h

  copy-finishes :
      (events : List Event) (p : CopyPipe) (out : List ℕ)
      → AllPossible tail file max_tries events p
      → AllProductive events
      → InStep tail file max_tries out p
      → Allows max_tries (p.retries + failures events)
      → length p.stream + failures events < length events
      → (copy tail file max_tries events p).1 ≡ finished
  unfolding copy read
  copy-finishes [] p out h g s a lt = absurd (omega arith)
  copy-finishes (received n ∷ events) p out h g s a lt =
      copy-finishes events _ (out ++ take n p.stream) h.1 g.1
        (received-InStep tail file max_tries n out p h.0 s) a
        (omega (arith, length-drop n p.stream))
  copy-finishes (closed ∷ events) p out h g s a lt = refl
  copy-finishes (failed ∷ events) p out h g s a lt =
      failed_goes_on (exhausted tail file max_tries p) events p
        (allowed_not_exhausted p (failures events) a) h.1
        (λ possible.
          copy-finishes events (restart tail file max_tries p) out possible g
            (restart-InStep tail file max_tries out p s) (one_more p.retries (failures events) a)
            (rw (restart-stream tail file max_tries out p s) (omega arith)))

  Ends-finished :
      (out : List ℕ) (o : Outcome) → o ≡ finished → Ends tail file max_tries out o → out ≡ file
  Ends-finished out finished e h = h
  Ends-finished out dropped e h = absurd cc
  Ends-finished out (copying p) e h = absurd cc

  -- If each read gets a byte, the end or an error, the command writes no more than it has and ends
  -- only after that, there are no more errors than tries, and enough reads: `CopyFromPod` returns no
  -- error, and has appended the whole remote file to the local one.
  pub copy_from_pod-finishes :
      (events : List Event) (local : List ℕ)
      → AllPossible tail file max_tries events (new_pipe tail file max_tries)
      → AllProductive events
      → Allows max_tries (failures events)
      → length file + failures events < length events
      → copy_from_pod tail file max_tries events local ≡ (local ++ file, finished)
  copy_from_pod-finishes events local h g a lt =
      let p = new_pipe tail file max_tries in
      let start = new_pipe-InStep tail file max_tries in
      let done =
        copy-finishes events p [] h g start (rw (zero_plus (failures events)) a)
          (rw (tail.from_zero file) lt) in
      let out =
        Ends-finished (copy tail file max_tries events p).0 (copy tail file max_tries events p).1
          done (copy-Ends tail file max_tries events p [] h start) in
      cc (done, out)
