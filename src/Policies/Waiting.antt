-- ===== src/Policies/Waiting.antt =====
-- connectivity/check/policy.go: when `waitCiliumPolicyRevisions` returns no error.
use cilium_cli.Prelude.{List, [], ◌∷◌, Bool, true, ◌&&◌, ◌||◌, ◌≡◌, ℤ, pos, ◌+ℤ◌, arith}
use cilium_cli.Policies.Cluster.{Cluster}
use cilium_cli.Policies.Revisions.{wait_loop, wait_revisions}

module _ (c : Cluster) where
  -- what each agent in turn answers to the wait for the revision after its own
  abbrev pub answers : List (c.Pod × ℤ) → c.State → List Bool
  answers [] s = []
  answers ((pod, old) ∷ rest) s =
      let (s', reached) = c.policy_wait pod (old +ℤ pos 1) s in reached ∷ answers rest s'

  abbrev pub last_or : Bool → List Bool → Bool
  last_or b [] = b
  last_or b (a ∷ rest) = last_or a rest

  abbrev pub all_true : List Bool → Bool
  all_true [] = true
  all_true (a ∷ rest) = a && all_true rest

  wait_loop-answers :
      (revisions : List (c.Pod × ℤ)) (reached last : Bool) (s : c.State)
      → (wait_loop c revisions reached last s).1
        ≡ ((reached && all_true (answers revisions s)) || last_or last (answers revisions s))
  unfolding wait_loop
  wait_loop-answers [] reached last s = ground arith
  wait_loop-answers ((pod, old) ∷ rest) reached last s =
      let (s', now) = c.policy_wait pod (old +ℤ pos 1) s in
      ground (arith, wait_loop-answers rest (reached && now) now s')

  last-true : (b : Bool) (xs : List Bool) → b ≡ true → all_true xs ≡ true → last_or b xs ≡ true
  last-true b [] h h' = h
  last-true b (x ∷ xs) h h' = last-true x xs (ground arith) (ground arith)

  -- The wait returns no error exactly where the last agent in the order of the map reached its
  -- revision, whatever the agents before it answered.
  pub wait_revisions-last :
      (revisions : List (c.Pod × ℤ)) (s : c.State)
      → (wait_revisions c revisions s).1 ≡ last_or true (answers revisions s)
  unfolding wait_revisions
  wait_revisions-last revisions s =
      ground (arith, wait_loop-answers revisions true true s, last-true true (answers revisions s))
