-- ===== src/Policies/Revisions.antt =====
-- connectivity/check/policy.go: the policy revisions of the Cilium agents are read and waited for.
use cilium_cli.Prelude.{
  ℕ, zero, suc, String, Option, none, some, List, [], ◌∷◌, Bool, true, ◌&&◌, ◌||◌, ℤ, pos, ◌+ℤ◌,
}
use cilium_cli.Prelude.Acts.{Act, pure, ◌>>=◌}
use cilium_cli.Policies.Cluster.{Cluster}

module _ (c : Cluster) where
  open c use {State, Pod, policy_get, policy_wait, trim, atoi}

  abbrev pub parse_revision : State × Option String → State × Option ℤ
  parse_revision (s, none) = (s, none)
  parse_revision (s, some stdout) = (s, atoi (trim stdout))

  -- `getCiliumPolicyRevision`
  abbrev pub get_revision : Pod → Act State ℤ
  get_revision pod s = parse_revision (policy_get pod s)

  abbrev pub or_retry : State × Option ℤ → Act State ℤ → State × Option ℤ
  or_retry (s, some revision) retry = (s, some revision)
  or_retry (s, none) retry = retry s

  -- the attempts for one pod, where `n` more are allowed after this one
  unfoldable pub retry_revision : ℕ → Pod → Act State ℤ
  retry_revision zero pod s = get_revision pod s
  retry_revision (suc n) pod s = or_retry (get_revision pod s) (retry_revision n pod)

  -- `getCiliumPolicyRevisions`, with three attempts for a pod. Go ranges over the pods in an order
  -- that it leaves open.
  unfoldable pub get_revisions : List Pod → Act State (List (Pod × ℤ))
  get_revisions [] = pure []
  get_revisions (pod ∷ pods) = do
    revision ← retry_revision 2 pod
    rest ← get_revisions pods
    pure ((pod, revision) ∷ rest)

  -- The loop of `waitCiliumPolicyRevisions`: `reached` tells whether each pod so far was taken off
  -- the map, and `last` whether the error of the last wait is nil.
  unfoldable pub wait_loop : List (Pod × ℤ) → Bool → Bool → State → State × Bool
  wait_loop [] reached last s = (s, reached || last)
  wait_loop ((pod, old) ∷ rest) reached last s =
      let (s', reached_now) = policy_wait pod (old +ℤ pos 1) s in
      wait_loop rest (reached && reached_now) reached_now s'

  -- `waitCiliumPolicyRevisions`, which tells whether it returned no error
  unfoldable pub wait_revisions : List (Pod × ℤ) → State → State × Bool
  wait_revisions revisions s = wait_loop revisions true true s
