-- ===== src/Policies/Leftover.antt =====
-- connectivity/check/policy.go: `deletePolicies` leaves the egress gateway policies where they are.
use cilium_cli.Prelude.{
  ℕ, zero, suc, String, Option, none, some, List, [], ◌∷◌, Bool, true, false, ◌&&◌, ℤ,
  if◌then◌else◌,
}
use cilium_cli.Prelude.Acts.{Act, Kept, bind-Kept}
use cilium_cli.Policies.Cluster.{Cluster, cnp, knp, PolicyOf, delete_cnp, delete_knp}
use cilium_cli.Policies.Revisions.{
  wait_revisions, get_revision, parse_revision, or_retry, retry_revision, get_revisions,
}
use cilium_cli.Policies.Apply.{
  Policies, delete_all, delete_at, wait_deleted, delete_policies, is_empty, on_policies,
}
use cilium_cli.Policies.Cleanup.{succeed-state, wait_loop-Kept, carry, on_policies-Kept}

-- What the API and the agents promise of anything in the clusters (`Stays`) that is no
-- CiliumNetworkPolicy and no Kubernetes NetworkPolicy: deleting one of these, or asking the agents,
-- leaves it as it is.
pub record Untouched (c : Cluster) (Stays : c.State → Type 0) : Type 0 where
  pub deletes_cnp :
      (client : c.Client) (namespace name : String) (s : c.State)
      → Stays s
      → Stays (c.delete cnp client namespace name s).0
  pub deletes_knp :
      (client : c.Client) (namespace name : String) (s : c.State)
      → Stays s
      → Stays (c.delete knp client namespace name s).0
  pub asks : (pod : c.Pod) (s : c.State) → Stays s → Stays (c.policy_get pod s).0
  pub waits :
      (pod : c.Pod) (revision : ℤ) (s : c.State) → Stays s → Stays (c.policy_wait pod revision s).0

module _ (c : Cluster) (Stays : c.State → Type 0) (api : Untouched c Stays) where
  parse_revision-Stays : (x : c.State × Option String) → Stays x.0 → Stays (parse_revision c x).0
  parse_revision-Stays (s, none) h = h
  parse_revision-Stays (s, some stdout) h = h

  or_retry-Stays :
      (x : c.State × Option ℤ) (retry : Act c.State ℤ)
      → Stays x.0
      → Kept Stays retry
      → Stays (or_retry c x retry).0
  or_retry-Stays (s, some revision) retry h k = h
  or_retry-Stays (s, none) retry h k = k s h

  if-Stays :
      (b : Bool) (x y : c.State × Bool) → Stays x.0 → Stays y.0 → Stays (if b then x else y).0
  if-Stays true x y h k = h
  if-Stays false x y h k = k

  get_revision-Kept : (pod : c.Pod) → Kept Stays (get_revision c pod)
  get_revision-Kept pod s h = parse_revision-Stays (c.policy_get pod s) (api.asks pod s h)

  retry_revision-Kept : (n : ℕ) (pod : c.Pod) → Kept Stays (retry_revision c n pod)
  unfolding retry_revision
  retry_revision-Kept zero pod s h = get_revision-Kept pod s h
  retry_revision-Kept (suc n) pod s h =
      or_retry-Stays (get_revision c pod s) (retry_revision c n pod) (get_revision-Kept pod s h)
        (retry_revision-Kept n pod)

  get_revisions-Kept : (pods : List c.Pod) → Kept Stays (get_revisions c pods)
  unfolding get_revisions
  get_revisions-Kept [] s h = h
  get_revisions-Kept (pod ∷ pods) s h =
      bind-Kept Stays (retry_revision c 2 pod) _ (retry_revision-Kept 2 pod)
        (λ revision.
          bind-Kept Stays (get_revisions c pods) _ (get_revisions-Kept pods) (λ rest t g. g))
        s h

  delete_cnp-Stays : (client : c.Client) (p : PolicyOf c cnp) → Kept Stays (delete_cnp c client p)
  unfolding delete_cnp
  delete_cnp-Stays client p s h =
      carry Stays (succeed-state c false (c.delete cnp client p.namespace p.name s))
        (api.deletes_cnp client p.namespace p.name s h)

  delete_knp-Stays : (client : c.Client) (p : PolicyOf c knp) → Kept Stays (delete_knp c client p)
  unfolding delete_knp
  delete_knp-Stays client p s h =
      carry Stays (succeed-state c false (c.delete knp client p.namespace p.name s))
        (api.deletes_knp client p.namespace p.name s h)

  delete_all-Kept : (clients : List c.Client) (t : Policies c) → Kept Stays (delete_all c clients t)
  unfolding delete_all
  delete_all-Kept clients t =
      bind-Kept Stays (on_policies c (delete_cnp c) clients t.cnps) _
        (on_policies-Kept c (delete_cnp c) Stays delete_cnp-Stays clients t.cnps)
        (λ _. on_policies-Kept c (delete_knp c) Stays delete_knp-Stays clients t.knps)

  wait_deleted-Stays :
      (revisions : List (c.Pod × ℤ)) (x : c.State × Option Bool)
      → Stays x.0
      → Stays (wait_deleted c revisions x).0
  unfolding wait_revisions
  wait_deleted-Stays revisions (s, none) h = h
  wait_deleted-Stays revisions (s, some b) h =
      wait_loop-Kept c Stays api.waits revisions true true s h

  delete_at-Stays :
      (clients : List c.Client) (t : Policies c) (x : c.State × Option (List (c.Pod × ℤ)))
      → Stays x.0
      → Stays (delete_at c clients t x).0
  delete_at-Stays clients t (s, none) h = h
  delete_at-Stays clients t (s, some revisions) h =
      wait_deleted-Stays revisions (delete_all c clients t s) (delete_all-Kept clients t s h)

  -- Whatever is left as it is by the deletion of CiliumNetworkPolicies and Kubernetes NetworkPolicies
  -- and by the agents' command line, such as an egress gateway policy that the test has applied, is
  -- still there after `deletePolicies`.
  pub delete_policies-Kept :
      (clients : List c.Client) (pods : List c.Pod) (t : Policies c) (s : c.State)
      → Stays s
      → Stays (delete_policies c clients pods t s).0
  unfolding delete_policies
  delete_policies-Kept clients pods t s h =
      if-Stays (is_empty t.cnps && is_empty t.knps) (s, true)
        (delete_at c clients t (get_revisions c pods s)) h
        (delete_at-Stays clients t (get_revisions c pods s) (get_revisions-Kept pods s h))
