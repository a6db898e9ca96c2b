-- ===== src/Policies/Apply.antt =====
-- connectivity/check/policy.go: `applyPolicies` and `deletePolicies`.
use cilium_cli.Prelude.{
  String, Option, none, some, List, [], ◌∷◌, Bool, true, false, ◌&&◌, ◌||◌, ℤ, Map, if◌then◌else◌,
}
use cilium_cli.Prelude.Acts.{Act, pure, ◌>>=◌}
use cilium_cli.Policies.Registry.{Registry}
use cilium_cli.Policies.Cluster.{
  Cluster, cnp, knp, cegp, PolicyOf, update_or_create_cnp, create_or_update_knp,
  create_or_update_cegp, delete_cnp, delete_knp,
}
use cilium_cli.Policies.Revisions.{get_revisions, wait_revisions}

abbrev pub is_empty {ℓ} : {A : Type ℓ} → List A → Bool
is_empty [] = true
is_empty (x ∷ xs) = false

-- `cleanup` tells whether the finalizer that deletes the policies was registered, and `ok` whether
-- no error was returned.
pub record Applied : Type 0 where
  pub cleanup : Bool
  pub ok : Bool

module _ (c : Cluster) where
  open c use {State, Client, Pod}

  abbrev pub Policies : Type 0
  Policies = Registry (PolicyOf c cnp) (PolicyOf c knp) (PolicyOf c cegp)

  -- one after the other, and whether one of them changed something
  abbrev pub either_changed : Act State Bool → Act State Bool → Act State Bool
  either_changed m n = do changed ← m; more ← n; pure (changed || more)

  -- one policy on each client, and whether any of them changed
  unfoldable pub on_clients :
      {P : Type 0} → (Client → P → Act State Bool) → List Client → P → Act State Bool
  on_clients act [] p = pure false
  on_clients act (client ∷ clients) p = either_changed (act client p) (on_clients act clients p)

  -- Go ranges over the maps in an order that it leaves open.
  unfoldable pub on_policies :
      {P : Type 0} → (Client → P → Act State Bool) → List Client → Map String P → Act State Bool
  on_policies act clients [] = pure false
  on_policies act clients ((name, p) ∷ ps) =
      either_changed (on_clients act clients p) (on_policies act clients ps)

  unfoldable pub apply_all : List Client → Policies → Act State Bool
  apply_all clients t = do
    cnps_changed ← on_policies (update_or_create_cnp c) clients t.cnps
    knps_changed ← on_policies (create_or_update_knp c) clients t.knps
    cegps_changed ← on_policies (create_or_update_cegp c) clients t.cegps
    pure (cnps_changed || knps_changed)

  abbrev pub wait_if_changed : List (Pod × ℤ) → State × Option Bool → State × Applied
  wait_if_changed revisions (s, none) = (s, record { cleanup = false; ok = false })
  wait_if_changed revisions (s, some false) = (s, record { cleanup = true; ok = true })
  wait_if_changed revisions (s, some true) =
      let (s', reached) = wait_revisions c revisions s in
      (s', record { cleanup = true; ok = reached })

  abbrev pub apply_at : List Client → Policies → State × Option (List (Pod × ℤ)) → State × Applied
  apply_at clients t (s, none) = (s, record { cleanup = false; ok = false })
  apply_at clients t (s, some revisions) = wait_if_changed revisions (apply_all clients t s)

  -- `applyPolicies`
  unfoldable pub apply_policies : List Client → List Pod → Policies → State → State × Applied
  apply_policies clients pods t s =
      if is_empty t.cnps && is_empty t.knps && is_empty t.cegps
      then (s, record { cleanup = false; ok = true })
      else apply_at clients t (get_revisions c pods s)

  abbrev pub wait_deleted : List (Pod × ℤ) → State × Option Bool → State × Bool
  wait_deleted revisions (s, none) = (s, false)
  wait_deleted revisions (s, some changed) = wait_revisions c revisions s

  unfoldable pub delete_all : List Client → Policies → Act State Bool
  delete_all clients t = do
    cnps_deleted ← on_policies (delete_cnp c) clients t.cnps
    on_policies (delete_knp c) clients t.knps

  abbrev pub delete_at : List Client → Policies → State × Option (List (Pod × ℤ)) → State × Bool
  delete_at clients t (s, none) = (s, false)
  delete_at clients t (s, some revisions) = wait_deleted revisions (delete_all clients t s)

  -- `deletePolicies`, which tells whether it returned no error
  unfoldable pub delete_policies : List Client → List Pod → Policies → State → State × Bool
  delete_policies clients pods t s =
      if is_empty t.cnps && is_empty t.knps
      then (s, true)
      else delete_at clients t (get_revisions c pods s)
