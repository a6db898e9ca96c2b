-- ===== src/Policies/Cluster.antt =====
-- connectivity/check/policy.go: one policy is created, updated or deleted through the Kubernetes API.
use cilium_cli.Prelude.{String, Option, none, some, Bool, true, false, not, ℤ}
use cilium_cli.Prelude.Acts.{Act}

-- CiliumNetworkPolicy, Kubernetes NetworkPolicy, CiliumEgressGatewayPolicy
pub data Kind : Type 0 where
  cnp knp cegp : Kind

-- `spec` is all of the specification: for a CiliumNetworkPolicy its `Spec` and its `Specs`. `meta`
-- is the metadata that is neither the name nor the labels.
pub record Policy (Labels Spec Status Meta : Type 0) : Type 0 where
  pub namespace : String
  pub name : String
  pub labels : Labels
  pub spec : Spec
  pub status : Status
  pub meta : Meta

-- An error of the API counts by whether `IsAlreadyExists` holds of it.
pub data Reply (A : Type 0) : Type 0 where
  done : A → Reply A
  already_exists other_error : Reply A

-- What the code calls: the API of each client's cluster, the agents' command line, DeepEqual and
-- Go's library. `State` is everything outside the program.
pub record Cluster : Type 1 where
  pub State : Type 0
  pub Client : Type 0
  pub Pod : Type 0
  pub Labels : Type 0
  pub Spec : Kind → Type 0
  pub Status : Type 0
  pub Meta : Type 0
  pub no_status : Status
  pub spec_equal : Spec cnp → Spec cnp → Bool
  pub get :
      (k : Kind)
      → Client
      → String
      → String
      → State
      → State × Reply (Policy Labels (Spec k) Status Meta)
  pub create : (k : Kind) → Client → Policy Labels (Spec k) Status Meta → State → State × Reply Unit
  pub update : (k : Kind) → Client → Policy Labels (Spec k) Status Meta → State → State × Reply Unit
  pub delete : Kind → Client → String → String → State → State × Reply Unit
  pub policy_get : Pod → State → State × Option String
  pub policy_wait : Pod → ℤ → State → State × Bool
  pub trim : String → String
  pub atoi : String → Option ℤ

module _ (c : Cluster) where
  open c use {
    State, Client, Labels, Spec, Status, Meta, no_status, spec_equal, get, create, update, delete,
  }

  abbrev pub PolicyOf : Kind → Type 0
  PolicyOf k = Policy Labels (Spec k) Status Meta

  -- An error ends the calling function. What changes nothing that the agents count answers false.
  abbrev pub succeed : {A B : Type 0} → B → State × Reply A → State × Option B
  succeed b (s, done a) = (s, some b)
  succeed b (s, already_exists) = (s, none)
  succeed b (s, other_error) = (s, none)

  abbrev pub overwrite_cnp : PolicyOf cnp → PolicyOf cnp → PolicyOf cnp
  overwrite_cnp kcnp p = record kcnp { labels = p.labels; spec = p.spec; status = no_status }

  abbrev pub update_or_create :
      Client → PolicyOf cnp → State × Reply (PolicyOf cnp) → State × Option Bool
  update_or_create client p (s, done kcnp) =
      succeed (not (spec_equal kcnp.spec p.spec)) (update cnp client (overwrite_cnp kcnp p) s)
  update_or_create client p (s, already_exists) = succeed true (create cnp client p s)
  update_or_create client p (s, other_error) = succeed true (create cnp client p s)

  -- `updateOrCreateCNP`, which tells whether the policy changed
  unfoldable pub update_or_create_cnp : Client → PolicyOf cnp → Act State Bool
  update_or_create_cnp client p s = update_or_create client p (get cnp client p.namespace p.name s)

  abbrev pub update_knp : Client → PolicyOf knp → State × Reply (PolicyOf knp) → State × Option Bool
  update_knp client p (s, done policy) =
      succeed false (
        update knp client (record policy { labels = p.labels; spec = p.spec; status = no_status })
          s)
  update_knp client p (s, already_exists) = (s, none)
  update_knp client p (s, other_error) = (s, none)

  abbrev pub after_create_knp : Client → PolicyOf knp → State × Reply Unit → State × Option Bool
  after_create_knp client p (s, done tt) = (s, some true)
  after_create_knp client p (s, already_exists) =
      update_knp client p (get knp client p.namespace p.name s)
  after_create_knp client p (s, other_error) = (s, none)

  -- `createOrUpdateKNP`
  unfoldable pub create_or_update_knp : Client → PolicyOf knp → Act State Bool
  create_or_update_knp client p s = after_create_knp client p (create knp client p s)

  abbrev pub update_cegp :
      Client → PolicyOf cegp → State × Reply (PolicyOf cegp) → State × Option Bool
  update_cegp client p (s, done policy) =
      succeed false (update cegp client (record policy { labels = p.labels; spec = p.spec }) s)
  update_cegp client p (s, already_exists) = (s, none)
  update_cegp client p (s, other_error) = (s, none)

  abbrev pub after_create_cegp : Client → PolicyOf cegp → State × Reply Unit → State × Option Bool
  after_create_cegp client p (s, done tt) = (s, some false)
  after_create_cegp client p (s, already_exists) =
      update_cegp client p (get cegp client "" p.name s)
  after_create_cegp client p (s, other_error) = (s, none)

  -- `createOrUpdateCEGP`: the resource has no namespace
  unfoldable pub create_or_update_cegp : Client → PolicyOf cegp → Act State Bool
  create_or_update_cegp client p s = after_create_cegp client p (create cegp client p s)

  unfoldable pub delete_cnp : Client → PolicyOf cnp → Act State Bool
  delete_cnp client p s = succeed false (delete cnp client p.namespace p.name s)

  unfoldable pub delete_knp : Client → PolicyOf knp → Act State Bool
  delete_knp client p s = succeed false (delete knp client p.namespace p.name s)
