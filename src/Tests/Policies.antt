-- ===== src/Tests/Policies.antt =====
-- A cluster that keeps the names of its policies, and the theorems on it.
use cilium_cli.Prelude.{
  ◌⊎◌, ℕ, ◌≡◌, refl, String, Option, some, none, List, [], ◌∷◌, true, Map, insert, remove, lookup,
  lookup-remove, lookup-insert, false, ◌==◌, string_eq, pos, arith, not, eq_iff, nat_eq,
}
use cilium_cli.Policies.Registry.{Registry, add_cnps, add_cegps}
use cilium_cli.Policies.Registry.Distinct.{
  acceptable, add_cnps-registers, add_cegps-replaces, named, or_recorded,
}
use cilium_cli.Policies.Cluster.{
  Cluster, Policy, Kind, cnp, knp, cegp, Reply, done, already_exists, other_error,
  update_or_create_cnp, create_or_update_knp, create_or_update_cegp, delete_cnp, PolicyOf,
}
use cilium_cli.Policies.Revisions.{get_revisions, retry_revision, wait_revisions, wait_loop}
use cilium_cli.Policies.Apply.{Policies, delete_policies, delete_all, on_policies, on_clients}
use cilium_cli.Policies.Cleanup.{Deletes}
use cilium_cli.Policies.Leftover.{Untouched, delete_policies-Kept}
use cilium_cli.Policies.Removal.{Gone, delete_policies-Gone}
use cilium_cli.Policies.Upsert.{Storage, Serves, HeldAs, upserts-HeldAs}
use cilium_cli.Policies.Waiting.{answers, last_or, wait_revisions-last}

abbrev found : String → String → Option ℕ → Reply (Policy ℕ ℕ ℕ ℕ)
found namespace name none = other_error
found namespace name (some spec) =
    done
      (record { namespace = namespace; name = name; labels = 0; spec = spec; status = 0; meta = 0 })

abbrev names : Cluster
names = record {
  State = Map String ℕ;
  Client = ℕ;
  Pod = ℕ;
  Labels = ℕ;
  Spec = λ k. ℕ;
  Status = ℕ;
  Meta = ℕ;
  no_status = 0;
  spec_equal = λ a b. true;
  get = λ k client namespace name s. (s, found namespace name (lookup name s));
  create = λ k client p s.
      (insert p.name p.spec s, elim (lookup p.name s) [ none ↦ done tt | some _ ↦ already_exists ]);
  update = λ k client p s. (insert p.name p.spec s, done tt);
  delete = λ k client namespace name s. (remove name s, done tt);
  policy_get = λ pod s. (s, some "7");
  policy_wait = λ pod revision s. (s, true);
  trim = λ text. text;
  atoi = λ text. some (pos 7);
}

abbrev Missing : Kind → ℕ → String → String → Map String ℕ → Type 0
Missing k client namespace name s = lookup name s ≡ none

removed : (name : String) (s : Map String ℕ) → lookup name (remove name s) ≡ none
removed name s = ground (arith, lookup-remove name name s, eq_iff name name)

still_removed : (j k : String) (s : Map String ℕ) → lookup k s ≡ none → lookup k (remove j s) ≡ none
still_removed j k s h = ground (arith, lookup-remove j k s)

names-Deletes : Deletes names Missing
names-Deletes = record {
  deletes = λ k client namespace name s _. removed name s;
  delete_keeps =
      λ k k' client client' namespace namespace' name name' s h. still_removed name' name s h;
  wait_keeps = λ k client namespace name pod revision s h. h;
}

abbrev policy : PolicyOf names cnp
policy = record { namespace = "test"; name = "deny"; labels = 0; spec = 1; status = 0; meta = 0 }

abbrev registered : Policies names
registered = record { cnps = ("deny", policy) ∷ []; knps = []; cegps = [] }

deleted : (delete_policies names (0 ∷ []) (0 ∷ []) registered (("deny", 1) ∷ [])).1 ≡ true
unfolding delete_policies delete_all on_policies on_clients delete_cnp get_revisions retry_revision
    wait_revisions wait_loop
deleted = refl

delete_policies-Gone_example :
    Gone names Missing cnp
      (0 ∷ [])
      registered.cnps
      (delete_policies names (0 ∷ []) (0 ∷ []) registered (("deny", 1) ∷ [])).0
    × Gone names Missing knp
        (0 ∷ [])
        registered.knps
        (delete_policies names (0 ∷ []) (0 ∷ []) registered (("deny", 1) ∷ [])).0
delete_policies-Gone_example =
    delete_policies-Gone names Missing names-Deletes (0 ∷ []) (0 ∷ []) registered (("deny", 1) ∷ [])
      deleted

-- only the last of two agents reaches its revision
abbrev slow : Cluster
slow = record names { policy_wait = λ pod revision s. (s, not (pod == 0)) }

wait_revisions-last_example :
    (wait_revisions slow ((0, pos 7) ∷ (1, pos 7) ∷ []) []).1
    ≡ last_or slow true (answers slow ((0, pos 7) ∷ (1, pos 7) ∷ []) [])
wait_revisions-last_example = wait_revisions-last slow ((0, pos 7) ∷ (1, pos 7) ∷ []) []

abbrev none_yet : Registry (String × ℕ) (String × ℕ) (String × ℕ)
none_yet = record { cnps = []; knps = []; cegps = [] }

abbrev two : List (Option (String × ℕ))
two = some ("allow", 1) ∷ some ("deny", 2) ∷ []

add_cnps-registers_example :
    ((add_cnps (λ p. p.0) two none_yet).1 ≡ acceptable (λ p. p.0) [] two)
    × ((acceptable (λ p. p.0) [] two ≡ false)
        ⊎ (lookup "deny" (add_cnps (λ p. p.0) two none_yet).0.cnps
            ≡ or_recorded (named (λ p. p.0) "deny" two) (lookup "deny" none_yet.cnps)))
add_cnps-registers_example = add_cnps-registers (λ p. p.0) two none_yet "deny"

add_cegps-replaces_example :
    ((add_cegps (λ p. p.0) (some ("gateway", 1) ∷ some ("gateway", 2) ∷ []) none_yet).1 ≡ true)
    × (lookup "gateway"
          (add_cegps (λ p. p.0) (some ("gateway", 1) ∷ some ("gateway", 2) ∷ []) none_yet).0.cegps
        ≡ some ("gateway", 2))
unfolding lookup
add_cegps-replaces_example =
    add_cegps-replaces (λ p. p.0) ("gateway", 1) ("gateway", 2) none_yet refl refl refl

abbrev Holds : Storage names
Holds k client namespace name labels spec s = lookup name s ≡ some spec

inserted :
    (name : String) (spec : ℕ) (s : Map String ℕ) → lookup name (insert name spec s) ≡ some spec
inserted name spec s = ground (arith, lookup-insert name name spec s, eq_iff name name)

found-names :
    (namespace name : String) (o : Option ℕ) (q : Policy ℕ ℕ ℕ ℕ)
    → found namespace name o ≡ done q
    → (q.namespace ≡ namespace) × (q.name ≡ name)
found-names namespace name none q h = absurd cc
found-names namespace name (some spec) q h = ground arith

names-Serves : Serves names Holds
names-Serves = record {
  creates = λ k client p s _. inserted p.name p.spec s;
  updates = λ k client p s _. inserted p.name p.spec s;
  gets = λ k client namespace name s q h. found-names namespace name (lookup name s) q h;
}

abbrev network_policy : PolicyOf names knp
network_policy = policy

abbrev gateway : PolicyOf names cegp
gateway = record { namespace = ""; name = "deny"; labels = 0; spec = 1; status = 0; meta = 0 }

abbrev before : Map String ℕ
before = ("deny", 7) ∷ []

updated_cnp : (update_or_create_cnp names 0 policy before).1 ≡ some false
unfolding update_or_create_cnp lookup
updated_cnp = refl

updated_knp : (create_or_update_knp names 0 network_policy before).1 ≡ some false
unfolding create_or_update_knp lookup insert
updated_knp = refl

updated_cegp : (create_or_update_cegp names 0 gateway before).1 ≡ some false
unfolding create_or_update_cegp lookup insert
updated_cegp = refl

upserts-HeldAs_example :
    HeldAs names Holds cnp 0 "test" "deny" policy (update_or_create_cnp names 0 policy before).0
    × HeldAs names Holds knp 0 "test" "deny" network_policy
        (create_or_update_knp names 0 network_policy before).0
    × HeldAs names Holds cegp 0 "" "deny" gateway (create_or_update_cegp names 0 gateway before).0
upserts-HeldAs_example =
    upserts-HeldAs names Holds names-Serves 0 policy network_policy gateway before false false false
      refl updated_cnp updated_knp updated_cegp

-- a cluster that keeps its egress gateway policies apart from the others
abbrev delete_apart :
    Kind
    → ℕ
    → String
    → String
    → Map String ℕ × Map String ℕ
    → (Map String ℕ × Map String ℕ) × Reply Unit
delete_apart cegp client namespace name (others, gateways) =
    ((others, remove name gateways), done tt)
delete_apart cnp client namespace name (others, gateways) =
    ((remove name others, gateways), done tt)
delete_apart knp client namespace name (others, gateways) =
    ((remove name others, gateways), done tt)

abbrev apart : Cluster
apart = record {
  State = Map String ℕ × Map String ℕ;
  Client = ℕ;
  Pod = ℕ;
  Labels = ℕ;
  Spec = λ k. ℕ;
  Status = ℕ;
  Meta = ℕ;
  no_status = 0;
  spec_equal = λ a b. true;
  get = λ k client namespace name s. (s, other_error);
  create = λ k client p s. (s, done tt);
  update = λ k client p s. (s, done tt);
  delete = delete_apart;
  policy_get = λ pod s. (s, some "7");
  policy_wait = λ pod revision s. (s, true);
  trim = λ text. text;
  atoi = λ text. some (pos 7);
}

abbrev HasGateway : Map String ℕ × Map String ℕ → Type 0
HasGateway s = lookup "gateway" s.1 ≡ some 1

apart-Untouched : Untouched apart HasGateway
apart-Untouched = record {
  deletes_cnp = λ client namespace name s h. h;
  deletes_knp = λ client namespace name s h. h;
  asks = λ pod s h. h;
  waits = λ pod revision s h. h;
}

abbrev gateway_test : Policies apart
gateway_test = record {
  cnps = [];
  knps = [];
  cegps =
      (
        "gateway",
        record { namespace = ""; name = "gateway"; labels = 0; spec = 1; status = 0; meta = 0 },
      )
      ∷ [];
}

delete_policies-Kept_example :
    HasGateway (delete_policies apart (0 ∷ []) (0 ∷ []) gateway_test ([], ("gateway", 1) ∷ [])).0
unfolding lookup
delete_policies-Kept_example =
    delete_policies-Kept apart HasGateway apart-Untouched (0 ∷ []) (0 ∷ []) gateway_test
      ([], ("gateway", 1) ∷ []) refl
