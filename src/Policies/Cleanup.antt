-- ===== src/Policies/Cleanup.antt =====
-- connectivity/check/policy.go: what is left of the policies after `deletePolicies`.
use cilium_cli.Prelude.{
  All, String, some, List, [], ◌∷◌, Bool, ◌||◌, ◌≡◌, refl, sym, ap, ◌∙◌, ℤ, pos, ◌+ℤ◌, Map,
}
use cilium_cli.Prelude.Acts.{Act, and_then-some, Kept, bind-Kept, pure, ◌>>=◌}
use cilium_cli.Policies.Cluster.{Cluster, Kind, Reply, done, already_exists, other_error, succeed}
use cilium_cli.Policies.Revisions.{wait_loop}
use cilium_cli.Policies.Apply.{on_clients, on_policies, either_changed}

module _ (c : Cluster) where
  -- what is known where two acts in a row succeed
  record Succeeded (m n : Act c.State Bool) (s : c.State) : Type 0 where
    first : Bool
    first_ok : (m s).1 ≡ some first
    second : Bool
    second_ok : (n (m s).0).1 ≡ some second
    ends : (either_changed c m n s).0 ≡ (n (m s).0).0

  either_changed-Succeeded :
      (m n : Act c.State Bool) (s : c.State) (b : Bool)
      → (either_changed c m n s).1 ≡ some b
      → Succeeded m n s
  either_changed-Succeeded m n s b h =
      let u = and_then-some (m s) (λ changed. n >>= λ more. pure (changed || more)) b h in
      let h' = sym (ap (λ x. x.1) u.2) ∙ h in
      let v = and_then-some (n (m s).0) (λ more. pure (u.0 || more)) b h' in
      record {
        first = u.0;
        first_ok = u.1;
        second = v.0;
        second_ok = v.1;
        ends = ap (λ x. x.0) u.2 ∙ ap (λ x. x.0) v.2;
      }

  either_changed-Kept :
      (Q : c.State → Type 0) (m n : Act c.State Bool)
      → Kept Q m
      → Kept Q n
      → Kept Q (either_changed c m n)
  either_changed-Kept Q m n hm hn =
      bind-Kept Q m _ hm (λ changed. bind-Kept Q n _ hn (λ more s h. h))

  module _ {P : Type 0} (act : c.Client → P → Act c.State Bool) (Q : c.State → Type 0)
      (keeps : (client : c.Client) (p : P) → Kept Q (act client p)) where
    on_clients-Kept : (clients : List c.Client) (p : P) → Kept Q (on_clients c act clients p)
    unfolding on_clients
    on_clients-Kept [] p s h = h
    on_clients-Kept (client ∷ clients) p s h =
        either_changed-Kept Q (act client p) (on_clients c act clients p) (keeps client p)
          (on_clients-Kept clients p) s h

    pub on_policies-Kept :
        (clients : List c.Client) (ps : Map String P) → Kept Q (on_policies c act clients ps)
    unfolding on_policies
    on_policies-Kept clients [] s h = h
    on_policies-Kept clients ((name, p) ∷ ps) s h =
        either_changed-Kept Q (on_clients c act clients p) (on_policies c act clients ps)
          (on_clients-Kept clients p) (on_policies-Kept clients ps) s h

pub carry : {S : Type 0} (Q : S → Type 0) {s t : S} → s ≡ t → Q t → Q s
carry Q e h = rw e h

-- What every policy of a map comes to on every client, where an operation achieves it and no later
-- run of the operation undoes it.
module _ (c : Cluster) {P : Type 0} (act : c.Client → P → Act c.State Bool)
    (Reached : c.Client → P → c.State → Type 0)
    (achieves : (client : c.Client) (p : P) (s : c.State) (b : Bool)
      → (act client p s).1 ≡ some b
      → Reached client p (act client p s).0)
    (keeps : (client other : c.Client) (p q : P) → Kept (Reached client p) (act other q)) where
  on_clients-Reached :
      (clients : List c.Client) (p : P) (s : c.State) (b : Bool)
      → (on_clients c act clients p s).1 ≡ some b
      → All (λ client. Reached client p (on_clients c act clients p s).0) clients
  unfolding on_clients
  on_clients-Reached [] p s b h = tt
  on_clients-Reached (client ∷ clients) p s b h =
      let u = either_changed-Succeeded c (act client p) (on_clients c act clients p) s b h in
      carry (λ t. All (λ other. Reached other p t) (client ∷ clients)) u.ends
        (
          on_clients-Kept c act (Reached client p) (λ other q. keeps client other p q) clients p
              (act client p s).0 (achieves client p s u.first u.first_ok),
          on_clients-Reached clients p (act client p s).0 u.second u.second_ok,
        )

  pub everywhere-Kept :
      (clients : List c.Client) (p : P) (other : c.Client) (q : P)
      → Kept (λ s. All (λ client. Reached client p s) clients) (act other q)
  everywhere-Kept [] p other q s h = tt
  everywhere-Kept (client ∷ clients) p other q s h =
      (keeps client other p q s h.0, everywhere-Kept clients p other q s h.1)

  pub on_policies-Reached :
      (clients : List c.Client) (ps : Map String P) (s : c.State) (b : Bool)
      → (on_policies c act clients ps s).1 ≡ some b
      → All
          (λ entry.
            All (λ client. Reached client entry.1 (on_policies c act clients ps s).0) clients)
          ps
  unfolding on_policies
  on_policies-Reached clients [] s b h = tt
  on_policies-Reached clients ((name, p) ∷ ps) s b h =
      let u =
        either_changed-Succeeded c (on_clients c act clients p) (on_policies c act clients ps) s b
          h in
      carry (λ t. All (λ entry. All (λ client. Reached client entry.1 t) clients) ((name, p) ∷ ps))
        u.ends
        (
          on_policies-Kept c act (λ t. All (λ client. Reached client p t) clients)
              (λ other q. everywhere-Kept clients p other q) clients ps
              (on_clients c act clients p s).0 (on_clients-Reached clients p s u.first u.first_ok),
          on_policies-Reached clients ps (on_clients c act clients p s).0 u.second u.second_ok,
        )

-- What the API promises of `delete`, and that waiting for the agents restores no policy. `Absent`
-- tells that the client's cluster holds no policy of this kind, namespace and name.
pub record Deletes (c : Cluster) (Absent : Kind → c.Client → String → String → c.State → Type 0)
    : Type 0 where
  pub deletes :
      (k : Kind) (client : c.Client) (namespace name : String) (s : c.State)
      → (c.delete k client namespace name s).1 ≡ done tt
      → Absent k client namespace name (c.delete k client namespace name s).0
  pub delete_keeps :
      (k k' : Kind) (client client' : c.Client) (namespace namespace' name name' : String)
      (s : c.State)
      → Absent k client namespace name s
      → Absent k client namespace name (c.delete k' client' namespace' name' s).0
  pub wait_keeps :
      (k : Kind) (client : c.Client) (namespace name : String) (pod : c.Pod) (revision : ℤ)
      (s : c.State)
      → Absent k client namespace name s
      → Absent k client namespace name (c.policy_wait pod revision s).0

module _ (c : Cluster) where
  pub succeed-state : {A B : Type 0} (b : B) (x : c.State × Reply A) → (succeed c b x).0 ≡ x.0
  succeed-state b (s, done a) = refl
  succeed-state b (s, already_exists) = refl
  succeed-state b (s, other_error) = refl

  pub succeed-some :
      {A B : Type 0} (b b' : B) (x : c.State × Reply A)
      → (succeed c b x).1 ≡ some b'
      → (a : A) × (x.1 ≡ done a)
  succeed-some b b' (s, done a) h = (a, refl)
  succeed-some b b' (s, already_exists) h = absurd cc
  succeed-some b b' (s, other_error) h = absurd cc

  pub wait_loop-Kept :
      (Q : c.State → Type 0)
      → ((pod : c.Pod) (revision : ℤ) (s : c.State) → Q s → Q (c.policy_wait pod revision s).0)
      → (revisions : List (c.Pod × ℤ)) (reached last : Bool) (s : c.State) → Q s
      → Q (wait_loop c revisions reached last s).0
  unfolding wait_loop
  wait_loop-Kept Q keeps [] reached last s h = h
  wait_loop-Kept Q keeps ((pod, old) ∷ rest) reached last s h =
      wait_loop-Kept Q keeps rest _ _ _ (keeps pod (old +ℤ pos 1) s h)
