-- ===== src/Policies/Removal.antt =====
-- connectivity/check/policy.go: where `deletePolicies` succeeds, the policies that it deletes are gone.
use cilium_cli.Prelude.{
  All, String, Option, none, some, List, [], ◌∷◌, Bool, true, false, ◌&&◌, ◌≡◌, refl, sym, ap, ◌∙◌,
  ℤ, Map, Bool-cases, inl, inr, arith,
}
use cilium_cli.Prelude.Acts.{and_then-some, Kept}
use cilium_cli.Policies.Cluster.{Cluster, Kind, cnp, knp, PolicyOf, delete_cnp, delete_knp}
use cilium_cli.Policies.Revisions.{wait_revisions, get_revisions}
use cilium_cli.Policies.Apply.{
  Policies, on_policies, delete_all, delete_at, wait_deleted, delete_policies, is_empty,
}
use cilium_cli.Policies.Cleanup.{
  Deletes, succeed-state, succeed-some, wait_loop-Kept, carry, on_policies-Kept,
  on_policies-Reached,
}

is_empty-All {ℓ κ} : {A : Type ℓ} (Q : A → Type κ) (xs : List A) → is_empty xs ≡ true → All Q xs
is_empty-All Q [] h = tt
is_empty-All Q (x ∷ xs) h = absurd cc

All-map {ℓ κ μ} :
    {A : Type ℓ} (P : A → Type κ) (Q : A → Type μ) (xs : List A)
    → ((x : A) → P x → Q x)
    → All P xs
    → All Q xs
All-map P Q [] f h = tt
All-map P Q (x ∷ xs) f h = (f x h.0, All-map P Q xs f h.1)

module _ (c : Cluster) (Absent : Kind → c.Client → String → String → c.State → Type 0) where
  -- every policy of the map is gone from every client's cluster
  abbrev pub Gone : (k : Kind) → List c.Client → Map String (PolicyOf c k) → c.State → Type 0
  Gone k clients ps s =
      All (λ entry. All (λ client. Absent k client entry.1.namespace entry.1.name s) clients) ps

  Gone-Kept :
      (k : Kind) (clients : List c.Client) (ps : Map String (PolicyOf c k)) (s t : c.State)
      → ((client : c.Client) (namespace name : String)
          → Absent k client namespace name s
          → Absent k client namespace name t)
      → Gone k clients ps s
      → Gone k clients ps t
  Gone-Kept k clients ps s t f =
      All-map _ _ ps
        (λ entry. All-map _ _ clients (λ client. f client entry.1.namespace entry.1.name))

  module _ (d : Deletes c Absent) where
    delete_cnp-Absent :
        (client : c.Client) (p : PolicyOf c cnp) (s : c.State) (b : Bool)
        → (delete_cnp c client p s).1 ≡ some b
        → Absent cnp client p.namespace p.name (delete_cnp c client p s).0
    unfolding delete_cnp
    delete_cnp-Absent client p s b h =
        let x = c.delete cnp client p.namespace p.name s in
        carry (Absent cnp client p.namespace p.name) (succeed-state c false x)
          (d.deletes cnp client p.namespace p.name s (succeed-some c false b x h).1)

    delete_knp-Absent :
        (client : c.Client) (p : PolicyOf c knp) (s : c.State) (b : Bool)
        → (delete_knp c client p s).1 ≡ some b
        → Absent knp client p.namespace p.name (delete_knp c client p s).0
    unfolding delete_knp
    delete_knp-Absent client p s b h =
        let x = c.delete knp client p.namespace p.name s in
        carry (Absent knp client p.namespace p.name) (succeed-state c false x)
          (d.deletes knp client p.namespace p.name s (succeed-some c false b x h).1)

    delete_cnp-Kept :
        (k : Kind) (client : c.Client) (namespace name : String) (other : c.Client)
        (p : PolicyOf c cnp)
        → Kept (Absent k client namespace name) (delete_cnp c other p)
    unfolding delete_cnp
    delete_cnp-Kept k client namespace name other p s h =
        carry (Absent k client namespace name)
          (succeed-state c false (c.delete cnp other p.namespace p.name s))
          (d.delete_keeps k cnp client other namespace p.namespace name p.name s h)

    delete_knp-Kept :
        (k : Kind) (client : c.Client) (namespace name : String) (other : c.Client)
        (p : PolicyOf c knp)
        → Kept (Absent k client namespace name) (delete_knp c other p)
    unfolding delete_knp
    delete_knp-Kept k client namespace name other p s h =
        carry (Absent k client namespace name)
          (succeed-state c false (c.delete knp other p.namespace p.name s))
          (d.delete_keeps k knp client other namespace p.namespace name p.name s h)

    delete_all-Gone :
        (clients : List c.Client) (t : Policies c) (s : c.State) (b : Bool)
        → (delete_all c clients t s).1 ≡ some b
        → Gone cnp clients t.cnps (delete_all c clients t s).0
          × Gone knp clients t.knps (delete_all c clients t s).0
    unfolding delete_all
    delete_all-Gone clients t s b h =
        let u =
          and_then-some (on_policies c (delete_cnp c) clients t.cnps s)
            (λ _. on_policies c (delete_knp c) clients t.knps) b h in
        let s' = (on_policies c (delete_cnp c) clients t.cnps s).0 in
        carry (λ s. Gone cnp clients t.cnps s × Gone knp clients t.knps s) (ap (λ x. x.0) u.2)
          (
            Gone-Kept cnp clients t.cnps s' _
                (λ client namespace name.
                  on_policies-Kept c (delete_knp c) (Absent cnp client namespace name)
                    (delete_knp-Kept cnp client namespace name) clients t.knps s')
                (on_policies-Reached c (delete_cnp c)
                  (λ client p. Absent cnp client p.namespace p.name) delete_cnp-Absent
                  (λ client other p q. delete_cnp-Kept cnp client p.namespace p.name other q)
                  clients t.cnps s u.0 u.1),
            on_policies-Reached c (delete_knp c) (λ client p. Absent knp client p.namespace p.name)
                delete_knp-Absent
                (λ client other p q. delete_knp-Kept knp client p.namespace p.name other q) clients
                t.knps s' b (sym (ap (λ x. x.1) u.2) ∙ h),
          )

    wait_deleted-Gone :
        (clients : List c.Client) (t : Policies c) (revisions : List (c.Pod × ℤ))
        (x : c.State × Option Bool)
        → ((b : Bool) → x.1 ≡ some b → Gone cnp clients t.cnps x.0 × Gone knp clients t.knps x.0)
        → (wait_deleted c revisions x).1 ≡ true
        → Gone cnp clients t.cnps (wait_deleted c revisions x).0
          × Gone knp clients t.knps (wait_deleted c revisions x).0
    unfolding wait_revisions
    wait_deleted-Gone clients t revisions (s, none) f h = absurd cc
    wait_deleted-Gone clients t revisions (s, some b) f h =
        wait_loop-Kept c (λ s. Gone cnp clients t.cnps s × Gone knp clients t.knps s)
          (λ pod revision s g. (
            Gone-Kept cnp clients t.cnps s _
                (λ client namespace name. d.wait_keeps cnp client namespace name pod revision s)
                g.0,
            Gone-Kept knp clients t.knps s _
                (λ client namespace name. d.wait_keeps knp client namespace name pod revision s)
                g.1,
          ))
          revisions true true s (f b refl)

    delete_at-Gone :
        (clients : List c.Client) (t : Policies c) (x : c.State × Option (List (c.Pod × ℤ)))
        → (delete_at c clients t x).1 ≡ true
        → Gone cnp clients t.cnps (delete_at c clients t x).0
          × Gone knp clients t.knps (delete_at c clients t x).0
    delete_at-Gone clients t (s, none) h = absurd cc
    delete_at-Gone clients t (s, some revisions) h =
        wait_deleted-Gone clients t revisions (delete_all c clients t s)
          (λ b e. delete_all-Gone clients t s b e) h

    delete_policies-at :
        (clients : List c.Client) (pods : List c.Pod) (t : Policies c) (s : c.State)
        → (is_empty t.cnps && is_empty t.knps) ≡ false
        → delete_policies c clients pods t s ≡ delete_at c clients t (get_revisions c pods s)
    unfolding delete_policies
    delete_policies-at clients pods t s h = rw h refl

    -- Where `deletePolicies` returns no error, no client's cluster holds any of the test's
    -- CiliumNetworkPolicies or Kubernetes NetworkPolicies, if the API deletes what it says it does.
    pub delete_policies-Gone :
        (clients : List c.Client) (pods : List c.Pod) (t : Policies c) (s : c.State)
        → (delete_policies c clients pods t s).1 ≡ true
        → Gone cnp clients t.cnps (delete_policies c clients pods t s).0
          × Gone knp clients t.knps (delete_policies c clients pods t s).0
    unfolding delete_policies
    delete_policies-Gone clients pods t s h =
        elim (Bool-cases (is_empty t.cnps && is_empty t.knps)) [
          | inl nothing ↦
              (is_empty-All _ t.cnps (ground arith), is_empty-All _ t.knps (ground arith))
          | inr some_policy ↦
              carry (λ x. (x.1 ≡ true → Gone cnp clients t.cnps x.0 × Gone knp clients t.knps x.0))
                (delete_policies-at clients pods t s some_policy)
                (delete_at-Gone clients t (get_revisions c pods s)) h
        ]
