-- ===== src/Policies/Upsert.antt =====
-- connectivity/check/policy.go: where a policy was created or updated without error, the cluster holds it.
use cilium_cli.Prelude.{String, some, Bool, true, ◌≡◌, refl, sym, ◌∙◌}
use cilium_cli.Policies.Cluster.{
  Cluster, Kind, cnp, knp, cegp, PolicyOf, Reply, done, already_exists, other_error, succeed,
  overwrite_cnp, update_or_create, update_or_create_cnp, update_knp, after_create_knp,
  create_or_update_knp, update_cegp, after_create_cegp, create_or_update_cegp,
}
use cilium_cli.Policies.Cleanup.{succeed-state, succeed-some, carry}

-- What is on record for a policy: `Holds` tells that the client's cluster has one of this kind,
-- namespace and name with these labels and this specification.
abbrev pub Storage : Cluster → Type 1
Storage c = (k : Kind) → c.Client → String → String → c.Labels → c.Spec k → c.State → Type 0

-- What the API promises: what it creates or updates is on record, and it gets what was asked for.
pub record Serves (c : Cluster) (Holds : Storage c) : Type 0 where
  pub creates :
      (k : Kind) (client : c.Client) (p : PolicyOf c k) (s : c.State)
      → (c.create k client p s).1 ≡ done tt
      → Holds k client p.namespace p.name p.labels p.spec (c.create k client p s).0
  pub updates :
      (k : Kind) (client : c.Client) (p : PolicyOf c k) (s : c.State)
      → (c.update k client p s).1 ≡ done tt
      → Holds k client p.namespace p.name p.labels p.spec (c.update k client p s).0
  pub gets :
      (k : Kind) (client : c.Client) (namespace name : String) (s : c.State) (q : PolicyOf c k)
      → (c.get k client namespace name s).1 ≡ done q
      → (q.namespace ≡ namespace) × (q.name ≡ name)

-- the policy is on record under this namespace and name
abbrev pub HeldAs :
    (c : Cluster)
    → Storage c
    → (k : Kind) → c.Client
    → String
    → String
    → PolicyOf c k
    → c.State
    → Type 0
HeldAs c Holds k client namespace name p s = Holds k client namespace name p.labels p.spec s

module _ (c : Cluster) (Holds : Storage c) (api : Serves c Holds) where
  created :
      (k : Kind) (client : c.Client) (p : PolicyOf c k) (s : c.State) (b b' : Bool)
      → (succeed c b (c.create k client p s)).1 ≡ some b'
      → HeldAs c Holds k client p.namespace p.name p (succeed c b (c.create k client p s)).0
  created k client p s b b' h =
      carry (HeldAs c Holds k client p.namespace p.name p)
        (succeed-state c b (c.create k client p s))
        (api.creates k client p s (succeed-some c b b' (c.create k client p s) h).1)

  updated :
      (k : Kind) (client : c.Client) (q : PolicyOf c k) (namespace name : String) (s : c.State)
      (b b' : Bool)
      → (q.namespace ≡ namespace) × (q.name ≡ name)
      → (succeed c b (c.update k client q s)).1 ≡ some b'
      → HeldAs c Holds k client namespace name q (succeed c b (c.update k client q s)).0
  updated k client q namespace name s b b' e h =
      carry (λ n. HeldAs c Holds k client n name q (succeed c b (c.update k client q s)).0)
        (sym e.0)
        (carry
          (λ n. HeldAs c Holds k client q.namespace n q (succeed c b (c.update k client q s)).0)
          (sym e.1)
          (carry (HeldAs c Holds k client q.namespace q.name q)
            (succeed-state c b (c.update k client q s))
            (api.updates k client q s (succeed-some c b b' (c.update k client q s) h).1)))

  update_or_create-HeldAs :
      (client : c.Client) (p : PolicyOf c cnp) (x : c.State × Reply (PolicyOf c cnp)) (b : Bool)
      → ((q : PolicyOf c cnp) → x.1 ≡ done q → (q.namespace ≡ p.namespace) × (q.name ≡ p.name))
      → (update_or_create c client p x).1 ≡ some b
      → HeldAs c Holds cnp client p.namespace p.name p (update_or_create c client p x).0
  update_or_create-HeldAs client p (s, done q) b e h =
      updated cnp client (overwrite_cnp c q p) p.namespace p.name s _ b (e q refl) h
  update_or_create-HeldAs client p (s, already_exists) b e h = created cnp client p s true b h
  update_or_create-HeldAs client p (s, other_error) b e h = created cnp client p s true b h

  update_or_create_cnp-HeldAs :
      (client : c.Client) (p : PolicyOf c cnp) (s : c.State) (b : Bool)
      → (update_or_create_cnp c client p s).1 ≡ some b
      → HeldAs c Holds cnp client p.namespace p.name p (update_or_create_cnp c client p s).0
  unfolding update_or_create_cnp
  update_or_create_cnp-HeldAs client p s b h =
      update_or_create-HeldAs client p (c.get cnp client p.namespace p.name s) b
        (λ q e. api.gets cnp client p.namespace p.name s q e) h

  update_knp-HeldAs :
      (client : c.Client) (p : PolicyOf c knp) (x : c.State × Reply (PolicyOf c knp)) (b : Bool)
      → ((q : PolicyOf c knp) → x.1 ≡ done q → (q.namespace ≡ p.namespace) × (q.name ≡ p.name))
      → (update_knp c client p x).1 ≡ some b
      → HeldAs c Holds knp client p.namespace p.name p (update_knp c client p x).0
  update_knp-HeldAs client p (s, done q) b e h =
      updated knp client (record q { labels = p.labels; spec = p.spec; status = c.no_status })
        p.namespace p.name s _ b (e q refl) h
  update_knp-HeldAs client p (s, already_exists) b e h = absurd cc
  update_knp-HeldAs client p (s, other_error) b e h = absurd cc

  after_create_knp-HeldAs :
      (client : c.Client) (p : PolicyOf c knp) (x : c.State × Reply Unit) (b : Bool)
      → (x.1 ≡ done tt → HeldAs c Holds knp client p.namespace p.name p x.0)
      → (after_create_knp c client p x).1 ≡ some b
      → HeldAs c Holds knp client p.namespace p.name p (after_create_knp c client p x).0
  after_create_knp-HeldAs client p (s, done tt) b f h = f refl
  after_create_knp-HeldAs client p (s, already_exists) b f h =
      update_knp-HeldAs client p (c.get knp client p.namespace p.name s) b
        (λ q e. api.gets knp client p.namespace p.name s q e) h
  after_create_knp-HeldAs client p (s, other_error) b f h = absurd cc

  create_or_update_knp-HeldAs :
      (client : c.Client) (p : PolicyOf c knp) (s : c.State) (b : Bool)
      → (create_or_update_knp c client p s).1 ≡ some b
      → HeldAs c Holds knp client p.namespace p.name p (create_or_update_knp c client p s).0
  unfolding create_or_update_knp
  create_or_update_knp-HeldAs client p s b h =
      after_create_knp-HeldAs client p (c.create knp client p s) b
        (λ e. api.creates knp client p s e) h

  update_cegp-HeldAs :
      (client : c.Client) (p : PolicyOf c cegp) (x : c.State × Reply (PolicyOf c cegp)) (b : Bool)
      → ((q : PolicyOf c cegp) → x.1 ≡ done q → (q.namespace ≡ p.namespace) × (q.name ≡ p.name))
      → (update_cegp c client p x).1 ≡ some b
      → HeldAs c Holds cegp client p.namespace p.name p (update_cegp c client p x).0
  update_cegp-HeldAs client p (s, done q) b e h =
      updated cegp client (record q { labels = p.labels; spec = p.spec }) p.namespace p.name s _ b
        (e q refl) h
  update_cegp-HeldAs client p (s, already_exists) b e h = absurd cc
  update_cegp-HeldAs client p (s, other_error) b e h = absurd cc

  after_create_cegp-HeldAs :
      (client : c.Client) (p : PolicyOf c cegp) (x : c.State × Reply Unit) (b : Bool)
      → p.namespace ≡ ""
      → (x.1 ≡ done tt → HeldAs c Holds cegp client p.namespace p.name p x.0)
      → (after_create_cegp c client p x).1 ≡ some b
      → HeldAs c Holds cegp client p.namespace p.name p (after_create_cegp c client p x).0
  after_create_cegp-HeldAs client p (s, done tt) b e f h = f refl
  after_create_cegp-HeldAs client p (s, already_exists) b e f h =
      update_cegp-HeldAs client p (c.get cegp client "" p.name s) b
        (λ q got. let same = api.gets cegp client "" p.name s q got in (same.0 ∙ sym e, same.1)) h
  after_create_cegp-HeldAs client p (s, other_error) b e f h = absurd cc

  create_or_update_cegp-HeldAs :
      (client : c.Client) (p : PolicyOf c cegp) (s : c.State) (b : Bool)
      → p.namespace ≡ ""
      → (create_or_update_cegp c client p s).1 ≡ some b
      → HeldAs c Holds cegp client p.namespace p.name p (create_or_update_cegp c client p s).0
  unfolding create_or_update_cegp
  create_or_update_cegp-HeldAs client p s b e h =
      after_create_cegp-HeldAs client p (c.create cegp client p s) b e
        (λ done_. api.creates cegp client p s done_) h

  -- If the API keeps its promises: where `updateOrCreateCNP`, `createOrUpdateKNP` and
  -- `createOrUpdateCEGP` return no error, the cluster holds each policy under its namespace and name
  -- with its labels and its specification, whether it was there before or not. A policy of the third
  -- kind has no namespace.
  pub upserts-HeldAs :
      (client : c.Client) (p : PolicyOf c cnp) (q : PolicyOf c knp) (g : PolicyOf c cegp)
      (s : c.State) (b b' b'' : Bool)
      → g.namespace ≡ ""
      → (update_or_create_cnp c client p s).1 ≡ some b
      → (create_or_update_knp c client q s).1 ≡ some b'
      → (create_or_update_cegp c client g s).1 ≡ some b''
      → HeldAs c Holds cnp client p.namespace p.name p (update_or_create_cnp c client p s).0
        × HeldAs c Holds knp client q.namespace q.name q (create_or_update_knp c client q s).0
        × HeldAs c Holds cegp client g.namespace g.name g (create_or_update_cegp c client g s).0
  upserts-HeldAs client p q g s b b' b'' e h h' h'' = (
    update_or_create_cnp-HeldAs client p s b h,
    create_or_update_knp-HeldAs client q s b' h',
    create_or_update_cegp-HeldAs client g s b'' e h'',
  )
