-- ===== src/Policies/Registry/Distinct.antt =====
-- connectivity/check/policy.go: which lists of policies are registered, and what is on record then.
use cilium_cli.Prelude.{
  String, Option, none, some, List, [], ◌∷◌, Bool, true, false, not, ◌&&◌, ◌||◌, ◌≡◌, refl, Map,
  lookup, insert, lookup-insert, ◌==◌, string_eq, eq_iff, if◌then◌else◌, arith, ◌⊎◌, inl, inr,
  Bool-cases,
}
use cilium_cli.Policies.Registry.{Registry, has, add_to, add_cnps, add_cegps, put_cnp}

module _ {P : Type 0} (name : P → String) where
  -- the policy of that name in the list
  abbrev pub named : String → List (Option P) → Option P
  named k [] = none
  named k (none ∷ ps) = named k ps
  named k (some p ∷ ps) = if name p == k then some p else named k ps

  abbrev pub is_named : String → List (Option P) → Bool
  is_named k ps = elim (named k ps) [ none ↦ false | some _ ↦ true ]

  -- no nil, no empty name, no name twice, and none that is on record
  abbrev pub acceptable : Map String P → List (Option P) → Bool
  acceptable m [] = true
  acceptable m (none ∷ ps) = false
  acceptable m (some p ∷ ps) =
      not (name p == "") && not (has (name p) m) && not (is_named (name p) ps) && acceptable m ps

abbrev pub or_recorded {ℓ} : {P : Type ℓ} → Option P → Option P → Option P
or_recorded (some p) o = some p
or_recorded none o = o

has-insert :
    {P : Type 0} (k j : String) (p : P) (m : Map String P)
    → has j (insert k p m) ≡ (k == j || has j m)
has-insert k j p m = ground (arith, lookup-insert k j p m)

acceptable-insert :
    {P : Type 0} (name : P → String) (p : P) (ps : List (Option P)) (m : Map String P)
    → acceptable name (insert (name p) p m) ps
      ≡ (acceptable name m ps && not (is_named name (name p) ps))
acceptable-insert name p [] m = refl
acceptable-insert name p (none ∷ ps) m = refl
acceptable-insert name p (some q ∷ ps) m = ground (
  arith,
  has-insert (name p) (name q) p m,
  acceptable-insert name p ps m,
  eq_iff (name p) (name q),
  eq_iff (name q) (name p),
)

module _ {Cnp Knp Cegp : Type 0} (name : Cnp → String) where
  add_cnps-verdict :
      (ps : List (Option Cnp)) (r : Registry Cnp Knp Cegp)
      → (add_cnps name ps r).1 ≡ acceptable name r.cnps ps
  unfolding add_to
  add_cnps-verdict [] r = refl
  add_cnps-verdict (none ∷ ps) r = refl
  add_cnps-verdict (some p ∷ ps) r =
      ground (arith, add_cnps-verdict ps (put_cnp name p r), acceptable-insert name p ps r.cnps)

  add_cnps-lookup :
      (ps : List (Option Cnp)) (r : Registry Cnp Knp Cegp) (k : String)
      → acceptable name r.cnps ps ≡ true
      → lookup k (add_cnps name ps r).0.cnps ≡ or_recorded (named name k ps) (lookup k r.cnps)
  unfolding add_to
  add_cnps-lookup [] r k h = refl
  add_cnps-lookup (none ∷ ps) r k h = absurd cc
  add_cnps-lookup (some p ∷ ps) r k h = ground (
    arith,
    add_cnps-lookup ps (put_cnp name p r) k,
    acceptable-insert name p ps r.cnps,
    lookup-insert (name p) k p r.cnps,
    eq_iff (name p) k,
  )

  -- `addCNPs` succeeds exactly where no policy is nil, none has an empty name, and no name is used
  -- twice or is on record already; and then each policy is on record under its name, and what was on
  -- record under other names still is.
  pub add_cnps-registers :
      (ps : List (Option Cnp)) (r : Registry Cnp Knp Cegp) (k : String)
      → ((add_cnps name ps r).1 ≡ acceptable name r.cnps ps)
        × ((acceptable name r.cnps ps ≡ false)
            ⊎ (lookup k (add_cnps name ps r).0.cnps
                ≡ or_recorded (named name k ps) (lookup k r.cnps)))
  add_cnps-registers ps r k = (
    add_cnps-verdict ps r,
    elim (Bool-cases (acceptable name r.cnps ps)) [
      | inl e ↦ inr (add_cnps-lookup ps r k e)
      | inr e ↦ inl e
    ],
  )

module _ {Cnp Knp Cegp : Type 0} (name : Cegp → String) where
  -- Two egress gateway policies of one name, which is not the name of a `CiliumNetworkPolicy`, are
  -- both accepted, and the second replaces the first.
  pub add_cegps-replaces :
      (p q : Cegp) (r : Registry Cnp Knp Cegp)
      → name q ≡ name p
      → (name p == "") ≡ false
      → has (name p) r.cnps ≡ false
      → ((add_cegps name (some p ∷ some q ∷ []) r).1 ≡ true)
        × (lookup (name p) (add_cegps name (some p ∷ some q ∷ []) r).0.cegps ≡ some q)
  unfolding add_to
  add_cegps-replaces p q r e named_ fresh = ground (
    arith,
    lookup-insert (name p) (name p) q (insert (name p) p r.cegps),
    eq_iff (name p) (name p),
  )
