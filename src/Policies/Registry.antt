-- ===== src/Policies/Registry.antt =====
-- connectivity/check/policy.go: `addCNPs`, `addKNPs` and `addCEGPs` register policies by name.
pub mod Distinct
use cilium_cli.Prelude.{
  String, Option, none, some, List, [], ◌∷◌, Bool, true, false, ◌||◌, Map, lookup, insert, ◌==◌,
  string_eq, if◌then◌else◌,
}

-- the maps of a test, for policies of three types
pub record Registry (Cnp Knp Cegp : Type 0) : Type 0 where
  pub cnps : Map String Cnp
  pub knps : Map String Knp
  pub cegps : Map String Cegp

abbrev pub has {ℓ} : {P : Type ℓ} → String → Map String P → Bool
has k m = elim (lookup k m) [ none ↦ false | some _ ↦ true ]

-- The loop of the three functions: `taken` is the test for a name that is in use. A policy is a
-- pointer, which may be nil. The answer is false at an error, with what was added before it.
unfoldable pub add_to {ℓ κ} :
    {P : Type ℓ} {R : Type κ}
    → (P → String)
    → (String → R → Bool)
    → (P → R → R)
    → List (Option P)
    → R
    → R × Bool
add_to name taken put [] r = (r, true)
add_to name taken put (none ∷ ps) r = (r, false)
add_to name taken put (some p ∷ ps) r =
    let later = add_to name taken put ps (put p r) in
    if (name p == "") || taken (name p) r then (r, false) else later

module _ {Cnp Knp Cegp : Type 0} where
  abbrev pub put_cnp : (Cnp → String) → Cnp → Registry Cnp Knp Cegp → Registry Cnp Knp Cegp
  put_cnp name p r = record r { cnps = insert (name p) p r.cnps }

  abbrev pub put_knp : (Knp → String) → Knp → Registry Cnp Knp Cegp → Registry Cnp Knp Cegp
  put_knp name p r = record r { knps = insert (name p) p r.knps }

  abbrev pub put_cegp : (Cegp → String) → Cegp → Registry Cnp Knp Cegp → Registry Cnp Knp Cegp
  put_cegp name p r = record r { cegps = insert (name p) p r.cegps }

  abbrev pub add_cnps :
      (Cnp → String) → List (Option Cnp) → Registry Cnp Knp Cegp → Registry Cnp Knp Cegp × Bool
  add_cnps name = add_to name (λ k r. has k r.cnps) (put_cnp name)

  abbrev pub add_knps :
      (Knp → String) → List (Option Knp) → Registry Cnp Knp Cegp → Registry Cnp Knp Cegp × Bool
  add_knps name = add_to name (λ k r. has k r.knps) (put_knp name)

  -- the names in use are looked up among the `CiliumNetworkPolicy` resources
  abbrev pub add_cegps :
      (Cegp → String) → List (Option Cegp) → Registry Cnp Knp Cegp → Registry Cnp Knp Cegp × Bool
  add_cegps name = add_to name (λ k r. has k r.cnps) (put_cegp name)
