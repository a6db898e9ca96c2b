-- ===== src/Features/Requirement.antt =====
-- connectivity/check/features.go, connectivity/check/test.go: requirements that are added to a test.
use cilium_cli.Prelude.{
  List, [], ◌∷◌, ◌++◌, All, true, false, ◌&&◌, ◌≡◌, ◌≢◌, refl, sym, ap, ◌∙◌, string_eq, bool_eq,
  any, Bool-cases, inl, inr, arith, eq_iff, append_nil, append_assoc,
}
use cilium_cli.Features.{
  FeatureSet, FeatureRequirement, match_requirements, same_requirement, with_feature_requirements,
}

match_requirements-append :
    (fs : FeatureSet) (xs ys : List FeatureRequirement)
    → match_requirements fs (xs ++ ys) ≡ (match_requirements fs xs && match_requirements fs ys)
unfolding match_requirements
match_requirements-append fs [] ys = refl
match_requirements-append fs (x ∷ xs) ys = ground (arith, match_requirements-append fs xs ys)

same_requirement-eq : (a b : FeatureRequirement) → same_requirement a b ≡ true → a ≡ b
same_requirement-eq a b h = ground (arith, eq_iff a.feature b.feature, eq_iff a.mode b.mode)

-- A requirement that is in the list already holds where the list does.
match_requirements-any :
    (fs : FeatureSet) (target : FeatureRequirement) (own : List FeatureRequirement)
    → any (same_requirement target) own ≡ true
    → match_requirements fs own ≡ true
    → match_requirements fs (target ∷ []) ≡ true
unfolding match_requirements
match_requirements-any fs target [] seen h = absurd cc
match_requirements-any fs target (x ∷ own) seen h =
    ground (arith, match_requirements-any fs target own, same_requirement-eq target x)

-- the requirement is not among these
abbrev pub IsNew : List FeatureRequirement → FeatureRequirement → Type 0
IsNew xs q = All (λ x. x ≢ q) xs

abbrev pub Distinct : List FeatureRequirement → Type 0
Distinct [] = Unit
Distinct (x ∷ xs) = IsNew xs x × Distinct xs

-- The requirements are `own`, followed by new ones that neither are among them nor repeat one another.
pub record Extends (own all : List FeatureRequirement) : Type 0 where
  pub added : List FeatureRequirement
  pub is_all : all ≡ own ++ added
  pub distinct : Distinct added
  pub are_new : All (IsNew own) added

not_any-IsNew :
    (q : FeatureRequirement) (xs : List FeatureRequirement)
    → any (same_requirement q) xs ≡ false
    → IsNew xs q
not_any-IsNew q [] h = tt
not_any-IsNew q (x ∷ xs) h = (
  λ e. absurd (
      ground (
        arith,
        eq_iff q.feature x.feature,
        eq_iff q.mode x.mode,
        ap (λ r. r.feature) e,
        ap (λ r. r.mode) e,
      )),
  not_any-IsNew q xs (ground arith),
)

IsNew-append :
    (q t : FeatureRequirement) (own : List FeatureRequirement)
    → IsNew (own ++ t ∷ []) q
    → IsNew own q × (t ≢ q)
IsNew-append q t [] (h, tt) = (tt, h)
IsNew-append q t (x ∷ own) (h, hs) =
    let (later, last) = IsNew-append q t own hs in ((h, later), last)

split-IsNew :
    (t : FeatureRequirement) (own added : List FeatureRequirement)
    → All (IsNew (own ++ t ∷ [])) added
    → All (IsNew own) added × IsNew added t
split-IsNew t own [] h = (tt, tt)
split-IsNew t own (q ∷ added) (h, hs) =
    let (new, other) = IsNew-append q t own h in
    let (news, others) = split-IsNew t own added hs in ((new, news), (λ e. other (sym e), others))

with_feature_requirements-Extends :
    (own reqs : List FeatureRequirement) → Extends own (with_feature_requirements own reqs)
unfolding with_feature_requirements
with_feature_requirements-Extends own [] = record {
  added = [];
  is_all = sym (append_nil own);
  distinct = tt;
  are_new = tt;
}
with_feature_requirements-Extends own (target ∷ reqs) =
    elim (Bool-cases (any (same_requirement target) own)) [
      | inl seen ↦ rw seen (with_feature_requirements-Extends own reqs)
      | inr fresh ↦
          let later = with_feature_requirements-Extends (own ++ target ∷ []) reqs in
          let (news, is_new) = split-IsNew target own later.added later.are_new in
          rw fresh (record {
            added = target ∷ later.added;
            is_all = later.is_all ∙ append_assoc own (target ∷ []) later.added;
            distinct = (is_new, later.distinct);
            are_new = (not_any-IsNew target own fresh, news);
          })
    ]

match-own_and_new :
    (fs : FeatureSet) (own reqs : List FeatureRequirement)
    → match_requirements fs (with_feature_requirements own reqs)
      ≡ (match_requirements fs own && match_requirements fs reqs)
unfolding with_feature_requirements match_requirements
match-own_and_new fs own [] = ground arith
match-own_and_new fs own (target ∷ reqs) = elim (Bool-cases (any (same_requirement target) own)) [
  | inl seen ↦
      rw seen
        (ground (arith, match-own_and_new fs own reqs, match_requirements-any fs target own seen))
  | inr fresh ↦ rw fresh (
      ground (
        arith,
        match-own_and_new fs (own ++ target ∷ []) reqs,
        match_requirements-append fs own (target ∷ []),
      ))
]

-- `WithFeatureRequirements` keeps the requirements that the test has and appends new ones, each once
-- and none that the test has already; the test then requires just what it required before and the
-- given requirements together.
pub with_feature_requirements-match :
    (fs : FeatureSet) (own reqs : List FeatureRequirement)
    → Extends own (with_feature_requirements own reqs)
      × (match_requirements fs (with_feature_requirements own reqs)
          ≡ (match_requirements fs own && match_requirements fs reqs))
with_feature_requirements-match fs own reqs =
    (with_feature_requirements-Extends own reqs, match-own_and_new fs own reqs)
