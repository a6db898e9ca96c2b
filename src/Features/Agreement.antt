-- ===== src/Features/Agreement.antt =====
-- connectivity/check/features.go: what it means that `detectFeatures` gives no warning.
use cilium_cli.Prelude.{
  none, some, List, [], ◌∷◌, Bool, false, lookup, get_or, ◌==◌, string_eq, bool_eq, if◌then◌else◌,
  ◌≡◌, refl, sym, ap, ◌∙◌, All, arith, eq_iff, bool_beq_iff, Option-cases, Bool-cases, both_nil,
  some_injective, inl, inr,
}
use cilium_cli.Features.{
  Feature, FeatureStatus, FeatureSet, FeatureRequirement, status, violates, match_requirements,
}
use cilium_cli.Features.Detect.{Facts, DetectLibrary}
use cilium_cli.Features.Detection.{
  compare_found, compare_all, missing_in, missing_all, validate_feature_set, bind-some, detect_pod,
  validate_rest, detect_features,
}

compare_found-agree :
    (reference : FeatureSet) (key : Feature) (found : FeatureStatus)
    → compare_found reference key found ≡ []
    → lookup key reference ≡ some found
compare_found-agree reference key found h = elim (Option-cases (lookup key reference)) [
  | inl missing ↦ absurd (ground (arith, missing))
  | inr (expected, e) ↦
      ground
        (arith, e, eq_iff expected.mode found.mode, bool_beq_iff expected.enabled found.enabled)
]

compare_all-agree :
    (reference other : FeatureSet) (key : Feature) (found : FeatureStatus)
    → compare_all reference other ≡ []
    → lookup key other ≡ some found
    → lookup key reference ≡ some found
unfolding lookup
compare_all-agree reference [] key found h e = absurd cc
compare_all-agree reference ((first, was) ∷ other) key found h e =
    let (here, there) = both_nil (compare_found reference first was) _ h in
    elim (Bool-cases (first == key)) [
      | inl same ↦
          let agrees = compare_found-agree reference first was here in
          ground (arith, agrees, eq_iff first key)
      | inr other_key ↦
          compare_all-agree reference other key found there (ground (arith, other_key))
    ]

missing_all-agree :
    (other reference : FeatureSet) (key : Feature)
    → missing_all other reference ≡ []
    → lookup key other ≡ none
    → lookup key reference ≡ none
unfolding lookup
missing_all-agree other [] key h e = refl
missing_all-agree other ((first, expected) ∷ reference) key h e =
    let (here, there) = both_nil (missing_in other first) _ h in
    ground (arith, missing_all-agree other reference key there e, eq_iff first key)

-- Without a warning, the two sets have the same features, with the same status.
validate-agree :
    (reference other : FeatureSet)
    → validate_feature_set reference other ≡ []
    → (key : Feature) → lookup key other ≡ lookup key reference
unfolding validate_feature_set
validate-agree reference other h key =
    let (first, second) = both_nil (compare_all reference other) _ h in
    elim (Option-cases (lookup key other)) [
      | inl missing ↦ missing ∙ sym (missing_all-agree other reference key second missing)
      | inr (found, e) ↦ e ∙ sym (compare_all-agree reference other key found first e)
    ]

abbrev if_violated : Bool → Bool → Bool
if_violated b rest = if b then false else rest

status-agree :
    (fs other : FeatureSet) (key : Feature)
    → lookup key other ≡ lookup key fs
    → status other key ≡ status fs key
unfolding get_or
status-agree fs other key same = rw (same, get_or) refl

match_requirements-agree :
    (fs other : FeatureSet) (reqs : List FeatureRequirement)
    → ((key : Feature) → lookup key other ≡ lookup key fs)
    → match_requirements other reqs ≡ match_requirements fs reqs
unfolding match_requirements
match_requirements-agree fs other [] same = refl
match_requirements-agree fs other (req ∷ reqs) same =
    rw (status-agree fs other req.feature (same req.feature)) (
      ap (if_violated (violates req (status fs req.feature)))
        (match_requirements-agree fs other reqs same))

module _ (lib : DetectLibrary) where
  -- The features of this pod are detected, and satisfy the same requirements as the given set.
  abbrev pub SatisfiesSame : FeatureSet → Facts → Type 0
  SatisfiesSame fs facts =
      (found : FeatureSet) × (detect_pod lib facts ≡ some found)
      × ((reqs : List FeatureRequirement)
          → match_requirements found reqs ≡ match_requirements fs reqs)

  validate_rest-SatisfiesSame :
      (fs : FeatureSet) (pods : List Facts)
      → validate_rest lib fs pods ≡ some []
      → All (SatisfiesSame fs) pods
  unfolding validate_rest
  validate_rest-SatisfiesSame fs [] h = tt
  validate_rest-SatisfiesSame fs (facts ∷ pods) h =
      let (found, detected, h) = bind-some (detect_pod lib facts) _ [] h in
      let (later, rest, h) = bind-some (validate_rest lib fs pods) _ [] h in
      let (none_here, none_later) =
        both_nil (validate_feature_set fs found) later (some_injective h) in
      (
        (
          found,
          detected,
          λ reqs. match_requirements-agree fs found reqs (validate-agree fs found none_here),
        ),
        validate_rest-SatisfiesSame fs pods (rest ∙ ap some none_later),
      )

  -- Where `detectFeatures` ends without an error and without a warning, the features of every pod
  -- have been detected, and any list of requirements has the same answer on them as on `ct.features`.
  pub detect_features-SatisfiesSame :
      (before after : FeatureSet) (pods : List Facts)
      → detect_features lib before pods ≡ some (after, [])
      → All (SatisfiesSame after) pods
  unfolding detect_features
  detect_features-SatisfiesSame before after [] h = tt
  detect_features-SatisfiesSame before after (facts ∷ pods) h =
      let (found, detected, h) = bind-some (detect_pod lib facts) _ (after, []) h in
      let (warnings, rest, h) = bind-some (validate_rest lib found pods) _ (after, []) h in
      let both = some_injective h in
      let is_after = ap (λ x. x.0) both in
      (
        (found, detected, λ reqs. rw is_after refl),
        validate_rest-SatisfiesSame after pods (rw (sym is_after) (rest ∙ ap (λ x. some x.1) both)),
      )
