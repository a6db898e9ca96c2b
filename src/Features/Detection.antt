-- ===== src/Features/Detection.antt =====
-- connectivity/check/features.go: `detectFeatures` goes through the Cilium pods. The first one's
-- features are kept, and a warning is given where another pod's differ.
use cilium_cli.Prelude.{
  Option, none, some, List, [], ◌∷◌, ◌++◌, Bool, true, false, not, ◌&&◌, ◌||◌, lookup, ◌==◌,
  string_eq, bool_eq, if◌then◌else◌, ◌≡◌, refl, sym, get_or-insert, some_injective,
}
use cilium_cli.Features.{
  Feature, FeatureStatus, FeatureSet, status, set_enabled, feature_cnp, feature_host_port,
  feature_cni_chaining, feature_host_firewall, feature_kpr_host_port,
}
use cilium_cli.Features.Detect.{
  Facts, DetectLibrary, CrdAnswer, crd_found, crd_not_found, crd_error, extract_from_config_map,
  extract_from_runtime_config, extract_from_nodes, extract_from_cilium_status,
  extract_from_cluster_role, extract_from_k8s_cluster, derive_features, extract_from_crds,
}

-- what `validateFeatureSet` warns of
pub data Warning : Type 0 where
  not_in_reference differs not_found : Feature → Warning

abbrev pub same_status : FeatureStatus → FeatureStatus → Bool
same_status a b = (a.enabled == b.enabled) && (a.mode == b.mode)

abbrev pub compare_found : FeatureSet → Feature → FeatureStatus → List Warning
compare_found reference key found = elim (lookup key reference) [
  | none ↦ not_in_reference key ∷ []
  | some expected ↦ if same_status expected found then [] else differs key ∷ []
]

abbrev pub compare_all : FeatureSet → FeatureSet → List Warning
compare_all reference [] = []
compare_all reference ((key, found) ∷ other) =
    compare_found reference key found ++ compare_all reference other

abbrev pub missing_in : FeatureSet → Feature → List Warning
missing_in other key = elim (lookup key other) [ none ↦ not_found key ∷ [] | some found ↦ [] ]

abbrev pub missing_all : FeatureSet → FeatureSet → List Warning
missing_all other [] = []
missing_all other ((key, expected) ∷ reference) =
    missing_in other key ++ missing_all other reference

-- `validateFeatureSet`
unfoldable pub validate_feature_set : FeatureSet → FeatureSet → List Warning
validate_feature_set reference other = compare_all reference other ++ missing_all other reference

-- an extraction that may fail, on what the ones before it left
infixl 5 ◌>>=◌
abbrev pub ◌>>=◌ {ℓ κ} : {A : Type ℓ} {B : Type κ} → Option A → (A → Option B) → Option B
none >>= f = none
some a >>= f = f a

pub bind-some {ℓ κ} :
    {A : Type ℓ} {B : Type κ} (x : Option A) (f : A → Option B) (b : B)
    → (x >>= f) ≡ some b
    → (a : A) × (x ≡ some a) × (f a ≡ some b)
bind-some none f b h = absurd cc
bind-some (some a) f b h = (a, refl, h)

module _ (lib : DetectLibrary) where
  abbrev pub extract_from_answers : Facts → Option FeatureSet
  extract_from_answers facts =
      extract_from_config_map facts.config_map []
      >>= extract_from_runtime_config lib facts.runtime_config
      >>= extract_from_nodes lib facts.nodes
      >>= extract_from_cilium_status lib facts.cilium_status
      >>= extract_from_cluster_role lib facts.cluster_role

  abbrev pub extract_last : Facts → FeatureSet → Option FeatureSet
  extract_last facts fs =
      extract_from_crds lib facts.crd
        (derive_features lib (extract_from_k8s_cluster lib facts.flavor fs))

  -- the features of one pod
  unfoldable pub detect_pod : Facts → Option FeatureSet
  detect_pod facts = extract_from_answers facts >>= extract_last facts

  -- the pods after the first: `ct.features` stays as it is
  unfoldable pub validate_rest : FeatureSet → List Facts → Option (List Warning)
  validate_rest reference [] = some []
  validate_rest reference (facts ∷ pods) =
      let rest = validate_rest reference pods in
      detect_pod facts >>= λ other.
      rest >>= λ later. some (validate_feature_set reference other ++ later)

  -- `detectFeatures`: what `ct.features` becomes, and the warnings
  unfoldable pub detect_features : FeatureSet → List Facts → Option (FeatureSet × List Warning)
  detect_features before [] = some (before, [])
  detect_features before (facts ∷ pods) = detect_pod facts >>= λ reference.
      validate_rest reference pods >>= λ warnings. some (reference, warnings)

  -- A host port can be used where kube-proxy's replacement has it, or where the CNI chain has the
  -- port map and there is no host firewall.
  abbrev pub HostPortAsDerived : FeatureSet → Type 0
  HostPortAsDerived fs = (status fs feature_host_port).enabled ≡ (
      (status fs feature_cni_chaining).enabled
        && ((status fs feature_cni_chaining).mode == "portmap")
        && not (status fs feature_host_firewall).enabled
      || (status fs feature_kpr_host_port).enabled)

  derive-HostPortAsDerived : (fs : FeatureSet) → HostPortAsDerived (derive_features lib fs)
  unfolding derive_features
  derive-HostPortAsDerived fs = simp (get_or-insert)

  set_cnp-HostPortAsDerived :
      (b : Bool) (fs : FeatureSet)
      → HostPortAsDerived fs
      → HostPortAsDerived (set_enabled feature_cnp b fs)
  set_cnp-HostPortAsDerived b fs h = simp (get_or-insert, h)

  crds-HostPortAsDerived :
      (crd : CrdAnswer) (fs found : FeatureSet)
      → extract_from_crds lib crd fs ≡ some found
      → HostPortAsDerived fs
      → HostPortAsDerived found
  unfolding extract_from_crds
  crds-HostPortAsDerived crd_found fs found e h =
      rw (sym (some_injective e)) (set_cnp-HostPortAsDerived true fs h)
  crds-HostPortAsDerived crd_not_found fs found e h =
      rw (sym (some_injective e)) (set_cnp-HostPortAsDerived false fs h)
  crds-HostPortAsDerived crd_error fs found e h = absurd cc

  -- Where the features of a pod are detected, its set has the host port exactly where the set has
  -- kube-proxy replacement's host port, or CNI chaining in the mode `portmap` without a host firewall:
  -- the steps after the derivation leave what it is derived from as it was.
  pub detect_pod-HostPortAsDerived :
      (facts : Facts) (found : FeatureSet) → detect_pod facts ≡ some found → HostPortAsDerived found
  unfolding detect_pod
  detect_pod-HostPortAsDerived facts found e =
      let (fs, before, h) = bind-some (extract_from_answers facts) (extract_last facts) found e in
      crds-HostPortAsDerived facts.crd
        (derive_features lib (extract_from_k8s_cluster lib facts.flavor fs)) found h
        (derive-HostPortAsDerived (extract_from_k8s_cluster lib facts.flavor fs))
