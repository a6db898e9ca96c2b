-- ===== src/Install/Masquerading.antt =====
-- install/autodetect.go: when masquerading by eBPF is enabled.
use cilium_cli.Prelude.{
  String, List, [], ◌∷◌, Bool, true, false, not, ◌&&◌, ◌||◌, ◌==◌, string_eq, if◌then◌else◌, any,
  ◌≡◌, refl, ap, ◌∙◌, arith, Bool-cases, eq_iff, inl, inr,
}
use cilium_cli.Install.{Parameters, Surroundings}
use cilium_cli.Install.Autodetect.{add_values, wants_masq, auto_enable_bpf_masq}

abbrev strict_value : String
strict_value = "kubeProxyReplacement=strict"

module _ (env : Surroundings) where
  abbrev pub sets_masq : List String → Bool
  sets_masq values = any (λ value. env.has_prefix value "bpf.masquerade") values

  abbrev pub enables_ipv6 : List String → Bool
  enables_ipv6 values = any (λ value. env.has_prefix value "ipv6.enabled=true") values

  -- Masquerading is to be enabled: the replacement of kube-proxy is strict, by the parameter or by a
  -- value in any place, no value is about the masquerading, and none enables IPv6.
  abbrev pub is_due : Parameters → Bool
  is_due k =
      (k.kube_proxy_replacement == "strict" || any (λ value. value == strict_value) k.helm_values)
      && not (sets_masq k.helm_values)
      && not (enables_ipv6 k.helm_values)

  module _ (no_masq : env.has_prefix strict_value "bpf.masquerade" ≡ false)
      (no_ipv6 : env.has_prefix strict_value "ipv6.enabled=true" ≡ false) where
    wants_masq-any :
        (strict : Bool) (values : List String)
        → wants_masq env strict values ≡ (
            (strict || any (λ value. value == strict_value) values)
            && not (sets_masq values)
            && not (enables_ipv6 values))
    unfolding wants_masq
    wants_masq-any strict [] = ground arith
    wants_masq-any strict (value ∷ values) = elim (Bool-cases (value == strict_value)) [
      | inl e ↦
          let same = (eq_iff value strict_value).0 e in
          let masq = ap (λ v. env.has_prefix v "bpf.masquerade") same ∙ no_masq in
          let ipv6 = ap (λ v. env.has_prefix v "ipv6.enabled=true") same ∙ no_ipv6 in
          ground (arith, e, masq, ipv6, wants_masq-any true values, wants_masq-any strict values)
      | inr e ↦ ground (arith, e, wants_masq-any strict values)
    ]

    -- Where `HasPrefix` answers that the value for the strict replacement of kube-proxy starts neither
    -- with the masquerading's nor with IPv6's: masquerading by eBPF is enabled, by one more value at
    -- the end, exactly if it is due by the parameters and values, in whatever order these stand.
    pub auto_enable_bpf_masq-due :
        (k : Parameters)
        → auto_enable_bpf_masq env k
          ≡ (if is_due k then add_values env ("bpf.masquerade=true" ∷ []) k else k)
    unfolding auto_enable_bpf_masq
    auto_enable_bpf_masq-due k =
        rw (wants_masq-any (k.kube_proxy_replacement == "strict") k.helm_values) refl
