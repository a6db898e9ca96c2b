-- ===== src/Install/Validity.antt =====
-- install/autodetect.go: what holds of the parameters when `autodetectAndValidate` returns no error.
use cilium_cli.Prelude.{
  String, Option, none, some, List, [], ◌∷◌, ◌++◌, Bool, true, false, not, ◌&&◌, ◌||◌, ◌==◌,
  string_eq, if◌then◌else◌, any, all, ◌≡◌, refl, sym, ap, subst, ◌∙◌, arith, append_nil,
  append_assoc, eq_iff,
}
use cilium_cli.Prelude.Acts.{Ensures, bind-Ensures}
use cilium_cli.Install.{Parameters, Check, Surroundings, Operation}
use cilium_cli.Install.Modes.{
  if-cases, if-kept, Unchanged, is_mode, mode_settled, mode_of_kind-WithMode,
}
use cilium_cli.Install.Autodetect.{
  mode_of_kind, detect_datapath_mode, check_disabled, run_checks, set_cluster_name,
  check_cluster_name, is_encryption, check_encryption, add_values, replace_kube_proxy,
  without_kube_proxy, server_of_kind, is_k3s, autodetect_kube_proxy, wants_masq,
  auto_enable_bpf_masq, last_detections, from_encryption, from_name_check, from_mode, from_name,
  autodetect_and_validate,
}

module _ (env : Surroundings) (k : Parameters) where
  -- each check is disabled or succeeds
  abbrev pub are_checked : List Check → Bool
  are_checked checks = all (λ check. check_disabled env k check.name || check.succeeds) checks

  -- where it returns no error, its parameters satisfy `Q`
  abbrev Succeeded : (Parameters → Type 0) → Parameters × Option (Unit {0}) → Type 0
  Succeeded Q x = x.1 ≡ some tt → Q x.0

  abbrev Checked : List Check → Parameters → Type 0
  Checked checks s = (s ≡ k) × (are_checked checks ≡ true)

  checks-Succeeded : (checks : List Check) → Succeeded (Checked checks) (run_checks env checks k)
  unfolding run_checks
  checks-Succeeded [] = λ e. (refl, refl)
  checks-Succeeded (check ∷ checks) =
      let later = checks-Succeeded checks in
      let Q = Succeeded (Checked (check ∷ checks)) in
      if-cases Q (check_disabled env k check.name)
        (λ disabled. λ e. ((later e).0, ground (arith, (later e).1)))
        (λ enabled.
          if-cases Q check.succeeds (λ succeeds. λ e. ((later e).0, ground (arith, (later e).1)))
            (λ fails. λ e. absurd cc))

  checks-Ensures :
      (checks : List Check) → Ensures (λ s. s ≡ k) (run_checks env checks) (Checked checks)
  checks-Ensures checks s a h =
      subst (λ x. Succeeded (Checked checks) (run_checks env checks x)) (sym h)
        (checks-Succeeded checks)

  abbrev SameMode : Parameters → Type 0
  SameMode s = Unchanged env k s × (s.datapath_mode ≡ k.datapath_mode)

  abbrev Settled : Parameters → Type 0
  Settled s = Unchanged env k s × (mode_settled env k s ≡ true)

  cluster_name-Ensures : Ensures SameMode (set_cluster_name env) SameMode
  cluster_name-Ensures s a h =
      if-cases (Succeeded SameMode) (s.cluster_name == "" && not (env.flavor.cluster_name == ""))
        (λ b. λ e. h) (λ b. λ e. h)

  mode_settled-found :
      (s : Parameters)
      → (k.datapath_mode == "") ≡ true
      → is_mode env s.datapath_mode ≡ true
      → mode_settled env k s ≡ true
  mode_settled-found s e found =
      ap (λ b. if b then is_mode env s.datapath_mode else s.datapath_mode == k.datapath_mode) e
      ∙ found

  mode_settled-given :
      (s : Parameters)
      → (k.datapath_mode == "") ≡ false
      → s.datapath_mode ≡ k.datapath_mode
      → mode_settled env k s ≡ true
  mode_settled-given s e same =
      ap (λ b. if b then is_mode env s.datapath_mode else s.datapath_mode == k.datapath_mode) e
      ∙ (eq_iff s.datapath_mode k.datapath_mode).1 same

  mode-Ensures : Ensures SameMode (detect_datapath_mode env true) Settled
  unfolding detect_datapath_mode
  mode-Ensures s a h =
      if-cases (Succeeded Settled) (s.datapath_mode == "")
        (λ empty. λ e.
          let (same, found) = mode_of_kind-WithMode env k true env.flavor.kind s a h.0 e in
          (
            same,
            mode_settled-found (mode_of_kind env true env.flavor.kind s).0
                (ap (λ m. m == "") (sym h.1) ∙ empty) found,
          ))
        (λ given. λ e. (h.0, mode_settled-given s (ap (λ m. m == "") (sym h.1) ∙ given) h.1))

  abbrev pub HasName : Parameters → Type 0
  HasName s =
      (env.contains s.cluster_name "." ≡ false) × (env.is_cluster_name s.cluster_name ≡ true)

  name-Ensures : Ensures Settled (check_cluster_name env) (λ s. Settled s × HasName s)
  name-Ensures s a h =
      let Q = Succeeded (λ s. Settled s × HasName s) in
      if-cases Q (env.contains s.cluster_name ".") (λ dots. λ e. absurd cc)
        (λ none.
          if-cases Q (env.is_cluster_name s.cluster_name) (λ valid. λ e. (h, (none, valid)))
            (λ invalid. λ e. absurd cc))

  encryption-Ensures :
      Ensures
        (λ s. Settled s × HasName s)
        (check_encryption env)
        (λ s. (Settled s × HasName s) × (is_encryption env s.encryption ≡ true))
  encryption-Ensures s a h =
      if-cases (Succeeded (λ s. (Settled s × HasName s) × (is_encryption env s.encryption ≡ true)))
        (is_encryption env s.encryption) (λ known. λ e. (h, known)) (λ unknown. λ e. absurd cc)

  -- only values at the end are new
  abbrev Extends : Parameters → Parameters → Type 0
  Extends s s' = (added : List String) × (s' ≡ add_values env added s)

  Extends-none : (s : Parameters) → Extends s s
  Extends-none s =
      ([], ap (λ values. record s { helm_values = values }) (sym (append_nil s.helm_values)))

  replace-Extends :
      (server : Option (String × String)) (s : Parameters)
      → Extends s (replace_kube_proxy env server s).0
  replace-Extends none s = Extends-none s
  replace-Extends (some (host, port)) s =
      if-kept (Extends s) (not (host == "") && not (port == "")) (_, refl) (Extends-none s)

  without-Extends :
      (names : Option (List String)) (s : Parameters) → Extends s (without_kube_proxy env names s).0
  without-Extends none s = Extends-none s
  without-Extends (some names) s =
      if-kept (λ (op : Operation). Extends s (op s).0)
        (any (λ name. env.contains name "kube-proxy") names) (Extends-none s)
        (replace-Extends (server_of_kind env env.flavor.kind) s)

  kube_proxy-Extends : (s : Parameters) → Extends s (autodetect_kube_proxy env s).0
  unfolding autodetect_kube_proxy
  kube_proxy-Extends s =
      if-kept (λ (x : Parameters × Option (Unit {0})). Extends s x.0)
        (s.user_set_kube_proxy_replacement || is_k3s env.flavor.kind) (Extends-none s)
        (without-Extends env.daemon_sets s)

  masq-Extends : (s : Parameters) → Extends s (auto_enable_bpf_masq env s)
  unfolding auto_enable_bpf_masq
  masq-Extends s =
      if-kept (Extends s) (wants_masq env (s.kube_proxy_replacement == "strict") s.helm_values)
        (_, refl) (Extends-none s)

  Extends-twice : (s s' s'' : Parameters) → Extends s s' → Extends s' s'' → Extends s s''
  Extends-twice s s' s'' (xs, e) (ys, e') = (
    xs ++ ys,
    e'
        ∙ ap (add_values env ys) e
        ∙ ap (λ values. record s { helm_values = values }) (append_assoc s.helm_values xs ys),
  )

  -- the checks have succeeded or are disabled, the mode and the cluster name are settled, and the
  -- user's encryption and Helm values are kept
  abbrev pub Valid : Parameters → Type 0
  Valid s =
      (are_checked (env.checks env.flavor.kind) ≡ true)
      × (mode_settled env k s ≡ true)
      × HasName s
      × (s.encryption ≡ k.encryption)
      × (is_encryption env s.encryption ≡ true)
      × ((added : List String) × (s.helm_values ≡ k.helm_values ++ added))

  abbrev AreChecked : Type 0
  AreChecked = are_checked (env.checks env.flavor.kind) ≡ true

  abbrev Named : Parameters → Type 0
  Named s = Settled s × HasName s

  abbrev Encrypted : Parameters → Type 0
  Encrypted s = Named s × (is_encryption env s.encryption ≡ true)

  module _ (checked : AreChecked) where
    last-Valid : Ensures Encrypted (last_detections env) Valid
    last-Valid s a h e =
        let k1 = (autodetect_kube_proxy env s).0 in
        let (added, same) =
          Extends-twice s k1 (auto_enable_bpf_masq env k1) (kube_proxy-Extends s)
            (masq-Extends k1) in
        subst Valid (sym same) (
          checked,
          h.0.0.1,
          h.0.1,
          h.0.0.0.0,
          h.1,
          (added, ap (λ values. values ++ added) h.0.0.0.1),
        )

    encryption-Valid : Ensures Named (from_encryption env) Valid
    encryption-Valid =
        bind-Ensures Named Encrypted Valid (check_encryption env) (λ _. last_detections env)
          encryption-Ensures (λ _. last-Valid)

    name_check-Valid : Ensures Settled (from_name_check env) Valid
    name_check-Valid =
        bind-Ensures Settled Named Valid (check_cluster_name env) (λ _. from_encryption env)
          name-Ensures (λ _. encryption-Valid)

    mode-Valid : Ensures SameMode (from_mode env) Valid
    mode-Valid =
        bind-Ensures SameMode Settled Valid (detect_datapath_mode env true)
          (λ _. from_name_check env) mode-Ensures (λ _. name_check-Valid)

    name-Valid : Ensures SameMode (from_name env) Valid
    name-Valid =
        bind-Ensures SameMode SameMode Valid (set_cluster_name env) (λ _. from_mode env)
          cluster_name-Ensures (λ _. mode-Valid)

  Checked-Valid : Ensures (Checked (env.checks env.flavor.kind)) (from_name env) Valid
  Checked-Valid s a h = name-Valid h.1 s a (subst SameMode (sym h.0) ((refl, refl), refl))

  -- Where `autodetectAndValidate` returns no error: each check for the kind of cluster has succeeded or is
  -- disabled, a datapath mode that was given is kept and else is one of the known ones, the cluster name
  -- has no dot and matches the regular expression, the encryption is the one that was given and is a
  -- known one, and the Helm values are those that were given, with others only after them.
  pub autodetect_and_validate-Valid :
      (autodetect_and_validate env k).1 ≡ some tt → Valid (autodetect_and_validate env k).0
  unfolding autodetect_and_validate
  autodetect_and_validate-Valid =
      bind-Ensures (λ s. s ≡ k) (Checked (env.checks env.flavor.kind)) Valid
        (run_checks env (env.checks env.flavor.kind)) (λ _. from_name env)
        (checks-Ensures (env.checks env.flavor.kind)) (λ _. Checked-Valid) k tt refl
