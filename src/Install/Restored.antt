-- ===== src/Install/Restored.antt =====
-- install/install.go: what `RollbackInstallation` does to such an object.
use cilium_cli.Prelude.{
  String, Option, none, some, List, [], ◌∷◌, ◌++◌, any, All, Bool, true, false, ◌==◌, string_eq,
  ◌≡◌, refl, sym, ◌∙◌, inl, inr, arith, lookup, subst, nat_eq,
}
use cilium_cli.Install.{Parameters}
use cilium_cli.Install.Objects.{
  Object, object_eq, contains, Api, Lawful, Reply, done, not_found, already_exists, failed,
}
use cilium_cli.Install.Manifests.{Named, Chart, Manifests}
use cilium_cli.Install.Steps.{
  Variable, quota_variable, agent_role, operator_role, agent_binding, operator_binding, kind_of,
  code_of, Step, delete_object, delete_held, Held, held_object, target, Installer, Rollback, report,
  run_step, run_steps, rollback_installation,
}
use cilium_cli.Install.Cluster.{Setup}
use cilium_cli.Install.Installation.{install, rolled_back, install_command}
use cilium_cli.Install.Traced.{Unharmed, Undone, Traced}
use cilium_cli.Install.Preserved.{Conventional, IsTracked, other_kind}
use cilium_cli.Install.Covered.{install-Keep}

abbrev pub is_reported : (api : Api) → Object → Rollback api → Bool
is_reported api p r = any (λ o. o == p) r.cannot_delete

any_append_left :
    (p : Object) (xs ys : List Object)
    → any (λ o. o == p) (xs ++ ys) ≡ false
    → (any (λ o. o == p) xs ≡ false) × (any (λ o. o == p) ys ≡ false)
any_append_left p [] ys h = (refl, h)
any_append_left p (x ∷ xs) ys h = ground (arith, any_append_left p xs ys)

module _ (api : Api) (law : Lawful api) (s0 : api.State) (p : Object) where
  report-cluster : (o : Object) (x : api.State × Reply) → (report api o x).cluster ≡ x.0
  report-cluster o (s, done) = refl
  report-cluster o (s, not_found) = refl
  report-cluster o (s, already_exists) = refl
  report-cluster o (s, failed) = refl

  reported :
      (o : Object) (x : api.State × Reply)
      → o ≡ p
      → is_reported api p (report api o x) ≡ false
      → x.1 ≡ done
  reported o (s, done) e h = refl
  reported o (s, not_found) e h = absurd (ground (arith, object_eq.same_iff o p))
  reported o (s, already_exists) e h = absurd (ground (arith, object_eq.same_iff o p))
  reported o (s, failed) e h = absurd (ground (arith, object_eq.same_iff o p))

  step-none :
      (o : Option Object) (s : api.State)
      → api.read s p ≡ none
      → api.read (run_step api o s).cluster p ≡ none
  step-none none s h = h
  step-none (some o) s h =
      subst (λ s'. api.read s' p ≡ none) (sym (report-cluster o (api.delete o s)))
        (law.delete_absent o p s h)

  -- what is gone stays gone
  run_steps-none :
      (held : Held) (steps : List Step) (s : api.State)
      → api.read s p ≡ none
      → api.read (run_steps api held steps s).cluster p ≡ none
  unfolding run_steps
  run_steps-none held [] s h = h
  run_steps-none held (step ∷ steps) s h =
      run_steps-none held steps (run_step api (target held step) s).cluster
        (step-none (target held step) s h)

  pub spared :
      (o : Object) (s : api.State)
      → (o == p) ≡ false
      → contains o p ≡ false
      → api.read (run_step api (some o) s).cluster p ≡ api.read s p
  spared o s other outside =
      subst (λ s'. api.read s' p ≡ api.read s p) (sym (report-cluster o (api.delete o s)))
        (law.delete_others o p s other outside)

  module _ (no_held : (v : Variable) → (kind_of v == p.kind) ≡ false) where
    not_inside : (v : Variable) (named : Named) → (kind_of v == "Namespace") ≡ false
    not_inside quota_variable named = refl
    not_inside agent_role named = refl
    not_inside operator_role named = refl
    not_inside agent_binding named = refl
    not_inside operator_binding named = refl

    held-spared :
        (v : Variable) (named : Option Named) (s : api.State)
        → api.read (run_step api (held_object v named) s).cluster p ≡ api.read s p
    held-spared v none s = refl
    held-spared v (some (namespace, name)) s =
        spared (record { kind = kind_of v; namespace = namespace; name = name }) s
          (other_kind (record { kind = kind_of v; namespace = namespace; name = name }) p
            (no_held v))
          (rw (not_inside v (namespace, name)) refl)

    run_steps-spared :
        (held : Held) (steps : List Step) (s : api.State)
        → api.read s p ≡ api.read s0 p
        → All (Unharmed api law s0 p) steps
        → api.read (run_steps api held steps s).cluster p ≡ api.read s0 p
    unfolding run_steps target
    run_steps-spared held [] s same h = same
    run_steps-spared held (delete_held v ∷ steps) s same h =
        run_steps-spared held steps
          (run_step api (held_object v (lookup (code_of v) held)) s).cluster
          (held-spared v (lookup (code_of v) held) s ∙ same) h.1
    run_steps-spared held (delete_object o ∷ steps) s same (inl absent, h) =
        run_steps-none held (delete_object o ∷ steps) s (same ∙ absent) ∙ sym absent
    run_steps-spared held (delete_object o ∷ steps) s same (inr (other, outside), h) =
        run_steps-spared held steps (run_step api (some o) s).cluster
          (spared o s other outside ∙ same) h

    run_steps-Undone :
        (held : Held) (steps : List Step) (s : api.State)
        → Undone api law s0 p steps
        → is_reported api p (run_steps api held steps s) ≡ false
        → api.read (run_steps api held steps s).cluster p ≡ none
    unfolding run_steps target
    run_steps-Undone held [] s undone h = absurd undone
    run_steps-Undone held (delete_held v ∷ steps) s undone h =
        let after = run_step api (held_object v (lookup (code_of v) held)) s in
        run_steps-Undone held steps after.cluster undone
          (any_append_left p after.cannot_delete
            (run_steps api held steps after.cluster).cannot_delete h).1
    run_steps-Undone held (delete_object o ∷ steps) s (inl e) h =
        let after = run_step api (some o) s in
        run_steps-none held steps after.cluster (
          subst (λ s'. api.read s' p ≡ none) (sym (report-cluster o (api.delete o s)))
            (subst (λ q. api.read (api.delete o s).0 q ≡ none) e
              (law.delete_done o s (
                reported o (api.delete o s) e
                  (any_append_left p after.cannot_delete
                    (run_steps api held steps after.cluster).cannot_delete h).0))))
    run_steps-Undone held (delete_object o ∷ steps) s (inr undone) h =
        let after = run_step api (some o) s in
        run_steps-Undone held steps after.cluster undone
          (any_append_left p after.cannot_delete
            (run_steps api held steps after.cluster).cannot_delete h).1

    pub rollback-Restored :
        (k : Installer api)
        → Traced api law s0 p k
        → ((s : api.State) → api.unanswered p s ≡ false)
        → is_reported api p (rollback_installation api true k) ≡ false
        → api.read (rollback_installation api true k).cluster p ≡ api.read s0 p
    unfolding rollback_installation
    rollback-Restored k (inl (same, h)) answered r =
        run_steps-spared k.held k.rollback_steps k.cluster same h
    rollback-Restored k (inr (inl (absent, undone))) answered r =
        run_steps-Undone k.held k.rollback_steps k.cluster undone r ∙ sym absent
    rollback-Restored k (inr (inr (s, lost))) answered r = absurd (cc (lost, answered s))

module _ (api : Api) (law : Lawful api) (chart : Chart) (env : Setup api chart) where
  -- A failed installation, which has kept track of the object.
  failed-Restored :
      (s0 : api.State) (p : Object) (x : Installer api × Option (Unit {0}))
      → ((v : Variable) → (kind_of v == p.kind) ≡ false)
      → env.rollback ≡ true
      → x.1 ≡ none
      → Traced api law s0 p x.0
      → ((s : api.State) → api.unanswered p s ≡ false)
      → is_reported api p (rolled_back api chart env x) ≡ false
      → api.read (rolled_back api chart env x).cluster p ≡ api.read s0 p
  failed-Restored s0 p (k, some tt) no_held enabled fails t answered h = absurd cc
  failed-Restored s0 p (k, none) no_held enabled fails t answered h =
      subst (λ b. api.read (rollback_installation api b k).cluster p ≡ api.read s0 p) (sym enabled)
        (rollback-Restored api law s0 p no_held k t answered
          (subst (λ b. is_reported api p (rollback_installation api b k) ≡ false) enabled h))

  -- Where the API does what Kubernetes promises and the chart names its objects as the installer does:
  -- after an installation that fails, with the rollback enabled, the cluster holds of an object what it
  -- held before, where an object that is being deleted counts as gone, unless the rollback reports that
  -- it cannot delete the object, and if no request to create the object goes unanswered. The
  -- installer starts with no rollback steps. The objects are all but the resource quotas, the roles and
  -- their bindings, the ingress endpoints, the nodes, the pods, the DaemonSet aws-node, the secret of the
  -- CA and that of Helm's values.
  pub install_command-Restored :
      (k : Installer api) (p : Object)
      → IsTracked api chart env p
      → ((params : Parameters) (cidr : String) (m : Manifests chart)
          → env.rendered params cidr ≡ some m
          → Conventional api chart env m)
      → env.rollback ≡ true
      → k.rollback_steps ≡ []
      → ((s : api.State) → api.unanswered p s ≡ false)
      → (install api chart env k).1 ≡ none
      → is_reported api p (install_command api chart env k) ≡ false
      → api.read (install_command api chart env k).cluster p ≡ api.read k.cluster p
  unfolding install_command
  install_command-Restored k p tracked names enabled fresh answered fails h =
      failed-Restored k.cluster p (install api chart env k)
        (λ v. elim v as (λ w. (kind_of w == p.kind) ≡ false) [
          | quota_variable ↦ tracked.no_quota
          | agent_role ↦ tracked.no_role
          | operator_role ↦ tracked.no_role
          | agent_binding ↦ tracked.no_role_binding
          | operator_binding ↦ tracked.no_role_binding
        ])
        enabled fails
        (install-Keep api law k.cluster p chart env tracked names k (inl (refl, rw fresh tt)))
        answered h
