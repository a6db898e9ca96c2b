-- ===== src/Install/Leftover.antt =====
-- install/install.go: the rollback of the resource quotas, whose steps share the variable of their loop.
use cilium_cli.Prelude.{
  Option, some, none, List, [], ◌∷◌, All, Bool, true, false, ◌==◌, ◌≡◌, refl, ◌∙◌, lookup, nat_eq,
  map, string_eq,
}
use cilium_cli.Prelude.Acts.{Kept}
use cilium_cli.Install.Objects.{
  Object, object_eq, contains, Api, Lawful, Reply, done, not_found, already_exists, failed,
}
use cilium_cli.Install.Manifests.{Named, Chart, Manifests, resource_quotas}
use cilium_cli.Install.Steps.{
  quota_variable, agent_role, operator_role, agent_binding, operator_binding, Step, delete_object,
  delete_held, Held, held_object, target, Installer, Doing, push_if_done, push_rollback_step,
  create_and_push, and_continue, assign, each_held, run_step, run_steps, rollback_installation,
}
use cilium_cli.Install.Cluster.{Setup, ours}
use cilium_cli.Install.Requests.{create_quota, create_quotas}
use cilium_cli.Install.Restored.{spared}

-- The step deletes what the variable of the loop over the quotas holds, or an object that neither is
-- `p` nor a namespace that has `p` in it.
abbrev pub Spares : Object → Step → Type 0
Spares p (delete_held quota_variable) = Unit
Spares p (delete_held _) = ⊥
Spares p (delete_object o) = ((o == p) ≡ false) × (contains o p ≡ false)

module _ (api : Api) (chart : Chart) (env : Setup api chart) (p : Object) where
  abbrev AllSpare : Installer api → Type 0
  AllSpare k = All (Spares p) k.rollback_steps

  push_if_done-AllSpare :
      (k : Installer api) (x : api.State × Reply)
      → AllSpare k
      → AllSpare (push_if_done api (delete_held quota_variable) k x).0
  unfolding push_rollback_step
  push_if_done-AllSpare k (s, done) h = (tt, h)
  push_if_done-AllSpare k (s, not_found) h = h
  push_if_done-AllSpare k (s, already_exists) h = h
  push_if_done-AllSpare k (s, failed) h = h

  and_continue-AllSpare :
      (x : Installer api × Option (Unit {0})) (rest : Doing api)
      → AllSpare x.0
      → Kept AllSpare rest
      → AllSpare (and_continue api x rest).0
  and_continue-AllSpare (k, none) rest h h' = h
  and_continue-AllSpare (k, some tt) rest h h' = h' k h

  each_held-AllSpare :
      (names : List Named)
      → Kept AllSpare (each_held api quota_variable (create_quota api chart env) names)
  unfolding each_held create_and_push
  each_held-AllSpare [] k h = h
  each_held-AllSpare (named ∷ names) k h =
      let k' = assign api quota_variable named k in
      and_continue-AllSpare (create_quota api chart env named k')
        (each_held api quota_variable (create_quota api chart env) names)
        (push_if_done-AllSpare k'
          (api.create (ours api chart env "ResourceQuota" named.1) k'.cluster) h)
        (each_held-AllSpare names)

  module _ (law : Lawful api) where
    held_quota-spared :
        (named : Option Named) (s : api.State)
        → ((o : Object) → held_object quota_variable named ≡ some o → (o == p) ≡ false)
        → api.read (run_step api (held_object quota_variable named) s).cluster p ≡ api.read s p
    held_quota-spared none s h = refl
    held_quota-spared (some (namespace, name)) s h =
        let o : Object = record { kind = "ResourceQuota"; namespace = namespace; name = name } in
        spared api law s p o s (h o refl) refl

    run_quotas-spared :
        (held : Held) (steps : List Step) (s : api.State)
        → ((o : Object) → target held (delete_held quota_variable) ≡ some o → (o == p) ≡ false)
        → All (Spares p) steps
        → api.read (run_steps api held steps s).cluster p ≡ api.read s p
    unfolding run_steps target
    run_quotas-spared held [] s h quotas = refl
    run_quotas-spared held (delete_object o ∷ steps) s h ((other, outside), quotas) =
        run_quotas-spared held steps (run_step api (some o) s).cluster h quotas
        ∙ spared api law s p o s other outside
    run_quotas-spared held (delete_held agent_role ∷ steps) s h (e, quotas) = absurd e
    run_quotas-spared held (delete_held operator_role ∷ steps) s h (e, quotas) = absurd e
    run_quotas-spared held (delete_held agent_binding ∷ steps) s h (e, quotas) = absurd e
    run_quotas-spared held (delete_held operator_binding ∷ steps) s h (e, quotas) = absurd e
    run_quotas-spared held (delete_held quota_variable ∷ steps) s h (e, quotas) =
        let named = lookup 0 held in
        run_quotas-spared held steps (run_step api (held_object quota_variable named) s).cluster h
          quotas
        ∙ held_quota-spared named s h

    either_way :
        (enabled : Bool) (k : Installer api)
        → ((o : Object) → target k.held (delete_held quota_variable) ≡ some o → (o == p) ≡ false)
        → AllSpare k
        → api.read (rollback_installation api enabled k).cluster p ≡ api.read k.cluster p
    unfolding rollback_installation
    either_way true k h quotas = run_quotas-spared k.held k.rollback_steps k.cluster h quotas
    either_way false k h quotas = refl

    -- A rollback after the loop over the resource quotas, where no step that was pushed before the loop
    -- deletes an object or its namespace: the rollback leaves the object as it was at the end of the
    -- loop, unless it is the quota that the variable of the loop held last. So the other quotas that
    -- the loop created stay behind.
    pub create_quotas-Left :
        (m : Manifests chart) (k : Installer api)
        → All (Spares p) k.rollback_steps
        → ((o : Object)
            → target (create_quotas api chart env m k).0.held (delete_held quota_variable) ≡ some o
            → (o == p) ≡ false)
        → api.read
            (rollback_installation api env.rollback (create_quotas api chart env m k).0).cluster
            p
          ≡ api.read (create_quotas api chart env m k).0.cluster p
    create_quotas-Left m k earlier other =
        either_way env.rollback (create_quotas api chart env m k).0 other (
          each_held-AllSpare (map (λ quota. (env.namespace, quota.1)) (resource_quotas chart m)) k
            earlier)
