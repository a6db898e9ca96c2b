-- ===== src/Install/Steps.antt =====
-- install/install.go: the installer's state, its requests to the API, and the steps that undo them.
use cilium_cli.Prelude.{
  String, Option, none, some, List, [], ◌∷◌, ◌++◌, Bool, true, false, Map, lookup, insert, ℕ,
  nat_eq,
}
use cilium_cli.Prelude.Acts.{Act}
use cilium_cli.Install.{Parameters}
use cilium_cli.Install.Objects.{Object, Api, Reply, done, not_found, already_exists, failed}
use cilium_cli.Install.Manifests.{Named}

-- The loop variables that the steps refer to: `resourceQuota`, and `r` and `rb` of either name.
pub data Variable : Type 0 where
  quota_variable agent_role operator_role agent_binding operator_binding : Variable

abbrev pub kind_of : Variable → String
kind_of quota_variable = "ResourceQuota"
kind_of agent_role = "Role"
kind_of operator_role = "Role"
kind_of agent_binding = "RoleBinding"
kind_of operator_binding = "RoleBinding"

abbrev pub code_of : Variable → ℕ
code_of quota_variable = 0
code_of agent_role = 1
code_of operator_role = 2
code_of agent_binding = 3
code_of operator_binding = 4

-- A closure that deletes an object. One that mentions the variable of a loop deletes what the variable
-- holds when the closure runs, since a loop has one variable for all its rounds before Go 1.22.
pub data Step : Type 0 where
  delete_object : Object → Step
  delete_held : Variable → Step

-- The values of the variables, each of which is the latest.
abbrev pub Held : Type 0
Held = Map ℕ Named

abbrev pub held_object : Variable → Option Named → Option Object
held_object v none = none
held_object v (some (namespace, name)) =
    some (record { kind = kind_of v; namespace = namespace; name = name })

unfoldable pub target : Held → Step → Option Object
target held (delete_object o) = some o
target held (delete_held v) = held_object v (lookup (code_of v) held)

module _ (api : Api) where
  pub record Installer : Type 0 where
    pub cluster : api.State
    pub params : Parameters
    pub native_routing_cidr : String
    pub rollback_steps : List Step
    pub held : Held

  abbrev pub Doing : Type 0
  Doing = Act Installer (Unit {0})

  abbrev pub nothing : Doing
  nothing k = (k, some tt)

  abbrev pub giving_up : Doing
  giving_up k = (k, none)

  -- `pushRollbackStep`
  unfoldable pub push_rollback_step : Step → Installer → Installer
  push_rollback_step step k = record k { rollback_steps = step ∷ k.rollback_steps }

  abbrev pub push_if_done : Step → Installer → api.State × Reply → Installer × Option (Unit {0})
  push_if_done step k (s, done) = (push_rollback_step step (record k { cluster = s }), some tt)
  push_if_done step k (s, not_found) = (record k { cluster = s }, none)
  push_if_done step k (s, already_exists) = (record k { cluster = s }, none)
  push_if_done step k (s, failed) = (record k { cluster = s }, none)

  -- an object is created, and then the step that deletes it is pushed
  unfoldable pub create_and_push : Object → Step → Doing
  create_and_push o step k = push_if_done step k (api.create o k.cluster)

  abbrev pub if_done : Installer → api.State × Reply → Installer × Option (Unit {0})
  if_done k (s, done) = (record k { cluster = s }, some tt)
  if_done k (s, not_found) = (record k { cluster = s }, none)
  if_done k (s, already_exists) = (record k { cluster = s }, none)
  if_done k (s, failed) = (record k { cluster = s }, none)

  -- a request whose failure ends the installation
  unfoldable pub request : (Object → api.State → api.State × Reply) → Object → Doing
  request operation o k = if_done k (operation o k.cluster)

  abbrev pub or_update :
      Object → Step → Installer → api.State × Reply → Installer × Option (Unit {0})
  or_update o step k (s, done) = push_if_done step k (s, done)
  or_update o step k (s, already_exists) = push_if_done step k (api.update o s)
  or_update o step k (s, not_found) = push_if_done step k (s, not_found)
  or_update o step k (s, failed) = push_if_done step k (s, failed)

  -- an object is created, or updated where it is there already, and the step that deletes it is pushed
  unfoldable pub create_or_update_and_push : Object → Step → Doing
  create_or_update_and_push o step k = or_update o step k (api.create o k.cluster)

  abbrev pub assign : Variable → Named → Installer → Installer
  assign v named k = record k { held = insert (code_of v) named k.held }

  abbrev pub and_continue : Installer × Option (Unit {0}) → Doing → Installer × Option (Unit {0})
  and_continue (k, none) rest = (k, none)
  and_continue (k, some tt) rest = rest k

  -- one round of a loop for each object: the variable is assigned, and the round ends the
  -- installation where it fails
  unfoldable pub each_held : Variable → (Named → Doing) → List Named → Doing
  each_held v round [] k = (k, some tt)
  each_held v round (named ∷ names) k =
      and_continue (round named (assign v named k)) (each_held v round names)

  -- What a rollback leaves behind, with the objects that it reports that it cannot delete.
  pub record Rollback : Type 0 where
    pub cluster : api.State
    pub cannot_delete : List Object

  abbrev pub report : Object → api.State × Reply → Rollback
  report o (s, done) = record { cluster = s; cannot_delete = [] }
  report o (s, not_found) = record { cluster = s; cannot_delete = o ∷ [] }
  report o (s, already_exists) = record { cluster = s; cannot_delete = o ∷ [] }
  report o (s, failed) = record { cluster = s; cannot_delete = o ∷ [] }

  abbrev pub run_step : Option Object → api.State → Rollback
  run_step none s = record { cluster = s; cannot_delete = [] }
  run_step (some o) s = report o (api.delete o s)

  abbrev pub after_step : Rollback → (api.State → Rollback) → Rollback
  after_step r rest =
      let r' = rest r.cluster in
      record { cluster = r'.cluster; cannot_delete = r.cannot_delete ++ r'.cannot_delete }

  unfoldable pub run_steps : Held → List Step → api.State → Rollback
  run_steps held [] s = record { cluster = s; cannot_delete = [] }
  run_steps held (step ∷ steps) s =
      after_step (run_step (target held step) s) (run_steps held steps)

  -- `RollbackInstallation`, where `enabled` is the parameter `Rollback`
  unfoldable pub rollback_installation : Bool → Installer → Rollback
  rollback_installation true k = run_steps k.held k.rollback_steps k.cluster
  rollback_installation false k = record { cluster = k.cluster; cannot_delete = [] }
