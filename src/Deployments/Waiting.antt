-- ===== src/Deployments/Waiting.antt =====
-- connectivity/check/deployment.go and k8s/client.go: the wait for the deployments to become ready.
use cilium_cli.Prelude.{
  ℕ, String, some, List, [], ◌∷◌, get_elem?, All, Bool, true, false, not, ◌&&◌, ◌==◌, nat_eq,
  if◌then◌else◌, ◌≡◌, ◌<◌, refl, suc, arith,
}
use cilium_cli.Status.Collect.{Workload, Fetched, fetched, nothing_fetched, not_found, fetch_error}

-- `CheckDeploymentStatus`, where `desired` is the number of the replicas
abbrev pub is_available : Workload → Bool
is_available w =
    (w.observed_generation == w.generation)
    && not (w.desired == 0)
    && (w.available == w.desired)
    && (w.ready == w.desired)
    && (w.updated == w.desired)

abbrev pub check_deployment_status : Fetched Workload → Bool
check_deployment_status (fetched w) = is_available w
check_deployment_status nothing_fetched = false
check_deployment_status not_found = false
check_deployment_status (fetch_error msg) = false

-- what the API answers for the deployments at one check
abbrev pub Snapshot : Type 0
Snapshot = String → Fetched Workload

-- `waitForDeployments`: each check sees the next snapshot, and there is none once the time is up. The
-- result tells whether no error was returned.
unfoldable pub wait_for_deployments : List String → List Snapshot → Bool
wait_for_deployments [] snapshots = true
wait_for_deployments (name ∷ names) [] = false
wait_for_deployments (name ∷ names) (snapshot ∷ snapshots) =
    let next = wait_for_deployments names snapshots in
    let again = wait_for_deployments (name ∷ names) snapshots in
    if check_deployment_status (snapshot name) then next else again

-- all replicas are available, ready and up to date, there is at least one, and the latest change of the
-- deployment was observed
pub record IsRolledOut (w : Workload) : Type 0 where
  pub observed : w.observed_generation ≡ w.generation
  pub some_replica : 0 < w.desired
  pub available : w.available ≡ w.desired
  pub ready : w.ready ≡ w.desired
  pub updated : w.updated ≡ w.desired

-- at one of the checks the deployment was in this state
abbrev pub WasAvailable : List Snapshot → String → Type 0
WasAvailable snapshots name =
    (i : ℕ) × (snapshot : Snapshot) × (w : Workload) × (get_elem? snapshots i ≡ some snapshot)
    × (snapshot name ≡ fetched w)
    × IsRolledOut w

is_available-IsRolledOut : (w : Workload) → is_available w ≡ true → IsRolledOut w
is_available-IsRolledOut w h = record {
  observed = ground arith;
  some_replica = ground arith;
  available = ground arith;
  ready = ground arith;
  updated = ground arith;
}

earlier :
    (snapshot : Snapshot) (snapshots : List Snapshot) (names : List String)
    → All (WasAvailable snapshots) names
    → All (WasAvailable (snapshot ∷ snapshots)) names
earlier snapshot snapshots [] h = tt
earlier snapshot snapshots (name ∷ names) ((i, x, w, at, e, available), h) =
    ((suc i, x, w, at, e, available), earlier snapshot snapshots names h)

checked :
    (d : Fetched Workload)
    → check_deployment_status d ≡ true
    → (w : Workload) × (d ≡ fetched w) × IsRolledOut w
checked (fetched w) h = (w, refl, is_available-IsRolledOut w h)
checked nothing_fetched h = absurd cc
checked not_found h = absurd cc
checked (fetch_error msg) h = absurd cc

one_check :
    (b : Bool) (name : String) (names : List String) (snapshot : Snapshot)
    (snapshots : List Snapshot)
    → check_deployment_status (snapshot name) ≡ b
    → (if b
        then wait_for_deployments names snapshots
        else wait_for_deployments (name ∷ names) snapshots)
      ≡ true
    → (wait_for_deployments names snapshots ≡ true → All (WasAvailable snapshots) names)
    → (wait_for_deployments (name ∷ names) snapshots ≡ true
        → All (WasAvailable snapshots) (name ∷ names))
    → All (WasAvailable (snapshot ∷ snapshots)) (name ∷ names)
one_check true name names snapshot snapshots e h next again =
    let (w, found, available) = checked (snapshot name) e in
    ((0, snapshot, w, refl, found, available), earlier snapshot snapshots names (next h))
one_check false name names snapshot snapshots e h next again =
    earlier snapshot snapshots (name ∷ names) (again h)

-- Where `waitForDeployments` returns no error, each of the deployments had at one of its checks all
-- its replicas available, ready and updated, at least one of them, and its latest change seen.
pub wait_for_deployments-WasAvailable :
    (names : List String) (snapshots : List Snapshot)
    → wait_for_deployments names snapshots ≡ true
    → All (WasAvailable snapshots) names
unfolding wait_for_deployments
wait_for_deployments-WasAvailable [] snapshots h = tt
wait_for_deployments-WasAvailable (name ∷ names) [] h = absurd cc
wait_for_deployments-WasAvailable (name ∷ names) (snapshot ∷ snapshots) h =
    one_check (check_deployment_status (snapshot name)) name names snapshot snapshots refl h
      (wait_for_deployments-WasAvailable names snapshots)
      (wait_for_deployments-WasAvailable (name ∷ names) snapshots)
