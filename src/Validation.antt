-- ===== src/Validation.antt =====
-- connectivity/check/action.go and connectivity/check/check.go: the requirements of a peer are
-- matched again and again, until they are met or the time is up.
pub mod Merged
pub mod Outcome
use cilium_cli.Prelude.{
  ℕ, ◌+◌, String, Option, none, some, List, [], ◌∷◌, Bool, true, false, not, ◌&&◌, ◌||◌, Map,
  insert, ◌==◌, Eq, nat_eq, int_eq, string_eq, if◌then◌else◌, ltb, ℤ, pos, minus_one, ◌+ℤ◌, ltbℤ,
  Run, returns, ◌>>=◌,
}
use cilium_cli.Flow.{Flow}
use cilium_cli.Matching.{
  FlowSetRequirement, FlowRequirementResults, MatchMap, initial_results, match_flow_requirements,
}

abbrev pub insert_all : MatchMap → MatchMap → MatchMap
insert_all [] m = m
insert_all ((k, v) ∷ from) m = insert_all from (insert k v m)

abbrev pub merge_matched : Option MatchMap → Option MatchMap → Option MatchMap
merge_matched none from = from
merge_matched (some m) none = some m
merge_matched (some m) (some from) = some (insert_all from m)

abbrev pub max_int : ℤ → ℤ → ℤ
max_int a b = if ltbℤ a b then b else a

-- `r.Merge(from)`
unfoldable pub merge : FlowRequirementResults → FlowRequirementResults → FlowRequirementResults
merge r from = record {
  first_match =
      if ltbℤ r.first_match (pos 0)
        || not (ltbℤ from.first_match (pos 0)) && ltbℤ from.first_match r.first_match
      then from.first_match
      else r.first_match;
  last_match = max_int (max_int r.last_match from.first_match) from.last_match;
  matched = merge_matched r.matched from.matched;
  failures = r.failures +ℤ from.failures;
  need_more_flows = r.need_more_flows || from.need_more_flows;
  last_match_timestamp =
      if ltb r.last_match_timestamp from.last_match_timestamp
      then from.last_match_timestamp
      else r.last_match_timestamp;
}

abbrev pub no_results : FlowRequirementResults
no_results = record {
  first_match = minus_one;
  last_match = minus_one;
  matched = none;
  failures = pos 0;
  need_more_flows = false;
  last_match_timestamp = 0;
}

unfoldable pub merge_all :
    List Flow → Bool → List FlowSetRequirement → FlowRequirementResults → Run FlowRequirementResults
merge_all flows aggregated [] out = returns out
merge_all flows aggregated (req ∷ reqs) out = do
  res ← match_flow_requirements flows aggregated req
  merge_all flows aggregated reqs (merge out res)

-- `matchAllFlowRequirements`
unfoldable pub match_all_flow_requirements :
    List Flow → Bool → List FlowSetRequirement → Run FlowRequirementResults
match_all_flow_requirements flows aggregated [] = returns no_results
match_all_flow_requirements [] aggregated (req ∷ reqs) =
    returns (record no_results { need_more_flows = true })
match_all_flow_requirements (flow ∷ flows) aggregated (req ∷ reqs) =
    merge_all (flow ∷ flows) aggregated (req ∷ reqs) no_results

-- What the `select` of `validateFlowsForPeer` receives: a tick, at which `a.flows` holds the flows
-- received so far, or the end of the context.
pub data PeerEvent : Type 0 where
  tick : List Flow → PeerEvent
  expired : PeerEvent

-- `pending`: the events so far have not ended the loop.
pub data Validation : Type 0 where
  validated aborted pending : FlowRequirementResults → Validation

abbrev pub is_success : FlowRequirementResults → Bool
is_success res = not res.need_more_flows && not (res.first_match == minus_one)

unfoldable pub validate_loop :
    Bool → List FlowSetRequirement → List PeerEvent → FlowRequirementResults → Run Validation
validate_loop aggregated reqs [] res = returns (pending res)
validate_loop aggregated reqs (expired ∷ events) res = returns (aborted res)
validate_loop aggregated reqs (tick [] ∷ events) res = validate_loop aggregated reqs events res
validate_loop aggregated reqs (tick (flow ∷ flows) ∷ events) res = do
  res' ← match_all_flow_requirements (flow ∷ flows) aggregated reqs
  elim (is_success res') [
    | true ↦ returns (validated res')
    | false ↦ validate_loop aggregated reqs events res'
  ]

abbrev pub zero_results : FlowRequirementResults
zero_results = record initial_results { failures = pos 0 }

unfoldable pub validate_flows_for_peer :
    Bool → List FlowSetRequirement → List PeerEvent → Run Validation
validate_flows_for_peer aggregated reqs events = validate_loop aggregated reqs events zero_results

-- the fields of `Action` that `ValidateFlows` changes
pub record ActionState (Peer : Type 0) : Type 0 where
  pub flow_results : Map Peer FlowRequirementResults
  pub failed : Bool

module _ {Peer : Type 0} ⦃e : Eq Peer⦄ where
  abbrev pub fail : ActionState Peer → ActionState Peer
  fail a = record a { failed = true }

  -- the verdict on the results of one peer
  abbrev pub report : Peer → FlowRequirementResults → ActionState Peer → ActionState Peer
  report peer res a =
      let stored = record a { flow_results = insert peer res a.flow_results } in
      if (res.failures == pos 0) && not (ltbℤ res.first_match (pos 0)) then stored else fail stored

  abbrev pub conclude : Peer → Validation → ActionState Peer → ActionState Peer
  conclude peer (validated res) a = report peer res a
  conclude peer (aborted res) a = report peer res (fail a)
  conclude peer (pending res) a = a

  -- `ValidateFlows`: `mode` is the parameter FlowValidation, and `has_client` tells whether the
  -- Hubble client is set.
  unfoldable pub validate_flows :
      String
      → Bool
      → Bool
      → Peer
      → List FlowSetRequirement
      → List PeerEvent
      → ActionState Peer
      → Run (ActionState Peer)
  validate_flows mode has_client aggregated peer [] events a = returns a
  validate_flows mode has_client aggregated peer (req ∷ reqs) events a =
      if mode == "disabled" || not has_client then returns a else (do
        v ← validate_flows_for_peer aggregated (req ∷ reqs) events
        returns (conclude peer v a))
