-- ===== src/Validation/Outcome.antt =====
-- connectivity/check/action.go: how the validation of a peer's flows ends.
use cilium_cli.Prelude.{
  All, ◌≡◌, refl, ◌⊎◌, inl, inr, List, [], ◌∷◌, String, Bool, true, false, arith, pos, minus_one,
  Eq, string_eq, ◌==◌, Returns, Returns-bind, Returns-pure, Returns-map, int_eq, int_beq_iff,
  lookup, lookup-insert, some,
}
use cilium_cli.Flow.{Flow}
use cilium_cli.Matching.{FlowSetRequirement, FlowRequirementResults}
use cilium_cli.Matching.Goal.{HasFilters}
use cilium_cli.Validation.{
  PeerEvent, tick, expired, Validation, validated, aborted, pending, is_success, validate_loop,
  match_all_flow_requirements, validate_flows_for_peer, validate_flows, ActionState, zero_results,
  no_results, conclude,
}
use cilium_cli.Validation.Merged.{
  Any, Fulfils, Lacks, Merged, all_met, some_missing, match_all_flow_requirements-Merged, IsIndex,
}

module _ (aggregated : Bool) (reqs : List FlowSetRequirement) where
  -- Before the context ends, at some tick the flows meet all requirement sets, and at none before.
  abbrev pub MetAtTick : List PeerEvent → Type 0
  MetAtTick [] = ⊥
  MetAtTick (expired ∷ events) = ⊥
  MetAtTick (tick [] ∷ events) = MetAtTick events
  MetAtTick (tick (flow ∷ flows) ∷ events) =
      All (Fulfils (flow ∷ flows) aggregated) reqs
      ⊎ (Any (Lacks (flow ∷ flows) aggregated) reqs × MetAtTick events)

  -- Before the context ends, at each tick some set is not met, or there are no flows.
  abbrev pub LackingTicks : List PeerEvent → Type 0
  LackingTicks [] = Unit
  LackingTicks (expired ∷ events) = Unit
  LackingTicks (tick [] ∷ events) = LackingTicks events
  LackingTicks (tick (flow ∷ flows) ∷ events) =
      Any (Lacks (flow ∷ flows) aggregated) reqs × LackingTicks events

abbrev pub expires : List PeerEvent → Bool
expires [] = false
expires (expired ∷ events) = true
expires (tick flows ∷ events) = expires events

-- results that end the validation well
pub record Passing (res : FlowRequirementResults) : Type 0 where
  pub no_failures : res.failures ≡ pos 0
  pub enough : res.need_more_flows ≡ false
  pub first_match : IsIndex res.first_match

-- how the validation of the sets `req ∷ reqs` ends
module _ (aggregated : Bool) (req : FlowSetRequirement) (reqs : List FlowSetRequirement) where
  abbrev pub Ended : List PeerEvent → Validation → Type 0
  Ended events (validated res) = Passing res × MetAtTick aggregated (req ∷ reqs) events
  Ended events (aborted res) = (expires events ≡ true) × LackingTicks aggregated (req ∷ reqs) events
  Ended events (pending res) =
      (expires events ≡ false) × LackingTicks aggregated (req ∷ reqs) events

module _ (aggregated : Bool) (req : FlowSetRequirement) (reqs : List FlowSetRequirement)
    (filters : All HasFilters (req ∷ reqs)) where
  Merged→is_success :
      (flow : Flow) (flows : List Flow) (res : FlowRequirementResults)
      → Merged (flow ∷ flows) aggregated (req ∷ reqs) no_results res
      → ((is_success res ≡ true)
          × Passing res
          × All (Fulfils (flow ∷ flows) aggregated) (req ∷ reqs))
        ⊎ ((is_success res ≡ false) × Any (Lacks (flow ∷ flows) aggregated) (req ∷ reqs))
  Merged→is_success flow flows res (all_met more fails (i, first) all) = inl (
    ground (arith, int_beq_iff res.first_match minus_one),
    record { no_failures = fails; enough = more; first_match = (i, first) },
    all,
  )
  Merged→is_success flow flows res (some_missing more any) = inr (ground arith, any)

  later-Ended :
      (flow : Flow) (flows : List Flow) (events : List PeerEvent) (v : Validation)
      → Any (Lacks (flow ∷ flows) aggregated) (req ∷ reqs)
      → Ended aggregated req reqs events v
      → Ended aggregated req reqs (tick (flow ∷ flows) ∷ events) v
  later-Ended flow flows events (validated res) lacks (p, m) = (p, inr (lacks, m))
  later-Ended flow flows events (aborted res) lacks (x, l) = (x, (lacks, l))
  later-Ended flow flows events (pending res) lacks (x, l) = (x, (lacks, l))

  no_flows-Ended :
      (events : List PeerEvent) (v : Validation)
      → Ended aggregated req reqs events v
      → Ended aggregated req reqs (tick [] ∷ events) v
  no_flows-Ended events (validated res) h = h
  no_flows-Ended events (aborted res) h = h
  no_flows-Ended events (pending res) h = h

  validate_loop-Ended :
      (events : List PeerEvent) (res : FlowRequirementResults)
      → Returns
          (Ended aggregated req reqs events)
          (validate_loop aggregated (req ∷ reqs) events res)
  unfolding validate_loop
  validate_loop-Ended [] res = Returns-pure (pending res) (refl, tt)
  validate_loop-Ended (expired ∷ events) res = Returns-pure (aborted res) (refl, tt)
  validate_loop-Ended (tick [] ∷ events) res =
      Returns-map (validate_loop-Ended events res) (no_flows-Ended events)
  validate_loop-Ended (tick (flow ∷ flows) ∷ events) res =
      Returns-bind (match_all_flow_requirements (flow ∷ flows) aggregated (req ∷ reqs)) _
        (match_all_flow_requirements-Merged flow flows aggregated req reqs filters)
        (λ res' m. elim (Merged→is_success flow flows res' m) [
          | inl (e, p, all) ↦ rw e (Returns-pure (validated res') (p, inl all))
          | inr (e, lacks) ↦ rw e (
              Returns-map (validate_loop-Ended events res')
                (λ v h. later-Ended flow flows events v lacks h))
        ])

-- Where no filter is nil, `validateFlowsForPeer` returns. It ends well only with results that record
-- no failure, and only at a tick before the context ends whose flows meet every requirement set, while at
-- each tick before it that had flows some set was not met: none of its rounds found everything, up to
-- the one that found no further first flow. It aborts only if the context ends and at every tick before
-- that had flows some set was not met.
pub validate_flows_for_peer-Ended :
    (aggregated : Bool) (req : FlowSetRequirement) (reqs : List FlowSetRequirement)
    (events : List PeerEvent)
    → All HasFilters (req ∷ reqs)
    → Returns
        (Ended aggregated req reqs events)
        (validate_flows_for_peer aggregated (req ∷ reqs) events)
unfolding validate_flows_for_peer
validate_flows_for_peer-Ended aggregated req reqs events filters =
    validate_loop-Ended aggregated req reqs filters events zero_results

-- What `ValidateFlows` makes of the way in which the validation ended: the action is marked as
-- failed exactly where it aborted, and is left alone while it goes on.
module _ {Peer : Type 0} ⦃e : Eq Peer⦄ (aggregated : Bool) (req : FlowSetRequirement)
    (reqs : List FlowSetRequirement) (peer : Peer) (events : List PeerEvent)
    (a : ActionState Peer) where
  pub data Concluded (a' : ActionState Peer) : Type 0 where
    passed :
        (res : FlowRequirementResults)
        → Passing res
        → MetAtTick aggregated (req ∷ reqs) events
        → a'.failed ≡ a.failed
        → lookup peer a'.flow_results ≡ some res
        → Concluded a'
    failed_at_end :
        expires events ≡ true
        → LackingTicks aggregated (req ∷ reqs) events
        → a'.failed ≡ true
        → Concluded a'
    still_waiting :
        expires events ≡ false → LackingTicks aggregated (req ∷ reqs) events → a' ≡ a → Concluded a'

  conclude-Concluded :
      (v : Validation) → Ended aggregated req reqs events v → Concluded (conclude peer v a)
  conclude-Concluded (validated res) (p, m) =
      let (i, first) = p.first_match in
      passed res p m (ground (arith, first, p.no_failures)) (
        ground (
          arith,
          lookup-insert peer peer res a.flow_results,
          e.same_iff peer peer,
          first,
          p.no_failures,
        ))
  conclude-Concluded (aborted res) (x, l) = failed_at_end x l (ground arith)
  conclude-Concluded (pending res) (x, l) = still_waiting x l refl

-- With flow validation enabled, a Hubble client and some requirements with no nil filter,
-- `ValidateFlows` returns, and then either the validation passed, at a tick whose flows meet every set,
-- the action keeps its mark and the passing results are stored for the peer; or the context ended, at
-- every tick before that had flows some set was not met by any of its rounds, and the action is marked
-- as failed; or the context has not ended, the flows were lacking in the same way so far, and the
-- action is as it was.
pub validate_flows-Concluded :
    {Peer : Type 0} ⦃e : Eq Peer⦄ (mode : String) (aggregated : Bool) (peer : Peer)
    (req : FlowSetRequirement) (reqs : List FlowSetRequirement) (events : List PeerEvent)
    (a : ActionState Peer)
    → (mode == "disabled") ≡ false
    → All HasFilters (req ∷ reqs)
    → Returns
        (Concluded aggregated req reqs peer events a)
        (validate_flows mode true aggregated peer (req ∷ reqs) events a)
unfolding validate_flows
validate_flows-Concluded mode aggregated peer req reqs events a enabled filters = rw enabled (
    Returns-bind (validate_flows_for_peer aggregated (req ∷ reqs) events) _
      (validate_flows_for_peer-Ended aggregated req reqs events filters)
      (λ v h.
        Returns-pure (conclude peer v a)
          (conclude-Concluded aggregated req reqs peer events a v h)))
