-- ===== src/Requirements/Unsupported.antt =====
-- connectivity/check/action.go: requirements for a protocol whose flows cannot be matched.
use cilium_cli.Prelude.{
  All, ℕ, suc, ◌+◌, length, ◌≡◌, refl, List, [], ◌∷◌, ◌++◌, Bool, true, false, arith, Run, returns,
  panics, with_value,
}
use cilium_cli.Flow.{Flow}
use cilium_cli.Matching.{
  FlowSetRequirement, FlowRequirementResults, initial_results, match_flow_requirements, rounds,
  run_round, attempt, slice_from, contains,
}
use cilium_cli.Matching.Goal.{HasFilters}
use cilium_cli.Matching.Verdict.{match_flow_requirements-Verdict}
use cilium_cli.Validation.{match_all_flow_requirements, merge_all, merge, no_results}
use cilium_cli.Expectations.{Result}
use cilium_cli.Requirements.Inputs.{
  GoLibrary, Addresses, FlowParameters, L4Protocol, over_tcp, over_udp, over_icmp, other_l4,
  is_supported, no_requirements,
}
use cilium_cli.Requirements.Egress.{dns_requirements, protocol_requirements, egress_requirements}
use cilium_cli.Requirements.Presence.{dns_requirements-HasFilters}

rounds-panics :
    (fuel : ℕ) (flow : Flow) (flows : List Flow) (aggregated : Bool)
    → rounds (suc fuel) (flow ∷ flows) aggregated no_requirements 0 initial_results ≡ panics
unfolding rounds run_round attempt slice_from contains
rounds-panics fuel flow flows aggregated = ground arith

no_requirements-panics :
    (flow : Flow) (flows : List Flow) (aggregated : Bool)
    → match_flow_requirements (flow ∷ flows) aggregated no_requirements ≡ panics
unfolding match_flow_requirements
no_requirements-panics flow flows aggregated =
    let e : length (flow ∷ flows) + 2 ≡ suc (length flows + 2) = omega arith in
    rw e (rounds-panics (length flows + 2) flow flows aggregated)

merge_all-panics :
    (flow : Flow) (flows : List Flow) (aggregated : Bool) (reqs : List FlowSetRequirement)
    (out : FlowRequirementResults)
    → All HasFilters reqs
    → merge_all (flow ∷ flows) aggregated (reqs ++ no_requirements ∷ []) out ≡ panics
unfolding merge_all
merge_all-panics flow flows aggregated [] out h =
    rw (no_requirements-panics flow flows aggregated) refl
merge_all-panics flow flows aggregated (req ∷ reqs) out h =
    elim (match_flow_requirements-Verdict (flow ∷ flows) aggregated req h.0) [
      | with_value r e v ↦ rw e (merge_all-panics flow flows aggregated reqs (merge out r) h.1)
    ]

unsupported-eq :
    (go : GoLibrary) (egress ingress : Result) (a : Addresses) (p : FlowParameters) (l : L4Protocol)
    → is_supported l ≡ false
    → protocol_requirements go egress ingress a p l ≡ no_requirements ∷ []
unsupported-eq go egress ingress a p over_udp h = refl
unsupported-eq go egress ingress a p other_l4 h = refl
unsupported-eq go egress ingress a p over_tcp h = absurd (cc)
unsupported-eq go egress ingress a p over_icmp h = absurd (cc)

not-nil :
    (flow : Flow) (flows : List Flow) (aggregated : Bool) (reqs : List FlowSetRequirement)
    (q : FlowSetRequirement)
    → match_all_flow_requirements (flow ∷ flows) aggregated (reqs ++ q ∷ [])
      ≡ merge_all (flow ∷ flows) aggregated (reqs ++ q ∷ []) no_results
unfolding match_all_flow_requirements
not-nil flow flows aggregated [] q = refl
not-nil flow flows aggregated (req ∷ reqs) q = refl

no_flows :
    (aggregated : Bool) (reqs : List FlowSetRequirement) (q : FlowSetRequirement)
    → match_all_flow_requirements [] aggregated (reqs ++ q ∷ [])
      ≡ returns (record no_results { need_more_flows = true })
unfolding match_all_flow_requirements
no_flows aggregated [] q = refl
no_flows aggregated (req ∷ reqs) q = refl

-- What matching the egress requirements comes to where the last set has nil filters.
abbrev pub UnsupportedOutcome : List Flow → Run FlowRequirementResults → Type 0
UnsupportedOutcome [] r = r ≡ returns (record no_results { need_more_flows = true })
UnsupportedOutcome (flow ∷ flows) r = r ≡ panics

-- For UDP and any other protocol, `GetEgressRequirements` marks the action as failed and builds the
-- requirements all the same, the last set with nil filters: matching them against at least one flow
-- panics, whatever the flows, and against no flow it only asks for more.
pub unsupported-panics :
    (go : GoLibrary) (egress ingress : Result) (a : Addresses) (p : FlowParameters)
    (flows : List Flow) (aggregated : Bool)
    → is_supported p.protocol ≡ false
    → ((egress_requirements go egress ingress a p).1 ≡ true)
      × UnsupportedOutcome flows (
          match_all_flow_requirements flows aggregated
            (egress_requirements go egress ingress a p).0)
unfolding egress_requirements
unsupported-panics go egress ingress a p [] aggregated h = (
  ground arith,
  rw (unsupported-eq go egress ingress a p p.protocol h)
      (no_flows aggregated (dns_requirements egress a p) no_requirements),
)
unsupported-panics go egress ingress a p (flow ∷ flows) aggregated h = (
  ground arith,
  rw
      (
        unsupported-eq go egress ingress a p p.protocol h,
        not-nil flow flows aggregated (dns_requirements egress a p) no_requirements,
      )
      (merge_all-panics flow flows aggregated (dns_requirements egress a p) no_results
        (dns_requirements-HasFilters egress a p)),
)
