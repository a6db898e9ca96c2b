-- ===== src/Tests/Requirements.antt =====
-- The requirements of sample actions on sample flows.
use cilium_cli.Prelude.{
  All, ◌≡◌, refl, some, List, [], ◌∷◌, true, false, pos, lookup, insert, get_or, ◌+ℤ◌, nat_eq,
  string_eq, inl, arith,
}
use cilium_cli.Flow.{Flow, of_icmpv4, direction_egress, direction_ingress}
use cilium_cli.Filters.{
  Filter, new_flow_context, ip, match, match_all, match_any, match_tcp, match_ip, match_tcp_flags,
  match_drop,
}
use cilium_cli.Matching.{
  FlowSetRequirement, FlowRequirementResults, match_flow_requirements, rounds, run_round,
  rest_of_round, attempt, require, require_all, forbid_all, slice_from, contains, search,
  note_match, describe,
}
use cilium_cli.Matching.Goal.{HasFilters}
use cilium_cli.Matching.Verdict.{Satisfied-at}
use cilium_cli.Validation.{match_all_flow_requirements}
use cilium_cli.Validation.Merged.{Fulfils}
use cilium_cli.Expectations.{
  default_deny_reason, result_ok, result_default_deny_egress_drop, result_default_deny_ingress_drop,
}
use cilium_cli.Requirements.Inputs.{over_tcp, over_udp, FlowParameters, icmp_request, icmp_response}
use cilium_cli.Filters.Build.{and, or, drop}
use cilium_cli.Requirements.Egress.{
  egress_requirements, egress_tcp, egress_icmp, http_after, dns_requirements,
}
use cilium_cli.Requirements.Ingress.{ingress_requirements, ingress_tcp}
use cilium_cli.Requirements.Presence.{supported-HasFilters}
use cilium_cli.Requirements.Unsupported.{UnsupportedOutcome, unsupported-panics}
use cilium_cli.Requirements.AnyDrop.{icmp_any_drop}
use cilium_cli.Requirements.Drops.{
  DropSeen, egress_requirements-DropSeen, ingress_requirements-DropSeen,
}
use cilium_cli.Tests.Samples.{syn_flow, dropped_syn, dropped_in, go, addresses, parameters_for}

abbrev tcp_parameters : FlowParameters
tcp_parameters = parameters_for over_tcp

supported-HasFilters_example :
    All HasFilters (egress_requirements go result_ok result_ok addresses tcp_parameters).0
    × ((egress_requirements go result_ok result_ok addresses tcp_parameters).1 ≡ false)
    × All HasFilters (ingress_requirements go result_ok addresses tcp_parameters).0
    × ((ingress_requirements go result_ok addresses tcp_parameters).1 ≡ false)
supported-HasFilters_example =
    supported-HasFilters go result_ok result_ok addresses tcp_parameters refl

unsupported-panics_example :
    ((egress_requirements go result_ok result_ok addresses (parameters_for over_udp)).1 ≡ true)
    × UnsupportedOutcome (syn_flow ∷ []) (
        match_all_flow_requirements
          (syn_flow ∷ [])
          false
          (egress_requirements go result_ok result_ok addresses (parameters_for over_udp)).0)
unsupported-panics_example =
    unsupported-panics go result_ok result_ok addresses (parameters_for over_udp) (syn_flow ∷ [])
      false refl

abbrev dropped_results : FlowRequirementResults
dropped_results = record {
  first_match = pos 0;
  last_match = pos 1;
  matched = some ((0, true) ∷ (1, true) ∷ []);
  failures = pos 0;
  need_more_flows = false;
  last_match_timestamp = 5;
}

abbrev egress_sets : List FlowSetRequirement
egress_sets =
    (egress_requirements go result_default_deny_egress_drop result_ok addresses tcp_parameters).0

egress_fulfilled : All (Fulfils (syn_flow ∷ dropped_syn ∷ []) false) egress_sets
unfolding egress_requirements egress_tcp http_after dns_requirements match_flow_requirements
    describe rounds run_round rest_of_round attempt require require_all forbid_all slice_from
    contains search note_match match match_all match_any match_tcp match_ip match_tcp_flags
    match_drop lookup insert get_or ◌+ℤ◌ default_deny_reason
egress_fulfilled =
    let filters =
      supported-HasFilters go result_default_deny_egress_drop result_ok addresses tcp_parameters
        refl in
    (
      (
        dropped_results,
        Satisfied-at (syn_flow ∷ dropped_syn ∷ []) false _ dropped_results filters.0.0 refl refl,
      ),
      tt,
    )

egress_requirements-DropSeen_example :
    DropSeen (syn_flow ∷ dropped_syn ∷ []) direction_egress default_deny_reason
egress_requirements-DropSeen_example =
    egress_requirements-DropSeen go result_default_deny_egress_drop result_ok addresses
      tcp_parameters (syn_flow ∷ dropped_syn ∷ []) false default_deny_reason refl refl refl refl
      egress_fulfilled

abbrev ingress_sets : List FlowSetRequirement
ingress_sets = (ingress_requirements go result_default_deny_ingress_drop addresses tcp_parameters).0

ingress_fulfilled : All (Fulfils (syn_flow ∷ dropped_in ∷ []) false) ingress_sets
unfolding ingress_requirements ingress_tcp match_flow_requirements rounds run_round rest_of_round
    describe attempt require require_all forbid_all slice_from contains search note_match match
    match_all match_any match_tcp match_ip match_tcp_flags match_drop lookup insert get_or ◌+ℤ◌
    default_deny_reason
ingress_fulfilled =
    let filters =
      supported-HasFilters go result_ok result_default_deny_ingress_drop addresses tcp_parameters
        refl in
    (
      (
        dropped_results,
        Satisfied-at (syn_flow ∷ dropped_in ∷ []) false _ dropped_results filters.2.0 refl refl,
      ),
      tt,
    )

ingress_requirements-DropSeen_example :
    DropSeen (syn_flow ∷ dropped_in ∷ []) direction_ingress default_deny_reason
ingress_requirements-DropSeen_example =
    ingress_requirements-DropSeen go result_default_deny_ingress_drop addresses tcp_parameters
      (syn_flow ∷ dropped_in ∷ []) false default_deny_reason refl refl refl refl ingress_fulfilled

-- an echo request that was dropped at egress
abbrev dropped_echo : Flow
dropped_echo = record dropped_syn { l4 = some (of_icmpv4 8) }

abbrev response_or_drop : Filter
response_or_drop = or (
    and (ip "10.0.0.2" "10.0.0.1" ∷ icmp_response ∷ [])
    ∷ and (ip "10.0.0.1" "10.0.0.2" ∷ icmp_request ∷ drop [] ∷ [])
    ∷ [])

is_last :
    (egress_icmp result_ok result_default_deny_ingress_drop
      (ip "10.0.0.1" "10.0.0.2")
      (ip "10.0.0.2" "10.0.0.1")).last.filter
    ≡ some response_or_drop
unfolding egress_icmp
is_last = refl

icmp_any_drop_example : (match response_or_drop dropped_echo new_flow_context).0 ≡ true
icmp_any_drop_example =
    icmp_any_drop result_ok result_default_deny_ingress_drop "10.0.0.1" "10.0.0.2" response_or_drop
      dropped_echo new_flow_context refl refl refl refl is_last
      (inl (λ e. absurd (cc), refl), inl (λ e. absurd (cc), refl)) (inl refl)
      (λ e. absurd (omega (arith, e)))
