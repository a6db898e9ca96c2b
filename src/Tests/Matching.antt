-- ===== src/Tests/Matching.antt =====
-- Requirement sets on the flows of one connection.
use cilium_cli.Prelude.{
  ℕ, ◌≡◌, refl, some, List, [], ◌∷◌, true, false, returns, Returns, pos, lookup, insert, get_or,
  ◌+ℤ◌, nat_eq, string_eq,
}
use cilium_cli.Flow.{Flow}
use cilium_cli.Filters.{
  new_flow_context, tcp, ip, match, match_all, match_any, match_tcp, match_ip, match_tcp_flags,
  match_drop,
}
use cilium_cli.Matching.{
  FlowSetRequirement, match_flow_requirements, rounds, run_round, rest_of_round, attempt, require,
  require_all, forbid_all, slice_from, contains, search, note_match, describe,
}
use cilium_cli.Matching.Search.{Finds, search-first}
use cilium_cli.Matching.Goal.{HasFilters, Verdict}
use cilium_cli.Matching.Verdict.{match_flow_requirements-Verdict}
use cilium_cli.Validation.{
  tick, expired, PeerEvent, ActionState, match_all_flow_requirements, validate_flows_for_peer,
  validate_flows, no_results,
}
use cilium_cli.Validation.Merged.{Merged, match_all_flow_requirements-Merged}
use cilium_cli.Validation.Outcome.{
  Ended, validate_flows_for_peer-Ended, Concluded, validate_flows-Concluded,
}
use cilium_cli.Requirements.Egress.{egress_tcp_allowed}
use cilium_cli.Tests.Samples.{syn_flow, syn_ack_flow, fin_flow, other_flow}

-- what `GetEgressRequirements` builds for a connection that is allowed
abbrev connection : FlowSetRequirement
connection =
    egress_tcp_allowed false (ip "10.0.0.1" "10.0.0.2") (ip "10.0.0.2" "10.0.0.1") (tcp 0 8080)
      (tcp 8080 0)

connection-HasFilters : HasFilters connection
connection-HasFilters = record {
  first = (_, refl);
  middle = ((_, refl), tt);
  last = (_, refl);
  except = ((_, refl), ((_, refl), tt));
}

abbrev handshake : List Flow
handshake = other_flow ∷ syn_flow ∷ syn_ack_flow ∷ fin_flow ∷ []

-- The connection is found, its first flow at 1 and its last at 3.
handshake_matches :
    match_flow_requirements handshake false connection
    ≡ returns (record {
      first_match = pos 1;
      last_match = pos 3;
      matched = some ((1, true) ∷ (2, true) ∷ (3, true) ∷ []);
      failures = pos 0;
      need_more_flows = false;
      last_match_timestamp = 5;
    })
unfolding describe match_flow_requirements rounds run_round rest_of_round attempt require
    require_all forbid_all slice_from contains search note_match match match_all match_any match_tcp
    match_ip match_tcp_flags match_drop lookup insert get_or ◌+ℤ◌
handshake_matches = refl

search-first_example :
    Finds (tcp 0 8080) handshake new_flow_context (search (tcp 0 8080) handshake new_flow_context).0
search-first_example = search-first (tcp 0 8080) handshake new_flow_context

match_flow_requirements-Verdict_example :
    Returns
      (Verdict handshake false connection)
      (match_flow_requirements handshake false connection)
match_flow_requirements-Verdict_example =
    match_flow_requirements-Verdict handshake false connection connection-HasFilters

match_all_flow_requirements-Merged_example :
    Returns
      (Merged handshake false (connection ∷ []) no_results)
      (match_all_flow_requirements handshake false (connection ∷ []))
match_all_flow_requirements-Merged_example =
    match_all_flow_requirements-Merged other_flow (syn_flow ∷ syn_ack_flow ∷ fin_flow ∷ []) false
      connection [] (connection-HasFilters, tt)

-- no flows, then too few, then all, then the end
abbrev events : List PeerEvent
events = tick [] ∷ tick (syn_flow ∷ []) ∷ tick handshake ∷ expired ∷ []

validate_flows_for_peer-Ended_example :
    Returns
      (Ended false connection [] events)
      (validate_flows_for_peer false (connection ∷ []) events)
validate_flows_for_peer-Ended_example =
    validate_flows_for_peer-Ended false connection [] events (connection-HasFilters, tt)

abbrev action : ActionState ℕ
action = record { flow_results = []; failed = false }

validate_flows-Concluded_example :
    Returns
      (Concluded false connection [] 7 events action)
      (validate_flows "warning" true false 7 (connection ∷ []) events action)
validate_flows-Concluded_example =
    validate_flows-Concluded "warning" false 7 connection [] events action refl
      (connection-HasFilters, tt)
