-- ===== src/Tests/Filters.antt =====
-- The filters on sample flows.
use cilium_cli.Prelude.{
  ℕ, ◌≡◌, refl, ◌↔◌, some, none, List, [], ◌∷◌, true, false, nat_eq, arith, lookup, insert, get_or,
}
use cilium_cli.Flow.{Tcp}
use cilium_cli.Filters.{
  Filter, new_flow_context, match, match_all, match_tcp, match_ip, tcp, ip, match_tcp_flags,
}
use cilium_cli.Filters.Build.{
  and, or, syn, drop, DropOption, with_egress, with_ingress, with_drop_func, default_reason,
}
use cilium_cli.Filters.Tracking.{Extends, match-Extends}
use cilium_cli.Filters.Meaning.{Means}
use cilium_cli.Filters.Meaning.Whole.{match-Means}
use cilium_cli.Filters.Conversation.{after, tcp_conversation}
use cilium_cli.Tests.Samples.{syn_flow, syn_ack_flow, other_flow, syn_flags}

abbrev request : Filter
request = and (ip "10.0.0.1" "10.0.0.2" ∷ tcp 0 8080 ∷ syn ∷ [])

-- A SYN is matched, and its source port and destination address are fixed.
request_matches :
    match request syn_flow new_flow_context
    ≡ (true, record { dst_ip = "10.0.0.2"; tcp_ports = (8080, 40000) ∷ []; udp_ports = [] })
unfolding match match_all match_tcp match_ip match_tcp_flags lookup insert get_or
request_matches = refl

-- The packets of another client are not.
other_client : (match (tcp 0 8080) other_flow (match request syn_flow new_flow_context).1).0 ≡ false
unfolding match match_all match_tcp match_ip match_tcp_flags lookup insert get_or
other_client = refl

match-Extends_example :
    Extends syn_flow new_flow_context (match request syn_flow new_flow_context).1
match-Extends_example = match-Extends request syn_flow new_flow_context

abbrev response : Filter
response = or (and (ip "10.0.0.2" "10.0.0.1" ∷ tcp 8080 0 ∷ []) ∷ drop [] ∷ [])

match-Means_example :
    ((match response syn_ack_flow new_flow_context).1 ≡ new_flow_context)
    × (((match response syn_ack_flow new_flow_context).0 ≡ true)
        ↔ Means response syn_ack_flow new_flow_context)
match-Means_example = match-Means response syn_ack_flow new_flow_context refl

abbrev syn_packet : Tcp
syn_packet = record { source_port = 40000; destination_port = 8080; flags = some syn_flags }

abbrev reply_packet : Tcp
reply_packet = record {
  source_port = 8080;
  destination_port = 40000;
  flags = some (record syn_flags { ack = true });
}

no_ports : lookup {K = ℕ} {V = ℕ} 8080 [] ≡ none
unfolding lookup
no_ports = refl

tcp_conversation_example :
    (((match (tcp 8080 0) syn_ack_flow (
          after ((tcp 0 8080, other_flow) ∷ []) (match (tcp 0 8080) syn_flow new_flow_context).1)).0
        ≡ true)
      ↔ ((reply_packet.source_port ≡ 8080) × (reply_packet.destination_port ≡ 40000)))
    × (((match (tcp 0 8080) syn_ack_flow (
            after
              ((tcp 0 8080, other_flow) ∷ [])
              (match (tcp 0 8080) syn_flow new_flow_context).1)).0
          ≡ true)
        ↔ ((reply_packet.destination_port ≡ 8080) × (reply_packet.source_port ≡ 40000)))
tcp_conversation_example =
    tcp_conversation 8080 syn_flow syn_packet new_flow_context ((tcp 0 8080, other_flow) ∷ [])
      syn_ack_flow reply_packet refl refl refl no_ports (omega arith) refl

abbrev options : List DropOption
options = with_egress ∷ with_drop_func (some default_reason) ∷ with_ingress ∷ []
