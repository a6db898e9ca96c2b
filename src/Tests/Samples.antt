-- ===== src/Tests/Samples.antt =====
-- The flows of one TCP connection from 10.0.0.1:40000 to 10.0.0.2:8080, and drops.
use cilium_cli.Prelude.{ℕ, String, some, none, true, false, ◌==◌, string_eq, pos, if◌then◌else◌}
use cilium_cli.Flow.{
  Flow, TcpFlags, of_tcp, verdict_dropped, direction_egress, direction_ingress,
  reason_policy_denied,
}
use cilium_cli.Requirements.Inputs.{GoLibrary, Addresses, FlowParameters, L4Protocol}

abbrev pub flow_of : String → String → ℕ → ℕ → TcpFlags → Flow
flow_of src dst src_port dst_port f = record {
  verdict = 1;
  drop_reason_desc = 0;
  traffic_direction = direction_egress;
  ip = some (record { source = src; destination = dst });
  l4 =
      some
        (of_tcp (record { source_port = src_port; destination_port = dst_port; flags = some f }));
  l7 = none;
  time = some 5;
}

abbrev pub syn_flags : TcpFlags
syn_flags = record { fin = false; syn = true; rst = false; ack = false }

abbrev pub syn_ack_flags : TcpFlags
syn_ack_flags = record { fin = false; syn = true; rst = false; ack = true }

abbrev pub fin_flags : TcpFlags
fin_flags = record { fin = true; syn = false; rst = false; ack = true }

abbrev pub syn_flow : Flow
syn_flow = flow_of "10.0.0.1" "10.0.0.2" 40000 8080 syn_flags

abbrev pub syn_ack_flow : Flow
syn_ack_flow = flow_of "10.0.0.2" "10.0.0.1" 8080 40000 syn_ack_flags

abbrev pub fin_flow : Flow
fin_flow = flow_of "10.0.0.1" "10.0.0.2" 40000 8080 fin_flags

abbrev pub other_flow : Flow
other_flow = flow_of "10.0.0.9" "10.0.0.2" 41000 8080 syn_flags

abbrev pub dropped_syn : Flow
dropped_syn = record syn_flow { verdict = verdict_dropped; drop_reason_desc = reason_policy_denied }

abbrev pub dropped_in : Flow
dropped_in = record dropped_syn { traffic_direction = direction_ingress }

abbrev pub go : GoLibrary
go = record {
  is_ip = λ s. s == "10.0.0.2";
  atoi = λ s. if s == "200" then some (pos 200) else none;
}

abbrev pub addresses : Addresses
addresses = record { src = "10.0.0.1"; dst = "10.0.0.2"; port = 8080 }

abbrev pub parameters_for : L4Protocol → FlowParameters
parameters_for l = record {
  protocol = l;
  dns_required = false;
  rst_allowed = false;
  alt_dst_ip = "";
  alt_dst_port = 0;
}
