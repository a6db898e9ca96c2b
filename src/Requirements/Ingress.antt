-- ===== src/Requirements/Ingress.antt =====
-- connectivity/check/action.go: `GetIngressRequirements`.
use cilium_cli.Prelude.{List, [], ◌∷◌, Bool, true, false, not, ◌||◌, ◌==◌, nat_eq, if◌then◌else◌}
use cilium_cli.Filters.{Filter, tcp}
use cilium_cli.Filters.Build.{and, or, drop, with_ingress, syn, syn_ack, fin, rst}
use cilium_cli.Matching.{FlowSetRequirement}
use cilium_cli.Expectations.{Result}
use cilium_cli.Requirements.Inputs.{
  L4Protocol, over_tcp, over_udp, over_icmp, other_l4, FlowParameters, Addresses, GoLibrary,
  requirement, no_requirements, ip_request, ip_response, drop_filter_for, icmp_request,
  icmp_response, is_supported,
}

-- The alternative port is tried even where it is the port itself.
abbrev pub tcp_request_in : Addresses → FlowParameters → Filter
tcp_request_in a p =
    if not (p.alt_dst_port == 0)
    then or (tcp 0 p.alt_dst_port ∷ tcp 0 a.port ∷ [])
    else tcp 0 a.port

abbrev pub tcp_response_in : Addresses → FlowParameters → Filter
tcp_response_in a p =
    if not (p.alt_dst_port == 0)
    then or (tcp p.alt_dst_port 0 ∷ tcp a.port 0 ∷ [])
    else tcp a.port 0

unfoldable pub ingress_icmp : Result → Filter → Filter → FlowSetRequirement
ingress_icmp ingress ip_req ip_resp =
    let request = and (ip_req ∷ icmp_request ∷ []) in
    let response = and (ip_resp ∷ icmp_response ∷ []) in
    if ingress.drop || ingress.ingress_drop
    then record {
      first = requirement request "ICMP request" false;
      middle = [];
      last =
          requirement
            (and (
              ip_req
              ∷ icmp_request
              ∷ drop_filter_for ingress.ingress_drop with_ingress ingress.drop_reason_func
              ∷ []))
            "Drop" false;
      except = requirement response "ICMP response" false ∷ [];
    }
    else record {
      first = requirement request "ICMP request" false;
      middle = [];
      last = requirement response "ICMP response" true;
      except = requirement (and (ip_req ∷ icmp_request ∷ drop [] ∷ [])) "Drop" false ∷ [];
    }

unfoldable pub ingress_tcp : Result → Filter → Filter → Filter → Filter → FlowSetRequirement
ingress_tcp ingress ip_req ip_resp tcp_req tcp_resp =
    let either_way = or (and (ip_req ∷ tcp_req ∷ []) ∷ and (ip_resp ∷ tcp_resp ∷ []) ∷ []) in
    if ingress.drop || ingress.ingress_drop
    then record {
      first = requirement (and (ip_req ∷ tcp_req ∷ syn ∷ [])) "SYN" false;
      middle = [];
      last =
          requirement
            (and (
              ip_req
              ∷ tcp_req
              ∷ drop_filter_for ingress.ingress_drop with_ingress ingress.drop_reason_func
              ∷ []))
            "Drop" false;
      except =
          requirement (and (ip_resp ∷ tcp_resp ∷ syn_ack ∷ [])) "SYN-ACK" false
          ∷ requirement (and (either_way ∷ fin ∷ [])) "FIN" false
          ∷ [];
    }
    else record {
      first = requirement (and (ip_req ∷ tcp_req ∷ syn ∷ [])) "SYN" false;
      middle = requirement (and (ip_resp ∷ tcp_resp ∷ syn_ack ∷ [])) "SYN-ACK" false ∷ [];
      last = requirement (and (either_way ∷ fin ∷ [])) "FIN" false;
      except =
          requirement (and (either_way ∷ rst ∷ [])) "RST" false
          ∷ requirement (and (either_way ∷ drop [] ∷ [])) "Drop" false
          ∷ [];
    }

abbrev pub ingress_set :
    GoLibrary → Result → Addresses → FlowParameters → L4Protocol → FlowSetRequirement
ingress_set go ingress a p over_icmp = ingress_icmp ingress (ip_request go a p) (ip_response go a p)
ingress_set go ingress a p over_tcp =
    ingress_tcp ingress (ip_request go a p) (ip_response go a p) (tcp_request_in a p)
      (tcp_response_in a p)
ingress_set go ingress a p over_udp = no_requirements
ingress_set go ingress a p other_l4 = no_requirements

-- `GetIngressRequirements`: the sets, and whether the action is marked as failed.
unfoldable pub ingress_requirements :
    GoLibrary → Result → Addresses → FlowParameters → List FlowSetRequirement × Bool
ingress_requirements go ingress a p =
    if ingress.is_none
    then ([], false)
    else (ingress_set go ingress a p p.protocol ∷ [], not (is_supported p.protocol))
