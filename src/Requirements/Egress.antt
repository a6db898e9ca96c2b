-- ===== src/Requirements/Egress.antt =====
-- connectivity/check/action.go: `GetEgressRequirements`.
use Prim.Native.String.{◌++◌ as ◌<>◌}
use cilium_cli.Prelude.{
  List, [], ◌∷◌, ◌++◌, Bool, true, false, not, ◌&&◌, ◌||◌, nat_eq, string_eq, if◌then◌else◌,
}
use cilium_cli.Filters.{Filter, ip, tcp, udp, dns, http, l7_drop}
use cilium_cli.Filters.Build.{and, or, drop, with_egress, with_ingress, syn, syn_ack, fin, rst}
use cilium_cli.Matching.{FlowSetRequirement}
use cilium_cli.Expectations.{Result}
use cilium_cli.Requirements.Inputs.{
  L4Protocol, over_tcp, over_udp, over_icmp, other_l4, FlowParameters, Addresses, GoLibrary,
  requirement, no_requirements, ip_request, ip_response, tcp_request, tcp_response, drop_filter_for,
  icmp_request, icmp_response, expects_http, http_status, is_supported,
}

unfoldable pub egress_icmp : Result → Result → Filter → Filter → FlowSetRequirement
egress_icmp egress ingress ip_req ip_resp =
    let request = and (ip_req ∷ icmp_request ∷ []) in
    let response = and (ip_resp ∷ icmp_response ∷ []) in
    if egress.drop || egress.egress_drop
    then record {
      first = requirement request "ICMP request" false;
      middle = [];
      last =
          requirement
            (and (
              ip_req
              ∷ icmp_request
              ∷ drop_filter_for egress.egress_drop with_egress egress.drop_reason_func
              ∷ []))
            "Drop" false;
      except = requirement response "ICMP response" false ∷ [];
    }
    else if ingress.drop || ingress.ingress_drop
    then record {
      first = requirement request "ICMP request" false;
      middle = [];
      last =
          requirement
            (or (
              response
              ∷ and (
                  ip_req
                  ∷ icmp_request
                  ∷ drop_filter_for egress.ingress_drop with_ingress ingress.drop_reason_func
                  ∷ [])
              ∷ []))
            "ICMP response or request drop" true;
      except = [];
    }
    else record {
      first = requirement request "ICMP request" false;
      middle = [];
      last = requirement response "ICMP response" true;
      except = requirement (and (or (response ∷ request ∷ []) ∷ drop [] ∷ [])) "Drop" false ∷ [];
    }

-- the egress set for TCP, where there is no L3/L4 drop
abbrev pub egress_tcp_allowed : Bool → Filter → Filter → Filter → Filter → FlowSetRequirement
egress_tcp_allowed rst_allowed ip_req ip_resp tcp_req tcp_resp =
    let either_way = or (and (ip_req ∷ tcp_req ∷ []) ∷ and (ip_resp ∷ tcp_resp ∷ []) ∷ []) in
    let dropped = requirement (and (either_way ∷ drop [] ∷ [])) "L3/L4 Drop" false in
    record {
      first = requirement (and (ip_req ∷ tcp_req ∷ syn ∷ [])) "SYN" false;
      middle = requirement (and (ip_resp ∷ tcp_resp ∷ syn_ack ∷ [])) "SYN-ACK" true ∷ [];
      last =
          if rst_allowed
          then requirement (and (either_way ∷ or (fin ∷ rst ∷ []) ∷ [])) "FIN or RST" true
          else requirement (and (either_way ∷ fin ∷ [])) "FIN" false;
      except =
          if rst_allowed
          then dropped ∷ []
          else dropped ∷ requirement (and (either_way ∷ rst ∷ [])) "RST" false ∷ [];
    }

abbrev pub drops_l4 : Result → Bool
drops_l4 egress = (egress.drop || egress.egress_drop) && not egress.l7_proxy

unfoldable pub egress_tcp : Result → Bool → Filter → Filter → Filter → Filter → FlowSetRequirement
egress_tcp egress rst_allowed ip_req ip_resp tcp_req tcp_resp =
    let either_way = or (and (ip_req ∷ tcp_req ∷ []) ∷ and (ip_resp ∷ tcp_resp ∷ []) ∷ []) in
    if drops_l4 egress
    then record {
      first = requirement (and (ip_req ∷ tcp_req ∷ syn ∷ [])) "SYN" false;
      middle = [];
      last =
          requirement
            (and (
              ip_req
              ∷ tcp_req
              ∷ drop_filter_for egress.egress_drop with_egress egress.drop_reason_func
              ∷ []))
            "Drop" false;
      except =
          requirement (and (ip_resp ∷ tcp_resp ∷ syn_ack ∷ [])) "SYN-ACK" false
          ∷ requirement (and (either_way ∷ fin ∷ [])) "FIN" false
          ∷ [];
    }
    else egress_tcp_allowed rst_allowed ip_req ip_resp tcp_req tcp_resp

-- the additional set for HTTP over TCP, made from the TCP set
unfoldable pub http_after :
    GoLibrary → Result → Filter → Filter → FlowSetRequirement → List FlowSetRequirement
http_after go egress ip_req tcp_req set =
    if drops_l4 egress
    then []
    else if not (egress.l7_proxy || expects_http egress)
    then []
    else if egress.drop
    then record set { last = requirement (and (ip_req ∷ tcp_req ∷ l7_drop ∷ [])) "L7 Drop" false }
      ∷ []
    else if expects_http egress
    then record set {
      last =
          requirement
            (and (
              ip_req
              ∷ tcp_req
              ∷ http (http_status go egress) egress.http.method egress.http.url "" []
              ∷ []))
            "HTTP" false;
    }
      ∷ []
    else set ∷ []

-- DNS traffic to and from any server
unfoldable pub dns_requirements : Result → Addresses → FlowParameters → List FlowSetRequirement
dns_requirements egress a p =
    let request = and (ip a.src "" ∷ or (udp 0 53 ∷ tcp 0 53 ∷ []) ∷ []) in
    let ip_resp = ip "" a.src in
    let dns_resp = or (udp 53 0 ∷ tcp 53 0 ∷ []) in
    let response = and (ip_resp ∷ dns_resp ∷ []) in
    let qname = a.dst <> "." in
    if not (p.dns_required || egress.dns_proxy)
    then []
    else if egress.dns_proxy
    then record {
      first = requirement request "DNS request" false;
      middle = requirement response "DNS response" false ∷ [];
      last = requirement (and (ip_resp ∷ dns_resp ∷ dns qname 0 ∷ [])) "DNS proxy" false;
      except =
          requirement (and (ip_resp ∷ dns_resp ∷ dns qname 5 ∷ [])) "DNS proxy DROP" false ∷ [];
    }
      ∷ []
    else record {
      first = requirement request "DNS request" false;
      middle = [];
      last = requirement response "DNS response" false;
      except = [];
    }
      ∷ []

-- the set for the protocol itself and its additional sets
abbrev pub protocol_requirements :
    GoLibrary → Result → Result → Addresses → FlowParameters → L4Protocol → List FlowSetRequirement
protocol_requirements go egress ingress a p over_icmp =
    egress_icmp egress ingress (ip_request go a p) (ip_response go a p) ∷ []
protocol_requirements go egress ingress a p over_tcp =
    let set =
      egress_tcp egress p.rst_allowed (ip_request go a p) (ip_response go a p) (tcp_request a p)
        (tcp_response a p) in
    set ∷ http_after go egress (ip_request go a p) (tcp_request a p) set
protocol_requirements go egress ingress a p over_udp = no_requirements ∷ []
protocol_requirements go egress ingress a p other_l4 = no_requirements ∷ []

-- `GetEgressRequirements`: the sets, and whether the action is marked as failed.
unfoldable pub egress_requirements :
    GoLibrary → Result → Result → Addresses → FlowParameters → List FlowSetRequirement × Bool
egress_requirements go egress ingress a p = (
  dns_requirements egress a p ++ protocol_requirements go egress ingress a p p.protocol,
  not (is_supported p.protocol),
)
