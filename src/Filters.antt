-- ===== src/Filters.antt =====
-- connectivity/filters/filters.go: the filters and their `Match`.
mod Context
mod Packets
pub mod Build
pub mod Tracking
pub mod Stateless
pub mod Meaning
pub mod Conversation
pub mod Leaves
pub use Context.{
  max_uint32, PortMap, FlowContext, new_flow_context, Matcher, and_also, or_else, refuse_if, test,
}
unfoldable pub use Packets.{
  match_drop, match_l7_drop, match_icmp, match_icmpv6, match_udp, match_tcp_flags, match_ip,
  match_tcp, match_dns, match_headers, match_http,
}
pub use Packets.{
  record_udp, udp_reply, match_udp_ports, same_flags, match_addresses, is_syn, tcp_reply,
  fix_dst_ip, record_syn, track_source, wildcard_source, match_tcp_ports, header_matches,
}
use cilium_cli.Prelude.{ℕ, String, Option, Bool, true, false, Map}
use cilium_cli.Flow.{Flow, TcpFlags}

-- The filters are the structs behind `FlowFilterImplementation`. A UDP port is a Go `int`, given
-- by its bit pattern.
mutual
  pub data Filter : Type 0 where
    and_filter or_filter : Filters → Filter
    drop_filter : Option ℕ → Option (Flow → Bool) → Filter
    l7_drop : Filter
    icmp icmpv6 : ℕ → Filter
    udp : ℕ → ℕ → Filter
    tcp_flags : TcpFlags → Filter
    ip : String → String → Filter
    tcp : ℕ → ℕ → Filter
    dns : String → ℕ → Filter
    http : ℕ → String → String → String → Map String String → Filter

  pub data Filters : Type 0 where
    nil : Filters
    cons : Filter → Filters → Filters

unfoldable mutual
  pub match : Filter → Flow → Matcher
  match (and_filter fs) flow = match_all fs flow
  match (or_filter fs) flow = match_any fs flow
  match (drop_filter direction reason) flow = test (match_drop direction reason flow)
  match l7_drop flow = test (match_l7_drop flow)
  match (icmp typ) flow = test (match_icmp typ flow)
  match (icmpv6 typ) flow = test (match_icmpv6 typ flow)
  match (udp src_port dst_port) flow = match_udp src_port dst_port flow
  match (tcp_flags wanted) flow = test (match_tcp_flags wanted flow)
  match (ip src_ip dst_ip) flow = λ fc. (match_ip src_ip dst_ip flow fc, fc)
  match (tcp src_port dst_port) flow = match_tcp src_port dst_port flow
  match (dns query rcode) flow = test (match_dns query rcode flow)
  match (http code method url protocol wanted) flow =
      test (match_http code method url protocol wanted flow)

  pub match_all : Filters → Flow → Matcher
  match_all nil flow = test true
  match_all (cons f fs) flow = and_also (match f flow) (match_all fs flow)

  pub match_any : Filters → Flow → Matcher
  match_any nil flow = test false
  match_any (cons f fs) flow = or_else (match f flow) (match_any fs flow)
