-- ===== src/Filters/Packets.antt =====
-- connectivity/filters/filters.go: the `Match` methods of the filters that look at one packet.
use cilium_cli.Prelude.{
  ℕ, ◌%◌, ◌^◌, String, Option, none, some, List, [], ◌∷◌, Bool, true, false, not, ◌&&◌, ◌||◌, Map,
  lookup, insert, get_or, ◌==◌, nat_eq, string_eq, bool_eq, if◌then◌else◌, any,
}
use cilium_cli.Flow.{
  Flow, Tcp, TcpFlags, Udp, Ip, HttpHeader, get_tcp, get_udp, get_icmpv4, get_icmpv6, get_dns,
  get_http, reason_unknown, verdict_dropped,
}
use cilium_cli.Filters.Context.{FlowContext, Matcher, and_also, refuse_if, max_uint32}

unfoldable pub match_drop : Option ℕ → Option (Flow → Bool) → Flow → Bool
match_drop (some direction) (some reason) flow =
    (flow.traffic_direction == direction) && reason flow
match_drop none (some reason) flow = reason flow
match_drop (some direction) none flow = not (flow.drop_reason_desc == reason_unknown)
match_drop none none flow = not (flow.drop_reason_desc == reason_unknown)

unfoldable pub match_l7_drop : Flow → Bool
match_l7_drop flow = elim flow.l7 [ none ↦ false | some _ ↦ flow.verdict == verdict_dropped ]

unfoldable pub match_icmp : ℕ → Flow → Bool
match_icmp typ flow = elim (get_icmpv4 flow.l4) [ none ↦ false | some t ↦ t == typ ]

unfoldable pub match_icmpv6 : ℕ → Flow → Bool
match_icmpv6 typ flow = elim (get_icmpv6 flow.l4) [ none ↦ false | some t ↦ t == typ ]

-- a wildcarded source port is recorded under the destination port
abbrev pub record_udp : ℕ → Udp → FlowContext → FlowContext
record_udp src_port u fc =
    if src_port == 0
    then record fc { udp_ports = insert u.destination_port u.source_port fc.udp_ports }
    else fc

abbrev pub udp_reply : ℕ → Udp → Matcher
udp_reply dst_port u fc =
    (not (dst_port == 0 && not (get_or 0 u.source_port fc.udp_ports == u.destination_port)), fc)

abbrev pub match_udp_ports : ℕ → ℕ → Udp → Matcher
match_udp_ports src_port dst_port u =
    refuse_if (not (src_port == 0) && not (u.source_port == src_port % 2 ^ 32)) (
      refuse_if (not (dst_port == 0) && not (u.destination_port == dst_port % 2 ^ 32))
        (λ fc. udp_reply dst_port u (record_udp src_port u fc)))

unfoldable pub match_udp : ℕ → ℕ → Flow → Matcher
match_udp src_port dst_port flow fc = elim (get_udp flow.l4) [
  | none ↦ (false, fc)
  | some u ↦ match_udp_ports src_port dst_port u fc
]

abbrev pub same_flags : TcpFlags → TcpFlags → Bool
same_flags f g = (f.syn == g.syn) && (f.ack == g.ack) && (f.fin == g.fin) && (f.rst == g.rst)

unfoldable pub match_tcp_flags : TcpFlags → Flow → Bool
match_tcp_flags wanted flow = elim (get_tcp flow.l4) [
  | none ↦ false
  | some t ↦ elim t.flags [ none ↦ false | some f ↦ same_flags f wanted ]
]

abbrev pub match_addresses : String → String → Ip → FlowContext → Bool
match_addresses src_ip dst_ip i fc =
    not (not (src_ip == "") && not (i.source == src_ip))
    && not (src_ip == "" && not (fc.dst_ip == "") && not (i.source == fc.dst_ip))
    && not (not (dst_ip == "") && not (i.destination == dst_ip))
    && not (dst_ip == "" && not (fc.dst_ip == "") && not (i.destination == fc.dst_ip))

unfoldable pub match_ip : String → String → Flow → FlowContext → Bool
match_ip src_ip dst_ip flow fc = elim flow.ip [
  | none ↦ false
  | some i ↦ match_addresses src_ip dst_ip i fc
]

-- only SYN is set
abbrev pub is_syn : Option TcpFlags → Bool
is_syn none = false
is_syn (some f) = f.syn && not f.ack && not f.fin && not f.rst

abbrev pub tcp_reply : ℕ → Tcp → Matcher
tcp_reply dst_port t fc =
    (not (dst_port == 0 && not (t.destination_port == get_or 0 t.source_port fc.tcp_ports)), fc)

abbrev pub fix_dst_ip : Option Ip → FlowContext → FlowContext
fix_dst_ip none fc = fc
fix_dst_ip (some i) fc = record fc { dst_ip = i.destination }

abbrev pub record_syn : Tcp → Flow → FlowContext → FlowContext
record_syn t flow fc =
    fix_dst_ip flow.ip
      (record fc { tcp_ports = insert t.destination_port t.source_port fc.tcp_ports })

-- The wildcarded source port: the first SYN to a destination port fixes it.
abbrev pub track_source : Option ℕ → Tcp → Flow → Matcher
track_source (some port) t flow fc = (t.source_port == port, fc)
track_source none t flow fc =
    if is_syn t.flags then (true, record_syn t flow fc) else (t.source_port == 0, fc)

abbrev pub wildcard_source : ℕ → Tcp → Flow → Matcher
wildcard_source src_port t flow fc =
    if src_port == 0
    then track_source (lookup t.destination_port fc.tcp_ports) t flow fc
    else (true, fc)

abbrev pub match_tcp_ports : ℕ → ℕ → Tcp → Flow → Matcher
match_tcp_ports src_port dst_port t flow =
    refuse_if (not (src_port == 0) && not (t.source_port == src_port)) (
      refuse_if (not (dst_port == 0) && not (t.destination_port == dst_port))
        (and_also (wildcard_source src_port t flow) (tcp_reply dst_port t)))

unfoldable pub match_tcp : ℕ → ℕ → Flow → Matcher
match_tcp src_port dst_port flow fc = elim (get_tcp flow.l4) [
  | none ↦ (false, fc)
  | some t ↦ match_tcp_ports src_port dst_port t flow fc
]

unfoldable pub match_dns : String → ℕ → Flow → Bool
match_dns query rcode flow = elim (get_dns flow.l7) [
  | none ↦ false
  | some d ↦
      not (not (query == "") && not (d.query == query))
      && not (not (rcode == max_uint32) && not (d.rcode == rcode))
]

abbrev pub header_matches : String → String → Option HttpHeader → Bool
header_matches k v none = false
header_matches k v (some hdr) = (hdr.key == k) && (v == "" || hdr.value == v)

unfoldable pub match_headers : Map String String → List (Option HttpHeader) → Bool
match_headers [] headers = true
match_headers ((k, v) ∷ wanted) headers =
    any (header_matches k v) headers && match_headers wanted headers

unfoldable pub match_http : ℕ → String → String → String → Map String String → Flow → Bool
match_http code method url protocol wanted flow = elim (get_http flow.l7) [
  | none ↦ false
  | some h ↦
      not (not (code == max_uint32) && not (h.code == code))
      && not (not (method == "") && not (h.method == method))
      && not (not (url == "") && not (h.url == url))
      && not (not (protocol == "") && not (h.protocol == protocol))
      && match_headers wanted h.headers
]
