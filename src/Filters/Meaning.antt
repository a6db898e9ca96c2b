-- ===== src/Filters/Meaning.antt =====
-- connectivity/filters: what the filters mean, as conditions on the fields of a flow.
pub mod Fields
pub mod Whole
use cilium_cli.Prelude.{
  ℕ, ◌%◌, ◌^◌, String, Map, Option, none, some, List, [], ◌∷◌, All, Bool, true, ◌≡◌, ◌≢◌, ◌⊎◌,
  get_or, nat_eq,
}
use cilium_cli.Flow.{
  Flow, TcpFlags, Ip, HttpHeader, Layer4, of_tcp, of_udp, of_icmpv4, of_icmpv6, Layer7, of_dns,
  of_http, reason_unknown, verdict_dropped,
}
use cilium_cli.Filters.{
  Filter, Filters, and_filter, or_filter, drop_filter, l7_drop, icmp, icmpv6, udp, tcp_flags, ip,
  tcp, dns, http, nil, cons, FlowContext, max_uint32,
}

-- the direction and the reason, where they are given, or else a known reason
abbrev pub DropMeans : Option ℕ → Option (Flow → Bool) → Flow → Type 0
DropMeans (some direction) (some reason) flow =
    (flow.traffic_direction ≡ direction) × (reason flow ≡ true)
DropMeans none (some reason) flow = reason flow ≡ true
DropMeans _ none flow = flow.drop_reason_desc ≢ reason_unknown

-- a record of layer 7, and the verdict
abbrev pub L7DropMeans : Option Layer7 → ℕ → Type 0
L7DropMeans none verdict = ⊥
L7DropMeans (some record7) verdict = verdict ≡ verdict_dropped

abbrev pub IcmpMeans : ℕ → Option Layer4 → Type 0
IcmpMeans typ (some (of_icmpv4 t)) = t ≡ typ
IcmpMeans typ _ = ⊥

abbrev pub Icmpv6Means : ℕ → Option Layer4 → Type 0
Icmpv6Means typ (some (of_icmpv6 t)) = t ≡ typ
Icmpv6Means typ _ = ⊥

abbrev pub SameFlags : Option TcpFlags → TcpFlags → Type 0
SameFlags none wanted = ⊥
SameFlags (some f) wanted =
    (f.syn ≡ wanted.syn) × (f.ack ≡ wanted.ack) × (f.fin ≡ wanted.fin) × (f.rst ≡ wanted.rst)

abbrev pub FlagsMean : TcpFlags → Option Layer4 → Type 0
FlagsMean wanted (some (of_tcp t)) = SameFlags t.flags wanted
FlagsMean wanted _ = ⊥

-- the source port, and the destination port, or the one on record where it is left open
abbrev pub TcpMeans : ℕ → ℕ → Option Layer4 → FlowContext → Type 0
TcpMeans src_port dst_port (some (of_tcp t)) fc =
    (t.source_port ≡ src_port)
    × (((dst_port ≢ 0) × (t.destination_port ≡ dst_port))
        ⊎ ((dst_port ≡ 0) × (t.destination_port ≡ get_or 0 t.source_port fc.tcp_ports)))
TcpMeans src_port dst_port _ fc = ⊥

abbrev pub UdpMeans : ℕ → ℕ → Option Layer4 → FlowContext → Type 0
UdpMeans src_port dst_port (some (of_udp u)) fc =
    (u.source_port ≡ src_port % 2 ^ 32)
    × (((dst_port ≢ 0) × (u.destination_port ≡ dst_port % 2 ^ 32))
        ⊎ ((dst_port ≡ 0) × (u.destination_port ≡ get_or 0 u.source_port fc.udp_ports)))
UdpMeans src_port dst_port _ fc = ⊥

-- the address, or the one on record, if any, where it is left open
abbrev pub AddressFits : String → String → String → Type 0
AddressFits wanted recorded address =
    ((wanted ≢ "") × (address ≡ wanted))
    ⊎ ((wanted ≡ "") × ((recorded ≡ "") ⊎ (address ≡ recorded)))

abbrev pub IpMeans : String → String → Option Ip → FlowContext → Type 0
IpMeans src_ip dst_ip none fc = ⊥
IpMeans src_ip dst_ip (some i) fc =
    AddressFits src_ip fc.dst_ip i.source × AddressFits dst_ip fc.dst_ip i.destination

abbrev pub DnsMeans : String → ℕ → Option Layer7 → Type 0
DnsMeans query rcode (some (of_dns d)) =
    ((query ≡ "") ⊎ (d.query ≡ query)) × ((rcode ≡ max_uint32) ⊎ (d.rcode ≡ rcode))
DnsMeans query rcode _ = ⊥

-- one of the headers has the key, and the value unless that is left open
abbrev pub HasHeader : String → String → List (Option HttpHeader) → Type 0
HasHeader k v [] = ⊥
HasHeader k v (none ∷ headers) = HasHeader k v headers
HasHeader k v (some header ∷ headers) =
    ((header.key ≡ k) × ((v ≡ "") ⊎ (header.value ≡ v))) ⊎ HasHeader k v headers

abbrev pub HttpMeans : ℕ → String → String → String → Map String String → Option Layer7 → Type 0
HttpMeans code method url protocol wanted (some (of_http h)) =
    ((code ≡ max_uint32) ⊎ (h.code ≡ code))
    × ((method ≡ "") ⊎ (h.method ≡ method))
    × ((url ≡ "") ⊎ (h.url ≡ url))
    × ((protocol ≡ "") ⊎ (h.protocol ≡ protocol))
    × All (λ header. HasHeader header.0 header.1 h.headers) wanted
HttpMeans code method url protocol wanted _ = ⊥

abbrev mutual
  -- The flow fulfils the condition that the filter stands for, with the ports and the address that the
  -- context has on record.
  pub Means : Filter → Flow → FlowContext → Type 0
  Means (and_filter fs) flow fc = AllMean fs flow fc
  Means (or_filter fs) flow fc = AnyMeans fs flow fc
  Means (drop_filter direction reason) flow fc = DropMeans direction reason flow
  Means l7_drop flow fc = L7DropMeans flow.l7 flow.verdict
  Means (icmp typ) flow fc = IcmpMeans typ flow.l4
  Means (icmpv6 typ) flow fc = Icmpv6Means typ flow.l4
  Means (udp src_port dst_port) flow fc = UdpMeans src_port dst_port flow.l4 fc
  Means (tcp_flags wanted) flow fc = FlagsMean wanted flow.l4
  Means (ip src_ip dst_ip) flow fc = IpMeans src_ip dst_ip flow.ip fc
  Means (tcp src_port dst_port) flow fc = TcpMeans src_port dst_port flow.l4 fc
  Means (dns query rcode) flow fc = DnsMeans query rcode flow.l7
  Means (http code method url protocol wanted) flow fc =
      HttpMeans code method url protocol wanted flow.l7

  pub AllMean : Filters → Flow → FlowContext → Type 0
  AllMean nil flow fc = Unit
  AllMean (cons f fs) flow fc = Means f flow fc × AllMean fs flow fc

  pub AnyMeans : Filters → Flow → FlowContext → Type 0
  AnyMeans nil flow fc = ⊥
  AnyMeans (cons f fs) flow fc = Means f flow fc ⊎ AnyMeans fs flow fc
