-- ===== src/Filters/Meaning/Fields.antt =====
-- connectivity/filters: the filters that look at the fields of a flow test their conditions.
use cilium_cli.Prelude.{
  ℕ, String, Map, Option, none, some, List, [], ◌∷◌, All, Bool, true, false, not, any, ◌&&◌, ◌==◌,
  ◌≡◌, ◌↔◌, refl, eq_iff, bool_beq_iff, nat_eq, string_eq, bool_eq, arith,
}
use cilium_cli.Flow.{
  Flow, TcpFlags, Ip, HttpHeader, Layer4, of_tcp, of_udp, of_icmpv4, of_icmpv6, other_protocol,
  Layer7, of_dns, of_http, other_record, verdict_dropped, get_tcp, get_udp, get_icmpv4, get_icmpv6,
  get_dns, get_http,
}
use cilium_cli.Filters.{
  FlowContext, max_uint32, match_drop, match_headers, match_addresses, header_matches, same_flags,
}
use cilium_cli.Filters.Stateless.{holds_tcp, holds_udp}
use cilium_cli.Filters.Meaning.{
  DropMeans, L7DropMeans, IcmpMeans, Icmpv6Means, SameFlags, FlagsMean, TcpMeans, UdpMeans,
  AddressFits, IpMeans, DnsMeans, HasHeader, HttpMeans,
}

-- a test that fails always, and a condition that nothing fulfils
pub never : (false ≡ true) ↔ ⊥
never = (λ h. absurd (cc), λ h. absurd h)

pub drop-DropMeans :
    (direction : Option ℕ) (reason : Option (Flow → Bool)) (flow : Flow)
    → (match_drop direction reason flow ≡ true) ↔ DropMeans direction reason flow
unfolding match_drop
drop-DropMeans (some direction) (some reason) flow = ground arith
drop-DropMeans none (some reason) flow = ground arith
drop-DropMeans (some direction) none flow = ground arith
drop-DropMeans none none flow = ground arith

pub l7_drop-L7DropMeans :
    (l7 : Option Layer7) (verdict : ℕ)
    → (elim l7 [ none ↦ false | some _ ↦ verdict == verdict_dropped ] ≡ true)
      ↔ L7DropMeans l7 verdict
l7_drop-L7DropMeans none verdict = never
l7_drop-L7DropMeans (some record7) verdict = ground arith

equal_flags :
    (f wanted : TcpFlags)
    → (((f.syn == wanted.syn)
          && (f.ack == wanted.ack)
          && (f.fin == wanted.fin)
          && (f.rst == wanted.rst))
        ≡ true)
      ↔ SameFlags (some f) wanted
equal_flags f wanted = ground (
  arith,
  bool_beq_iff f.syn wanted.syn,
  bool_beq_iff f.ack wanted.ack,
  bool_beq_iff f.fin wanted.fin,
  bool_beq_iff f.rst wanted.rst,
)

addresses-Fit :
    (src_ip dst_ip : String) (i : Ip) (fc : FlowContext)
    → (match_addresses src_ip dst_ip i fc ≡ true)
      ↔ (AddressFits src_ip fc.dst_ip i.source × AddressFits dst_ip fc.dst_ip i.destination)
addresses-Fit src_ip dst_ip i fc = ground (
  arith,
  eq_iff src_ip "",
  eq_iff dst_ip "",
  eq_iff fc.dst_ip "",
  eq_iff i.source src_ip,
  eq_iff i.source fc.dst_ip,
  eq_iff i.destination dst_ip,
  eq_iff i.destination fc.dst_ip,
)

any-HasHeader :
    (k v : String) (headers : List (Option HttpHeader))
    → (any (header_matches k v) headers ≡ true) ↔ HasHeader k v headers
any-HasHeader k v [] = never
any-HasHeader k v (none ∷ headers) = any-HasHeader k v headers
any-HasHeader k v (some header ∷ headers) =
    let later = any-HasHeader k v headers in
    ground (arith, later.0, later.1, eq_iff header.key k, eq_iff v "", eq_iff header.value v)

pub icmp-IcmpMeans :
    (typ : ℕ) (l4 : Option Layer4)
    → (elim (get_icmpv4 l4) [ none ↦ false | some t ↦ t == typ ] ≡ true) ↔ IcmpMeans typ l4
icmp-IcmpMeans typ none = never
icmp-IcmpMeans typ (some (of_tcp t)) = never
icmp-IcmpMeans typ (some (of_udp u)) = never
icmp-IcmpMeans typ (some (of_icmpv4 n)) = ground arith
icmp-IcmpMeans typ (some (of_icmpv6 n)) = never
icmp-IcmpMeans typ (some other_protocol) = never

pub icmpv6-Icmpv6Means :
    (typ : ℕ) (l4 : Option Layer4)
    → (elim (get_icmpv6 l4) [ none ↦ false | some t ↦ t == typ ] ≡ true) ↔ Icmpv6Means typ l4
icmpv6-Icmpv6Means typ none = never
icmpv6-Icmpv6Means typ (some (of_tcp t)) = never
icmpv6-Icmpv6Means typ (some (of_udp u)) = never
icmpv6-Icmpv6Means typ (some (of_icmpv4 n)) = never
icmpv6-Icmpv6Means typ (some (of_icmpv6 n)) = ground arith
icmpv6-Icmpv6Means typ (some other_protocol) = never

pub tcp-TcpMeans :
    (src_port dst_port : ℕ) (fc : FlowContext) (l4 : Option Layer4)
    → (holds_tcp src_port dst_port (get_tcp l4) fc ≡ true) ↔ TcpMeans src_port dst_port l4 fc
tcp-TcpMeans src_port dst_port fc none = never
tcp-TcpMeans src_port dst_port fc (some (of_tcp t)) = ground arith
tcp-TcpMeans src_port dst_port fc (some (of_udp u)) = never
tcp-TcpMeans src_port dst_port fc (some (of_icmpv4 n)) = never
tcp-TcpMeans src_port dst_port fc (some (of_icmpv6 n)) = never
tcp-TcpMeans src_port dst_port fc (some other_protocol) = never

pub udp-UdpMeans :
    (src_port dst_port : ℕ) (fc : FlowContext) (l4 : Option Layer4)
    → (holds_udp src_port dst_port (get_udp l4) fc ≡ true) ↔ UdpMeans src_port dst_port l4 fc
udp-UdpMeans src_port dst_port fc none = never
udp-UdpMeans src_port dst_port fc (some (of_tcp t)) = never
udp-UdpMeans src_port dst_port fc (some (of_udp u)) = ground arith
udp-UdpMeans src_port dst_port fc (some (of_icmpv4 n)) = never
udp-UdpMeans src_port dst_port fc (some (of_icmpv6 n)) = never
udp-UdpMeans src_port dst_port fc (some other_protocol) = never

flags-SameFlags :
    (flags : Option TcpFlags) (wanted : TcpFlags)
    → (elim flags [ none ↦ false | some f ↦ same_flags f wanted ] ≡ true) ↔ SameFlags flags wanted
flags-SameFlags none wanted = never
flags-SameFlags (some f) wanted = equal_flags f wanted

pub flags-FlagsMean :
    (wanted : TcpFlags) (l4 : Option Layer4)
    → (elim (get_tcp l4) [
      | none ↦ false
      | some t ↦ elim t.flags [ none ↦ false | some f ↦ same_flags f wanted ]
    ]
        ≡ true)
      ↔ FlagsMean wanted l4
flags-FlagsMean wanted none = never
flags-FlagsMean wanted (some (of_tcp t)) = flags-SameFlags t.flags wanted
flags-FlagsMean wanted (some (of_udp u)) = never
flags-FlagsMean wanted (some (of_icmpv4 n)) = never
flags-FlagsMean wanted (some (of_icmpv6 n)) = never
flags-FlagsMean wanted (some other_protocol) = never

pub ip-IpMeans :
    (src_ip dst_ip : String) (i : Option Ip) (fc : FlowContext)
    → (elim i [ none ↦ false | some i ↦ match_addresses src_ip dst_ip i fc ] ≡ true)
      ↔ IpMeans src_ip dst_ip i fc
ip-IpMeans src_ip dst_ip none fc = never
ip-IpMeans src_ip dst_ip (some i) fc = addresses-Fit src_ip dst_ip i fc

pub dns-DnsMeans :
    (query : String) (rcode : ℕ) (l7 : Option Layer7)
    → (elim (get_dns l7) [
      | none ↦ false
      | some d ↦
          not (not (query == "") && not (d.query == query))
          && not (not (rcode == max_uint32) && not (d.rcode == rcode))
    ]
        ≡ true)
      ↔ DnsMeans query rcode l7
dns-DnsMeans query rcode none = never
dns-DnsMeans query rcode (some (of_dns d)) = ground (arith, eq_iff query "", eq_iff d.query query)
dns-DnsMeans query rcode (some (of_http h)) = never
dns-DnsMeans query rcode (some other_record) = never

headers-All :
    (wanted : Map String String) (headers : List (Option HttpHeader))
    → (match_headers wanted headers ≡ true)
      ↔ All (λ header. HasHeader header.0 header.1 headers) wanted
unfolding match_headers
headers-All [] headers = (λ h. tt, λ h. refl)
headers-All ((k, v) ∷ wanted) headers =
    let one = any-HasHeader k v headers in
    let others = headers-All wanted headers in
    (
      λ h. (one.0 (ground arith), others.0 (ground arith)),
      λ h. ground (arith, one.1 h.0, others.1 h.1),
    )

pub http-HttpMeans :
    (code : ℕ) (method url protocol : String) (wanted : Map String String) (l7 : Option Layer7)
    → (elim (get_http l7) [
      | none ↦ false
      | some h ↦
          not (not (code == max_uint32) && not (h.code == code))
          && not (not (method == "") && not (h.method == method))
          && not (not (url == "") && not (h.url == url))
          && not (not (protocol == "") && not (h.protocol == protocol))
          && match_headers wanted h.headers
    ]
        ≡ true)
      ↔ HttpMeans code method url protocol wanted l7
http-HttpMeans code method url protocol wanted none = never
http-HttpMeans code method url protocol wanted (some (of_dns d)) = never
http-HttpMeans code method url protocol wanted (some (of_http h)) =
    let all = headers-All wanted h.headers in
    ground (
      arith,
      all.0,
      all.1,
      eq_iff method "",
      eq_iff h.method method,
      eq_iff url "",
      eq_iff h.url url,
      eq_iff protocol "",
      eq_iff h.protocol protocol,
    )
http-HttpMeans code method url protocol wanted (some other_record) = never
