-- ===== src/Filters/Meaning/Whole.antt =====
-- connectivity/filters: a filter that writes nothing into the flow context matches by its condition.
use cilium_cli.Prelude.{Bool, true, false, ◌&&◌, ◌||◌, ◌≡◌, ◌↔◌, ◌⊎◌, inl, inr, refl}
use cilium_cli.Flow.{Flow}
use cilium_cli.Filters.{
  Filter, Filters, and_filter, or_filter, drop_filter, l7_drop, icmp, icmpv6, udp, tcp_flags, ip,
  tcp, dns, http, nil, cons, FlowContext, match, match_l7_drop, match_icmp, match_icmpv6,
  match_tcp_flags, match_ip, match_dns, match_http,
}
use cilium_cli.Filters.Stateless.{is_stateless, holds, all_hold, any_holds, match-holds}
use cilium_cli.Filters.Meaning.{Means, AllMean, AnyMeans}
use cilium_cli.Filters.Meaning.Fields.{
  never, drop-DropMeans, l7_drop-L7DropMeans, icmp-IcmpMeans, icmpv6-Icmpv6Means, tcp-TcpMeans,
  udp-UdpMeans, flags-FlagsMean, ip-IpMeans, dns-DnsMeans, http-HttpMeans,
}

and_both :
    {P Q : Type 0} (a b : Bool) → (a ≡ true) ↔ P → (b ≡ true) ↔ Q → ((a && b) ≡ true) ↔ (P × Q)
and_both true b p q = (λ h. (p.0 refl, q.0 h), λ h. q.1 h.1)
and_both false b p q = (λ h. absurd cc, λ h. p.1 h.0)

or_either :
    {P Q : Type 0} (a b : Bool) → (a ≡ true) ↔ P → (b ≡ true) ↔ Q → ((a || b) ≡ true) ↔ (P ⊎ Q)
or_either true b p q = (λ h. inl (p.0 refl), λ h. refl)
or_either false b p q =
    (λ h. inr (q.0 h), λ h. elim h [ inl x ↦ absurd (cc (p.1 x)) | inr y ↦ q.1 y ])

mutual
  unfolding holds all_hold any_holds match_l7_drop match_icmp match_icmpv6 match_tcp_flags match_ip
      match_dns match_http

  holds-Means :
      (f : Filter) (flow : Flow) (fc : FlowContext) → (holds f flow fc ≡ true) ↔ Means f flow fc
  holds-Means (and_filter fs) flow fc = all_hold-AllMean fs flow fc
  holds-Means (or_filter fs) flow fc = any_holds-AnyMeans fs flow fc
  holds-Means (drop_filter direction reason) flow fc = drop-DropMeans direction reason flow
  holds-Means l7_drop flow fc = l7_drop-L7DropMeans flow.l7 flow.verdict
  holds-Means (icmp typ) flow fc = icmp-IcmpMeans typ flow.l4
  holds-Means (icmpv6 typ) flow fc = icmpv6-Icmpv6Means typ flow.l4
  holds-Means (udp s d) flow fc = udp-UdpMeans s d fc flow.l4
  holds-Means (tcp_flags wanted) flow fc = flags-FlagsMean wanted flow.l4
  holds-Means (ip s d) flow fc = ip-IpMeans s d flow.ip fc
  holds-Means (tcp s d) flow fc = tcp-TcpMeans s d fc flow.l4
  holds-Means (dns query rcode) flow fc = dns-DnsMeans query rcode flow.l7
  holds-Means (http code method url protocol wanted) flow fc =
      http-HttpMeans code method url protocol wanted flow.l7

  all_hold-AllMean :
      (fs : Filters) (flow : Flow) (fc : FlowContext)
      → (all_hold fs flow fc ≡ true) ↔ AllMean fs flow fc
  all_hold-AllMean nil flow fc = (λ h. tt, λ h. refl)
  all_hold-AllMean (cons f fs) flow fc =
      and_both (holds f flow fc) (all_hold fs flow fc) (holds-Means f flow fc)
        (all_hold-AllMean fs flow fc)

  any_holds-AnyMeans :
      (fs : Filters) (flow : Flow) (fc : FlowContext)
      → (any_holds fs flow fc ≡ true) ↔ AnyMeans fs flow fc
  any_holds-AnyMeans nil flow fc = never
  any_holds-AnyMeans (cons f fs) flow fc =
      or_either (holds f flow fc) (any_holds fs flow fc) (holds-Means f flow fc)
        (any_holds-AnyMeans fs flow fc)

-- Where no TCP or UDP filter in it has a wildcarded source port, a filter writes nothing into the
-- context and matches exactly the flows that fulfil its condition: `And` the conditions of all its
-- parts and `Or` that of one of them, in whatever order; a drop filter the direction and the reason,
-- or else a known reason; the other filters the fields that they fix, where a port or an address that
-- is left open is the one that the context has on record; and an HTTP filter each wanted header.
pub match-Means :
    (f : Filter) (flow : Flow) (fc : FlowContext)
    → is_stateless f ≡ true
    → ((match f flow fc).1 ≡ fc) × (((match f flow fc).0 ≡ true) ↔ Means f flow fc)
match-Means f flow fc h = rw (match-holds f flow fc h) (refl, holds-Means f flow fc)
