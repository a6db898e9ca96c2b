-- ===== src/Filters/Stateless.antt =====
-- connectivity/filters: filters that write nothing into the flow context, and their tests at a fixed context.
use cilium_cli.Prelude.{
  ℕ, ◌%◌, ◌^◌, Option, none, some, ◌≡◌, refl, Bool, true, false, not, ◌&&◌, ◌||◌, get_or, ◌==◌,
  nat_eq, if◌then◌else◌, arith,
}
use cilium_cli.Flow.{Flow, Tcp, Udp, get_tcp, get_udp}
use cilium_cli.Filters.{
  Filter, Filters, and_filter, or_filter, drop_filter, l7_drop, icmp, icmpv6, udp, tcp_flags, ip,
  tcp, dns, http, nil, cons, FlowContext, Matcher, and_also, or_else, match, match_all, match_any,
  match_udp, match_tcp, match_drop, match_l7_drop, match_icmp, match_icmpv6, match_tcp_flags,
  match_ip, match_dns, match_http,
}

-- no TCP or UDP filter with a wildcarded source port
abbrev mutual
  pub is_stateless : Filter → Bool
  is_stateless (and_filter fs) = are_stateless fs
  is_stateless (or_filter fs) = are_stateless fs
  is_stateless (udp src_port dst_port) = not (src_port == 0)
  is_stateless (tcp src_port dst_port) = not (src_port == 0)
  is_stateless _ = true

  pub are_stateless : Filters → Bool
  are_stateless nil = true
  are_stateless (cons f fs) = is_stateless f && are_stateless fs

-- a port that is fixed, or else the port on record
abbrev pub fixed_or : ℕ → ℕ → ℕ → Bool
fixed_or wanted recorded port = if wanted == 0 then port == recorded else port == wanted

abbrev pub holds_tcp : ℕ → ℕ → Option Tcp → FlowContext → Bool
holds_tcp src_port dst_port none fc = false
holds_tcp src_port dst_port (some t) fc =
    t.source_port == src_port
    && fixed_or dst_port (get_or 0 t.source_port fc.tcp_ports) t.destination_port

abbrev pub holds_udp : ℕ → ℕ → Option Udp → FlowContext → Bool
holds_udp src_port dst_port none fc = false
holds_udp src_port dst_port (some u) fc =
    u.source_port == src_port % 2 ^ 32
    && (if dst_port == 0
        then u.destination_port == get_or 0 u.source_port fc.udp_ports
        else u.destination_port == dst_port % 2 ^ 32)

-- A filter at a fixed context: conjunction, disjunction and tests.
unfoldable mutual
  pub holds : Filter → Flow → FlowContext → Bool
  holds (and_filter fs) flow fc = all_hold fs flow fc
  holds (or_filter fs) flow fc = any_holds fs flow fc
  holds (drop_filter direction reason) flow fc = match_drop direction reason flow
  holds l7_drop flow fc = match_l7_drop flow
  holds (icmp typ) flow fc = match_icmp typ flow
  holds (icmpv6 typ) flow fc = match_icmpv6 typ flow
  holds (udp src_port dst_port) flow fc = holds_udp src_port dst_port (get_udp flow.l4) fc
  holds (tcp_flags wanted) flow fc = match_tcp_flags wanted flow
  holds (ip src_ip dst_ip) flow fc = match_ip src_ip dst_ip flow fc
  holds (tcp src_port dst_port) flow fc = holds_tcp src_port dst_port (get_tcp flow.l4) fc
  holds (dns query rcode) flow fc = match_dns query rcode flow
  holds (http code method url protocol wanted) flow fc =
      match_http code method url protocol wanted flow

  pub all_hold : Filters → Flow → FlowContext → Bool
  all_hold nil flow fc = true
  all_hold (cons f fs) flow fc = holds f flow fc && all_hold fs flow fc

  pub any_holds : Filters → Flow → FlowContext → Bool
  any_holds nil flow fc = false
  any_holds (cons f fs) flow fc = holds f flow fc || any_holds fs flow fc

match_tcp-holds :
    (src_port dst_port : ℕ) (flow : Flow) (fc : FlowContext)
    → not (src_port == 0) ≡ true
    → match_tcp src_port dst_port flow fc ≡ (holds_tcp src_port dst_port (get_tcp flow.l4) fc, fc)
unfolding match_tcp
match_tcp-holds src_port dst_port flow fc h = ground arith

match_udp-holds :
    (src_port dst_port : ℕ) (flow : Flow) (fc : FlowContext)
    → not (src_port == 0) ≡ true
    → match_udp src_port dst_port flow fc ≡ (holds_udp src_port dst_port (get_udp flow.l4) fc, fc)
unfolding match_udp
match_udp-holds src_port dst_port flow fc h = ground arith

and-left : (a b : Bool) → (a && b) ≡ true → a ≡ true
and-left a b h = ground arith

and-right : (a b : Bool) → (a && b) ≡ true → b ≡ true
and-right a b h = ground arith

and_also-eq :
    (m n : Matcher) (a b : Bool) (fc : FlowContext)
    → m fc ≡ (a, fc)
    → n fc ≡ (b, fc)
    → and_also m n fc ≡ (a && b, fc)
and_also-eq m n true b fc hm hn = rw hm hn
and_also-eq m n false b fc hm hn = rw hm

or_else-eq :
    (m n : Matcher) (a b : Bool) (fc : FlowContext)
    → m fc ≡ (a, fc)
    → n fc ≡ (b, fc)
    → or_else m n fc ≡ (a || b, fc)
or_else-eq m n true b fc hm hn = rw hm
or_else-eq m n false b fc hm hn = rw hm hn

mutual
  unfolding match match_all match_any holds all_hold any_holds

  match-eq_holds :
      (f : Filter) (flow : Flow) (fc : FlowContext)
      → is_stateless f ≡ true
      → match f flow fc ≡ (holds f flow fc, fc)
  match-eq_holds (and_filter fs) flow fc h = match_all-eq_holds fs flow fc h
  match-eq_holds (or_filter fs) flow fc h = match_any-eq_holds fs flow fc h
  match-eq_holds (udp s d) flow fc h = match_udp-holds s d flow fc h
  match-eq_holds (tcp s d) flow fc h = match_tcp-holds s d flow fc h
  match-eq_holds _ flow fc h = refl

  match_all-eq_holds :
      (fs : Filters) (flow : Flow) (fc : FlowContext)
      → are_stateless fs ≡ true
      → match_all fs flow fc ≡ (all_hold fs flow fc, fc)
  match_all-eq_holds nil flow fc h = refl
  match_all-eq_holds (cons f fs) flow fc h =
      and_also-eq (match f flow) (match_all fs flow) (holds f flow fc) (all_hold fs flow fc) fc
        (match-eq_holds f flow fc (and-left (is_stateless f) (are_stateless fs) h))
        (match_all-eq_holds fs flow fc (and-right (is_stateless f) (are_stateless fs) h))

  match_any-eq_holds :
      (fs : Filters) (flow : Flow) (fc : FlowContext)
      → are_stateless fs ≡ true
      → match_any fs flow fc ≡ (any_holds fs flow fc, fc)
  match_any-eq_holds nil flow fc h = refl
  match_any-eq_holds (cons f fs) flow fc h =
      or_else-eq (match f flow) (match_any fs flow) (holds f flow fc) (any_holds fs flow fc) fc
        (match-eq_holds f flow fc (and-left (is_stateless f) (are_stateless fs) h))
        (match_any-eq_holds fs flow fc (and-right (is_stateless f) (are_stateless fs) h))

pub match-holds :
    (f : Filter) (flow : Flow) (fc : FlowContext)
    → is_stateless f ≡ true
    → match f flow fc ≡ (holds f flow fc, fc)
match-holds f flow fc h = match-eq_holds f flow fc h
