-- ===== src/Filters/Tracking.antt =====
-- connectivity/filters: what a match may do to the flow context.
use cilium_cli.Prelude.{
  ℕ, ◌%◌, ◌^◌, not, ◌&&◌, Option, none, some, ◌≡◌, refl, ◌∙◌, inl, inr, true, false, lookup, insert,
  lookup-insert, Bool, ◌==◌, arith, nat_eq, Option-cases, Bool-cases,
}
use cilium_cli.Flow.{Flow, Tcp, Udp, get_tcp, get_udp}
use cilium_cli.Filters.{
  Filter, Filters, and_filter, or_filter, udp, tcp, nil, cons, FlowContext, Matcher, match,
  match_all, match_any, match_udp, match_tcp, and_also, or_else, refuse_if, record_syn, record_udp,
  udp_reply, is_syn, tcp_reply, track_source, wildcard_source,
}

-- `flow` is a SYN to port `p` from port `v`
abbrev pub Recorded : Flow → ℕ → ℕ → Type 0
Recorded flow p v =
    (t : Tcp) × (get_tcp flow.l4 ≡ some t)
    × (is_syn t.flags ≡ true)
    × (t.destination_port ≡ p)
    × (t.source_port ≡ v)

-- The later context still has every TCP port of the earlier one, it has gained only the ports of
-- a SYN, and where it has gained none, the wildcard address is unchanged.
pub record Extends (flow : Flow) (a b : FlowContext) : Type 0 where
  pub kept : (p v : ℕ) → lookup p a.tcp_ports ≡ some v → lookup p b.tcp_ports ≡ some v
  pub gained :
      (p v : ℕ) → lookup p a.tcp_ports ≡ none → lookup p b.tcp_ports ≡ some v → Recorded flow p v
  pub address :
      ((p : ℕ) → lookup p a.tcp_ports ≡ none → lookup p b.tcp_ports ≡ none) → b.dst_ip ≡ a.dst_ip

Extends-refl : (flow : Flow) (a : FlowContext) → Extends flow a a
Extends-refl flow a = record {
  kept = λ p v h. h;
  gained = λ p v n h. absurd (cc);
  address = λ _. refl;
}

none-kept : {m n : Option ℕ} → ((v : ℕ) → m ≡ some v → n ≡ some v) → n ≡ none → m ≡ none
none-kept {m = none} k h = refl
none-kept {m = some v} k h = cc (k v refl)

Extends-trans :
    {flow : Flow} {a b c : FlowContext} → Extends flow a b → Extends flow b c → Extends flow a c
Extends-trans {flow} {a} {b} {c} f g = record {
  kept = λ p v h. g.kept p v (f.kept p v h);
  gained = λ p v n h. elim (Option-cases (lookup p b.tcp_ports)) [
    | inl new ↦ g.gained p v new h
    | inr (w, old) ↦ f.gained p v n (cc (g.kept p w old))
  ];
  address = λ same.
      g.address (λ p h. same p (none-kept (f.kept p) h))
      ∙ f.address (λ p h. none-kept (g.kept p) (same p h));
}

-- every outcome of `m` extends the context
abbrev ExtendsAll : Flow → Matcher → Type 0
ExtendsAll flow m = (fc : FlowContext) → Extends flow fc (m fc).1

and_also-Extends :
    (flow : Flow) (m n : Matcher)
    → ExtendsAll flow m
    → ExtendsAll flow n
    → ExtendsAll flow (and_also m n)
and_also-Extends flow m n hm hn fc = elim (Bool-cases (m fc).0) [
  | inl e ↦ rw e (Extends-trans (hm fc) (hn (m fc).1))
  | inr e ↦ rw e (hm fc)
]

or_else-Extends :
    (flow : Flow) (m n : Matcher)
    → ExtendsAll flow m
    → ExtendsAll flow n
    → ExtendsAll flow (or_else m n)
or_else-Extends flow m n hm hn fc = elim (Bool-cases (m fc).0) [
  | inl e ↦ rw e (hm fc)
  | inr e ↦ rw e (Extends-trans (hm fc) (hn (m fc).1))
]

pub tcp_ports-record_syn :
    (t : Tcp) (flow : Flow) (fc : FlowContext)
    → (record_syn t flow fc).tcp_ports ≡ insert t.destination_port t.source_port fc.tcp_ports
tcp_ports-record_syn t flow fc = ground arith

record_syn-Extends :
    (t : Tcp) (flow : Flow) (fc : FlowContext)
    → get_tcp flow.l4 ≡ some t
    → is_syn t.flags ≡ true
    → lookup t.destination_port fc.tcp_ports ≡ none
    → Extends flow fc (record_syn t flow fc)
record_syn-Extends t flow fc is_t is_s new = record {
  kept = λ p v h.
      rw tcp_ports-record_syn
        (ground (arith, lookup-insert t.destination_port p t.source_port fc.tcp_ports));
  gained = λ p v n h. (
    t,
    is_t,
    is_s,
    ground (
      arith,
      tcp_ports-record_syn t flow fc,
      lookup-insert t.destination_port p t.source_port fc.tcp_ports,
    ),
    ground (
      arith,
      tcp_ports-record_syn t flow fc,
      lookup-insert t.destination_port p t.source_port fc.tcp_ports,
    ),
  );
  address = λ same. ground (
    arith,
    same t.destination_port new,
    tcp_ports-record_syn t flow fc,
    lookup-insert t.destination_port t.destination_port t.source_port fc.tcp_ports,
  );
}

track_source-Extends :
    (t : Tcp) (flow : Flow) (fc : FlowContext) (o : Option ℕ)
    → get_tcp flow.l4 ≡ some t
    → lookup t.destination_port fc.tcp_ports ≡ o
    → Extends flow fc (track_source o t flow fc).1
track_source-Extends t flow fc (some v) is_t h = Extends-refl flow fc
track_source-Extends t flow fc none is_t h = elim (Bool-cases (is_syn t.flags)) [
  | inl e ↦ rw e (record_syn-Extends t flow fc is_t e h)
  | inr e ↦ rw e (Extends-refl flow fc)
]

wildcard_source-Extends :
    (src_port : ℕ) (t : Tcp) (flow : Flow)
    → get_tcp flow.l4 ≡ some t
    → ExtendsAll flow (wildcard_source src_port t flow)
wildcard_source-Extends src_port t flow is_t fc = elim (Bool-cases (src_port == 0)) [
  | inl e ↦ rw e (track_source-Extends t flow fc (lookup t.destination_port fc.tcp_ports) is_t refl)
  | inr e ↦ rw e (Extends-refl flow fc)
]

refuse_if-Extends :
    (flow : Flow) (b : Bool) (m : Matcher) → ExtendsAll flow m → ExtendsAll flow (refuse_if b m)
refuse_if-Extends flow true m h fc = Extends-refl flow fc
refuse_if-Extends flow false m h fc = h fc

-- two guards before a body
guarded-Extends :
    (flow : Flow) (b c : Bool) (m : Matcher)
    → ExtendsAll flow m
    → ExtendsAll flow (refuse_if b (refuse_if c m))
guarded-Extends flow b c m h =
    refuse_if-Extends flow b (refuse_if c m) (refuse_if-Extends flow c m h)

match_tcp-Extends :
    (src_port dst_port : ℕ) (flow : Flow) → ExtendsAll flow (match_tcp src_port dst_port flow)
unfolding match_tcp
match_tcp-Extends src_port dst_port flow fc = elim (Option-cases (get_tcp flow.l4)) [
  | inl e ↦ rw (e, match_tcp) (Extends-refl flow fc)
  | inr (t, e) ↦
      let body : Matcher = and_also (wildcard_source src_port t flow) (tcp_reply dst_port t) in
      rw (e, match_tcp)
        (guarded-Extends flow (not (src_port == 0) && not (t.source_port == src_port))
          (not (dst_port == 0) && not (t.destination_port == dst_port)) body
          (and_also-Extends flow (wildcard_source src_port t flow) (tcp_reply dst_port t)
            (wildcard_source-Extends src_port t flow e) (λ c. Extends-refl flow c))
          fc)
]

record_udp-Extends :
    (flow : Flow) (src_port : ℕ) (u : Udp) (fc : FlowContext)
    → Extends flow fc (record_udp src_port u fc)
record_udp-Extends flow src_port u fc = elim (Bool-cases (src_port == 0)) [
  | inl e ↦
      rw e (record { kept = λ p v h. h; gained = λ p v n h. absurd (cc); address = λ _. refl })
  | inr e ↦ rw e (Extends-refl flow fc)
]

match_udp-Extends :
    (src_port dst_port : ℕ) (flow : Flow) → ExtendsAll flow (match_udp src_port dst_port flow)
unfolding match_udp
match_udp-Extends src_port dst_port flow fc = elim (Option-cases (get_udp flow.l4)) [
  | inl e ↦ rw (e, match_udp) (Extends-refl flow fc)
  | inr (u, e) ↦
      let body : Matcher = λ c. udp_reply dst_port u (record_udp src_port u c) in
      rw (e, match_udp)
        (guarded-Extends flow (not (src_port == 0) && not (u.source_port == src_port % 2 ^ 32))
          (not (dst_port == 0) && not (u.destination_port == dst_port % 2 ^ 32)) body
          (λ c. record_udp-Extends flow src_port u c) fc)
]

mutual
  unfolding match match_all match_any

  match-ExtendsAll : (f : Filter) (flow : Flow) → ExtendsAll flow (match f flow)
  match-ExtendsAll (and_filter fs) flow = match_all-ExtendsAll fs flow
  match-ExtendsAll (or_filter fs) flow = match_any-ExtendsAll fs flow
  match-ExtendsAll (udp s d) flow = match_udp-Extends s d flow
  match-ExtendsAll (tcp s d) flow = match_tcp-Extends s d flow
  match-ExtendsAll _ flow = λ fc. Extends-refl flow fc

  match_all-ExtendsAll : (fs : Filters) (flow : Flow) → ExtendsAll flow (match_all fs flow)
  match_all-ExtendsAll nil flow = λ fc. Extends-refl flow fc
  match_all-ExtendsAll (cons f fs) flow =
      and_also-Extends flow (match f flow) (match_all fs flow) (match-ExtendsAll f flow)
        (match_all-ExtendsAll fs flow)

  match_any-ExtendsAll : (fs : Filters) (flow : Flow) → ExtendsAll flow (match_any fs flow)
  match_any-ExtendsAll nil flow = λ fc. Extends-refl flow fc
  match_any-ExtendsAll (cons f fs) flow =
      or_else-Extends flow (match f flow) (match_any fs flow) (match-ExtendsAll f flow)
        (match_any-ExtendsAll fs flow)

-- Whatever the filter, and whether it matches or not, a match forgets and changes no recorded TCP
-- source port; a port that it records is the source port of the flow itself, which is then a SYN to
-- that destination port; and the wildcard address is unchanged unless a port was recorded.
pub match-Extends :
    (f : Filter) (flow : Flow) (fc : FlowContext) → Extends flow fc (match f flow fc).1
match-Extends f flow fc = match-ExtendsAll f flow fc
