-- ===== src/Filters/Conversation.antt =====
-- connectivity/filters: the filters of one TCP connection, after its SYN has been seen.
use cilium_cli.Prelude.{
  ℕ, none, some, List, [], ◌∷◌, ◌≡◌, ◌≢◌, ◌↔◌, true, get_or-lookup, lookup, lookup-insert, nat_eq,
  arith,
}
use cilium_cli.Flow.{Flow, Tcp, get_tcp}
use cilium_cli.Filters.{Filter, tcp, FlowContext, match, match_tcp, is_syn}
use cilium_cli.Filters.Tracking.{match-Extends, tcp_ports-record_syn}

-- the context after further filters were asked about further flows
pub after : List (Filter × Flow) → FlowContext → FlowContext
after [] fc = fc
after ((f, flow) ∷ rest) fc = after rest (match f flow fc).1

after-kept :
    (later : List (Filter × Flow)) (fc : FlowContext) (p v : ℕ)
    → lookup p fc.tcp_ports ≡ some v
    → lookup p (after later fc).tcp_ports ≡ some v
unfolding after
after-kept [] fc p v h = h
after-kept ((f, flow) ∷ rest) fc p v h =
    after-kept rest (match f flow fc).1 p v ((match-Extends f flow fc).kept p v h)

-- A SYN to a port that is not on record puts its source port on record.
syn-recorded :
    (port : ℕ) (flow : Flow) (t : Tcp) (fc : FlowContext)
    → get_tcp flow.l4 ≡ some t
    → is_syn t.flags ≡ true
    → t.destination_port ≡ port
    → lookup port fc.tcp_ports ≡ none
    → port ≢ 0
    → lookup port (match (tcp 0 port) flow fc).1.tcp_ports ≡ some t.source_port
unfolding match match_tcp
syn-recorded port flow t fc is_t is_s to_port new nz = ground (
  arith,
  tcp_ports-record_syn t flow fc,
  lookup-insert t.destination_port port t.source_port fc.tcp_ports,
)

reply_iff :
    (port : ℕ) (flow : Flow) (r : Tcp) (fc : FlowContext) (v : ℕ)
    → get_tcp flow.l4 ≡ some r
    → port ≢ 0
    → lookup port fc.tcp_ports ≡ some v
    → ((match (tcp port 0) flow fc).0 ≡ true) ↔ ((r.source_port ≡ port) × (r.destination_port ≡ v))
unfolding match match_tcp
reply_iff port flow r fc v is_r nz known = (
  ground (arith, get_or-lookup 0 port v fc.tcp_ports known),
  ground (arith, get_or-lookup 0 port v fc.tcp_ports known),
)

request_iff :
    (port : ℕ) (flow : Flow) (r : Tcp) (fc : FlowContext) (v : ℕ)
    → get_tcp flow.l4 ≡ some r
    → port ≢ 0
    → lookup port fc.tcp_ports ≡ some v
    → ((match (tcp 0 port) flow fc).0 ≡ true) ↔ ((r.destination_port ≡ port) × (r.source_port ≡ v))
unfolding match match_tcp
request_iff port flow r fc v is_r nz known = (ground arith, ground arith)

-- Once `TCP(0, port)` has been asked about a SYN to a port that was not on record, then, whatever
-- filters are asked about whatever flows after it, `TCP(port, 0)` matches exactly the packets from
-- that port back to the source port of the SYN, and `TCP(0, port)` exactly the packets from it.
pub tcp_conversation :
    (port : ℕ) (first : Flow) (t : Tcp) (fc : FlowContext) (later : List (Filter × Flow))
    (flow : Flow) (r : Tcp)
    → get_tcp first.l4 ≡ some t
    → is_syn t.flags ≡ true
    → t.destination_port ≡ port
    → lookup port fc.tcp_ports ≡ none
    → port ≢ 0
    → get_tcp flow.l4 ≡ some r
    → (((match (tcp port 0) flow (after later (match (tcp 0 port) first fc).1)).0 ≡ true)
        ↔ ((r.source_port ≡ port) × (r.destination_port ≡ t.source_port)))
      × (((match (tcp 0 port) flow (after later (match (tcp 0 port) first fc).1)).0 ≡ true)
          ↔ ((r.destination_port ≡ port) × (r.source_port ≡ t.source_port)))
tcp_conversation port first t fc later flow r is_t is_s to_port new nz is_r =
    let end : FlowContext = after later (match (tcp 0 port) first fc).1 in
    let known : lookup port end.tcp_ports ≡ some t.source_port =
      after-kept later (match (tcp 0 port) first fc).1 port t.source_port
        (syn-recorded port first t fc is_t is_s to_port new nz) in
    (
      reply_iff port flow r end t.source_port is_r nz known,
      request_iff port flow r end t.source_port is_r nz known,
    )
