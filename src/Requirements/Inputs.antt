-- ===== src/Requirements/Inputs.antt =====
-- connectivity/check/action.go: what `GetEgressRequirements` and `GetIngressRequirements` read, and the
-- filters that both build.
use cilium_cli.Prelude.{
  ℕ, ◌-◌, ◌%◌, ◌^◌, String, Option, none, some, [], ◌∷◌, Bool, true, false, not, ◌&&◌, ◌||◌, ◌==◌,
  nat_eq, string_eq, if◌then◌else◌, ℤ, pos, negsuc,
}
use cilium_cli.Flow.{Flow}
use cilium_cli.Filters.{Filter, ip, tcp, icmp, icmpv6, max_uint32}
use cilium_cli.Filters.Build.{or, drop, DropOption, with_drop_func}
use cilium_cli.Matching.{FlowRequirement, FlowSetRequirement}
use cilium_cli.Expectations.{Result}

pub data L4Protocol : Type 0 where
  over_tcp over_udp over_icmp other_l4 : L4Protocol

pub record FlowParameters : Type 0 where
  pub protocol : L4Protocol
  pub dns_required : Bool
  pub rst_allowed : Bool
  pub alt_dst_ip : String
  pub alt_dst_port : ℕ

-- what the peers of the action answer: the addresses in its IP family, and the port
pub record Addresses : Type 0 where
  pub src : String
  pub dst : String
  pub port : ℕ

-- From Go's library: `net.ParseIP(s) != nil`, and `strconv.Atoi`.
pub record GoLibrary : Type 0 where
  pub is_ip : String → Bool
  pub atoi : String → Option ℤ

-- `uint32(i)`
abbrev pub uint32 : ℤ → ℕ
uint32 (pos n) = n % 2 ^ 32
uint32 (negsuc n) = 2 ^ 32 - 1 - n % 2 ^ 32

abbrev pub requirement : Filter → String → Bool → FlowRequirement
requirement f msg skip = record { filter = some f; msg = msg; skip_on_aggregation = skip }

-- the zero values
abbrev pub no_requirement : FlowRequirement
no_requirement = record { filter = none; msg = ""; skip_on_aggregation = false }

abbrev pub no_requirements : FlowSetRequirement
no_requirements = record { first = no_requirement; middle = []; last = no_requirement; except = [] }

-- a destination that is no IP address is taken for a domain name
abbrev pub dst_ip : GoLibrary → Addresses → String
dst_ip go a = if not (a.dst == "") && not (go.is_ip a.dst) then "" else a.dst

abbrev pub ip_request : GoLibrary → Addresses → FlowParameters → Filter
ip_request go a p =
    let plain = ip a.src (dst_ip go a) in
    if not (p.alt_dst_ip == "") && not (p.alt_dst_ip == dst_ip go a)
    then or (ip a.src p.alt_dst_ip ∷ plain ∷ [])
    else plain

abbrev pub ip_response : GoLibrary → Addresses → FlowParameters → Filter
ip_response go a p =
    let plain = ip (dst_ip go a) a.src in
    if not (p.alt_dst_ip == "") && not (p.alt_dst_ip == dst_ip go a)
    then or (ip p.alt_dst_ip a.src ∷ plain ∷ [])
    else plain

abbrev pub tcp_request : Addresses → FlowParameters → Filter
tcp_request a p =
    if not (p.alt_dst_port == 0) && not (p.alt_dst_port == a.port)
    then or (tcp 0 p.alt_dst_port ∷ tcp 0 a.port ∷ [])
    else tcp 0 a.port

abbrev pub tcp_response : Addresses → FlowParameters → Filter
tcp_response a p =
    if not (p.alt_dst_port == 0) && not (p.alt_dst_port == a.port)
    then or (tcp p.alt_dst_port 0 ∷ tcp a.port 0 ∷ [])
    else tcp a.port 0

abbrev pub icmp_request : Filter
icmp_request = or (icmp 8 ∷ icmpv6 128 ∷ [])

abbrev pub icmp_response : Filter
icmp_response = or (icmp 0 ∷ icmpv6 129 ∷ [])

-- `Drop()`, or on one side and for the expected reason only
abbrev pub drop_filter_for : Bool → DropOption → Option (Flow → Bool) → Filter
drop_filter_for one_side side reason =
    if one_side then drop (side ∷ with_drop_func reason ∷ []) else drop []

abbrev pub expects_http : Result → Bool
expects_http r = not (r.http.status == "") || not (r.http.method == "") || not (r.http.url == "")

abbrev pub http_status : GoLibrary → Result → ℕ
http_status go r = elim (go.atoi r.http.status) [ none ↦ max_uint32 | some s ↦ uint32 s ]

-- whether the flows of the protocol can be matched; otherwise the action is marked as failed
abbrev pub is_supported : L4Protocol → Bool
is_supported over_icmp = true
is_supported over_tcp = true
is_supported _ = false
