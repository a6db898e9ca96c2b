-- ===== src/Filters/Context.antt =====
-- connectivity/filters/filters.go: the state that one filter leaves for the next, and how `Match`
-- of several filters share it.
use cilium_cli.Prelude.{ℕ, ◌-◌, ◌^◌, String, [], Bool, true, false, Map, if◌then◌else◌}

abbrev pub max_uint32 : ℕ
max_uint32 = 2 ^ 32 - 1

abbrev pub PortMap : Type 0
PortMap = Map ℕ ℕ

pub record FlowContext : Type 0 where
  pub dst_ip : String
  pub tcp_ports : PortMap
  pub udp_ports : PortMap

abbrev pub new_flow_context : FlowContext
new_flow_context = record { dst_ip = ""; tcp_ports = []; udp_ports = [] }

abbrev pub Matcher : Type 0
Matcher = FlowContext → Bool × FlowContext

-- `a.Match(…) && b.Match(…)`: the second is asked only where the first matched.
abbrev pub and_also : Matcher → Matcher → Matcher
and_also m n fc = let (b, fc') = m fc in if b then n fc' else (false, fc')

abbrev pub or_else : Matcher → Matcher → Matcher
or_else m n fc = let (b, fc') = m fc in if b then (true, fc') else n fc'

-- `if … { return false }` before the rest
abbrev pub refuse_if : Bool → Matcher → Matcher
refuse_if b m fc = if b then (false, fc) else m fc

-- a filter that ignores the context
abbrev pub test : Bool → Matcher
test b fc = (b, fc)
