-- ===== src/Filters/Leaves.antt =====
-- connectivity/filters: laws of the filters that look at one packet.
use cilium_cli.Prelude.{ℕ, Option, none, some, List, [], ◌∷◌, ◌≡◌, Bool, false, ◌&&◌, arith}
use cilium_cli.Flow.{Flow, direction_egress, direction_ingress}
use cilium_cli.Filters.{FlowContext, match, match_tcp_flags}
use cilium_cli.Filters.Build.{
  syn, syn_ack, fin, rst, DropOption, with_ingress, with_egress, with_drop_func, default_reason,
}

-- No packet is matched by two of the filters SYN, SYN-ACK, FIN and RST.
pub flag_filters_exclusive :
    (flow : Flow) (fc : FlowContext)
    → ((match syn flow fc).0 && (match syn_ack flow fc).0 ≡ false)
      × ((match syn flow fc).0 && (match fin flow fc).0 ≡ false)
      × ((match syn flow fc).0 && (match rst flow fc).0 ≡ false)
      × ((match syn_ack flow fc).0 && (match fin flow fc).0 ≡ false)
      × ((match syn_ack flow fc).0 && (match rst flow fc).0 ≡ false)
      × ((match fin flow fc).0 && (match rst flow fc).0 ≡ false)
unfolding match match_tcp_flags
flag_filters_exclusive flow fc =
    (ground arith, ground arith, ground arith, ground arith, ground arith, ground arith)

abbrev pub direction_of : DropOption → Option ℕ
direction_of with_ingress = some direction_ingress
direction_of with_egress = some direction_egress
direction_of (with_drop_func reason) = none

abbrev pub reason_of : DropOption → Option (Option (Flow → Bool))
reason_of (with_drop_func reason) = some reason
reason_of _ = none

-- what the last of the options gives that gives anything
abbrev pub last_given {ℓ} : {X : Type ℓ} → (DropOption → Option X) → List DropOption → Option X
last_given given [] = none
last_given given (o ∷ os) = elim (last_given given os) [ none ↦ given o | some x ↦ some x ]

-- the reason that is given last, or else that the reason is known
abbrev pub reason_given : List DropOption → Option (Flow → Bool)
reason_given os = elim (last_given reason_of os) [
  | none ↦ some default_reason
  | some reason ↦ reason
]
