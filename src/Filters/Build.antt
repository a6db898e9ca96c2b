-- ===== src/Filters/Build.antt =====
-- connectivity/filters/filters.go: the functions that build filters.
use cilium_cli.Prelude.{ℕ, Option, none, some, List, [], ◌∷◌, Bool, true, false, not, ◌==◌, nat_eq}
use cilium_cli.Flow.{Flow, reason_unknown, direction_ingress, direction_egress}
use cilium_cli.Filters.{Filter, Filters, and_filter, or_filter, drop_filter, tcp_flags, nil, cons}

-- The constructors, under their Go names.
abbrev pub of_list : List Filter → Filters
of_list [] = nil
of_list (f ∷ fs) = cons f (of_list fs)

abbrev pub and : List Filter → Filter
and fs = and_filter (of_list fs)

abbrev pub or : List Filter → Filter
or fs = or_filter (of_list fs)

-- the struct `dropFilter` while the options of `Drop` are applied
pub record DropFilter : Type 0 where
  pub direction : Option ℕ
  pub reason : Option (Flow → Bool)

pub data DropOption : Type 0 where
  with_ingress with_egress : DropOption
  with_drop_func : Option (Flow → Bool) → DropOption

abbrev pub apply_option : DropOption → DropFilter → DropFilter
apply_option with_ingress f = record f { direction = some direction_ingress }
apply_option with_egress f = record f { direction = some direction_egress }
apply_option (with_drop_func reason) f = record f { reason = reason }

abbrev pub apply_options : List DropOption → DropFilter → DropFilter
apply_options [] f = f
apply_options (o ∷ os) f = apply_options os (apply_option o f)

abbrev pub default_reason : Flow → Bool
default_reason flow = not (flow.drop_reason_desc == reason_unknown)

abbrev pub drop : List DropOption → Filter
drop options =
    let f = apply_options options (record { direction = none; reason = some default_reason }) in
    drop_filter f.direction f.reason

abbrev pub flags : Bool → Bool → Bool → Bool → Filter
flags syn ack fin rst = tcp_flags (record { fin = fin; syn = syn; rst = rst; ack = ack })

abbrev pub fin : Filter
fin = flags false true true false

abbrev pub rst : Filter
rst = flags false true false true

abbrev pub syn_ack : Filter
syn_ack = flags true true false false

abbrev pub syn : Filter
syn = flags true false false false
