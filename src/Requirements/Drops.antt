-- ===== src/Requirements/Drops.antt =====
-- connectivity/check/action.go: what the flows show where an expected drop was validated.
use mathlib.Core.Bool.{false≢true}
use cilium_cli.Prelude.{
  All, ℕ, ◌≡◌, some, List, [], ◌∷◌, ◌++◌, Bool, true, false, nat_eq, arith, Bool-cases, inl, inr,
  get_elem?, drop,
}
use cilium_cli.Flow.{Flow, direction_egress, direction_ingress}
use cilium_cli.Filters.{
  Filter, FlowContext, Matcher, match, match_all, match_drop, and_also, drop_filter,
}
use cilium_cli.Filters.Build.{and, of_list}
use cilium_cli.Matching.{FlowSetRequirement, FlowRequirement, FlowRequirementResults}
use cilium_cli.Matching.Search.{scanned}
use cilium_cli.Matching.Attempts.{Seen-there}
use cilium_cli.Matching.Phases.{Met, Required, Required-Met}
use cilium_cli.Matching.Goal.{Satisfied}
use cilium_cli.Validation.Merged.{Fulfils}
use cilium_cli.Expectations.{Result}
use cilium_cli.Requirements.Inputs.{
  GoLibrary, Addresses, FlowParameters, over_tcp, over_icmp, over_udp, other_l4, L4Protocol,
  is_supported, requirement, icmp_request, ip_request, tcp_request,
}
use cilium_cli.Requirements.Egress.{
  egress_tcp, egress_icmp, egress_requirements, dns_requirements, protocol_requirements,
}
use cilium_cli.Requirements.Ingress.{
  ingress_tcp, ingress_icmp, tcp_request_in, ingress_set, ingress_requirements,
}

-- the filter matches the flow in some context
abbrev pub Accepts : Flow → Filter → Type 0
Accepts flow f = (fc : FlowContext) × ((match f flow fc).0 ≡ true)

and_also-both :
    (m n : Matcher) (fc : FlowContext)
    → (and_also m n fc).0 ≡ true
    → ((m fc).0 ≡ true) × ((n (m fc).1).0 ≡ true)
and_also-both m n fc h = elim (Bool-cases (m fc).0) [
  | inl e ↦ (e, rw e at h)
  | inr e ↦ absurd (false≢true (rw e at h))
]

-- `And` matches only where each of its filters matches, in some context.
match_all-each :
    (fs : List Filter) (flow : Flow) (fc : FlowContext)
    → (match_all (of_list fs) flow fc).0 ≡ true
    → All (Accepts flow) fs
unfolding match_all
match_all-each [] flow fc h = tt
match_all-each (f ∷ fs) flow fc h =
    let (one, others) = and_also-both (match f flow) (match_all (of_list fs) flow) fc h in
    ((fc, one), match_all-each fs flow (match f flow fc).1 others)

match-and_each :
    (fs : List Filter) (flow : Flow) (fc : FlowContext)
    → (match (and fs) flow fc).0 ≡ true
    → All (Accepts flow) fs
unfolding match
match-and_each fs flow fc h = match_all-each fs flow fc h

drop_filter-Accepts :
    (direction : ℕ) (reason : Flow → Bool) (flow : Flow)
    → Accepts flow (drop_filter (some direction) (some reason))
    → (flow.traffic_direction ≡ direction) × (reason flow ≡ true)
unfolding match match_drop
drop_filter-Accepts direction reason flow (fc, h) = (ground arith, ground arith)

-- Some flow was dropped in the direction and for the reason.
abbrev pub DropSeen : List Flow → ℕ → (Flow → Bool) → Type 0
DropSeen flows direction reason =
    (i : ℕ) × (flow : Flow) × (get_elem? flows i ≡ some flow)
    × (flow.traffic_direction ≡ direction)
    × (reason flow ≡ true)

abbrev drop_set_last : Filter → Filter → ℕ → (Flow → Bool) → FlowRequirement
drop_set_last f g direction reason =
    requirement (and (f ∷ g ∷ drop_filter (some direction) (some reason) ∷ [])) "Drop" false

Met-DropSeen :
    (flows : List Flow) (offset : ℕ) (f g : Filter) (direction : ℕ) (reason : Flow → Bool)
    → Met flows offset (drop_set_last f g direction reason)
    → DropSeen flows direction reason
Met-DropSeen flows offset f g direction reason (h, is_h, i, before, after, seen) =
    let asked_in = scanned h (drop offset flows) seen.distance before in
    let m : (match (and (f ∷ g ∷ drop_filter (some direction) (some reason) ∷ [])) seen.flow
          asked_in).0
        ≡ true =
      cc (is_h, seen.first.matches) in
    let all =
      match-and_each (f ∷ g ∷ drop_filter (some direction) (some reason) ∷ []) seen.flow asked_in
        m in
    let (d, r) = drop_filter-Accepts direction reason seen.flow all.1.1.0 in
    (i, seen.flow, Seen-there seen, d, r)

Satisfied-DropSeen :
    (flows : List Flow) (aggregated : Bool) (req : FlowSetRequirement) (r : FlowRequirementResults)
    (f g : Filter) (direction : ℕ) (reason : Flow → Bool)
    → req.last ≡ drop_set_last f g direction reason
    → Satisfied flows aggregated req r
    → DropSeen flows direction reason
Satisfied-DropSeen flows aggregated req r f g direction reason e s =
    let q = drop_set_last f g direction reason in
    let last : Required flows s.offset aggregated q s.round.after_middle s.round.last_ok
        s.round.after_last =
      rw e at s.round.last in
    elim (Required-Met flows s.offset aggregated q s.round.after_middle s.round.after_last
      s.round.last_ok (ground (arith, s.round.is_ok)) last) [
        | inl skipped ↦ absurd (false≢true skipped)
        | inr met ↦ Met-DropSeen flows s.offset f g direction reason met
      ]

All-right : {A : Type 0} (P : A → Type 0) (xs ys : List A) → All P (xs ++ ys) → All P ys
All-right P [] ys h = h
All-right P (x ∷ xs) ys h = All-right P xs ys h.1

module _ (go : GoLibrary) (egress ingress : Result) (a : Addresses) (p : FlowParameters)
    (flows : List Flow) (aggregated : Bool) (reason : Flow → Bool) where
  egress-DropSeen :
      (l : L4Protocol)
      → is_supported l ≡ true
      → egress.egress_drop ≡ true
      → egress.l7_proxy ≡ false
      → egress.drop_reason_func ≡ some reason
      → All (Fulfils flows aggregated) (protocol_requirements go egress ingress a p l)
      → DropSeen flows direction_egress reason
  unfolding egress_icmp egress_tcp
  egress-DropSeen over_icmp h side l7 is_reason ((r, s), _) =
      Satisfied-DropSeen flows aggregated _ r (ip_request go a p) icmp_request direction_egress
        reason (ground arith) s
  egress-DropSeen over_tcp h side l7 is_reason ((r, s), _) =
      Satisfied-DropSeen flows aggregated _ r (ip_request go a p) (tcp_request a p) direction_egress
        reason (ground arith) s
  egress-DropSeen over_udp h side l7 is_reason all = absurd (cc)
  egress-DropSeen other_l4 h side l7 is_reason all = absurd (cc)

  ingress-DropSeen :
      (l : L4Protocol)
      → is_supported l ≡ true
      → ingress.ingress_drop ≡ true
      → ingress.drop_reason_func ≡ some reason
      → Fulfils flows aggregated (ingress_set go ingress a p l)
      → DropSeen flows direction_ingress reason
  unfolding ingress_icmp ingress_tcp
  ingress-DropSeen over_icmp h side is_reason (r, s) =
      Satisfied-DropSeen flows aggregated _ r (ip_request go a p) icmp_request direction_ingress
        reason (ground arith) s
  ingress-DropSeen over_tcp h side is_reason (r, s) =
      Satisfied-DropSeen flows aggregated _ r (ip_request go a p) (tcp_request_in a p)
        direction_ingress reason (ground arith) s
  ingress-DropSeen over_udp h side is_reason all = absurd (cc)
  ingress-DropSeen other_l4 h side is_reason all = absurd (cc)

-- For TCP and ICMP, where a drop is expected at egress for some reason, and no L7 proxy: flows that
-- meet all egress requirements hold one that was dropped at egress for that reason.
pub egress_requirements-DropSeen :
    (go : GoLibrary) (egress ingress : Result) (a : Addresses) (p : FlowParameters)
    (flows : List Flow) (aggregated : Bool) (reason : Flow → Bool)
    → is_supported p.protocol ≡ true
    → egress.egress_drop ≡ true
    → egress.l7_proxy ≡ false
    → egress.drop_reason_func ≡ some reason
    → All (Fulfils flows aggregated) (egress_requirements go egress ingress a p).0
    → DropSeen flows direction_egress reason
unfolding egress_requirements
egress_requirements-DropSeen go egress ingress a p flows aggregated reason l side l7 is_reason all =
    egress-DropSeen go egress ingress a p flows aggregated reason p.protocol l side l7 is_reason
      (All-right (Fulfils flows aggregated) (dns_requirements egress a p) _ all)

-- For TCP and ICMP, where a drop is expected at ingress for some reason: flows that meet all ingress
-- requirements hold one that was dropped at ingress for that reason.
pub ingress_requirements-DropSeen :
    (go : GoLibrary) (ingress : Result) (a : Addresses) (p : FlowParameters) (flows : List Flow)
    (aggregated : Bool) (reason : Flow → Bool)
    → is_supported p.protocol ≡ true
    → ingress.is_none ≡ false
    → ingress.ingress_drop ≡ true
    → ingress.drop_reason_func ≡ some reason
    → All (Fulfils flows aggregated) (ingress_requirements go ingress a p).0
    → DropSeen flows direction_ingress reason
unfolding ingress_requirements
ingress_requirements-DropSeen go ingress a p flows aggregated reason l some_flows side is_reason
      all =
    ingress-DropSeen go ingress ingress a p flows aggregated reason p.protocol l side is_reason
      (simp some_flows at all).0
