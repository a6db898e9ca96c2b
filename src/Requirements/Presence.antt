-- ===== src/Requirements/Presence.antt =====
-- connectivity/check/action.go: which requirement sets can be matched at all.
use cilium_cli.Prelude.{
  All, ◌≡◌, refl, List, [], ◌∷◌, ◌++◌, Bool, true, false, ◌||◌, not, arith, Bool-cases,
  if◌then◌else◌, inl, inr,
}
use cilium_cli.Filters.{Filter}
use cilium_cli.Matching.{FlowSetRequirement, FlowRequirement}
use cilium_cli.Matching.Phases.{HasFilter}
use cilium_cli.Matching.Goal.{HasFilters}
use cilium_cli.Expectations.{Result}
use cilium_cli.Requirements.Inputs.{
  GoLibrary, Addresses, FlowParameters, L4Protocol, over_tcp, over_udp, over_icmp, other_l4,
  is_supported, ip_request, ip_response, tcp_request, tcp_response, expects_http,
}
use cilium_cli.Requirements.Egress.{
  egress_icmp, egress_tcp, http_after, dns_requirements, protocol_requirements, egress_requirements,
  drops_l4, egress_tcp_allowed,
}
use cilium_cli.Requirements.Ingress.{ingress_icmp, ingress_tcp, ingress_set, ingress_requirements}

-- Each filter of a requirement set is there, where its four places are.
places :
    (req : FlowSetRequirement)
    → HasFilter req.first
    → All HasFilter req.middle
    → HasFilter req.last
    → All HasFilter req.except
    → HasFilters req
places req f m l e = record { first = f; middle = m; last = l; except = e }

if_All :
    {A : Type 0} (P : A → Type 0) (b : Bool) (xs ys : List A)
    → All P xs
    → All P ys
    → All P (if b then xs else ys)
if_All P true xs ys hx hy = hx
if_All P false xs ys hx hy = hy

egress_icmp-HasFilters :
    (egress ingress : Result) (ip_req ip_resp : Filter)
    → HasFilters (egress_icmp egress ingress ip_req ip_resp)
unfolding egress_icmp
egress_icmp-HasFilters egress ingress ip_req ip_resp =
    elim (Bool-cases (egress.drop || egress.egress_drop)) [
      | inl e ↦ rw e (places _ (_, refl) tt (_, refl) ((_, refl), tt))
      | inr e ↦ rw e (elim (Bool-cases (ingress.drop || ingress.ingress_drop)) [
        | inl i ↦ rw i (places _ (_, refl) tt (_, refl) tt)
        | inr i ↦ rw i (places _ (_, refl) tt (_, refl) ((_, refl), tt))
      ])
    ]

egress_tcp-HasFilters :
    (egress : Result) (rst_allowed : Bool) (ip_req ip_resp tcp_req tcp_resp : Filter)
    → HasFilters (egress_tcp egress rst_allowed ip_req ip_resp tcp_req tcp_resp)
unfolding egress_tcp
egress_tcp-HasFilters egress rst_allowed ip_req ip_resp tcp_req tcp_resp =
    elim (Bool-cases (drops_l4 egress)) [
      | inl e ↦ rw e (places _ (_, refl) tt (_, refl) ((_, refl), ((_, refl), tt)))
      | inr e ↦ rw e (allowed rst_allowed)
    ]
  where
    allowed : (b : Bool) → HasFilters (egress_tcp_allowed b ip_req ip_resp tcp_req tcp_resp)
    allowed true = places _ (_, refl) ((_, refl), tt) (_, refl) ((_, refl), tt)
    allowed false = places _ (_, refl) ((_, refl), tt) (_, refl) ((_, refl), ((_, refl), tt))

with_last-HasFilters :
    (set : FlowSetRequirement) (q : FlowRequirement)
    → HasFilters set
    → HasFilter q
    → HasFilters (record set { last = q })
with_last-HasFilters set q h l = places _ h.first h.middle l h.except

http_after-HasFilters :
    (go : GoLibrary) (egress : Result) (ip_req tcp_req : Filter) (set : FlowSetRequirement)
    → HasFilters set
    → All HasFilters (http_after go egress ip_req tcp_req set)
unfolding http_after
http_after-HasFilters go egress ip_req tcp_req set h = if_All HasFilters (drops_l4 egress) [] _ tt (
    if_All HasFilters (not (egress.l7_proxy || expects_http egress)) [] _ tt (
      if_All HasFilters egress.drop _ _ (with_last-HasFilters set _ h (_, refl), tt)
        (if_All HasFilters (expects_http egress) _ _ (with_last-HasFilters set _ h (_, refl), tt)
          (h, tt))))

pub dns_requirements-HasFilters :
    (egress : Result) (a : Addresses) (p : FlowParameters)
    → All HasFilters (dns_requirements egress a p)
unfolding dns_requirements
dns_requirements-HasFilters egress a p =
    if_All HasFilters (not (p.dns_required || egress.dns_proxy)) [] _ tt (
      if_All HasFilters egress.dns_proxy _ _
        (places _ (_, refl) ((_, refl), tt) (_, refl) ((_, refl), tt), tt)
        (places _ (_, refl) tt (_, refl) tt, tt))

module _ (go : GoLibrary) (egress ingress : Result) (a : Addresses) (p : FlowParameters) where
  protocol_requirements-HasFilters :
      (l : L4Protocol)
      → is_supported l ≡ true
      → All HasFilters (protocol_requirements go egress ingress a p l)
  protocol_requirements-HasFilters over_icmp h = (egress_icmp-HasFilters egress ingress _ _, tt)
  protocol_requirements-HasFilters over_tcp h =
      let set =
        egress_tcp-HasFilters egress p.rst_allowed (ip_request go a p) (ip_response go a p)
          (tcp_request a p) (tcp_response a p) in
      (set, http_after-HasFilters go egress (ip_request go a p) (tcp_request a p) _ set)
  protocol_requirements-HasFilters over_udp h = absurd (cc)
  protocol_requirements-HasFilters other_l4 h = absurd (cc)

  ingress_set-HasFilters :
      (l : L4Protocol) → is_supported l ≡ true → HasFilters (ingress_set go ingress a p l)
  unfolding ingress_icmp ingress_tcp
  ingress_set-HasFilters over_icmp h = elim (Bool-cases (ingress.drop || ingress.ingress_drop)) [
    | inl e ↦ rw e (places _ (_, refl) tt (_, refl) ((_, refl), tt))
    | inr e ↦ rw e (places _ (_, refl) tt (_, refl) ((_, refl), tt))
  ]
  ingress_set-HasFilters over_tcp h = elim (Bool-cases (ingress.drop || ingress.ingress_drop)) [
    | inl e ↦ rw e (places _ (_, refl) tt (_, refl) ((_, refl), ((_, refl), tt)))
    | inr e ↦ rw e (places _ (_, refl) ((_, refl), tt) (_, refl) ((_, refl), ((_, refl), tt)))
  ]
  ingress_set-HasFilters over_udp h = absurd (cc)
  ingress_set-HasFilters other_l4 h = absurd (cc)

All-append : {A : Type 0} (P : A → Type 0) (xs ys : List A) → All P xs → All P ys → All P (xs ++ ys)
All-append P [] ys hx hy = hy
All-append P (x ∷ xs) ys hx hy = (hx.0, All-append P xs ys hx.1 hy)

-- For TCP and ICMP, all filters of the egress and the ingress requirements are there, and the
-- action is not marked as failed.
pub supported-HasFilters :
    (go : GoLibrary) (egress ingress : Result) (a : Addresses) (p : FlowParameters)
    → is_supported p.protocol ≡ true
    → All HasFilters (egress_requirements go egress ingress a p).0
      × ((egress_requirements go egress ingress a p).1 ≡ false)
      × All HasFilters (ingress_requirements go ingress a p).0
      × ((ingress_requirements go ingress a p).1 ≡ false)
unfolding egress_requirements ingress_requirements
supported-HasFilters go egress ingress a p h = (
  All-append HasFilters (dns_requirements egress a p) _ (dns_requirements-HasFilters egress a p)
      (protocol_requirements-HasFilters go egress ingress a p p.protocol h),
  ground arith,
  elim (Bool-cases ingress.is_none) [
    | inl e ↦ simp e tt
    | inr e ↦ simp e (ingress_set-HasFilters go egress ingress a p p.protocol h, tt)
  ],
  ground arith,
)
