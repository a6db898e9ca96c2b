-- ===== src/Requirements/AnyDrop.antt =====
-- connectivity/check/action.go: the egress requirements for ICMP, where a drop is expected at ingress.
use cilium_cli.Prelude.{
  String, some, [], ◌∷◌, true, false, ◌≡◌, ◌≢◌, refl, subst, inl, inr, arith, some_injective,
}
use cilium_cli.Flow.{Flow, reason_unknown}
use cilium_cli.Filters.{Filter, FlowContext, match, ip}
use cilium_cli.Filters.Build.{and, or, drop}
use cilium_cli.Filters.Meaning.{Means}
use cilium_cli.Filters.Meaning.Whole.{match-Means}
use cilium_cli.Expectations.{Result}
use cilium_cli.Requirements.Inputs.{icmp_request, icmp_response}
use cilium_cli.Requirements.Egress.{egress_icmp}

-- Where the action expects a drop at ingress but none at egress, and the egress expectation has no
-- `IngressDrop`, the last flow that the egress requirements for ICMP ask for may be any request between
-- the two addresses that was dropped for a known reason, in either direction and whatever reason the
-- ingress expectation accepts.
pub icmp_any_drop :
    (egress ingress : Result) (src_ip dst_ip : String) (f : Filter) (flow : Flow) (fc : FlowContext)
    → egress.drop ≡ false
    → egress.egress_drop ≡ false
    → egress.ingress_drop ≡ false
    → ingress.drop ≡ true
    → (egress_icmp egress ingress (ip src_ip dst_ip) (ip dst_ip src_ip)).last.filter ≡ some f
    → Means (ip src_ip dst_ip) flow fc
    → Means icmp_request flow fc
    → flow.drop_reason_desc ≢ reason_unknown
    → (match f flow fc).0 ≡ true
unfolding egress_icmp
icmp_any_drop egress ingress src_ip dst_ip f flow fc d e i h is_f addresses request known =
    let g : Filter = or (
      and (ip dst_ip src_ip ∷ icmp_response ∷ [])
      ∷ and (ip src_ip dst_ip ∷ icmp_request ∷ drop [] ∷ [])
      ∷ []) in
    let same : g ≡ f = some_injective (ground arith) in
    let dropped : Means (drop []) flow fc = ground arith in
    subst (λ k. (match k flow fc).0 ≡ true) same
      ((match-Means g flow fc refl).1.1 (inr (inl (addresses, (request, (dropped, tt))))))
