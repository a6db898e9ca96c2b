-- ===== src/Validation/Merged.antt =====
-- connectivity/check/action.go: what the merged results of several requirement sets mean.
use cilium_cli.Prelude.{
  All, ℕ, ◌+◌, ◌≡◌, refl, ◌∙◌, sym, ap, ltb, if◌then◌else◌, ◌||◌, ◌⊎◌, inl, inr, List, [], ◌∷◌,
  Bool, true, arith, ℤ, pos, minus_one, pos-add, Returns, Returns-bind, Returns-pure, Returns-map,
}
use native.Mathlib.Nat.{add-zero}
use cilium_cli.Flow.{Flow}
use cilium_cli.Matching.{FlowSetRequirement, FlowRequirementResults, match_flow_requirements}
use cilium_cli.Matching.Goal.{HasFilters, Satisfied, FirstMissing}
use cilium_cli.Matching.Verdict.{match_flow_requirements-Verdict}
use cilium_cli.Validation.{merge, merge_all, match_all_flow_requirements, no_results}

abbrev pub Any {ℓ} : {A : Type ℓ} → (A → Type 0) → List A → Type 0
Any P [] = ⊥
Any P (x ∷ xs) = P x ⊎ Any P xs

-- the flows meet the requirement set: some round from one of their first flows on finds all
abbrev pub Fulfils : List Flow → Bool → FlowSetRequirement → Type 0
Fulfils flows aggregated req = (r : FlowRequirementResults) × Satisfied flows aggregated req r

-- no round from a first flow on finds all, and there is no further first flow
abbrev pub Lacks : List Flow → Bool → FlowSetRequirement → Type 0
Lacks flows aggregated req = (r : FlowRequirementResults) × FirstMissing flows aggregated req r

abbrev pub IsIndex : ℤ → Type 0
IsIndex z = (i : ℕ) × (z ≡ pos i)

-- a position, or -1
abbrev pub IsPosition : ℤ → Type 0
IsPosition z = (z ≡ minus_one) ⊎ IsIndex z

-- Results from which a merge can go on.
pub record Mergeable (out : FlowRequirementResults) : Type 0 where
  pub position : IsPosition out.first_match
  pub count : ℕ
  pub has_count : out.failures ≡ pos count

-- Where there is a set to merge, the merged first match is an index.
abbrev pub FirstKnown :
    List FlowSetRequirement → FlowRequirementResults → FlowRequirementResults → Type 0
FirstKnown [] out r = r.first_match ≡ out.first_match
FirstKnown (req ∷ reqs) out r = IsIndex r.first_match

-- Merging the results of `reqs` onto `out`: all sets are met and nothing is added that is amiss, or
-- more flows are asked for and some set is not met.
pub data Merged (flows : List Flow) (aggregated : Bool) (reqs : List FlowSetRequirement)
    (out r : FlowRequirementResults) : Type 0 where
  all_met :
      r.need_more_flows ≡ out.need_more_flows
      → r.failures ≡ out.failures
      → FirstKnown reqs out r
      → All (Fulfils flows aggregated) reqs
      → Merged flows aggregated reqs out r
  some_missing :
      r.need_more_flows ≡ true
      → Any (Lacks flows aggregated) reqs
      → Merged flows aggregated reqs out r

merge-need_more :
    (r from : FlowRequirementResults)
    → (merge r from).need_more_flows ≡ (r.need_more_flows || from.need_more_flows)
unfolding merge
merge-need_more r from = refl

merge-failures :
    (r from : FlowRequirementResults) (n m : ℕ)
    → r.failures ≡ pos n
    → from.failures ≡ pos m
    → (merge r from).failures ≡ pos (n + m)
unfolding merge
merge-failures r from n m e e' = cc (e, e', pos-add n m)

merge-first_place :
    (r from : FlowRequirementResults) (i : ℕ)
    → IsPosition r.first_match
    → from.first_match ≡ pos i
    → IsIndex (merge r from).first_match
unfolding merge
merge-first_place r from i (inl e) e' = (i, ground arith)
merge-first_place r from i (inr (j, e)) e' = (if ltb i j then i else j, ground arith)

merge-first_none :
    (r from : FlowRequirementResults)
    → IsPosition r.first_match
    → from.first_match ≡ minus_one
    → IsPosition (merge r from).first_match
unfolding merge
merge-first_none r from (inl e) e' = inl (ground arith)
merge-first_none r from (inr (j, e)) e' = inr (j, ground arith)

satisfied-Mergeable :
    (out res : FlowRequirementResults) (i : ℕ)
    → Mergeable out
    → res.first_match ≡ pos i
    → res.failures ≡ pos 0
    → Mergeable (merge out res)
satisfied-Mergeable out res i m first fails = record {
  position = inr (merge-first_place out res i m.position first);
  count = m.count + 0;
  has_count = merge-failures out res m.count 0 m.has_count fails;
}

missing-Mergeable :
    (out res : FlowRequirementResults)
    → Mergeable out
    → res.first_match ≡ minus_one
    → res.failures ≡ pos 1
    → Mergeable (merge out res)
missing-Mergeable out res m first fails = record {
  position = merge-first_none out res m.position first;
  count = m.count + 1;
  has_count = merge-failures out res m.count 1 m.has_count fails;
}

Satisfied-Merged :
    (flows : List Flow) (aggregated : Bool) (req : FlowSetRequirement)
    (reqs : List FlowSetRequirement) (out res r : FlowRequirementResults)
    → Mergeable out
    → Satisfied flows aggregated req res
    → Merged flows aggregated reqs (merge out res) r
    → Merged flows aggregated (req ∷ reqs) out r
Satisfied-Merged flows aggregated req reqs out res r m s (some_missing more any) =
    some_missing more (inr any)
Satisfied-Merged flows aggregated req reqs out res r m s (all_met more fails first all) =
    all_met (ground (arith, merge-need_more out res, s.clean.0))
      (fails
        ∙ merge-failures out res m.count 0 m.has_count s.clean.1
        ∙ ap pos (add-zero m.count)
        ∙ sym m.has_count)
      (known reqs first) ((res, s), all)
  where
    known : (qs : List FlowSetRequirement) → FirstKnown qs (merge out res) r → IsIndex r.first_match
    known [] e =
        (let (i, e2) = merge-first_place out res s.index m.position s.first_match in (i, e ∙ e2))
    known (q ∷ qs) e = e

missing-Merged :
    (flows : List Flow) (aggregated : Bool) (req : FlowSetRequirement)
    (reqs : List FlowSetRequirement) (out res r : FlowRequirementResults)
    → FirstMissing flows aggregated req res
    → Merged flows aggregated reqs (merge out res) r
    → Merged flows aggregated (req ∷ reqs) out r
missing-Merged flows aggregated req reqs out res r s (some_missing more any) =
    some_missing more (inr any)
missing-Merged flows aggregated req reqs out res r s (all_met more fails first all) =
    some_missing (ground (arith, merge-need_more out res, s.need_more)) (inl (res, s))

module _ (flows : List Flow) (aggregated : Bool) where
  merge_all-Merged :
      (reqs : List FlowSetRequirement) (out : FlowRequirementResults)
      → All HasFilters reqs
      → Mergeable out
      → Returns (Merged flows aggregated reqs out) (merge_all flows aggregated reqs out)
  unfolding merge_all
  merge_all-Merged [] out h m = Returns-pure out (all_met refl refl refl tt)
  merge_all-Merged (req ∷ reqs) out h m =
      Returns-bind (match_flow_requirements flows aggregated req) _
        (match_flow_requirements-Verdict flows aggregated req h.0)
        (λ res v. elim v [
          | inl s ↦
              Returns-map
                (merge_all-Merged reqs (merge out res) h.1
                  (satisfied-Mergeable out res s.index m s.first_match s.clean.1))
                (λ r merged. Satisfied-Merged flows aggregated req reqs out res r m s merged)
          | inr s ↦
              Returns-map
                (merge_all-Merged reqs (merge out res) h.1
                  (missing-Mergeable out res m s.first_match s.failures))
                (λ r merged. missing-Merged flows aggregated req reqs out res r s merged)
        ])

-- Where no filter is nil, matching all requirement sets against some flows returns: either for every
-- set one of the rounds that `matchFlowRequirements` goes through finds all that is required and nothing
-- excepted, and the merged results record no failure, ask for no more flows and have a first match; or
-- for some set no round does, up to the one that finds no further first flow, and the merged results
-- ask for more flows.
pub match_all_flow_requirements-Merged :
    (flow : Flow) (flows : List Flow) (aggregated : Bool) (req : FlowSetRequirement)
    (reqs : List FlowSetRequirement)
    → All HasFilters (req ∷ reqs)
    → Returns
        (Merged (flow ∷ flows) aggregated (req ∷ reqs) no_results)
        (match_all_flow_requirements (flow ∷ flows) aggregated (req ∷ reqs))
unfolding match_all_flow_requirements
match_all_flow_requirements-Merged flow flows aggregated req reqs h =
    merge_all-Merged (flow ∷ flows) aggregated (req ∷ reqs) no_results h
      (record { position = inl refl; count = 0; has_count = refl })
