-- ===== src/Matching/Goal.antt =====
-- connectivity/check/action.go: what the results of `matchFlowRequirements` mean.
use cilium_cli.Prelude.{
  All, ℕ, ◌+◌, ◌≡◌, ◌⊎◌, some, List, [], Bool, true, false, ◌&&◌, pos, minus_one, int_eq,
}
use cilium_cli.Flow.{Flow}
use cilium_cli.Filters.{Filter, FlowContext, new_flow_context}
use cilium_cli.Matching.{FlowSetRequirement, FlowRequirementResults}
use cilium_cli.Matching.Attempts.{Seen, Unseen}
use cilium_cli.Matching.Phases.{HasFilter, Required, AllRequired, AllForbidden}

-- no filter in the set is nil
pub record HasFilters (req : FlowSetRequirement) : Type 0 where
  pub first : HasFilter req.first
  pub middle : All HasFilter req.middle
  pub last : HasFilter req.last
  pub except : All HasFilter req.except

-- no failure, and no flow that is still to come
abbrev pub Clean : FlowRequirementResults → Type 0
Clean r = (r.need_more_flows ≡ false) × (r.failures ≡ pos 0)

module _ (flows : List Flow) (aggregated : Bool) (req : FlowSetRequirement) where
  -- The round from `offset` on has its first flow at `index`, the first one that the filter matches in
  -- a new context. That context is passed on from flow to flow and from requirement to requirement:
  -- to the middle flows, to the last one and to the excepted ones. `ok` tells whether the required
  -- ones are all found, unless they are skipped, and the excepted ones are not.
  pub record RoundFrom (offset index : ℕ) (ok : Bool) : Type 0 where
    pub filter : Filter
    pub is_filter : req.first.filter ≡ some filter
    pub after_first : FlowContext
    pub first : Seen flows offset filter new_flow_context index after_first
    pub middle_ok : Bool
    pub after_middle : FlowContext
    pub middle : AllRequired flows offset aggregated req.middle after_first middle_ok after_middle
    pub last_ok : Bool
    pub after_last : FlowContext
    pub last : Required flows offset aggregated req.last after_middle last_ok after_last
    pub except_ok : Bool
    pub at_end : FlowContext
    pub except : AllForbidden flows offset req.except after_last except_ok at_end
    pub is_ok : ok ≡ (middle_ok && last_ok && except_ok)

  -- the offsets at which a round starts: the first flow, and the one after the first flow of each round
  -- that is not ok
  pub data Starts : ℕ → Type 0 where
    at_first : Starts 0
    after_round :
        {offset index : ℕ} → Starts offset → RoundFrom offset index false → Starts (index + 1)

  -- The rounds end with one that is ok.
  pub record Satisfied (r : FlowRequirementResults) : Type 0 where
    pub clean : Clean r
    pub offset : ℕ
    pub starts : Starts offset
    pub index : ℕ
    pub round : RoundFrom offset index true
    pub first_match : r.first_match ≡ pos index

  -- The rounds end with one that finds no first flow, and the results say nothing else.
  pub record FirstMissing (r : FlowRequirementResults) : Type 0 where
    pub need_more : r.need_more_flows ≡ true
    pub failures : r.failures ≡ pos 1
    pub first_match : r.first_match ≡ minus_one
    pub last_match : r.last_match ≡ minus_one
    pub matched : r.matched ≡ some []
    pub offset : ℕ
    pub starts : Starts offset
    pub filter : Filter
    pub is_filter : req.first.filter ≡ some filter
    pub after : FlowContext
    pub unseen : Unseen flows offset filter new_flow_context after

  abbrev pub Verdict : FlowRequirementResults → Type 0
  Verdict r = Satisfied r ⊎ FirstMissing r
