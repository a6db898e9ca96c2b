-- ===== src/Matching.antt =====
-- connectivity/check/action.go and connectivity/check/check.go: a set of flow requirements is
-- matched against the flows that Hubble reported.
pub mod Search
pub mod Attempts
pub mod Phases
pub mod Goal
pub mod Verdict
use cilium_cli.Prelude.{
  ℕ, zero, suc, ◌+◌, String, Option, none, some, List, [], ◌∷◌, Bool, true, false, not, ◌&&◌, ◌||◌,
  Map, insert, ◌==◌, nat_eq, bool_eq, int_eq, if◌then◌else◌, length, drop, leb, ℤ, pos, minus_one,
  ◌+ℤ◌, ltbℤ, Run, returns, panics, out_of_fuel, ◌>>=◌, deref,
}
use cilium_cli.Flow.{Flow}
use cilium_cli.Filters.{Filter, FlowContext, new_flow_context, match}

-- A filter is an interface value, which is nil in a struct that is left at its zero value.
pub record FlowRequirement : Type 0 where
  pub filter : Option Filter
  pub msg : String
  pub skip_on_aggregation : Bool

pub record FlowSetRequirement : Type 0 where
  pub first : FlowRequirement
  pub middle : List FlowRequirement
  pub last : FlowRequirement
  pub except : List FlowRequirement

abbrev pub MatchMap : Type 0
MatchMap = Map ℕ Bool

-- `matched` is `none` where the Go map is nil; the zero time is 0.
pub record FlowRequirementResults : Type 0 where
  pub first_match : ℤ
  pub last_match : ℤ
  pub matched : Option MatchMap
  pub failures : ℤ
  pub need_more_flows : Bool
  pub last_match_timestamp : ℕ

-- the position is counted from the first flow that was searched
abbrev pub later_by_one : Option (ℕ × Flow) → Option (ℕ × Flow)
later_by_one none = none
later_by_one (some (i, flow)) = some (suc i, flow)

unfoldable pub search : Filter → List Flow → FlowContext → Option (ℕ × Flow) × FlowContext
search f [] fc = (none, fc)
search f (flow ∷ rest) fc =
    let (b, fc') = match f flow fc in
    let later = search f rest fc' in
    if b then (some (0, flow), fc') else (later_by_one later.0, later.1)

-- `flowsSet.Contains`: a nil filter panics at the first flow.
unfoldable pub contains :
    List Flow → Option Filter → FlowContext → Run (Option (ℕ × Flow) × FlowContext)
contains [] f fc = returns (none, fc)
contains (flow ∷ rest) none fc = panics
contains (flow ∷ rest) (some f) fc = returns (search f (flow ∷ rest) fc)

-- `flows[offset:]`
unfoldable pub slice_from : ℕ → List Flow → Run (List Flow)
slice_from offset flows = if leb offset (length flows) then returns (drop offset flows) else panics

-- what the closure `match` of `matchFlowRequirements` changes
pub record Round : Type 0 where
  pub results : FlowRequirementResults
  pub context : FlowContext

abbrev pub update_last : ℕ → Flow → FlowRequirementResults → FlowRequirementResults
update_last index flow r =
    if ltbℤ r.last_match (pos index)
    then record r {
      last_match = pos index;
      last_match_timestamp = elim flow.time [ none ↦ r.last_match_timestamp | some t ↦ t ];
    }
    else r

-- `r.Matched[index] = expect` and the last match
unfoldable pub note_match :
    Bool → ℕ → Option (ℕ × Flow) → FlowRequirementResults → Run FlowRequirementResults
note_match expect offset none r = returns r
note_match expect offset (some (i, flow)) r = do
  m ← deref r.matched
  returns
      (update_last (i + offset) flow (record r { matched = some (insert (i + offset) expect m) }))

abbrev pub count_failure : Bool → Bool → FlowRequirementResults → FlowRequirementResults
count_failure expect found r =
    if found == expect then r else record r { failures = r.failures +ℤ pos 1 }

abbrev pub found_index : ℕ → Option (ℕ × Flow) → ℕ
found_index offset none = offset
found_index offset (some (i, flow)) = i + offset

abbrev pub is_found : Option (ℕ × Flow) → Bool
is_found none = false
is_found (some _) = true

-- The log line of an unexpected outcome prints the filter, and a nil filter panics there.
unfoldable pub describe : Bool → Option Filter → Run (Option Filter)
describe true f = returns f
describe false none = panics
describe false (some f) = returns (some f)

-- The closure `match`: the index, whether there is a match, and the state after it.
unfoldable pub attempt : List Flow → ℕ → Bool → FlowRequirement → Round → Run (ℕ × Bool × Round)
attempt flows offset expect q s = do
  rest ← slice_from offset flows
  (found, fc) ← contains rest q.filter s.context
  r ← note_match expect offset found s.results
  printed ← describe (is_found found == expect) q.filter
  returns (
    found_index offset found,
    is_found found,
    record { results = count_failure expect (is_found found) r; context = fc },
  )

abbrev pub need_more : Bool → Round → Round
need_more true s = s
need_more false s = record s { results = record s.results { need_more_flows = true } }

-- one required flow of the round, the first aside
unfoldable pub require : List Flow → Bool → ℕ → FlowRequirement → Round → Run Round
require flows aggregated offset q s =
    if q.skip_on_aggregation && aggregated
    then returns s
    else (do (index, found, s') ← attempt flows offset true q s; returns (need_more found s'))

unfoldable pub require_all : List Flow → Bool → ℕ → List FlowRequirement → Round → Run Round
require_all flows aggregated offset [] s = returns s
require_all flows aggregated offset (q ∷ qs) s =
    require flows aggregated offset q s >>= require_all flows aggregated offset qs

unfoldable pub forbid_all : List Flow → ℕ → List FlowRequirement → Round → Run Round
forbid_all flows offset [] s = returns s
forbid_all flows offset (q ∷ qs) s = do
  (index, found, s') ← attempt flows offset false q s
  forbid_all flows offset qs s'

-- A round breaks out of the loop, or sets the offset for the next one.
pub data Step : Type 0 where
  break : FlowRequirementResults → Step
  again : ℕ → FlowRequirementResults → Step

abbrev pub fresh_round : FlowRequirementResults → Round
fresh_round r = record {
  results = record r {
    need_more_flows = false;
    failures = pos 0;
    matched = some [];
    first_match = minus_one;
    last_match = minus_one;
  };
  context = new_flow_context;
}

abbrev pub is_clean : FlowRequirementResults → Bool
is_clean r = not r.need_more_flows && (r.failures == pos 0)

-- the round after its first flow is found at `index`
unfoldable pub rest_of_round : List Flow → Bool → ℕ → FlowSetRequirement → ℕ → Round → Run Step
rest_of_round flows aggregated offset req index s = do
  s ← require_all flows aggregated offset req.middle s
  s ← require flows aggregated offset req.last s
  s ← forbid_all flows offset req.except s
  returns (if is_clean s.results then break s.results else again (index + 1) s.results)

unfoldable pub run_round :
    List Flow → Bool → FlowSetRequirement → ℕ → FlowRequirementResults → Run Step
run_round flows aggregated req offset r = do
  (index, found, s) ← attempt flows offset true req.first (fresh_round r)
  if found
      then rest_of_round flows aggregated offset req index
          (record s { results = record s.results { first_match = pos index } })
      else returns (break (need_more false s).results)

-- the loop, with a bound on its rounds
unfoldable pub rounds :
    ℕ
    → List Flow
    → Bool
    → FlowSetRequirement
    → ℕ
    → FlowRequirementResults
    → Run FlowRequirementResults
rounds zero flows aggregated req offset r = out_of_fuel
rounds (suc fuel) flows aggregated req offset r =
    if r.need_more_flows || not (r.failures == pos 0)
    then (run_round flows aggregated req offset r >>= λ step. elim step [
      | break r' ↦ returns r'
      | again offset' r' ↦ rounds fuel flows aggregated req offset' r'
    ])
    else returns r

abbrev pub initial_results : FlowRequirementResults
initial_results = record {
  first_match = pos 0;
  last_match = pos 0;
  matched = none;
  failures = minus_one;
  need_more_flows = false;
  last_match_timestamp = 0;
}

-- `matchFlowRequirements`; `aggregated` is what `FlowAggregation` answers.
unfoldable pub match_flow_requirements :
    List Flow → Bool → FlowSetRequirement → Run FlowRequirementResults
match_flow_requirements flows aggregated req =
    rounds (length flows + 2) flows aggregated req 0 initial_results
