-- ===== src/Matching/Attempts.antt =====
-- connectivity/check/action.go: one call of the closure `match` in `matchFlowRequirements`.
use cilium_cli.Prelude.{
  ℕ, zero, suc, ◌+◌, ◌≤◌, ◌<◌, ◌≡◌, refl, Option, none, some, List, [], ◌∷◌, Bool, true, false,
  arith, get_elem?, length, drop, insert, nat_eq, get_elem?-drop, pos, int_eq, int_beq_iff, ◌+ℤ◌,
  if◌then◌else◌, ◌==◌, ◌&&◌, bool_eq, pos-add, returns, Returns, with_value,
}
use native.Mathlib.Nat.{add_comm}
use cilium_cli.Flow.{Flow}
use cilium_cli.Filters.{Filter, FlowContext}
use cilium_cli.Matching.{
  search, contains, slice_from, Round, FlowRequirement, FlowRequirementResults, MatchMap,
  update_last, note_match, count_failure, found_index, is_found, is_clean, describe, attempt,
}
use cilium_cli.Matching.Search.{
  Finds, FirstMatch, NoMatch, scanned, asked, search-first, search-context,
}

-- The filter is first asked in the context `before`. It finds the flow at `index`, the first from
-- `offset` on that it matches, each flow asked about in the context that those before it left behind,
-- and leaves the context `after`.
pub record Seen (flows : List Flow) (offset : ℕ) (f : Filter) (before : FlowContext) (index : ℕ)
    (after : FlowContext) : Type 0 where
  pub distance : ℕ
  pub flow : Flow
  pub is_index : index ≡ distance + offset
  pub first : FirstMatch f (drop offset flows) before distance flow
  pub leaves : after ≡ scanned f (drop offset flows) (suc distance) before

-- In the same way, no flow from `offset` on is matched by the filter.
pub record Unseen (flows : List Flow) (offset : ℕ) (f : Filter) (before after : FlowContext)
    : Type 0 where
  pub no_match : NoMatch f (drop offset flows) before
  pub leaves : after ≡ scanned f (drop offset flows) (length (drop offset flows)) before

abbrev pub Evidence : List Flow → ℕ → Filter → FlowContext → ℕ → Bool → FlowContext → Type 0
Evidence flows offset f before index true after = Seen flows offset f before index after
Evidence flows offset f before index false after = Unseen flows offset f before after

-- the results can take a match, and the failures are counted up from zero
pub record Live (r : FlowRequirementResults) : Type 0 where
  pub map : MatchMap
  pub has_map : r.matched ≡ some map
  pub count : ℕ
  pub has_count : r.failures ≡ pos count

get_elem?-lt :
    (flows : List Flow) (i : ℕ) {flow : Flow} → get_elem? flows i ≡ some flow → i < length flows
get_elem?-lt [] i e = absurd (cc)
get_elem?-lt (x ∷ rest) zero e = omega arith
get_elem?-lt (x ∷ rest) (suc i) e = omega (arith, get_elem?-lt rest i e)

pub Seen-there :
    {flows : List Flow} {offset index : ℕ} {f : Filter} {before after : FlowContext}
    → (s : Seen flows offset f before index after) → get_elem? flows index ≡ some s.flow
Seen-there {flows} {offset} {index} s =
    cc (
      s.first.there,
      get_elem?-drop offset s.distance flows,
      add_comm s.distance offset,
      s.is_index,
    )

-- A position that was found lies in the list of flows.
pub Seen-lt :
    {flows : List Flow} {offset index : ℕ} {f : Filter} {before after : FlowContext}
    → Seen flows offset f before index after
    → index < length flows
Seen-lt {flows} {index} s = get_elem?-lt flows index (Seen-there s)

Finds-Evidence :
    (flows : List Flow) (offset : ℕ) (f : Filter) (before after : FlowContext)
    (o : Option (ℕ × Flow))
    → Finds f (drop offset flows) before o
    → after ≡ scanned f (drop offset flows) (asked (drop offset flows) o) before
    → Evidence flows offset f before (found_index offset o) (is_found o) after
Finds-Evidence flows offset f before after none h e = record { no_match = h; leaves = e }
Finds-Evidence flows offset f before after (some (i, flow)) h e = record {
  distance = i;
  flow = flow;
  is_index = refl;
  first = h;
  leaves = e;
}

slice_from-fits :
    (offset : ℕ) (flows : List Flow)
    → offset ≤ length flows
    → slice_from offset flows ≡ returns (drop offset flows)
unfolding slice_from
slice_from-fits offset flows h = ground arith

contains-some :
    (flows : List Flow) (f : Filter) (fc : FlowContext)
    → contains flows (some f) fc ≡ returns (search f flows fc)
unfolding contains search
contains-some [] f fc = refl
contains-some (flow ∷ rest) f fc = refl

-- the results after an attempt, the count of failures aside
abbrev noted :
    Bool → ℕ → MatchMap → Option (ℕ × Flow) → FlowRequirementResults → FlowRequirementResults
noted expect offset m none r = r
noted expect offset m (some (i, flow)) r =
    update_last (i + offset) flow (record r { matched = some (insert (i + offset) expect m) })

note_match-eq :
    (expect : Bool) (offset : ℕ) (o : Option (ℕ × Flow)) (r : FlowRequirementResults) (m : MatchMap)
    → r.matched ≡ some m
    → note_match expect offset o r ≡ returns (noted expect offset m o r)
unfolding note_match
note_match-eq expect offset none r m h = refl
note_match-eq expect offset (some (i, flow)) r m h = rw h refl

describe-some : (b : Bool) (f : Filter) → describe b (some f) ≡ returns (some f)
unfolding describe
describe-some true f = refl
describe-some false f = refl

-- what an attempt comes to
abbrev pub attempted :
    Bool → ℕ → MatchMap → Option (ℕ × Flow) → FlowContext → Round → ℕ × Bool × Round
attempted expect offset m o fc s = (
  found_index offset o,
  is_found o,
  record {
    results = count_failure expect (is_found o) (noted expect offset m o s.results);
    context = fc;
  },
)

pub attempt-eq :
    (flows : List Flow) (offset : ℕ) (expect : Bool) (q : FlowRequirement) (s : Round) (f : Filter)
    (m : MatchMap)
    → q.filter ≡ some f
    → offset ≤ length flows
    → s.results.matched ≡ some m
    → attempt flows offset expect q s
      ≡ returns (
          attempted expect offset m
            (search f (drop offset flows) s.context).0
            (search f (drop offset flows) s.context).1
            s)
unfolding attempt
attempt-eq flows offset expect q s f m is_f fits has_map =
    rw (slice_from-fits offset flows fits, is_f, contains-some (drop offset flows) f s.context)
      (rw
        (note_match-eq expect offset (search f (drop offset flows) s.context).0 s.results m has_map)
        (rw (describe-some (is_found (search f (drop offset flows) s.context).0 == expect) f) refl))

-- What is known after an attempt: the results are live, what the attempt does not touch is kept, and
-- they are clean exactly where they were and the outcome was the expected one.
pub record Attempt (flows : List Flow) (offset : ℕ) (expect : Bool) (f : Filter) (s : Round)
    (out : ℕ × Bool × Round) : Type 0 where
  pub live : Live out.2.results
  pub first_kept : out.2.results.first_match ≡ s.results.first_match
  pub clean : is_clean out.2.results ≡ (is_clean s.results && (out.1 == expect))
  pub evidence : Evidence flows offset f s.context out.0 out.1 out.2.context

noted_map : Bool → ℕ → MatchMap → Option (ℕ × Flow) → MatchMap
noted_map expect offset m none = m
noted_map expect offset m (some (i, flow)) = insert (i + offset) expect m

module _ (expect : Bool) (offset : ℕ) (fc : FlowContext) (s : Round) where
  attempted-first_match :
      (m : MatchMap) (o : Option (ℕ × Flow))
      → (attempted expect offset m o fc s).2.results.first_match ≡ s.results.first_match
  attempted-first_match m o = ground arith

  attempted-need_more :
      (m : MatchMap) (o : Option (ℕ × Flow))
      → (attempted expect offset m o fc s).2.results.need_more_flows ≡ s.results.need_more_flows
  attempted-need_more m o = ground arith

  attempted-failures :
      (m : MatchMap) (o : Option (ℕ × Flow))
      → (attempted expect offset m o fc s).2.results.failures
        ≡ (if is_found o == expect then s.results.failures else s.results.failures +ℤ pos 1)
  attempted-failures m o = ground arith

  attempted-matched :
      (m : MatchMap) (o : Option (ℕ × Flow))
      → s.results.matched ≡ some m
      → (attempted expect offset m o fc s).2.results.matched ≡ some (noted_map expect offset m o)
  unfolding noted_map
  attempted-matched m o h = ground arith

  attempted-Live :
      (l : Live s.results) (o : Option (ℕ × Flow))
      → Live (attempted expect offset l.map o fc s).2.results
  attempted-Live l o = record {
    map = noted_map expect offset l.map o;
    has_map = attempted-matched l.map o l.has_map;
    count = if is_found o == expect then l.count else l.count + 1;
    has_count = ground (arith, attempted-failures l.map o, pos-add l.count 1, l.has_count);
  }

  attempted-clean :
      (l : Live s.results) (o : Option (ℕ × Flow))
      → is_clean (attempted expect offset l.map o fc s).2.results
        ≡ (is_clean s.results && (is_found o == expect))
  attempted-clean l o = ground (
    arith,
    attempted-failures l.map o,
    attempted-need_more l.map o,
    pos-add l.count 1,
    l.has_count,
    int_beq_iff (pos l.count) (pos 0),
    int_beq_iff (pos (l.count + 1)) (pos 0),
  )

-- With a filter that is not nil and an offset within the flows, an attempt returns.
pub attempt-Attempt :
    (flows : List Flow) (offset : ℕ) (expect : Bool) (q : FlowRequirement) (s : Round) (f : Filter)
    → q.filter ≡ some f
    → offset ≤ length flows
    → Live s.results
    → Returns (Attempt flows offset expect f s) (attempt flows offset expect q s)
attempt-Attempt flows offset expect q s f is_f fits l =
    let found : Option (ℕ × Flow) = (search f (drop offset flows) s.context).0 in
    let fc : FlowContext = (search f (drop offset flows) s.context).1 in
    with_value _ (attempt-eq flows offset expect q s f l.map is_f fits l.has_map) (record {
      live = attempted-Live expect offset fc s l found;
      first_kept = attempted-first_match expect offset fc s l.map found;
      clean = attempted-clean expect offset fc s l found;
      evidence =
          Finds-Evidence flows offset f s.context fc found
            (search-first f (drop offset flows) s.context)
            (search-context f (drop offset flows) s.context);
    })
