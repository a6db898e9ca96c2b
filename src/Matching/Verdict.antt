-- ===== src/Matching/Verdict.antt =====
-- connectivity/check/action.go: what `matchFlowRequirements` answers, and that it answers.
use cilium_cli.Prelude.{
  ℕ, zero, suc, ◌+◌, ◌≤◌, ◌<◌, ◌≡◌, refl, ◌∙◌, inl, inr, Option, none, some, List, [], Bool, true,
  false, not, ◌||◌, ◌&&◌, ◌==◌, int_beq_iff, if◌then◌else◌, arith, length, drop, pos, int_eq, Run,
  returns, Returns, Returns-bind, Returns-pure, Returns-at, pos-add,
}
use cilium_cli.Flow.{Flow}
use cilium_cli.Filters.{Filter, FlowContext, new_flow_context}
use cilium_cli.Matching.{
  Round, FlowSetRequirement, FlowRequirementResults, Step, break, again, attempt, require,
  require_all, forbid_all, rest_of_round, run_round, rounds, fresh_round, is_clean, need_more,
  initial_results, match_flow_requirements, search,
}
use cilium_cli.Matching.Attempts.{
  Seen, Seen-lt, Live, Attempt, attempted, attempt-eq, attempt-Attempt,
}
use cilium_cli.Matching.Phases.{require-Part, require_all-Part, forbid_all-Part}
use cilium_cli.Matching.Goal.{
  HasFilters, Clean, RoundFrom, Starts, at_first, after_round, Satisfied, Verdict,
}

-- the test of the loop
abbrev goes_on : FlowRequirementResults → Bool
goes_on r = r.need_more_flows || not (r.failures == pos 0)

is_clean→Clean : (r : FlowRequirementResults) → is_clean r ≡ true → Clean r
is_clean→Clean r h = ground (arith, int_beq_iff r.failures (pos 0))

not_clean-goes_on : (r : FlowRequirementResults) → is_clean r ≡ false → goes_on r ≡ true
not_clean-goes_on r h = ground arith

module _ (flows : List Flow) (aggregated : Bool) (req : FlowSetRequirement)
    (filters : HasFilters req) where
  abbrev AfterRound : ℕ → Step → Type 0
  AfterRound offset (break r) = Verdict flows aggregated req r
  AfterRound offset (again offset' r) =
      (offset < offset')
      × (offset' ≤ length flows)
      × (goes_on r ≡ true)
      × Starts flows aggregated req offset'

  last_step :
      (offset index : ℕ) (ok : Bool) (r : FlowRequirementResults)
      → Starts flows aggregated req offset
      → RoundFrom flows aggregated req offset index ok
      → is_clean r ≡ ok
      → r.first_match ≡ pos index
      → AfterRound offset (if is_clean r then break r else again (index + 1) r)
  last_step offset index true r starts round e is_first = rw e (
      inl (record {
        clean = is_clean→Clean r e;
        offset = offset;
        starts = starts;
        index = index;
        round = round;
        first_match = is_first;
      }))
  last_step offset index false r starts round e is_first = rw e (
    omega (arith, round.first.is_index),
    omega (arith, Seen-lt round.first),
    not_clean-goes_on r e,
    after_round starts round,
  )

  -- the parts of a round after its first flow
  rest-AfterRound :
      (offset index : ℕ) (f : Filter) (s : Round)
      → req.first.filter ≡ some f
      → offset ≤ length flows
      → Starts flows aggregated req offset
      → Seen flows offset f new_flow_context index s.context
      → Live s.results
      → is_clean s.results ≡ true
      → s.results.first_match ≡ pos index
      → Returns (AfterRound offset) (rest_of_round flows aggregated offset req index s)
  unfolding rest_of_round
  rest-AfterRound offset index f s is_f fits starts seen l clean is_first =
      Returns-bind (require_all flows aggregated offset req.middle s) _
        (require_all-Part flows offset fits aggregated req.middle s filters.middle l)
        (λ t a.
          Returns-bind (require flows aggregated offset req.last t) _
            (require-Part flows offset fits aggregated req.last t filters.last a.live)
            (λ u b.
              Returns-bind (forbid_all flows offset req.except u) _
                (forbid_all-Part flows offset fits req.except u filters.except b.live)
                (λ v c. Returns-pure _ (
                  last_step offset index (a.ok && b.ok && c.ok) v.results starts
                    (record {
                      filter = f;
                      is_filter = is_f;
                      after_first = s.context;
                      first = seen;
                      middle_ok = a.ok;
                      after_middle = t.context;
                      middle = a.holds;
                      last_ok = b.ok;
                      after_last = u.context;
                      last = b.holds;
                      except_ok = c.ok;
                      at_end = v.context;
                      except = c.holds;
                      is_ok = refl;
                    })
                    (ground (arith, a.clean, b.clean, c.clean))
                    (c.first_kept ∙ b.first_kept ∙ a.first_kept ∙ is_first)))))

  -- how a round goes on after its first attempt
  abbrev after_first : ℕ → ℕ × Bool × Round → Run Step
  after_first offset (index, found, s) =
      if found
      then rest_of_round flows aggregated offset req index
          (record s { results = record s.results { first_match = pos index } })
      else returns (break (need_more false s).results)

  after_first-AfterRound :
      (offset : ℕ) (r : FlowRequirementResults) (f : Filter) (o : Option (ℕ × Flow))
      (fc : FlowContext)
      → req.first.filter ≡ some f
      → offset ≤ length flows
      → Starts flows aggregated req offset
      → Attempt flows offset true f (fresh_round r) (attempted true offset [] o fc (fresh_round r))
      → Returns
          (AfterRound offset)
          (after_first offset (attempted true offset [] o fc (fresh_round r)))
  after_first-AfterRound offset r f none fc is_f fits starts a = Returns-pure _ (
      inr (record {
        need_more = refl;
        failures = pos-add 0 1;
        first_match = refl;
        last_match = refl;
        matched = refl;
        offset = offset;
        starts = starts;
        filter = f;
        is_filter = is_f;
        after = fc;
        unseen = a.evidence;
      }))
  after_first-AfterRound offset r f (some (i, g)) fc is_f fits starts a =
      rest-AfterRound offset (i + offset) f _ is_f fits starts a.evidence
        (record {
          map = a.live.map;
          has_map = a.live.has_map;
          count = a.live.count;
          has_count = a.live.has_count;
        })
        a.clean refl

  run_round-AfterRound :
      (offset : ℕ) (r : FlowRequirementResults)
      → offset ≤ length flows
      → Starts flows aggregated req offset
      → Returns (AfterRound offset) (run_round flows aggregated req offset r)
  unfolding run_round
  run_round-AfterRound offset r fits starts =
      let f : Filter = filters.first.0 in
      let is_f : req.first.filter ≡ some f = filters.first.1 in
      let s : Round = fresh_round r in
      let o : Option (ℕ × Flow) = (search f (drop offset flows) new_flow_context).0 in
      let fc : FlowContext = (search f (drop offset flows) new_flow_context).1 in
      let e : attempt flows offset true req.first s ≡ returns (attempted true offset [] o fc s) =
        attempt-eq flows offset true req.first s f [] is_f fits refl in
      rw e (
        after_first-AfterRound offset r f o fc is_f fits starts (
          Returns-at (attempted true offset [] o fc s)
            (attempt-Attempt flows offset true req.first s f is_f fits
              (record { map = []; has_map = refl; count = 0; has_count = refl }))
            e))

  rounds-Verdict :
      (fuel offset : ℕ) (r : FlowRequirementResults)
      → offset ≤ length flows
      → length flows + 1 ≤ fuel + offset
      → goes_on r ≡ true
      → Starts flows aggregated req offset
      → Returns (Verdict flows aggregated req) (rounds fuel flows aggregated req offset r)
  unfolding rounds
  rounds-Verdict zero offset r fits fuel_is_enough go starts = absurd (omega arith)
  rounds-Verdict (suc fuel) offset r fits fuel_is_enough go starts = rw go (
      Returns-bind (run_round flows aggregated req offset r) _
        (run_round-AfterRound offset r fits starts)
        λ step.
          elim step
            as (λ t.
              AfterRound offset t
              → Returns (Verdict flows aggregated req) (elim t [
                | break r' ↦ returns r'
                | again offset' r' ↦ rounds fuel flows aggregated req offset' r'
              ])) [
                | break r' ↦ λ v. Returns-pure r' v
                | again offset' r' ↦ λ h. rounds-Verdict fuel offset' r' h.1 (omega arith) h.2 h.3
              ])

-- Where no filter in the set is nil, `matchFlowRequirements` returns: it never slices the flows out
-- of range, and its loop ends within one round more than there are flows, and a first one. The first
-- round starts at the first flow, and each further one after the first match of the round before,
-- where that round missed something. In a round the filters are asked in turn in one context, which
-- each answer may change: for the first flow, each middle flow and the last one, unless aggregation
-- skips them, and the excepted ones. Either the last round found all that is required and nothing that
-- is excepted, and then there is no failure, no flow to wait for, and the first match is its first
-- flow; or it found no first flow, and then the results ask for more flows and record one failure
-- and no match.
pub match_flow_requirements-Verdict :
    (flows : List Flow) (aggregated : Bool) (req : FlowSetRequirement)
    → HasFilters req
    → Returns (Verdict flows aggregated req) (match_flow_requirements flows aggregated req)
unfolding match_flow_requirements
match_flow_requirements-Verdict flows aggregated req filters =
    rounds-Verdict flows aggregated req filters (length flows + 2) 0 initial_results (omega arith)
      (omega arith) refl at_first

-- A run that asks for no more flows has met everything.
pub Satisfied-at :
    (flows : List Flow) (aggregated : Bool) (req : FlowSetRequirement) (r : FlowRequirementResults)
    → HasFilters req
    → match_flow_requirements flows aggregated req ≡ returns r
    → r.need_more_flows ≡ false
    → Satisfied flows aggregated req r
Satisfied-at flows aggregated req r filters e enough =
    elim (Returns-at r (match_flow_requirements-Verdict flows aggregated req filters) e) [
      | inl s ↦ s
      | inr m ↦ absurd (cc (m.need_more, enough))
    ]
