-- ===== src/Matching/Phases.antt =====
-- connectivity/check/action.go: the loops of one round of `matchFlowRequirements`.
use cilium_cli.Prelude.{
  All, ℕ, ◌≤◌, ◌≡◌, refl, ◌∙◌, ◌⊎◌, some, List, [], ◌∷◌, Bool, true, false, not, Bool-cases, inl,
  inr, arith, length, ◌&&◌, bool_eq, int_eq, Returns, Returns-bind, Returns-pure, Returns-map,
}
use cilium_cli.Flow.{Flow}
use cilium_cli.Filters.{Filter, FlowContext}
use cilium_cli.Matching.{
  Round, FlowRequirement, attempt, is_clean, need_more, require, require_all, forbid_all,
}
use cilium_cli.Matching.Attempts.{Seen, Evidence, Live, Attempt, attempt-Attempt}

-- the filter is not nil
abbrev pub HasFilter : FlowRequirement → Type 0
HasFilter q = (f : Filter) × (q.filter ≡ some f)

-- A requirement is looked for from `offset` on, in the context `before`: whether a flow is `found`, and
-- the context `after` it.
abbrev pub Tried : List Flow → ℕ → FlowRequirement → FlowContext → Bool → FlowContext → Type 0
Tried flows offset q before found after =
    (f : Filter) × (q.filter ≡ some f)
    × (index : ℕ) × Evidence flows offset f before index found after

-- A requirement that is skipped because flows are aggregated counts as found.
abbrev pub Required :
    List Flow → ℕ → Bool → FlowRequirement → FlowContext → Bool → FlowContext → Type 0
Required flows offset aggregated q before found after =
    ((q.skip_on_aggregation && aggregated ≡ true) × (found ≡ true) × (after ≡ before))
    ⊎ ((q.skip_on_aggregation && aggregated ≡ false) × Tried flows offset q before found after)

-- The requirements are looked for in turn, and `ok` tells whether all are found.
abbrev pub AllRequired :
    List Flow → ℕ → Bool → List FlowRequirement → FlowContext → Bool → FlowContext → Type 0
AllRequired flows offset aggregated [] before ok after = (ok ≡ true) × (after ≡ before)
AllRequired flows offset aggregated (q ∷ qs) before ok after =
    (found : Bool) × (rest : Bool) × (between : FlowContext) × (ok ≡ (found && rest))
    × Required flows offset aggregated q before found between
    × AllRequired flows offset aggregated qs between rest after

-- The requirements are looked for in turn, and `ok` tells whether none is found.
abbrev pub AllForbidden :
    List Flow → ℕ → List FlowRequirement → FlowContext → Bool → FlowContext → Type 0
AllForbidden flows offset [] before ok after = (ok ≡ true) × (after ≡ before)
AllForbidden flows offset (q ∷ qs) before ok after =
    (found : Bool) × (rest : Bool) × (between : FlowContext) × (ok ≡ (not found && rest))
    × Tried flows offset q before found between
    × AllForbidden flows offset qs between rest after

-- some flow from `offset` on meets the requirement
abbrev pub Met : List Flow → ℕ → FlowRequirement → Type 0
Met flows offset q =
    (f : Filter) × (q.filter ≡ some f)
    × (i : ℕ) × (before : FlowContext) × (after : FlowContext) × Seen flows offset f before i after

pub Required-Met :
    (flows : List Flow) (offset : ℕ) (aggregated : Bool) (q : FlowRequirement)
    (before after : FlowContext) (found : Bool)
    → found ≡ true
    → Required flows offset aggregated q before found after
    → (q.skip_on_aggregation && aggregated ≡ true) ⊎ Met flows offset q
Required-Met flows offset aggregated q before after found h (inl (skipped, _, _)) = inl skipped
Required-Met flows offset aggregated q before after true h (inr (_, (f, is_f, i, seen))) =
    inr (f, is_f, i, before, after, seen)
Required-Met flows offset aggregated q before after false h (inr _) = absurd (cc)

-- What a part of a round does: the results stay clean exactly where its outcome is `ok`, and `P` tells
-- the outcome by the contexts before and after it.
pub record Part (P : FlowContext → Bool → FlowContext → Type 0) (s s' : Round) : Type 0 where
  pub live : Live s'.results
  pub first_kept : s'.results.first_match ≡ s.results.first_match
  pub ok : Bool
  pub clean : is_clean s'.results ≡ (is_clean s.results && ok)
  pub holds : P s.context ok s'.context

module _ (flows : List Flow) (offset : ℕ) (fits : offset ≤ length flows) where
  looked_for :
      (aggregated : Bool) (q : FlowRequirement) (f : Filter) (s : Round) (index : ℕ) (found : Bool)
      (s' : Round)
      → q.filter ≡ some f
      → (q.skip_on_aggregation && aggregated) ≡ false
      → Attempt flows offset true f s (index, found, s')
      → Part (Required flows offset aggregated q) s (need_more found s')
  looked_for aggregated q f s index true s' is_f kept a = record {
    live = a.live;
    first_kept = a.first_kept;
    ok = true;
    clean = a.clean;
    holds = inr (kept, (f, is_f, index, a.evidence));
  }
  looked_for aggregated q f s index false s' is_f kept a = record {
    live = record {
      map = a.live.map;
      has_map = a.live.has_map;
      count = a.live.count;
      has_count = a.live.has_count;
    };
    first_kept = a.first_kept;
    ok = false;
    clean = ground arith;
    holds = inr (kept, (f, is_f, index, a.evidence));
  }

  pub require-Part :
      (aggregated : Bool) (q : FlowRequirement) (s : Round)
      → HasFilter q
      → Live s.results
      → Returns (Part (Required flows offset aggregated q) s) (require flows aggregated offset q s)
  unfolding require
  require-Part aggregated q s (f, is_f) l =
      elim (Bool-cases (q.skip_on_aggregation && aggregated)) [
        | inl e ↦
            rw (e, require)
              (Returns-pure s (record {
                live = l;
                first_kept = refl;
                ok = true;
                clean = ground arith;
                holds = inl (e, refl, refl);
              }))
        | inr e ↦
            rw (e, require)
              (Returns-bind (attempt flows offset true q s) _
                (attempt-Attempt flows offset true q s f is_f fits l)
                (λ (index, found, s') a.
                  Returns-pure (need_more found s')
                    (looked_for aggregated q f s index found s' is_f e a)))
      ]

  pub require_all-Part :
      (aggregated : Bool) (qs : List FlowRequirement) (s : Round)
      → All HasFilter qs
      → Live s.results
      → Returns
          (Part (AllRequired flows offset aggregated qs) s)
          (require_all flows aggregated offset qs s)
  unfolding require_all
  require_all-Part aggregated [] s h l = Returns-pure s (record {
    live = l;
    first_kept = refl;
    ok = true;
    clean = ground arith;
    holds = (refl, refl);
  })
  require_all-Part aggregated (q ∷ qs) s h l =
      Returns-bind (require flows aggregated offset q s) _ (require-Part aggregated q s h.0 l)
        (λ t a. Returns-map (require_all-Part aggregated qs t h.1 a.live) (λ u b. record {
          live = b.live;
          first_kept = b.first_kept ∙ a.first_kept;
          ok = a.ok && b.ok;
          clean = ground (arith, a.clean, b.clean);
          holds = (a.ok, b.ok, t.context, refl, a.holds, b.holds);
        }))

  pub forbid_all-Part :
      (qs : List FlowRequirement) (s : Round)
      → All HasFilter qs
      → Live s.results
      → Returns (Part (AllForbidden flows offset qs) s) (forbid_all flows offset qs s)
  unfolding forbid_all
  forbid_all-Part [] s h l = Returns-pure s (record {
    live = l;
    first_kept = refl;
    ok = true;
    clean = ground arith;
    holds = (refl, refl);
  })
  forbid_all-Part (q ∷ qs) s (some_f, h) l =
      Returns-bind (attempt flows offset false q s) _
        (attempt-Attempt flows offset false q s some_f.0 some_f.1 fits l)
        (λ (index, found, t) a. Returns-map (forbid_all-Part qs t h a.live) (λ u b. record {
          live = b.live;
          first_kept = b.first_kept ∙ a.first_kept;
          ok = not found && b.ok;
          clean = ground (arith, a.clean, b.clean);
          holds = (found, b.ok, t.context, refl, (some_f.0, some_f.1, index, a.evidence), b.holds);
        }))
