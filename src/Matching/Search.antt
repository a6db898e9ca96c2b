-- ===== src/Matching/Search.antt =====
-- connectivity/check/check.go: what `flowsSet.Contains` finds.
use cilium_cli.Prelude.{
  ℕ, zero, suc, ◌<◌, ◌≡◌, refl, Option, none, some, List, [], ◌∷◌, true, false, Bool-cases, inl,
  inr, arith, get_elem?, length,
}
use cilium_cli.Flow.{Flow}
use cilium_cli.Filters.{Filter, FlowContext, match}
use cilium_cli.Matching.{search, later_by_one}

-- the context after the filter was asked about the first `n` flows
pub scanned : Filter → List Flow → ℕ → FlowContext → FlowContext
scanned f flows zero fc = fc
scanned f [] (suc n) fc = fc
scanned f (flow ∷ rest) (suc n) fc = scanned f rest n (match f flow fc).1

-- The filter matches the flow at `i`, and none before it.
pub record FirstMatch (f : Filter) (flows : List Flow) (fc : FlowContext) (i : ℕ) (flow : Flow)
    : Type 0 where
  pub there : get_elem? flows i ≡ some flow
  pub matches : (match f flow (scanned f flows i fc)).0 ≡ true
  pub no_earlier :
      (j : ℕ) (g : Flow)
      → j < i
      → get_elem? flows j ≡ some g
      → (match f g (scanned f flows j fc)).0 ≡ false

-- The filter matches no flow.
abbrev pub NoMatch : Filter → List Flow → FlowContext → Type 0
NoMatch f flows fc =
    (j : ℕ) (g : Flow) → get_elem? flows j ≡ some g → (match f g (scanned f flows j fc)).0 ≡ false

-- what a search may answer
abbrev pub Finds : Filter → List Flow → FlowContext → Option (ℕ × Flow) → Type 0
Finds f flows fc none = NoMatch f flows fc
Finds f flows fc (some (i, flow)) = FirstMatch f flows fc i flow

later-NoMatch :
    (f : Filter) (flow : Flow) (rest : List Flow) (fc : FlowContext)
    → (match f flow fc).0 ≡ false
    → NoMatch f rest (match f flow fc).1
    → NoMatch f (flow ∷ rest) fc
unfolding scanned
later-NoMatch f flow rest fc e0 h zero g e = cc
later-NoMatch f flow rest fc e0 h (suc j) g e = h j g e

later-Finds :
    (f : Filter) (flow : Flow) (rest : List Flow) (fc : FlowContext) (o : Option (ℕ × Flow))
    → (match f flow fc).0 ≡ false
    → Finds f rest (match f flow fc).1 o
    → Finds f (flow ∷ rest) fc (later_by_one o)
unfolding scanned
later-Finds f flow rest fc none e0 h = later-NoMatch f flow rest fc e0 h
later-Finds f flow rest fc (some (i, g)) e0 h = record {
  there = h.there;
  matches = h.matches;
  no_earlier = earlier;
}
  where
    earlier :
        (j : ℕ) (k : Flow)
        → j < suc i
        → get_elem? (flow ∷ rest) j ≡ some k
        → (match f k (scanned f (flow ∷ rest) j fc)).0 ≡ false
    earlier zero k lt e = cc
    earlier (suc j) k lt e = h.no_earlier j k (omega arith) e

-- `Contains` answers with the first flow that the filter matches, where the filter is asked about
-- the flows in order and each answer may change the context of the next; it answers that there is
-- none exactly where the filter matches no flow.
pub search-first :
    (f : Filter) (flows : List Flow) (fc : FlowContext) → Finds f flows fc (search f flows fc).0
unfolding search scanned
search-first f [] fc = λ j g e. absurd (cc)
search-first f (flow ∷ rest) fc = elim (Bool-cases (match f flow fc).0) [
  | inl e ↦
      rw e (record { there = refl; matches = e; no_earlier = λ j g lt h. absurd (omega arith) })
  | inr e ↦ rw e (
      later-Finds f flow rest fc (search f rest (match f flow fc).1).0 e
        (search-first f rest (match f flow fc).1))
]

-- how many flows a search asks about
abbrev pub asked : List Flow → Option (ℕ × Flow) → ℕ
asked flows none = length flows
asked flows (some (i, flow)) = suc i

later-asked :
    (flow : Flow) (rest : List Flow) (o : Option (ℕ × Flow))
    → asked (flow ∷ rest) (later_by_one o) ≡ suc (asked rest o)
later-asked flow rest none = omega arith
later-asked flow rest (some (i, g)) = refl

-- A search leaves the context behind that the last flow left which it asked about.
pub search-context :
    (f : Filter) (flows : List Flow) (fc : FlowContext)
    → (search f flows fc).1 ≡ scanned f flows (asked flows (search f flows fc).0) fc
unfolding search scanned
search-context f [] fc = refl
search-context f (flow ∷ rest) fc = elim (Bool-cases (match f flow fc).0) [
  | inl e ↦ rw e refl
  | inr e ↦
      rw (e, later-asked flow rest (search f rest (match f flow fc).1).0)
        (search-context f rest (match f flow fc).1)
]
