-- ===== src/FlowCache/Eviction.antt =====
-- Which flows leave the cache: the loops of `evict_idle_longest` and `check_expired_flows`.
use rustflow.Prelude.{
  ℕ, suc, ◌+◌, ◌-◌, ◌/◌, ◌≤◌, ◌<◌, ◌≡◌, refl, ap, Bool, true, false, Option, none, some, List, [],
  ◌∷◌, ◌++◌, ltb, length, max, arith, All, Bool-cases, Option-cases, inl, inr,
}
use mathlib.Core.List.{append_assoc, append-nil}
use rustflow.Prelude.Assoc.{Assoc, retain, weight, Every}
use rustflow.FlowCache.{
  FlowKey, Flow, FlowCache, FlowEndReason, lack_of_resources, ended, retain_ended, last_seens,
  lacks_resources, eviction_count, evict_idle_longest, eviction_fraction,
}
use rustflow.FlowCache.Select.{nth_smallest, count_le, nth_smallest-count, nth_smallest-total}

abbrev pub is_none {ℓ} : {A : Type ℓ} → Option A → Bool
is_none none = true
is_none (some _) = false

module _ {Time : Type 0} where
  -- The flows of a map that are due, each ended for its reason, in order.
  unfoldable pub ended_flows :
      (Flow Time → Option FlowEndReason) → Assoc FlowKey (Flow Time) → List (Flow Time)
  ended_flows due [] = []
  ended_flows due ((k, f) ∷ m) = elim (due f) [
    | none ↦ ended_flows due m
    | some reason ↦ ended reason f ∷ ended_flows due m
  ]

  pub retain_ended_lem :
      (due : Flow Time → Option FlowEndReason) (m : Assoc FlowKey (Flow Time))
      (out : List (Flow Time))
      → retain_ended due m out ≡ (retain (λ f. is_none (due f)) m, out ++ ended_flows due m)
  unfolding retain_ended ended_flows retain
  retain_ended_lem due [] out = rw (append-nil out)
  retain_ended_lem due ((k, f) ∷ m) out = elim (Option-cases (due f)) [
    | inl n ↦ rw (n, retain_ended, ended_flows) (rw (retain_ended_lem due m out) refl)
    | inr (r, s) ↦
        rw (s, retain_ended, ended_flows)
          (rw (retain_ended_lem due m (out ++ (ended r f ∷ []))) (
            ap (λ l. (retain (λ g. is_none (due g)) m, l))
              (append_assoc out (ended r f ∷ []) (ended_flows due m))))
  ]

  -- A flow count or a sum of counts splits between the flows that stay and those that end.
  unfoldable pub sum : (Flow Time → ℕ) → List (Flow Time) → ℕ
  sum g [] = 0
  sum g (f ∷ l) = g f + sum g l

  pub sum-append :
      (g : Flow Time → ℕ) (l l' : List (Flow Time)) → sum g (l ++ l') ≡ sum g l + sum g l'
  unfolding sum
  sum-append g [] l' = omega arith
  sum-append g (f ∷ l) l' = omega (arith, sum-append g l l')

  pub retain-ended-sum :
      (g : Flow Time → ℕ)
      → ((r : FlowEndReason) (f : Flow Time) → g (ended r f) ≡ g f)
      → (due : Flow Time → Option FlowEndReason) (m : Assoc FlowKey (Flow Time))
      → weight g (retain (λ f. is_none (due f)) m) + sum g (ended_flows due m) ≡ weight g m
  unfolding sum weight retain ended_flows
  retain-ended-sum g e due [] = omega arith
  retain-ended-sum g e due ((k, f) ∷ m) = elim (Option-cases (due f)) [
    | inl n ↦ rw (n, ended_flows) (omega (arith, retain-ended-sum g e due m))
    | inr (r, s) ↦ rw (s, ended_flows) (omega (arith, retain-ended-sum g e due m, e r f))
  ]

  retain-Every :
      (p : Flow Time → Bool) (m : Assoc FlowKey (Flow Time)) → Every (λ f. p f ≡ true) (retain p m)
  unfolding retain
  retain-Every p [] = tt
  retain-Every p ((k, f) ∷ m) = elim (Bool-cases (p f)) [
    | inl t ↦ rw t (t, retain-Every p m)
    | inr t ↦ rw t (retain-Every p m)
  ]

  cut_flows :
      (cutoff : ℕ) (m : Assoc FlowKey (Flow Time))
      → All
          (λ f. (f.last_seen ≤ cutoff) × (f.flow_end_reason ≡ some lack_of_resources))
          (ended_flows (lacks_resources cutoff) m)
  unfolding ended_flows lacks_resources ended
  cut_flows cutoff [] = tt
  cut_flows cutoff ((k, f) ∷ m) = elim (Bool-cases (ltb cutoff f.last_seen)) [
    | inl t ↦ rw (t, ended_flows, lacks_resources) (cut_flows cutoff m)
    | inr t ↦ rw (t, ended_flows, lacks_resources) ((ground arith, refl), cut_flows cutoff m)
  ]

  cut_count :
      (cutoff : ℕ) (m : Assoc FlowKey (Flow Time))
      → length (ended_flows (lacks_resources cutoff) m) ≡ count_le cutoff (last_seens m)
  unfolding ended_flows lacks_resources last_seens count_le
  cut_count cutoff [] = refl
  cut_count cutoff ((k, f) ∷ m) = ground (arith, cut_count cutoff m)

  kept_late :
      (cutoff : ℕ) (m : Assoc FlowKey (Flow Time))
      → Every (λ f. cutoff < f.last_seen) (retain (λ f. is_none (lacks_resources cutoff f)) m)
  unfolding retain lacks_resources
  kept_late cutoff [] = tt
  kept_late cutoff ((k, f) ∷ m) = elim (Bool-cases (ltb cutoff f.last_seen)) [
    | inl t ↦ rw t (ground arith, kept_late cutoff m)
    | inr t ↦ rw t (kept_late cutoff m)
  ]

  pub length-last_seens : (m : Assoc FlowKey (Flow Time)) → length (last_seens m) ≡ length m
  unfolding last_seens
  length-last_seens [] = refl
  length-last_seens ((k, f) ∷ m) = ap suc (length-last_seens m)

  pub eviction_count-bounds :
      (c : FlowCache Time)
      → 0 < c.max_flows
      → (1 ≤ eviction_count c) × (eviction_count c ≤ c.max_flows)
  unfolding eviction_count
  eviction_count-bounds c h = (omega arith, omega arith)

  -- The outcome of making room: the cache that is left, for a cutoff in time.
  unfoldable pub evicted_at : ℕ → FlowCache Time → FlowCache Time
  evicted_at cutoff c = record c {
    flows = retain (λ f. is_none (lacks_resources cutoff f)) c.flows;
    evicted = c.evicted ++ ended_flows (lacks_resources cutoff) c.flows;
  }

  evict_found :
      (cutoff : ℕ) (c : FlowCache Time)
      → nth_smallest (eviction_count c - 1) (last_seens c.flows) ≡ some cutoff
      → evict_idle_longest c ≡ some (evicted_at cutoff c)
  unfolding evict_idle_longest evicted_at
  evict_found cutoff c found =
      rw (found, evict_idle_longest)
        (rw (retain_ended_lem (lacks_resources cutoff) c.flows c.evicted) refl)

  pub evict-evicted_at :
      (c : FlowCache Time)
      → eviction_count c ≤ length c.flows
      → 0 < c.max_flows
      → (cutoff : ℕ) × (nth_smallest (eviction_count c - 1) (last_seens c.flows) ≡ some cutoff)
        × (evict_idle_longest c ≡ some (evicted_at cutoff c))
  evict-evicted_at c room pos =
      let (cutoff, found) =
        nth_smallest-total (eviction_count c - 1) (last_seens c.flows)
          (omega (arith, length-last_seens c.flows, eviction_count-bounds c pos)) in
      (cutoff, found, evict_found cutoff c found)

  -- `c'` is `c` after room was made: the flows that stay were seen after the cutoff, and those
  -- that left were last seen by then and wait to be exported.
  pub record MadeRoom (c c' : FlowCache Time) : Type 0 where
    pub cutoff : ℕ
    pub out : List (Flow Time)
    pub stay : Every (λ f. cutoff < f.last_seen) c'.flows
    pub left : All (λ f. (f.last_seen ≤ cutoff) × (f.flow_end_reason ≡ some lack_of_resources)) out
    pub waiting : c'.evicted ≡ c.evicted ++ out
    pub enough : max (c.max_flows / eviction_fraction) 1 ≤ length out
    pub all : length c'.flows + length out ≡ length c.flows

  length-split :
      (due : Flow Time → Option FlowEndReason) (m : Assoc FlowKey (Flow Time))
      → length (retain (λ f. is_none (due f)) m) + length (ended_flows due m) ≡ length m
  unfolding retain ended_flows
  length-split due [] = omega arith
  length-split due ((k, f) ∷ m) = elim (Option-cases (due f)) [
    | inl n ↦ rw (n, ended_flows) (omega (arith, length-split due m))
    | inr (r, s) ↦ rw (s, ended_flows) (omega (arith, length-split due m))
  ]

  pub evicted_at-MadeRoom :
      (c : FlowCache Time) (cutoff : ℕ)
      → nth_smallest (eviction_count c - 1) (last_seens c.flows) ≡ some cutoff
      → MadeRoom c (evicted_at cutoff c)
  unfolding evicted_at eviction_count
  evicted_at-MadeRoom c cutoff found = record {
    cutoff = cutoff;
    out = ended_flows (lacks_resources cutoff) c.flows;
    stay = kept_late cutoff c.flows;
    left = cut_flows cutoff c.flows;
    waiting = refl;
    enough = omega (
      arith,
      cut_count cutoff c.flows,
      nth_smallest-count (eviction_count c - 1) (last_seens c.flows) found,
    );
    all = length-split (lacks_resources cutoff) c.flows;
  }
