-- ===== src/Sampler.antt =====
-- crates/rustflow_export/src/sampler.rs: systematic count-based sampling. A call that changes the
-- sampler returns it beside its result.
mod Tests
use native.Mathlib.Nat.{add-div_right}
use rustflow.Prelude.{
  ℕ, zero, suc, ◌+◌, ◌-◌, ◌*◌, ◌/◌, ◌≤◌, ◌<◌, ◌≡◌, Bool, true, false, ltb, if◌then◌else◌, max,
  arith, Bool-cases, inl, inr, ◌∙◌, ap,
}

pub data Sampling : Type 0 where
  count : ℕ → Sampling

-- `Sampler` has the one variant `Count`.
pub record Sampler : Type 0 where
  pub interval : ℕ
  pub countdown : ℕ

unfoldable pub new : Sampling → Sampler
new (count interval) = record { interval = max interval 1; countdown = 1 }

unfoldable pub select : Sampler → Sampler × Bool
select s =
    if ltb 1 s.countdown
    then (record s { countdown = s.countdown - 1 }, false)
    else (record s { countdown = s.interval }, true)

-- The number of packets that are selected out of `n`.
unfoldable pub selected : ℕ → Sampler → ℕ
selected zero s = 0
selected (suc n) s =
    let (s', chosen) = select s in let rest = selected n s' in if chosen then suc rest else rest

-- A countdown of `k` and an interval of `m` select the packets k, k + m, k + 2 m and so on.
selected_after :
    (n m k : ℕ)
    → 1 ≤ m
    → 1 ≤ k
    → selected n (record { interval = m; countdown = k }) ≡ (n + m - k) / m
unfolding selected select
selected_after zero m k hm hk = grind arith
selected_after (suc n) m k hm hk = elim (Bool-cases (ltb 1 k)) [
  | inl t ↦ rw t (selected_after n m (k - 1) hm (ground arith) ∙ ap (λ x. x / m) (omega arith))
  | inr t ↦ rw t (
      omega (
        arith,
        selected_after n m m hm hm,
        ap (λ (x : ℕ). x / m) (let e : n + m - m ≡ n = omega arith in e),
        ap (λ (x : ℕ). x / m) (let e : suc n + m - k ≡ n + m = ground arith in e),
        add-div_right n hm,
      ))
]

-- Of any `n` packets that a new sampler meets, it selects one in `interval`, the first included:
-- the quotient of `n` by the interval, rounded up. An interval of 0 counts as 1.
selected-new :
    (n interval : ℕ) → selected n (new (count interval)) ≡ (n + max interval 1 - 1) / max interval 1
unfolding new
selected-new n interval = selected_after n (max interval 1) 1 (omega arith) (omega arith)
