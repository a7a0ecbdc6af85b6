-- ===== src/Sampler/Tests.antt =====
-- The sampler at concrete inputs.
use rustflow.Prelude.{◌+◌, ◌-◌, ◌/◌, ◌≡◌, refl, max}
use rustflow.Sampler.{count, new, select, selected, selected-new}

one_in_ten : selected 1000 (new (count 10)) ≡ 100
unfolding new select selected
one_in_ten = refl

count_of_zero : selected 10 (new (count 0)) ≡ 10
unfolding new select selected
count_of_zero = refl

selected-new_example : selected 25 (new (count 10)) ≡ (25 + max 10 1 - 1) / max 10 1
selected-new_example = selected-new 25 10
