-- ===== src/PowTwo/Tests.antt =====
-- The power of two at concrete inputs.
use wizard.Prelude.{◌≡◌, refl}
use wizard.PowTwo.{bit_length, clzl, find_last_set, next_pow_two}

values : (next_pow_two 0 ≡ 1) × (next_pow_two 1 ≡ 1) × (next_pow_two 5 ≡ 8) × (next_pow_two 8 ≡ 8)
unfolding next_pow_two find_last_set clzl bit_length
values = (refl, refl, refl, refl)
