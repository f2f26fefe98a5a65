-- ===== src/Appliance/Values/Tests.antt =====
-- Values, and what the readers make of them.
use lan_mi_home.Base.{true, false, some, ◌≤◌, ◌≡◌, ◌↔◌, ◌⊎◌, refl}
use lan_mi_home.Sp651e.{ok, err}
use lan_mi_home.Appliance.Values.{
  Json, pos, real, finite, infinite, nan, value_error, overflow_error, to_int, parse_int, float_of,
  parse_float, boolean, parse_bool, zero_or_one,
}
use lan_mi_home.Appliance.Values.Bounds.{IsWithin, parse_int_iff, parse_float-IsWithin}

-- 40.5
abbrev forty_and_half : Json
forty_and_half = real (finite false 40 1)

-- int() cuts the fraction off.
cut : parse_int (some 1) (some 100) forty_and_half ≡ ok (pos 40)
unfolding parse_int to_int
cut = refl

-- An infinite number raises what no clause of `_int` catches.
overflow : parse_int (some 1) (some 100) (real (infinite false)) ≡ err overflow_error
unfolding parse_int to_int
overflow = refl

-- True is no number for `_int`, but 1.0 is a Boolean for `_bool`.
no_number : parse_int (some 1) (some 100) (boolean true) ≡ err value_error
unfolding parse_int
no_number = refl

one_point_zero : parse_bool (real (finite false 1 0)) ≡ ok true
unfolding parse_bool zero_or_one
one_point_zero = refl

parse_int_iff_example :
    (parse_int (some 1) (some 100) forty_and_half ≡ ok (pos 40))
    ↔ ((to_int forty_and_half ≡ ok (pos 40)) × (1 ≤ 40) × (40 ≤ 100))
parse_int_iff_example = parse_int_iff 1 100 forty_and_half 40

-- {"on_gradient_seconds": NaN}
parse_float-IsWithin_example :
    (parse_float 0 5 (real nan) ≡ ok nan) ↔ ((nan ≡ nan) ⊎ IsWithin 0 5 nan)
unfolding float_of
parse_float-IsWithin_example = parse_float-IsWithin 0 5 (real nan) nan refl tt
