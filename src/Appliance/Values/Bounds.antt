-- ===== src/Appliance/Values/Bounds.antt =====
-- router/lanmihome.py: what `_int` and `_float` let through.
use lan_mi_home.Base.{
  ℕ, ◌+◌, ◌*◌, ◌^◌, ◌≤◌, ◌<◌, Option, some, ◌≡◌, ◌≢◌, ◌↔◌, ◌⊎◌, true, false, refl, arith,
}
use lan_mi_home.Sp651e.{Result, ok, err}
use lan_mi_home.Appliance.Values.{
  Json, null, boolean, integer, real, text, array, object, Raised, ℤ, pos, negsuc, Float, finite,
  infinite, nan, to_int, below, above, bound_int, parse_int, float_of, float_below, float_above,
  bound_float, parse_float,
}

parse_int-bound_int :
    (lo hi : Option ℕ) (value : Json) → parse_int lo hi value ≡ bound_int lo hi (to_int value)
unfolding parse_int to_int bound_int
parse_int-bound_int lo hi null = refl
parse_int-bound_int lo hi (boolean _) = refl
parse_int-bound_int lo hi (integer _) = refl
parse_int-bound_int lo hi (real _) = refl
parse_int-bound_int lo hi (text _ _ _) = refl
parse_int-bound_int lo hi (array _) = refl
parse_int-bound_int lo hi (object _) = refl

bound_int_iff :
    (lo hi : ℕ) (r : Result Raised ℤ) (n : ℕ)
    → (bound_int (some lo) (some hi) r ≡ ok (pos n)) ↔ ((r ≡ ok (pos n)) × (lo ≤ n) × (n ≤ hi))
unfolding bound_int below above
bound_int_iff lo hi (err e) n = ground arith
bound_int_iff lo hi (ok (pos k)) n = ground arith
bound_int_iff lo hi (ok (negsuc k)) n = ground arith

-- A number with both bounds comes through exactly when int() makes it of a value that is no bool, and
-- it is within them.
pub parse_int_iff :
    (lo hi : ℕ) (value : Json) (n : ℕ)
    → (parse_int (some lo) (some hi) value ≡ ok (pos n))
      ↔ ((to_int value ≡ ok (pos n)) × (lo ≤ n) × (n ≤ hi))
parse_int_iff lo hi value n =
    rw (parse_int-bound_int (some lo) (some hi) value) (bound_int_iff lo hi (to_int value) n)

bound_int-negsuc :
    (lo : ℕ) (hi : Option ℕ) (r : Result Raised ℤ) (n : ℕ)
    → bound_int (some lo) hi r ≢ ok (negsuc n)
unfolding bound_int below above
bound_int-negsuc lo hi (err e) n h = cc
bound_int-negsuc lo hi (ok (pos k)) n h = ground arith
bound_int-negsuc lo hi (ok (negsuc k)) n h = cc

-- No number below zero comes through.
pub parse_int-negsuc :
    (lo : ℕ) (hi : Option ℕ) (value : Json) (n : ℕ) → parse_int (some lo) hi value ≢ ok (negsuc n)
parse_int-negsuc lo hi value n =
    rw (parse_int-bound_int (some lo) hi value) (bound_int-negsuc lo hi (to_int value) n)

-- 2 ** 1074
abbrev float_units : ℕ
float_units = 2 ^ 1074

-- The absolute value, in units of 2 ** -1074.
abbrev magnitude : ℕ → ℕ → ℕ
magnitude whole rest = whole * float_units + rest

-- The real numbers from lo to hi.
abbrev pub IsWithin : ℕ → ℕ → Float → Type 0
IsWithin lo hi (finite false whole rest) =
    (lo * float_units ≤ whole * float_units + rest)
    × (whole * float_units + rest ≤ hi * float_units)
IsWithin lo hi (finite true whole rest) = (lo ≡ 0) × (whole ≡ 0) × (rest ≡ 0)
IsWithin lo hi (infinite _) = ⊥
IsWithin lo hi nan = ⊥

-- `rest` is a part of one.
abbrev pub IsFloat : Float → Type 0
IsFloat (finite _ whole rest) = rest < float_units
IsFloat _ = Unit

-- `_float` refuses every number that is outside its bounds, and none within; but nan passes, whatever
-- the bounds are.
pub parse_float-IsWithin :
    (lo hi : ℕ) (value : Json) (x : Float)
    → float_of value ≡ ok x
    → IsFloat x
    → (parse_float lo hi value ≡ ok x) ↔ ((x ≡ nan) ⊎ IsWithin lo hi x)
unfolding parse_float bound_float float_below float_above
parse_float-IsWithin lo hi value (finite false whole rest) e h = rw e (ground arith)
parse_float-IsWithin lo hi value (finite true whole rest) e h = rw e (ground arith)
parse_float-IsWithin lo hi value (infinite b) e h = rw e (ground arith)
parse_float-IsWithin lo hi value nan e h = rw e (ground arith)
