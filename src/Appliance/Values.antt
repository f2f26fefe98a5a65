-- ===== src/Appliance/Values.antt =====
-- router/lanmihome.py: JSON values as Python reads them, and `_bool`, `_int`, `_float`.
pub mod Bounds
mod Tests
use lan_mi_home.Base.{
  ℕ, zero, suc, ◌-◌, ◌^◌, Bool, true, false, not, ◌&&◌, ◌||◌, Option, none, some, List, [], ◌∷◌,
  ltb, leb, ◌==◌, if◌then◌else◌,
}
use lan_mi_home.Base.Text.{Text, Table}
use lan_mi_home.Sp651e.{Result, ok, err}

-- Python's int; `negsuc n` is -(n + 1).
pub data ℤ : Type 0 where
  pos negsuc : ℕ → ℤ

-- Python's float: whether it is below zero, then the whole part and the rest, in units of 2 ** -1074,
-- of its absolute value. A float that is made of an int keeps all of its digits here.
pub data Float : Type 0 where
  finite : (below_zero : Bool) → (whole rest : ℕ) → Float
  infinite : (below_zero : Bool) → Float
  nan : Float

-- A str comes with what int() and float() make of it, where they do not raise.
mutual
  pub data Json : Type 0 where
    null : Json
    boolean : Bool → Json
    integer : ℤ → Json
    real : Float → Json
    text : Text → (as_int : Option ℤ) → (as_float : Option Float) → Json
    array : Items → Json
    object : Fields → Json

  pub data Items : Type 0 where
    nil : Items
    cons : Json → Items → Items

  pub data Fields : Type 0 where
    end : Fields
    field : Text → Json → Fields → Fields

unfoldable pub entries : Fields → Table Json
entries end = []
entries (field key value rest) = (key, value) ∷ entries rest

-- The exceptions. `device_error` is what the library raises of a device that does not answer.
pub data Raised : Type 0 where
  value_error overflow_error key_error runtime_error connection_error device_error : Raised

-- bool(value)
unfoldable pub truth : Json → Bool
truth null = false
truth (boolean b) = b
truth (integer (pos n)) = not (n == 0)
truth (integer (negsuc n)) = true
truth (real (finite _ whole rest)) = not (whole == 0 && rest == 0)
truth (real _) = true
truth (text [] _ _) = false
truth (text (_ ∷ _) _ _) = true
truth (array nil) = false
truth (array (cons _ _)) = true
truth (object end) = false
truth (object (field _ _ _)) = true

-- value in (0, 1), with the Boolean that it equals
unfoldable pub zero_or_one : Json → Option Bool
zero_or_one (boolean b) = some b
zero_or_one (integer (pos zero)) = some false
zero_or_one (integer (pos (suc zero))) = some true
zero_or_one (real (finite _ zero zero)) = some false
zero_or_one (real (finite false (suc zero) zero)) = some true
zero_or_one _ = none

unfoldable pub parse_bool : Json → Result Raised Bool
unfolding zero_or_one
parse_bool value = elim (zero_or_one value) [ none ↦ err value_error | some b ↦ ok b ]

-- int(value) of a float
truncate : Float → Result Raised ℤ
truncate (finite false whole _) = ok (pos whole)
truncate (finite true zero _) = ok (pos 0)
truncate (finite true (suc n) _) = ok (negsuc n)
truncate (infinite _) = err overflow_error
truncate nan = err value_error

-- int(value) of a value that is no bool. The TypeError and the ValueError become a ValueError; an
-- OverflowError is passed on.
unfoldable pub to_int : Json → Result Raised ℤ
unfolding truncate
to_int (integer n) = ok n
to_int (real x) = truncate x
to_int (text _ (some n) _) = ok n
to_int _ = err value_error

-- out < lo, and out > hi, for bounds that may be missing
below : Option ℕ → ℤ → Bool
below none _ = false
below (some lo) (pos n) = ltb n lo
below (some lo) (negsuc _) = true

above : Option ℕ → ℤ → Bool
above none _ = false
above (some hi) (pos n) = ltb hi n
above (some hi) (negsuc _) = false

bound_int : Option ℕ → Option ℕ → Result Raised ℤ → Result Raised ℤ
unfolding below above
bound_int lo hi (err e) = err e
bound_int lo hi (ok n) = if below lo n || above hi n then err value_error else ok n

unfoldable pub parse_int : Option ℕ → Option ℕ → Json → Result Raised ℤ
unfolding to_int bound_int
parse_int lo hi (boolean _) = err value_error
parse_int lo hi value = bound_int lo hi (to_int value)

-- The least int that is too large for a float.
abbrev float_limit : ℕ
float_limit = 2 ^ 1024 - 2 ^ 970

float_of_int : ℤ → Result Raised Float
float_of_int (pos n) = if leb float_limit n then err overflow_error else ok (finite false n 0)
float_of_int (negsuc n) =
    if leb float_limit (suc n) then err overflow_error else ok (finite true (suc n) 0)

-- float(value), with the TypeError and the ValueError as a ValueError
unfoldable pub float_of : Json → Result Raised Float
unfolding float_of_int
float_of (boolean b) = ok (finite false (if b then 1 else 0) 0)
float_of (integer n) = float_of_int n
float_of (real x) = ok x
float_of (text _ _ (some x)) = ok x
float_of _ = err value_error

-- out < lo, and out > hi: no comparison with nan holds
float_below : ℕ → Float → Bool
float_below lo (finite false whole rest) = ltb whole lo
float_below lo (finite true whole rest) = not (lo == 0 && whole == 0 && rest == 0)
float_below lo (infinite below_zero) = below_zero
float_below lo nan = false

float_above : ℕ → Float → Bool
float_above hi (finite false whole rest) = ltb hi whole || (whole == hi && not (rest == 0))
float_above hi (finite true whole rest) = false
float_above hi (infinite below_zero) = not below_zero
float_above hi nan = false

bound_float : ℕ → ℕ → Result Raised Float → Result Raised Float
unfolding float_below float_above
bound_float lo hi (err e) = err e
bound_float lo hi (ok x) = if float_below lo x || float_above hi x then err value_error else ok x

unfoldable pub parse_float : ℕ → ℕ → Json → Result Raised Float
unfolding float_of bound_float
parse_float lo hi value = bound_float lo hi (float_of value)
