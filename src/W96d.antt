-- ===== src/W96d.antt =====
-- router/w96d_sidecar.py: the commands of `_patch` as writes to the fan. The Bluetooth client is a
-- parameter: what connecting and a write do to the fan, and whether they raise. Characteristics are
-- their 16-bit numbers; whether a write asks for a response is left out.
mod Tests
pub mod Patch
pub mod Asked
pub mod Exclusive
pub mod Writes
pub mod Commands
pub mod Coordinated
pub mod Refresh
use lan_mi_home.Base.{
  ℕ, Bool, true, false, not, ◌&&◌, ◌||◌, Option, none, some, List, [], ◌∷◌, leb, ◌==◌,
  if◌then◌else◌,
}
use lan_mi_home.Base.Bytes.{Bytes, same, to_be16}
use lan_mi_home.Base.Text.{Text, Table, word, find}
use lan_mi_home.Sp651e.{Result, ok, err, int_of}

abbrev pub char_power : ℕ
char_power = 0xFFF1

abbrev pub char_timer : ℕ
char_timer = 0xFFF2

abbrev pub char_speed : ℕ
char_speed = 0xFFF3

abbrev pub char_natural : ℕ
char_natural = 0xFFF4

abbrev pub char_shutdown_delay : ℕ
char_shutdown_delay = 0xFFF5

abbrev pub char_gear_down : ℕ
char_gear_down = 0xFFF6

abbrev pub char_turbo_time : ℕ
char_turbo_time = 0xFFF8

abbrev pub char_light : ℕ
char_light = 0xFFFA

abbrev pub char_turbo : ℕ
char_turbo = 0xFFFC

abbrev pub char_battery : ℕ
char_battery = 0xFFD1

-- What int(value) makes of a value that is no int. Below zero, no bound here is met.
pub data Converted : Type 0 where
  not_a_number overflows below_zero : Converted
  number : ℕ → Converted

-- A JSON value; `negative n` is -(n + 1). Any other comes with what `value in (0, 1)` and int(value),
-- which are Python's, make of it.
pub data Json : Type 0 where
  boolean : Bool → Json
  integer : ℕ → Json
  negative : ℕ → Json
  other : Option Bool → Converted → Json

-- The exceptions: the OverflowError is int's of an infinite number.
pub data Raised : Type 0 where
  value_error overflow_error runtime_error client_error : Raised

pub as_bool : Json → Result Raised Bool
as_bool (boolean b) = ok b
as_bool (integer n) = if n == 0 then ok false else if n == 1 then ok true else err value_error
as_bool (negative n) = err value_error
as_bool (other none _) = err value_error
as_bool (other (some b) _) = ok b

within : ℕ → ℕ → ℕ → Result Raised ℕ
within lo hi n = if leb lo n && leb n hi then ok n else err value_error

pub as_int : ℕ → ℕ → Json → Result Raised ℕ
unfolding within
as_int lo hi (boolean b) = err value_error
as_int lo hi (integer n) = within lo hi n
as_int lo hi (negative n) = err value_error
as_int lo hi (other _ not_a_number) = err value_error
as_int lo hi (other _ overflows) = err overflow_error
as_int lo hi (other _ below_zero) = err value_error
as_int lo hi (other _ (number n)) = within lo hi n

-- A value, and the writes that it stands for.
and_then :
    {A : Type 0} → Result Raised A → (A → List (ℕ × Bytes)) → Result Raised (List (ℕ × Bytes))
and_then (err e) f = err e
and_then (ok a) f = ok (f a)

pub refuse_if : (ℕ → Bool) → Result Raised ℕ → Result Raised ℕ
refuse_if test (err e) = err e
refuse_if test (ok n) = if test n then err value_error else ok n

speed_writes : ℕ → List (ℕ × Bytes)
speed_writes speed =
    (char_turbo, 0 ∷ [])
    ∷ (char_power, 1 ∷ [])
    ∷ (char_natural, 0 ∷ [])
    ∷ (char_speed, speed ∷ [])
    ∷ []

natural_writes : Bool → List (ℕ × Bytes)
natural_writes true = (char_turbo, 0 ∷ []) ∷ (char_natural, 1 ∷ []) ∷ []
natural_writes false = (char_natural, 0 ∷ []) ∷ []

turbo_writes : Bool → List (ℕ × Bytes)
turbo_writes true = (char_natural, 0 ∷ []) ∷ (char_turbo, 1 ∷ []) ∷ []
turbo_writes false = (char_turbo, 0 ∷ []) ∷ []

power_writes : Bool → List (ℕ × Bytes)
power_writes value =
    (char_turbo, 0 ∷ []) ∷ (char_natural, 0 ∷ []) ∷ (char_power, int_of value ∷ []) ∷ []

-- "BAT_CAP=17200," or "BAT_CAP=18000,"
battery_writes : ℕ → List (ℕ × Bytes)
battery_writes profile =
    (char_battery, if profile == 4800 then word "BAT_CAP=17200," else word "BAT_CAP=18000,") ∷ []

-- A field of the body: its name, and the writes for its value.
abbrev pub Field : Type 0
Field = Text × (Json → Result Raised (List (ℕ × Bytes)))

-- In the order in which `_patch` takes them up.
pub fields : List Field
fields =
    (word "indicator", λ v. and_then (as_bool v) (λ b. (char_light, int_of b ∷ []) ∷ []))
    ∷ (word "speed", λ v. and_then (as_int 0 100 v) speed_writes)
    ∷ (word "natural", λ v. and_then (as_bool v) natural_writes)
    ∷ (word "turbo", λ v. and_then (as_bool v) turbo_writes)
    ∷ (word "power", λ v. and_then (as_bool v) power_writes)
    ∷ (word "timer_seconds", λ v. and_then (as_int 0 28800 v) (λ s. (char_timer, to_be16 s) ∷ []))
    ∷ (
      word "sleep_delay_seconds",
      λ v.
          and_then (refuse_if (λ s. leb 1 s && leb s 9) (as_int 0 65535 v))
            (λ s. (char_shutdown_delay, to_be16 s) ∷ []),
    )
    ∷ (
      word "gear_down_mode",
      λ v. and_then (as_int 0 1 v) (λ mode. (char_gear_down, mode ∷ []) ∷ []),
    )
    ∷ (
      word "turbo_time_seconds",
      λ v. and_then (as_int 0 600 v) (λ s. (char_turbo_time, to_be16 s) ∷ []),
    )
    ∷ (
      word "battery_profile",
      λ v.
          and_then (refuse_if (λ p. not (p == 4800 || p == 5000)) (as_int 4800 5000 v))
            battery_writes,
    )
    ∷ []

is_allowed : Text → List Field → Bool
unfolding same
is_allowed key [] = false
is_allowed key ((name, _) ∷ rest) = same key name || is_allowed key rest

pub has_unknown : Table Json → Bool
unfolding is_allowed fields
has_unknown [] = false
has_unknown ((key, _) ∷ body) = not (is_allowed key fields) || has_unknown body

-- The manager's flags that `_ensure_owned` reads; `scheduled` is always true.
pub record Manager : Type 0 where
  pub enabled : Bool
  pub paused : Bool

-- `connect` is called where there is no connection yet; both say whether they returned.
module _ {D : Type 0} (connect : D → D × Bool) (write : ℕ → Bytes → D → D × Bool) where
  pub write_all : List (ℕ × Bytes) → D → D × Bool
  write_all [] d = (d, true)
  write_all ((c, bytes) ∷ writes) d =
      let (d', returned) = write c bytes d in
      let rest = write_all writes d' in if returned then rest else (d', false)

  -- The writes of a field, then what follows, unless either raised.
  pub run_writes :
      Result Raised (List (ℕ × Bytes)) → (D → D × Option Raised) → D → D × Option Raised
  run_writes (err e) next d = (d, some e)
  run_writes (ok writes) next d =
      let (d', returned) = write_all writes d in
      if returned then next d' else (d', some client_error)

  pub run_fields : List Field → Table Json → D → D × Option Raised
  run_fields [] body d = (d, none)
  run_fields ((name, writes_of) ∷ rest) body d = elim (find name body) [
    | none ↦ run_fields rest body d
    | some v ↦ run_writes (writes_of v) (run_fields rest body) d
  ]

  -- `_ensure_owned`
  pub ensure_owned : Manager → D → D × Option Raised
  ensure_owned m d =
      let (d', returned) = connect d in
      if not m.enabled
      then (d, some runtime_error)
      else if m.paused
      then (d, some runtime_error)
      else if returned
      then (d', none)
      else (d', some client_error)

  -- `_patch` up to the reading that follows, which is in Patch.
  pub commands : Manager → Table Json → D → D × Option Raised
  commands m body d =
      let (d', raised) = ensure_owned m d in
      let (d'', outcome) = run_fields fields body d' in
      if has_unknown body
      then (d, some value_error)
      else (elim raised [ some e ↦ (d', some e) | none ↦ (d'', outcome) ])
