-- ===== src/W96d/Refresh.antt =====
-- router/w96d_sidecar.py: `_refresh_unlocked`, what the sidecar makes of the fan's characteristics. The
-- name, the address, the ownership and the time of the update are left out of the state.
use lan_mi_home.Base.{
  ℕ, ◌-◌, ◌^◌, Bool, true, false, not, Option, none, some, List, [], ◌∷◌, ◌≡◌, ◌∙◌, refl, ap, ltb,
  leb, ◌==◌, if◌then◌else◌, length, get_or, take, ◌>>=◌,
}
use lan_mi_home.Base.Bytes.{Bytes, slice, from_be, to_be16, from_be-to_be16}
use lan_mi_home.Sp651e.{int_of}
use lan_mi_home.W96d.{
  char_power, char_timer, char_speed, char_natural, char_shutdown_delay, char_gear_down,
  char_turbo_time, char_light, char_battery,
}

abbrev pub char_speed_calib : ℕ
char_speed_calib = 0xFFF7

abbrev pub char_turbo_remaining : ℕ
char_turbo_remaining = 0xFFFB

abbrev pub char_power_status : ℕ
char_power_status = 0xFFD2

abbrev pub char_motor : ℕ
char_motor = 0xFFD3

-- What the thirteen reads returned.
pub record Reads : Type 0 where
  pub power : Bytes
  pub timer : Bytes
  pub speed : Bytes
  pub natural : Bytes
  pub sleep_delay : Bytes
  pub gear_down : Bytes
  pub gear_speeds : Bytes
  pub turbo_time : Bytes
  pub light : Bytes
  pub turbo_remaining : Bytes
  pub battery : Bytes
  pub power_status : Bytes
  pub motor : Bytes

pub record W96dState : Type 0 where
  pub available : Bool
  pub connected : Bool
  pub power : Option Bool
  pub gear : Option ℕ
  pub speed : Option ℕ
  pub natural : Option Bool
  pub turbo : Option Bool
  pub turbo_remaining_seconds : Option ℕ
  pub turbo_time_seconds : Option ℕ
  pub timer_remaining_seconds : Option ℕ
  pub sleep_delay_seconds : Option ℕ
  pub gear_down_mode : Option ℕ
  pub gear_speeds : Option (List ℕ)
  pub indicator : Option Bool
  pub battery_voltage_mv : Option ℕ
  pub battery_current_ma : Option (Bool × ℕ)
  pub battery_capacity_mwh : Option ℕ
  pub vbus_voltage_mv : Option ℕ
  pub charge_status : Option ℕ
  pub motor_current_ma : Option ℕ
  pub motor_voltage_mv : Option ℕ
  pub failed : Bool

abbrev pub initial : W96dState
initial = record {
  available = false;
  connected = false;
  power = none;
  gear = none;
  speed = none;
  natural = none;
  turbo = none;
  turbo_remaining_seconds = none;
  turbo_time_seconds = none;
  timer_remaining_seconds = none;
  sleep_delay_seconds = none;
  gear_down_mode = none;
  gear_speeds = none;
  indicator = none;
  battery_voltage_mv = none;
  battery_current_ma = none;
  battery_capacity_mwh = none;
  vbus_voltage_mv = none;
  charge_status = none;
  motor_current_ma = none;
  motor_voltage_mv = none;
  failed = false;
}

-- int(data[0]) if data else None
unfoldable pub first_byte : Bytes → Option ℕ
first_byte [] = none
first_byte (b ∷ _) = some b

-- bool(data[0]) if data else None
unfoldable pub first_bool : Bytes → Option Bool
first_bool [] = none
first_bool (b ∷ _) = some (not (b == 0))

-- A value that a long enough read replaces.
unfoldable pub if_long : {A : Type 0} → ℕ → Bytes → A → Option A → Option A
if_long n bytes value before = if leb n (length bytes) then some value else before

-- The sign and the size of a big-endian 16-bit number.
unfoldable pub signed16 : ℕ → Bool × ℕ
signed16 n = if ltb n (2 ^ 15) then (false, n) else (true, 2 ^ 16 - n)

unfoldable pub decode_reads : Reads → W96dState → W96dState
decode_reads r s = record s {
  available = true;
  connected = true;
  power = first_bool r.power;
  gear = first_byte r.power;
  speed = first_byte r.speed;
  natural = first_bool r.natural;
  indicator = first_bool r.light;
  failed = false;
  timer_remaining_seconds =
      if_long 2 r.timer (from_be 0 (take 2 r.timer)) s.timer_remaining_seconds;
  sleep_delay_seconds =
      if_long 2 r.sleep_delay (from_be 0 (take 2 r.sleep_delay)) s.sleep_delay_seconds;
  gear_down_mode = if_long 1 r.gear_down (get_or r.gear_down 0 0) s.gear_down_mode;
  gear_speeds = if_long 4 r.gear_speeds (take 4 r.gear_speeds) s.gear_speeds;
  turbo_time_seconds =
      if_long 2 r.turbo_time (from_be 0 (take 2 r.turbo_time)) s.turbo_time_seconds;
  turbo = if_long 2 r.turbo_remaining (ltb 0 (from_be 0 (take 2 r.turbo_remaining))) s.turbo;
  turbo_remaining_seconds =
      if_long 2 r.turbo_remaining (from_be 0 (take 2 r.turbo_remaining)) s.turbo_remaining_seconds;
  battery_voltage_mv = if_long 8 r.battery (from_be 0 (slice 0 2 r.battery)) s.battery_voltage_mv;
  battery_current_ma =
      if_long 8 r.battery (signed16 (from_be 0 (slice 2 4 r.battery))) s.battery_current_ma;
  battery_capacity_mwh =
      if_long 8 r.battery (from_be 0 (slice 4 8 r.battery)) s.battery_capacity_mwh;
  vbus_voltage_mv =
      if_long 4 r.power_status (from_be 0 (slice 0 4 r.power_status)) s.vbus_voltage_mv;
  charge_status = if_long 8 r.power_status (get_or r.power_status 7 0) s.charge_status;
  motor_current_ma = if_long 6 r.motor (from_be 0 (slice 0 2 r.motor)) s.motor_current_ma;
  motor_voltage_mv = if_long 6 r.motor (from_be 0 (slice 4 6 r.motor)) s.motor_voltage_mv;
}

module _ {D : Type 0} (read : ℕ → D → Option Bytes) where
  pub read_all : D → Option Reads
  read_all d = do
    power ← read char_power d
    timer ← read char_timer d
    speed ← read char_speed d
    natural ← read char_natural d
    sleep_delay ← read char_shutdown_delay d
    gear_down ← read char_gear_down d
    gear_speeds ← read char_speed_calib d
    turbo_time ← read char_turbo_time d
    light ← read char_light d
    turbo_remaining ← read char_turbo_remaining d
    battery ← read char_battery d
    power_status ← read char_power_status d
    motor ← read char_motor d
    some (record {
      power = power;
      timer = timer;
      speed = speed;
      natural = natural;
      sleep_delay = sleep_delay;
      gear_down = gear_down;
      gear_speeds = gear_speeds;
      turbo_time = turbo_time;
      light = light;
      turbo_remaining = turbo_remaining;
      battery = battery;
      power_status = power_status;
      motor = motor;
    })

  -- A read that raises leaves the state as it is.
  pub refresh : D → W96dState → Option W96dState
  unfolding read_all decode_reads
  refresh d s = do reads ← read_all d; some (decode_reads reads s)

first_bool-int_of : (b : Bool) → first_bool (int_of b ∷ []) ≡ some b
unfolding first_bool
first_bool-int_of true = refl
first_bool-int_of false = refl

-- Two bytes are long enough, and read back.
if_long-to_be16 :
    (n : ℕ) (before : Option ℕ)
    → if_long 2 (to_be16 n) (from_be 0 (take 2 (to_be16 n))) before ≡ some n
unfolding if_long to_be16
if_long-to_be16 n before = ap some (from_be-to_be16 n)

module _ {D : Type 0} (read : ℕ → D → Option Bytes) (view : ℕ → D → Bytes) (d : D)
    (s : W96dState) where
  pub reads_of : Reads
  reads_of = record {
    power = view char_power d;
    timer = view char_timer d;
    speed = view char_speed d;
    natural = view char_natural d;
    sleep_delay = view char_shutdown_delay d;
    gear_down = view char_gear_down d;
    gear_speeds = view char_speed_calib d;
    turbo_time = view char_turbo_time d;
    light = view char_light d;
    turbo_remaining = view char_turbo_remaining d;
    battery = view char_battery d;
    power_status = view char_power_status d;
    motor = view char_motor d;
  }

  pub refresh-reads_of :
      ((x : ℕ) → read x d ≡ some (view x d)) → refresh read d s ≡ some (decode_reads reads_of s)
  unfolding refresh reads_of
  refresh-reads_of works = rw (
    works char_power,
    works char_timer,
    works char_speed,
    works char_natural,
    works char_shutdown_delay,
    works char_gear_down,
    works char_speed_calib,
    works char_turbo_time,
    works char_light,
    works char_turbo_remaining,
    works char_battery,
    works char_power_status,
    works char_motor,
  )

  -- On a fan that can be read, a characteristic that holds what `_patch` writes for a value is shown as
  -- that value: power, natural wind, the light, the speed, the timer, the shutdown delay, the gear mode
  -- and the turbo time.
  pub refresh-stored :
      (power natural light : Bool) (speed timer delay gear turbo_time : ℕ)
      → ((x : ℕ) → read x d ≡ some (view x d))
      → view char_power d ≡ int_of power ∷ []
      → view char_natural d ≡ int_of natural ∷ []
      → view char_light d ≡ int_of light ∷ []
      → view char_speed d ≡ speed ∷ []
      → view char_timer d ≡ to_be16 timer
      → view char_shutdown_delay d ≡ to_be16 delay
      → view char_gear_down d ≡ gear ∷ []
      → view char_turbo_time d ≡ to_be16 turbo_time
      → (s' : W96dState) × (refresh read d s ≡ some s')
        × (s'.power ≡ some power)
        × (s'.natural ≡ some natural)
        × (s'.indicator ≡ some light)
        × (s'.speed ≡ some speed)
        × (s'.timer_remaining_seconds ≡ some timer)
        × (s'.sleep_delay_seconds ≡ some delay)
        × (s'.gear_down_mode ≡ some gear)
        × (s'.turbo_time_seconds ≡ some turbo_time)
  unfolding decode_reads reads_of first_byte first_bool if_long
  refresh-stored power natural light speed timer delay gear turbo_time works p n l sp t dl g tm = (
    decode_reads reads_of s,
    refresh-reads_of works,
    ap first_bool p ∙ first_bool-int_of power,
    ap first_bool n ∙ first_bool-int_of natural,
    ap first_bool l ∙ first_bool-int_of light,
    ap first_byte sp,
    ap (λ b. if_long 2 b (from_be 0 (take 2 b)) s.timer_remaining_seconds) t
        ∙ if_long-to_be16 timer s.timer_remaining_seconds,
    ap (λ b. if_long 2 b (from_be 0 (take 2 b)) s.sleep_delay_seconds) dl
        ∙ if_long-to_be16 delay s.sleep_delay_seconds,
    ap (λ b. if_long 1 b (get_or b 0 0) s.gear_down_mode) g,
    ap (λ b. if_long 2 b (from_be 0 (take 2 b)) s.turbo_time_seconds) tm
        ∙ if_long-to_be16 turbo_time s.turbo_time_seconds,
  )
