-- ===== src/W96d/Coordinated/Refresh.antt =====
-- router/w96d_coordinated.py: `_low_pressure_refresh_unlocked`, which replaces `_refresh_unlocked`. The
-- device information, which is asked for once, and the time of the update are left out; `initial` says
-- that there was no update before.
pub mod Complete
use lan_mi_home.Base.{
  ℕ, ◌+◌, ◌%◌, Bool, true, false, not, ◌||◌, Option, none, some, List, [], ◌∷◌, ◌++◌, ltb, leb,
  ◌==◌, if◌then◌else◌, length, get_or, take,
}
use lan_mi_home.Base.Bytes.{Bytes, slice, from_be}
use lan_mi_home.W96d.{
  char_power, char_timer, char_speed, char_natural, char_shutdown_delay, char_gear_down,
  char_turbo_time, char_light, char_battery,
}
use lan_mi_home.W96d.Refresh.{
  W96dState, signed16, char_speed_calib, char_turbo_remaining, char_power_status, char_motor,
}

-- What `_read_optional` does: a value, None, or the RuntimeError of a lost connection.
pub data Read : Type 0 where
  value : Bytes → Read
  missing lost : Read

-- The manager's side: the cycle, the failures in a row, the flags, the state.
pub record Refresher : Type 0 where
  pub cycle : ℕ
  pub failed_refreshes : ℕ
  pub force_settings : Bool
  pub force_telemetry : Bool
  pub initial : Bool
  pub state : W96dState

-- A characteristic, the length that its value must have, and what a value updates.
abbrev pub Reading : Type 0
Reading = ℕ × ℕ × (Bytes → W96dState → W96dState)

pub always : List Reading
always =
    (
      char_power,
      1,
      λ b s. record s { power = some (not (get_or b 0 0 == 0)); gear = some (get_or b 0 0) },
    )
    ∷ (char_speed, 1, λ b s. record s { speed = some (get_or b 0 0) })
    ∷ (char_natural, 1, λ b s. record s { natural = some (not (get_or b 0 0 == 0)) })
    ∷ []

-- Roughly every 6 seconds.
pub often : List Reading
often =
    (char_light, 1, λ b s. record s { indicator = some (not (get_or b 0 0 == 0)) })
    ∷ (
      char_turbo_remaining,
      2,
      λ b s. record s {
        turbo = some (ltb 0 (from_be 0 (take 2 b)));
        turbo_remaining_seconds = some (from_be 0 (take 2 b));
      },
    )
    ∷ (char_timer, 2, λ b s. record s { timer_remaining_seconds = some (from_be 0 (take 2 b)) })
    ∷ []

-- Roughly every 30 seconds, or after a change.
pub settings : List Reading
settings =
    (char_shutdown_delay, 2, λ b s. record s { sleep_delay_seconds = some (from_be 0 (take 2 b)) })
    ∷ (char_gear_down, 1, λ b s. record s { gear_down_mode = some (get_or b 0 0) })
    ∷ (char_speed_calib, 4, λ b s. record s { gear_speeds = some (take 4 b) })
    ∷ (char_turbo_time, 2, λ b s. record s { turbo_time_seconds = some (from_be 0 (take 2 b)) })
    ∷ []

pub telemetry : List Reading
telemetry =
    (
      char_battery,
      8,
      λ b s. record s {
        battery_voltage_mv = some (from_be 0 (slice 0 2 b));
        battery_current_ma = some (signed16 (from_be 0 (slice 2 4 b)));
        battery_capacity_mwh = some (from_be 0 (slice 4 8 b));
      },
    )
    ∷ (
      char_power_status,
      4,
      λ b s. record s {
        vbus_voltage_mv = some (from_be 0 (slice 0 4 b));
        charge_status = if leb 8 (length b) then some (get_or b 7 0) else s.charge_status;
      },
    )
    ∷ (
      char_motor,
      6,
      λ b s. record s {
        motor_current_ma = some (from_be 0 (slice 0 2 b));
        motor_voltage_mv = some (from_be 0 (slice 4 6 b));
      },
    )
    ∷ []

-- The successful reads and the updates so far; `none` once the connection is lost.
abbrev pub Updates : Type 0
Updates = Option (ℕ × W96dState)

module _ {D : Type 0} (read : ℕ → D → Read × D) where
  -- A read, then the rest of the reads.
  pub apply_read :
      Read
      → ℕ
      → (Bytes → W96dState → W96dState)
      → (D → ℕ → W96dState → D × Updates)
      → D
      → ℕ
      → W96dState
      → D × Updates
  apply_read (value b) size update rest d successful s =
      if leb size (length b) then rest d (successful + 1) (update b s) else rest d successful s
  apply_read missing size update rest d successful s = rest d successful s
  apply_read lost size update rest d successful s = (d, none)

  pub read_list : List Reading → D → ℕ → W96dState → D × Updates
  read_list [] d successful s = (d, some (successful, s))
  read_list ((c, size, update) ∷ readings) d successful s =
      let (answer, d') = read c d in
      apply_read answer size update (read_list readings) d' successful s

  -- A group of reads that is due clears its flag first.
  pub section :
      Bool
      → (Refresher → Refresher)
      → List Reading
      → D × Refresher × Updates
      → D × Refresher × Updates
  section false clear readings p = p
  section true clear readings (d, r, none) = (d, r, none)
  section true clear readings (d, r, some (successful, s)) =
      let (d', updates) = read_list readings d successful s in (d', clear r, updates)

  -- What the reads came to. `false` in the result is a RuntimeError; `connected` is asked where no read
  -- succeeded.
  pub conclude : (D → Bool) → D × Refresher × Updates → D × Refresher × Bool
  conclude connected (d, r, none) = (d, r, false)
  conclude connected (d, r, some (successful, s)) =
      let failures = r.failed_refreshes + 1 in
      if not (successful == 0)
      then (
        d,
        record r {
          failed_refreshes = 0;
          initial = false;
          state = record s { connected = true; available = true; failed = false };
        },
        true,
      )
      else if not (connected d)
      then (d, record r { failed_refreshes = failures }, false)
      else (
        d,
        record r {
          failed_refreshes = failures;
          state = record r.state { connected = true; available = true; failed = true };
        },
        ltb failures 3,
      )

  pub refresh_cycle : (D → Bool) → D → Refresher → D × Refresher × Bool
  refresh_cycle connected d r =
      let cycle = r.cycle + 1 in
      let p0 : D × Refresher × Updates = (d, record r { cycle = cycle }, some (0, r.state)) in
      let p1 = section true (λ q. q) always p0 in
      let p2 = section (r.initial || cycle % 3 == 1) (λ q. q) often p1 in
      let p3 =
        section (r.initial || r.force_settings || cycle % 15 == 1)
          (λ q. record q { force_settings = false }) settings p2 in
      let p4 =
        section (r.initial || r.force_telemetry || cycle % 5 == 1)
          (λ q. record q { force_telemetry = false }) telemetry p3 in
      conclude connected p4
