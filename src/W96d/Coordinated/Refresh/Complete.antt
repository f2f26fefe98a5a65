-- ===== src/W96d/Coordinated/Refresh/Complete.antt =====
-- router/w96d_coordinated.py: a refresh in which every read succeeds, against `_refresh_unlocked`; and
-- the failures that a run of refreshes counts.
use lan_mi_home.Base.{
  ℕ, ◌+◌, ◌≤◌, Bool, true, false, not, Option, some, List, [], ◌∷◌, ◌≡◌, ◌∙◌, refl, ap, arith, leb,
  ◌==◌, length, get_or,
}
use lan_mi_home.Base.Bytes.{Bytes}
use lan_mi_home.W96d.Refresh.{W96dState, Reads, decode_reads, first_byte, first_bool, if_long}
use lan_mi_home.W96d.Coordinated.Refresh.{
  Reading, Read, value, Refresher, always, often, settings, telemetry, apply_read, read_list,
  section, conclude, refresh_cycle,
}
use lan_mi_home.W96d.{
  char_power, char_timer, char_speed, char_natural, char_shutdown_delay, char_gear_down,
  char_turbo_time, char_light, char_battery,
}
use lan_mi_home.W96d.Refresh.{char_speed_calib, char_turbo_remaining, char_power_status, char_motor}

-- The values that the thirteen reads find on a fan.
abbrev pub reads_on : {D : Type 0} → (ℕ → D → Bytes) → D → Reads
reads_on view d = record {
  power = view char_power d;
  timer = view char_timer d;
  speed = view char_speed d;
  natural = view char_natural d;
  sleep_delay = view char_shutdown_delay d;
  gear_down = view char_gear_down d;
  gear_speeds = view char_speed_calib d;
  turbo_time = view char_turbo_time d;
  light = view char_light d;
  turbo_remaining = view char_turbo_remaining d;
  battery = view char_battery d;
  power_status = view char_power_status d;
  motor = view char_motor d;
}

-- Each is as long as the decoders want it.
abbrev pub IsComplete : Reads → Type 0
IsComplete r =
    (1 ≤ length r.power)
    × (1 ≤ length r.speed)
    × (1 ≤ length r.natural)
    × (1 ≤ length r.light)
    × (2 ≤ length r.turbo_remaining)
    × (2 ≤ length r.timer)
    × (2 ≤ length r.sleep_delay)
    × (1 ≤ length r.gear_down)
    × (4 ≤ length r.gear_speeds)
    × (2 ≤ length r.turbo_time)
    × (8 ≤ length r.battery)
    × (4 ≤ length r.power_status)
    × (6 ≤ length r.motor)

first_byte-get_or : (b : Bytes) → 1 ≤ length b → first_byte b ≡ some (get_or b 0 0)
unfolding first_byte
first_byte-get_or [] h = absurd (omega arith)
first_byte-get_or (x ∷ b) h = refl

first_bool-get_or : (b : Bytes) → 1 ≤ length b → first_bool b ≡ some (not (get_or b 0 0 == 0))
unfolding first_bool
first_bool-get_or [] h = absurd (omega arith)
first_bool-get_or (x ∷ b) h = refl

leb-true : (a b : ℕ) → a ≤ b → leb a b ≡ true
leb-true a b h = ground arith

if_long-enough :
    {A : Type 0} (n : ℕ) (b : Bytes) (a : A) (before : Option A)
    → n ≤ length b
    → if_long n b a before ≡ some a
unfolding if_long
if_long-enough n b a before h = rw (leb-true n (length b) h)

-- The updates of reads that all succeed.
apply_all : {D : Type 0} → (ℕ → D → Bytes) → D → List Reading → W96dState → W96dState
apply_all view d [] s = s
apply_all view d ((c, size, update) ∷ readings) s = apply_all view d readings (update (view c d) s)

abbrev AllLong : {D : Type 0} → (ℕ → D → Bytes) → D → List Reading → Type 0
AllLong view d [] = Unit
AllLong view d ((c, size, update) ∷ readings) = (size ≤ length (view c d)) × AllLong view d readings

-- Every read succeeds and leaves the fan as it is.
abbrev pub answers : {D : Type 0} → (ℕ → D → Bytes) → ℕ → D → Read × D
answers view c d = (value (view c d), d)

module _ {D : Type 0} (view : ℕ → D → Bytes) (d : D) where
  read_list-AllLong :
      (readings : List Reading) (n : ℕ) (s : W96dState)
      → AllLong view d readings
      → read_list (answers view) readings d n s
        ≡ (d, some (n + length readings, apply_all view d readings s))
  unfolding read_list apply_read apply_all
  read_list-AllLong [] n s long = let e : n ≡ n + 0 = omega arith in ap (λ k. (d, some (k, s))) e
  read_list-AllLong ((c, size, update) ∷ readings) n s (enough, long) =
      let e : n + 1 + length readings ≡ n + length ((c, size, update) ∷ readings) = omega arith in
      rw (leb-true size (length (view c d)) enough) (
        read_list-AllLong readings (n + 1) (update (view c d) s) long
        ∙ ap (λ k. (d, some (k, apply_all view d readings (update (view c d) s)))) e)

  section-AllLong :
      (clear : Refresher → Refresher) (readings : List Reading) (r : Refresher) (n : ℕ)
      (s : W96dState)
      → AllLong view d readings
      → section (answers view) true clear readings (d, r, some (n, s))
        ≡ (d, clear r, some (n + length readings, apply_all view d readings s))
  unfolding section
  section-AllLong clear readings r n s long = rw (read_list-AllLong readings n s long)

  apply_all-decode_reads :
      (s : W96dState)
      → IsComplete (reads_on view d)
      → record (apply_all view d telemetry
          (apply_all view d settings (apply_all view d often (apply_all view d always s)))) {
            connected = true;
            available = true;
            failed = false;
          }
        ≡ decode_reads (reads_on view d) s
  unfolding apply_all always often settings telemetry decode_reads if_long
  apply_all-decode_reads s (p, sp, n, l, turn, t, sd, g, gs, tm, b, ps, m) =
      rw
        (
          first_bool-get_or (view char_power d) p,
          first_byte-get_or (view char_power d) p,
          first_byte-get_or (view char_speed d) sp,
          first_bool-get_or (view char_natural d) n,
          first_bool-get_or (view char_light d) l,
          leb-true 2 (length (view char_turbo_remaining d)) turn,
          leb-true 2 (length (view char_timer d)) t,
          leb-true 2 (length (view char_shutdown_delay d)) sd,
          leb-true 1 (length (view char_gear_down d)) g,
          leb-true 4 (length (view char_speed_calib d)) gs,
          leb-true 2 (length (view char_turbo_time d)) tm,
          leb-true 8 (length (view char_battery d)) b,
          leb-true 4 (length (view char_power_status d)) ps,
          leb-true 6 (length (view char_motor d)) m,
        )
        refl

  -- A first refresh in which every read finds a value that is long enough shows exactly what
  -- `_refresh_unlocked` of the sidecar makes of the same values, reads all thirteen of them, ends the row
  -- of failures and clears the flags.
  pub refresh_cycle-decode_reads :
      (connected : D → Bool) (r : Refresher)
      → r.initial ≡ true
      → IsComplete (reads_on view d)
      → refresh_cycle (answers view) connected d r ≡ (
        d,
        record r {
          cycle = r.cycle + 1;
          failed_refreshes = 0;
          force_settings = false;
          force_telemetry = false;
          initial = false;
          state = decode_reads (reads_on view d) r.state;
        },
        true,
      )
  unfolding refresh_cycle conclude always often settings telemetry
  refresh_cycle-decode_reads connected r first (p, sp, n, l, turn, t, sd, g, gs, tm, b, ps, m) =
      let r0 = record r { cycle = r.cycle + 1; initial = true } in
      let s1 = apply_all view d always r.state in
      let s2 = apply_all view d often s1 in
      let s3 = apply_all view d settings s2 in
      let e1 = section-AllLong (λ q. q) always r0 0 r.state (p, (sp, (n, tt))) in
      let e2 = section-AllLong (λ q. q) often r0 3 s1 (l, (turn, (t, tt))) in
      let e3 =
        section-AllLong (λ q. record q { force_settings = false }) settings r0 6 s2
          (sd, (g, (gs, (tm, tt)))) in
      let e4 =
        section-AllLong (λ q. record q { force_telemetry = false }) telemetry
          (record r0 { force_settings = false }) 10 s3 (b, (ps, (m, tt))) in
      rw (first, e1, e2, e3, e4)
        (ap
          (λ s. (
            d,
            record r {
              cycle = r.cycle + 1;
              failed_refreshes = 0;
              force_settings = false;
              force_telemetry = false;
              initial = false;
              state = s;
            },
            true,
          ))
          (apply_all-decode_reads r.state (p, sp, n, l, turn, t, sd, g, gs, tm, b, ps, m)))
