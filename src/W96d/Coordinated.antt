-- ===== src/W96d/Coordinated.antt =====
-- router/w96d_coordinated.py: `_coordinated_patch`, which replaces `_patch` and shows what it wrote
-- before the fan is read again. The gate of the coordinator is a parameter: acquiring it may raise, and
-- neither that nor its release reaches the fan.
pub mod Dfu
pub mod Equal
pub mod Refresh
use lan_mi_home.Base.{
  ℕ, Bool, true, false, not, ◌&&◌, ◌||◌, Option, none, some, List, [], ◌∷◌, ◌≡◌, ◌⊎◌, inl, inr, ◌∙◌,
  refl, sym, ap, leb, ◌==◌, if◌then◌else◌, map, Bool-cases, Option-cases,
}
use lan_mi_home.Base.Bytes.{Bytes, to_be16}
use lan_mi_home.Base.Text.{Text, Table, word, find}
use lan_mi_home.Sp651e.{Result, ok, err, int_of}
use lan_mi_home.W96d.{
  char_light, char_timer, char_shutdown_delay, char_gear_down, char_turbo_time, Json, Raised,
  value_error, client_error, runtime_error, as_bool, as_int, and_then, refuse_if, speed_writes,
  natural_writes, turbo_writes, power_writes, battery_writes, Field, fields, has_unknown, Manager,
  ensure_owned, write_all, run_writes, run_fields,
}
use lan_mi_home.W96d.Refresh.{W96dState}

-- What a field of the body comes to: its writes, its part of `optimistic`, and the flags it raises.
pub record Effect : Type 0 where
  pub writes : List (ℕ × Bytes)
  pub shown : W96dState → W96dState
  pub force_settings : Bool
  pub force_telemetry : Bool

pub effect_of : {A : Type 0} → Result Raised A → (A → Effect) → Result Raised Effect
effect_of (err e) f = err e
effect_of (ok a) f = ok (f a)

abbrev plain : List (ℕ × Bytes) → (W96dState → W96dState) → Effect
plain writes shown = record {
  writes = writes;
  shown = shown;
  force_settings = false;
  force_telemetry = false;
}

abbrev setting : List (ℕ × Bytes) → (W96dState → W96dState) → Effect
setting writes shown = record {
  writes = writes;
  shown = shown;
  force_settings = true;
  force_telemetry = false;
}

natural_shown : Bool → W96dState → W96dState
natural_shown true s = record s { turbo = some false; natural = some true }
natural_shown false s = record s { natural = some false }

turbo_shown : Bool → W96dState → W96dState
turbo_shown true s = record s { natural = some false; turbo = some true }
turbo_shown false s = record s { turbo = some false }

power_shown : Bool → W96dState → W96dState
power_shown value s = record s {
  power = some value;
  gear = some (int_of value);
  turbo = some false;
  natural = some false;
}

speed_shown : ℕ → W96dState → W96dState
speed_shown speed s = record s {
  power = some true;
  gear = some 1;
  speed = some speed;
  natural = some false;
  turbo = some false;
}

pub battery_effect : ℕ → Effect
unfolding battery_writes
battery_effect profile = record {
  writes = battery_writes profile;
  shown = λ s. record s { battery_capacity_mwh = some (if profile == 4800 then 17200 else 18000) };
  force_settings = false;
  force_telemetry = true;
}

abbrev pub EffectField : Type 0
EffectField = Text × (Json → Result Raised Effect)

pub coordinated_fields : List EffectField
coordinated_fields =
    (
      word "indicator",
      λ v.
          effect_of (as_bool v)
            (λ b. plain ((char_light, int_of b ∷ []) ∷ []) (λ s. record s { indicator = some b })),
    )
    ∷ (word "speed", λ v. effect_of (as_int 0 100 v) (λ n. plain (speed_writes n) (speed_shown n)))
    ∷ (word "natural", λ v. effect_of (as_bool v) (λ b. plain (natural_writes b) (natural_shown b)))
    ∷ (word "turbo", λ v. effect_of (as_bool v) (λ b. plain (turbo_writes b) (turbo_shown b)))
    ∷ (word "power", λ v. effect_of (as_bool v) (λ b. plain (power_writes b) (power_shown b)))
    ∷ (
      word "timer_seconds",
      λ v. effect_of (as_int 0 28800 v) (λ n.
          plain ((char_timer, to_be16 n) ∷ [])
            (λ s. record s { timer_remaining_seconds = some n })),
    )
    ∷ (
      word "sleep_delay_seconds",
      λ v. effect_of (refuse_if (λ n. leb 1 n && leb n 9) (as_int 0 65535 v)) (λ n.
          setting ((char_shutdown_delay, to_be16 n) ∷ [])
            (λ s. record s { sleep_delay_seconds = some n })),
    )
    ∷ (
      word "gear_down_mode",
      λ v. effect_of (as_int 0 1 v) (λ n.
          setting ((char_gear_down, n ∷ []) ∷ []) (λ s. record s { gear_down_mode = some n })),
    )
    ∷ (
      word "turbo_time_seconds",
      λ v. effect_of (as_int 0 600 v) (λ n.
          setting ((char_turbo_time, to_be16 n) ∷ [])
            (λ s. record s { turbo_time_seconds = some n })),
    )
    ∷ (
      word "battery_profile",
      λ v.
          effect_of (refuse_if (λ n. not (n == 4800 || n == 5000)) (as_int 4800 5000 v))
            battery_effect,
    )
    ∷ []

-- The manager's side: its state, and the flags that the next refresh reads.
pub record Coordinated : Type 0 where
  pub state : W96dState
  pub force_settings : Bool
  pub force_telemetry : Bool

-- The flags of a field are raised as soon as its writes are done.
pub raise_flags : Effect → Coordinated → Coordinated
raise_flags e c = record c {
  force_settings = c.force_settings || e.force_settings;
  force_telemetry = c.force_telemetry || e.force_telemetry;
}

module _ {D : Type 0} (connect : D → D × Bool) (write : ℕ → Bytes → D → D × Bool) where
  pub run_effect :
      Result Raised Effect
      → (D → (W96dState → W96dState) → Coordinated → (D × Coordinated) × Option Raised)
      → D
      → (W96dState → W96dState)
      → Coordinated
      → (D × Coordinated) × Option Raised
  unfolding raise_flags
  run_effect (err e) next d shown c = ((d, c), some e)
  run_effect (ok e) next d shown c =
      let (d', returned) = write_all connect write e.writes d in
      if returned
      then next d' (λ s. record (e.shown (shown s)) { failed = false }) (raise_flags e c)
      else ((d', c), some client_error)

  -- At the end the state shows what was written.
  pub run_effects :
      List EffectField
      → Table Json
      → D
      → (W96dState → W96dState)
      → Coordinated
      → (D × Coordinated) × Option Raised
  run_effects [] body d shown c =
      ((d, record c { state = shown c.state; force_telemetry = true }), none)
  run_effects ((name, effect) ∷ rest) body d shown c = elim (find name body) [
    | none ↦ run_effects rest body d shown c
    | some v ↦ run_effect (effect v) (run_effects rest body) d shown c
  ]

  -- `_coordinated_patch`; `acquired` says whether the coordinator granted the gate.
  pub coordinated_patch :
      Bool → Manager → Table Json → D → Coordinated → (D × Coordinated) × Option Raised
  coordinated_patch acquired m body d c =
      let (d', raised) = ensure_owned connect write m d in
      let done = run_effects coordinated_fields body d' (λ s. s) c in
      if has_unknown body then ((d, c), some value_error) else (elim raised [
        | some e ↦ ((d', c), some e)
        | none ↦ if acquired then done else ((d', c), some runtime_error)
      ])
