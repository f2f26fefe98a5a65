-- ===== src/W96d/Asked.antt =====
-- router/w96d_sidecar.py: what a body asks of the fan, and what `_patch` leaves on it.
use lan_mi_home.Base.{
  ℕ, Bool, true, false, not, ◌&&◌, ◌||◌, Option, none, some, List, [], ◌∷◌, ◌++◌, ◌≡◌, ◌∙◌, refl,
  ap, inl, inr, arith, leb, ◌==◌, if◌then◌else◌,
}
use lan_mi_home.Base.Bytes.{Bytes, to_be16}
use lan_mi_home.Base.Text.{Text, Table, word, find}
use lan_mi_home.Sp651e.{Result, ok, int_of}
use lan_mi_home.W96d.{
  char_power, char_timer, char_speed, char_natural, char_shutdown_delay, char_gear_down,
  char_turbo_time, char_light, char_turbo, char_battery, Json, Raised, as_bool, as_int, and_then,
  refuse_if, speed_writes, natural_writes, turbo_writes, power_writes, battery_writes, Field,
  fields, has_unknown, Manager, commands,
}
use lan_mi_home.W96d.Patch.{patch, read_after, read_after-fan, read_after-outcome}
use lan_mi_home.W96d.Refresh.{W96dState, refresh-reads_of}
use lan_mi_home.W96d.Commands.{
  Stores, planned, joined, last_written, last_written-append, commands-planned,
}

-- The fields of a body as values; the absent ones are none.
pub record Request : Type 0 where
  pub indicator : Option Bool
  pub speed : Option ℕ
  pub natural : Option Bool
  pub turbo : Option Bool
  pub power : Option Bool
  pub timer_seconds : Option ℕ
  pub sleep_delay_seconds : Option ℕ
  pub gear_down_mode : Option ℕ
  pub turbo_time_seconds : Option ℕ
  pub battery_profile : Option ℕ

-- The body has the field with a value that reads as this one, or has no such field.
abbrev pub Reads : {A : Type 0} → (Json → Result Raised A) → Text → Table Json → Option A → Type 0
Reads read name body none = find name body ≡ none
Reads read name body (some a) = (v : Json) × (find name body ≡ some v) × (read v ≡ ok a)

-- The body asks for these values.
abbrev pub Asks : Table Json → Request → Type 0
Asks body r =
    Reads as_bool (word "indicator") body r.indicator
    × Reads (as_int 0 100) (word "speed") body r.speed
    × Reads as_bool (word "natural") body r.natural
    × Reads as_bool (word "turbo") body r.turbo
    × Reads as_bool (word "power") body r.power
    × Reads (as_int 0 28800) (word "timer_seconds") body r.timer_seconds
    × Reads (λ v. refuse_if (λ s. leb 1 s && leb s 9) (as_int 0 65535 v))
        (word "sleep_delay_seconds") body r.sleep_delay_seconds
    × Reads (as_int 0 1) (word "gear_down_mode") body r.gear_down_mode
    × Reads (as_int 0 600) (word "turbo_time_seconds") body r.turbo_time_seconds
    × Reads (λ v. refuse_if (λ p. not (p == 4800 || p == 5000)) (as_int 4800 5000 v))
        (word "battery_profile") body r.battery_profile

-- The bytes for a value that is asked for, or else those of before.
pub or_else : {A : Type 0} → Option A → (A → Bytes) → Bytes → Bytes
or_else none bytes before = before
or_else (some a) bytes before = bytes a

-- Off, where a mode is asked for that excludes this one.
pub off_if : Option Bool → Bytes → Bytes
off_if (some true) before = 0 ∷ []
off_if _ before = before

-- What a characteristic is to hold, by what it held. Power switches both modes off; a speed switches the
-- fan on, and both modes off, unless the body asks for one; of the modes, turbo comes last.
pub wanted : Request → ℕ → Bytes → Bytes
wanted r x before =
    if x == char_power
    then or_else r.power (λ b. int_of b ∷ []) (or_else r.speed (λ _. 1 ∷ []) before)
    else if x == char_natural
    then or_else r.power (λ _. 0 ∷ [])
        (off_if r.turbo
          (or_else r.natural (λ b. int_of b ∷ []) (or_else r.speed (λ _. 0 ∷ []) before)))
    else if x == char_turbo
    then or_else r.power (λ _. 0 ∷ [])
        (or_else r.turbo (λ b. int_of b ∷ [])
          (off_if r.natural (or_else r.speed (λ _. 0 ∷ []) before)))
    else if x == char_speed
    then or_else r.speed (λ n. n ∷ []) before
    else if x == char_light
    then or_else r.indicator (λ b. int_of b ∷ []) before
    else if x == char_timer
    then or_else r.timer_seconds to_be16 before
    else if x == char_shutdown_delay
    then or_else r.sleep_delay_seconds to_be16 before
    else if x == char_gear_down
    then or_else r.gear_down_mode (λ n. n ∷ []) before
    else if x == char_turbo_time
    then or_else r.turbo_time_seconds to_be16 before
    else if x == char_battery
    then or_else r.battery_profile
        (λ p. if p == 4800 then word "BAT_CAP=17200," else word "BAT_CAP=18000,") before
    else before

stage : {A : Type 0} → Option A → (A → List (ℕ × Bytes)) → List (ℕ × Bytes)
stage none writes_of = []
stage (some a) writes_of = writes_of a

all_writes : Request → List (ℕ × Bytes)
all_writes r =
    stage r.indicator (λ b. (char_light, int_of b ∷ []) ∷ [])
    ++ (stage r.speed speed_writes
        ++ (stage r.natural natural_writes
            ++ (stage r.turbo turbo_writes
                ++ (stage r.power power_writes
                    ++ (stage r.timer_seconds (λ s. (char_timer, to_be16 s) ∷ [])
                        ++ (stage r.sleep_delay_seconds (λ s. (char_shutdown_delay, to_be16 s) ∷ [])
                            ++ (stage r.gear_down_mode (λ mode. (char_gear_down, mode ∷ []) ∷ [])
                                ++ (stage r.turbo_time_seconds
                                      (λ s. (char_turbo_time, to_be16 s) ∷ [])
                                    ++ (stage r.battery_profile battery_writes ++ [])))))))))

planned_step :
    {A : Type 0} (read : Json → Result Raised A) (name : Text) (body : Table Json) (o : Option A)
    (writes_of : A → List (ℕ × Bytes)) (rest : List Field) (more : List (ℕ × Bytes))
    → Reads read name body o
    → planned rest body ≡ some more
    → planned ((name, λ v. and_then (read v) writes_of) ∷ rest) body
      ≡ some (stage o writes_of ++ more)
unfolding planned stage joined and_then
planned_step read name body none writes_of rest more missing e = rw (missing, planned) e
planned_step read name body (some a) writes_of rest more (v, found, accepted) e =
    rw (found, planned) (rw (accepted, and_then) (rw (e, joined) refl))

nothing_planned : (body : Table Json) → planned [] body ≡ some []
unfolding planned
nothing_planned body = refl

planned-all_writes :
    (body : Table Json) (r : Request) → Asks body r → planned fields body ≡ some (all_writes r)
unfolding fields all_writes
planned-all_writes body r
      (indicator, speed, natural, turbo, power, timer, delay, gear, time, battery) =
    planned_step _ _ body _ _ _ _ indicator (
      planned_step _ _ body _ _ _ _ speed (
        planned_step _ _ body _ _ _ _ natural (
          planned_step _ _ body _ _ _ _ turbo (
            planned_step _ _ body _ _ _ _ power (
              planned_step _ _ body _ _ _ _ timer (
                planned_step _ _ body _ _ _ _ delay (
                  planned_step _ _ body _ _ _ _ gear (
                    planned_step _ _ body _ _ _ _ time
                      (planned_step _ _ body _ _ _ _ battery (nothing_planned body))))))))))

-- A single write of a field, to `c`.
at_one : {A : Type 0} → ℕ → Option A → (A → Bytes) → ℕ → Bytes → Bytes
at_one c o bytes x b = if x == c then or_else o bytes b else b

at_speed : Option ℕ → ℕ → Bytes → Bytes
at_speed o x b =
    if x == char_turbo || x == char_natural
    then or_else o (λ _. 0 ∷ []) b
    else if x == char_power
    then or_else o (λ _. 1 ∷ []) b
    else if x == char_speed
    then or_else o (λ n. n ∷ []) b
    else b

at_mode : ℕ → ℕ → Option Bool → ℕ → Bytes → Bytes
at_mode mode other o x b =
    if x == mode then or_else o (λ v. int_of v ∷ []) b else if x == other then off_if o b else b

at_power : Option Bool → ℕ → Bytes → Bytes
at_power o x b =
    if x == char_turbo || x == char_natural
    then or_else o (λ _. 0 ∷ []) b
    else if x == char_power
    then or_else o (λ v. int_of v ∷ []) b
    else b

stage-at_one :
    {A : Type 0} (c : ℕ) (o : Option A) (bytes : A → Bytes) (x : ℕ) (b : Bytes)
    → last_written x (stage o (λ a. (c, bytes a) ∷ [])) b ≡ at_one c o bytes x b
unfolding last_written stage at_one or_else
stage-at_one c none bytes x b = ground arith
stage-at_one c (some a) bytes x b = ground arith

stage-at_speed :
    (o : Option ℕ) (x : ℕ) (b : Bytes) → last_written x (stage o speed_writes) b ≡ at_speed o x b
unfolding last_written stage at_speed or_else speed_writes
stage-at_speed none x b = ground arith
stage-at_speed (some n) x b = ground arith

stage-natural :
    (o : Option Bool) (x : ℕ) (b : Bytes)
    → last_written x (stage o natural_writes) b ≡ at_mode char_natural char_turbo o x b
unfolding last_written stage at_mode or_else off_if natural_writes
stage-natural none x b = ground arith
stage-natural (some true) x b = ground arith
stage-natural (some false) x b = ground arith

stage-turbo :
    (o : Option Bool) (x : ℕ) (b : Bytes)
    → last_written x (stage o turbo_writes) b ≡ at_mode char_turbo char_natural o x b
unfolding last_written stage at_mode or_else off_if turbo_writes
stage-turbo none x b = ground arith
stage-turbo (some true) x b = ground arith
stage-turbo (some false) x b = ground arith

stage-at_power :
    (o : Option Bool) (x : ℕ) (b : Bytes) → last_written x (stage o power_writes) b ≡ at_power o x b
unfolding last_written stage at_power or_else power_writes
stage-at_power none x b = ground arith
stage-at_power (some v) x b = ground arith

-- The field that comes next, on what those before it leave.
next_stage :
    {A : Type 0} (o : Option A) (writes_of : A → List (ℕ × Bytes)) (more : List (ℕ × Bytes)) (x : ℕ)
    (b before : Bytes)
    → last_written x (stage o writes_of) before ≡ b
    → last_written x (stage o writes_of ++ more) before ≡ last_written x more b
next_stage o writes_of more x b before e =
    last_written-append x (stage o writes_of) more before ∙ ap (last_written x more) e

in_turn : Request → ℕ → Bytes → Bytes
in_turn r x before =
    at_one char_battery r.battery_profile
      (λ p. if p == 4800 then word "BAT_CAP=17200," else word "BAT_CAP=18000,") x
      (at_one char_turbo_time r.turbo_time_seconds to_be16 x (
        at_one char_gear_down r.gear_down_mode (λ n. n ∷ []) x
          (at_one char_shutdown_delay r.sleep_delay_seconds to_be16 x (
            at_one char_timer r.timer_seconds to_be16 x (
              at_power r.power x (
                at_mode char_turbo char_natural r.turbo x (
                  at_mode char_natural char_turbo r.natural x (
                    at_speed r.speed x
                      (at_one char_light r.indicator (λ v. int_of v ∷ []) x before)))))))))

last_written-in_turn :
    (r : Request) (x : ℕ) (before : Bytes)
    → last_written x (all_writes r) before ≡ in_turn r x before
unfolding all_writes in_turn battery_writes last_written
last_written-in_turn r x before =
    next_stage _ _ _ x _ _ (stage-at_one char_light r.indicator _ x _)
    ∙ next_stage _ _ _ x _ _ (stage-at_speed r.speed x _)
    ∙ next_stage _ _ _ x _ _ (stage-natural r.natural x _)
    ∙ next_stage _ _ _ x _ _ (stage-turbo r.turbo x _)
    ∙ next_stage _ _ _ x _ _ (stage-at_power r.power x _)
    ∙ next_stage _ _ _ x _ _ (stage-at_one char_timer r.timer_seconds _ x _)
    ∙ next_stage _ _ _ x _ _ (stage-at_one char_shutdown_delay r.sleep_delay_seconds _ x _)
    ∙ next_stage _ _ _ x _ _ (stage-at_one char_gear_down r.gear_down_mode _ x _)
    ∙ next_stage _ _ _ x _ _ (stage-at_one char_turbo_time r.turbo_time_seconds _ x _)
    ∙ next_stage _ _ _ x _ _ (stage-at_one char_battery r.battery_profile _ x _)

in_turn-wanted : (r : Request) (x : ℕ) (before : Bytes) → in_turn r x before ≡ wanted r x before
unfolding in_turn wanted at_one at_speed at_mode at_power
in_turn-wanted r x before = ground arith

module _ {D : Type 0} (view : ℕ → D → Bytes) (connect : D → D × Bool)
    (write : ℕ → Bytes → D → D × Bool) (stores : Stores view write) where
  -- What the commands leave on the fan.
  commands-wanted :
      (m : Manager) (body : Table Json) (r : Request) (d : D)
      → m.enabled ≡ true
      → m.paused ≡ false
      → (connect d).1 ≡ true
      → has_unknown body ≡ false
      → Asks body r
      → ((commands connect write m body d).1 ≡ none)
        × ((x : ℕ) → view x (commands connect write m body d).0 ≡ wanted r x (view x (connect d).0))
  commands-wanted m body r d enabled going returned known asks =
      let (outcome, held) =
        commands-planned view connect write stores m body (all_writes r) d enabled going returned
          known (planned-all_writes body r asks) in
      (
        outcome,
        λ x.
            held x
            ∙ last_written-in_turn r x (view x (connect d).0)
            ∙ in_turn-wanted r x (view x (connect d).0),
      )

  read_after-none :
      (read : ℕ → D → Option Bytes) (done : D × Option Raised) (s : W96dState)
      → ((x : ℕ) → read x done.0 ≡ some (view x done.0))
      → done.1 ≡ none
      → (read_after read done s).1 ≡ none
  read_after-none read done s works returned =
      let found = refresh-reads_of read view done.0 s works in
      elim ((read_after-outcome read done s).1 returned) [
        | inl (s', _, outcome) ↦ outcome
        | inr (lost, _) ↦ absurd cc
      ]

  -- On an enabled, unpaused manager, over a fan that can be connected and read and stores what it is
  -- told, `_patch` of a body of known fields with accepted values returns, and leaves on each
  -- characteristic what the body wants of it, and on every other what it held.
  pub patch-wanted :
      (read : ℕ → D → Option Bytes) (m : Manager) (body : Table Json) (r : Request) (d : D)
      (s : W96dState)
      → ((x : ℕ) (d' : D) → read x d' ≡ some (view x d'))
      → m.enabled ≡ true
      → m.paused ≡ false
      → (connect d).1 ≡ true
      → has_unknown body ≡ false
      → Asks body r
      → ((patch connect write read m body d s).1 ≡ none)
        × ((x : ℕ)
            → view x (patch connect write read m body d s).0.0 ≡ wanted r x (view x (connect d).0))
  unfolding patch
  patch-wanted read m body r d s works enabled going returned known asks =
      let done = commands connect write m body d in
      let (outcome, held) = commands-wanted m body r d enabled going returned known asks in
      (
        read_after-none read done s (λ x. works x done.0) outcome,
        λ x. ap (view x) (read_after-fan read done s) ∙ held x,
      )
