-- ===== src/Appliance/Fan.antt =====
-- router/lanmihome.py: FanAdapter. An adapter is whether it is enabled. The lock is left out: nothing else runs within.
pub mod Power
pub mod Obeyed
mod Tests
use lan_mi_home.Base.{
  ℕ, Bool, true, false, not, ◌&&◌, ◌||◌, Option, none, some, List, [], ◌∷◌, ◌==◌, if◌then◌else◌,
}
use lan_mi_home.Base.Bytes.{same}
use lan_mi_home.Base.Text.{Text, Table, word, lower, find, assign}
use lan_mi_home.Sp651e.{Result, ok, err}
use lan_mi_home.Appliance.Values.{
  Json, null, boolean, integer, text, ℤ, pos, negsuc, Raised, value_error, key_error, runtime_error,
  truth, parse_bool, parse_int,
}
use lan_mi_home.Appliance.Actions.{Action, ◌>>=◌, ◌>>◌, pure, throw, lift}
use lan_mi_home.Appliance.Miot.{Ident, Device, get_one, get_many, action, new_device}
use lan_mi_home.Appliance.Fields.{
  AdapterReport, not_configured, as_truth, reported, then_report, boolean_of, number_of,
  whole_number, Validator, has_unknown_field, name_of, write_fields,
}

-- FAN_READ
abbrev pub fan_read : Table Ident
fan_read =
    (word "power", (2, 1))
    ∷ (word "fan_level", (2, 2))
    ∷ (word "mode", (2, 3))
    ∷ (word "swing", (2, 4))
    ∷ (word "swing_angle", (2, 5))
    ∷ (word "off_delay_minutes", (3, 1))
    ∷ (word "indicator", (4, 1))
    ∷ (word "alarm", (5, 1))
    ∷ (word "child_lock", (7, 1))
    ∷ (word "speed", (8, 1))
    ∷ []

-- FAN_WRITE is a copy of it.
abbrev pub fan_write : Table Ident
fan_write = fan_read

-- FAN_ACTIONS
abbrev pub fan_actions : Table Ident
fan_actions =
    (word "turn-left", (2, 2))
    ∷ (word "turn-right", (2, 3))
    ∷ (word "toggle-mode", (8, 1))
    ∷ (word "loop-gear", (8, 2))
    ∷ []

-- values["power"] = bool(values["power"]) if "power" in values else None
fan_power_shown : Table Json → Table Json
unfolding find truth assign
fan_power_shown values = elim (find (word "power") values) [
  | none ↦ assign (word "power") null values
  | some v ↦ assign (word "power") (boolean (truth v)) values
]

-- The values of a report, as they are shown.
unfoldable pub fan_shown : Table Json → Table Json
unfolding fan_power_shown as_truth
fan_shown values = as_truth (word "child_lock") (
    as_truth (word "alarm")
      (as_truth (word "indicator") (as_truth (word "swing") (fan_power_shown values))))

unfoldable pub parse_angle : Json → Result Raised ℤ
unfolding parse_int
parse_angle value = elim (parse_int none none value) [
  | err e ↦ err e
  | ok (negsuc n) ↦ err value_error
  | ok (pos n) ↦
      if n == 30 || n == 60 || n == 90 || n == 120 || n == 140 then ok (pos n) else err value_error
]

alias_of : Json → Option ℕ
unfolding find lower
alias_of (text t _ _) = find (lower t) ((word "straight", 0) ∷ (word "natural", 1) ∷ [])
alias_of _ = none

unfoldable pub parse_mode : Json → Result Raised ℤ
unfolding alias_of parse_int
parse_mode value = elim (alias_of value) [
  | some n ↦ ok (pos n)
  | none ↦ parse_int (some 0) (some 1) value
]

-- The dict `validators`.
unfoldable pub fan_validators : Table Validator
unfolding boolean_of number_of whole_number parse_mode parse_angle
fan_validators =
    (word "speed", whole_number 1 100)
    ∷ (word "fan_level", whole_number 1 4)
    ∷ (word "mode", λ v. number_of (parse_mode v))
    ∷ (word "swing", boolean_of)
    ∷ (word "swing_angle", λ v. number_of (parse_angle v))
    ∷ (word "off_delay_minutes", whole_number 0 480)
    ∷ (word "indicator", boolean_of)
    ∷ (word "alarm", boolean_of)
    ∷ (word "child_lock", boolean_of)
    ∷ []

-- a == b
abbrev pub same_bool : Bool → Bool → Bool
same_bool true b = b
same_bool false b = not b

module _ {D : Type 0} (device : Device D) where
  unfoldable pub fan_state : Bool → D → D × AdapterReport
  unfolding get_many fan_shown
  fan_state false d = (d, not_configured)
  fan_state true d =
      let (d', values) = (new_device device true >> get_many device fan_read) d in
      (d', reported fan_shown values)

  -- bool(_miot_get_one(device, 2, 1))
  unfoldable pub read_power : Action D Bool
  unfolding get_one truth
  read_power = do value ← get_one device (2, 1); pure (truth value)

  -- time.sleep(0.35)
  unfoldable pub pause : ℕ → Action D Unit
  pause milliseconds d = (device.sleep milliseconds d, ok tt)

  check_power : Bool → Bool → Action D Unit
  check_power target current = if same_bool current target then pure tt else throw runtime_error

  toggle_power : Bool → Action D Unit
  unfolding action read_power pause check_power
  toggle_power target = do
    action device (2, 1) []
    pause 350
    current ← read_power
    check_power target current

  unfoldable pub set_power : Bool → Action D Unit
  unfolding read_power toggle_power
  set_power target = do
    current ← read_power
    if same_bool current target then pure tt else toggle_power target

  power_part : Option Json → Action D Unit
  unfolding set_power parse_bool
  power_part none = pure tt
  power_part (some value) = do target ← lift (parse_bool value); set_power target

abbrev pub is_power : Text → Bool
is_power key = same key (word "power")

module _ {D : Type 0} (device : Device D) where
  fan_writes : Bool → Table Json → Action D Unit
  unfolding power_part write_fields fan_validators new_device find
  fan_writes enabled body = do
    new_device device enabled
    power_part device (find (word "power") body)
    write_fields device fan_write fan_validators is_power body

  unfoldable pub fan_patch : Bool → Table Json → D → D × Result Raised AdapterReport
  unfolding has_unknown_field fan_writes fan_state
  fan_patch enabled body d =
      if has_unknown_field fan_write body
      then (d, err value_error)
      else then_report (fan_state device enabled) (fan_writes enabled body d)

  unfoldable pub fan_action : Bool → Table Json → Action D Text
  unfolding action new_device name_of find
  fan_action enabled body = elim (find (name_of body) fan_actions) [
    | none ↦ throw value_error
    | some ident ↦ (do new_device device enabled; action device ident []; pure (name_of body))
  ]

  -- `fan recovery toggle`, with the longer pause
  ensure_toggled : Bool → Bool → Action D Unit
  unfolding action pause
  ensure_toggled target current =
      if same_bool current target then pure tt else (action device (2, 1) [] >> pause device 400)

  unfoldable pub ensure_power : Bool → Bool → Action D Bool
  unfolding read_power ensure_toggled new_device
  ensure_power enabled target = do
    new_device device enabled
    current ← read_power device
    ensure_toggled target current
    confirmed ← read_power device
    pure (same_bool confirmed target)
