-- ===== src/Appliance/Lamp.antt =====
-- router/lanmihome.py: LampAdapter. An adapter is whether it is enabled; the lock is left out.
pub mod Obeyed
mod Tests
use lan_mi_home.Base.{ℕ, Bool, true, false, Option, none, some, List, [], ◌∷◌, ◌++◌, if◌then◌else◌}
use lan_mi_home.Base.Text.{Text, Table, word, find}
use lan_mi_home.Sp651e.{Result, ok, err}
use lan_mi_home.Appliance.Values.{
  Json, null, integer, real, ℤ, Raised, value_error, parse_int, parse_float,
}
use lan_mi_home.Appliance.Actions.{Action, ◌>>=◌, ◌>>◌, pure, throw, lift}
use lan_mi_home.Appliance.Miot.{Ident, Device, get_many, action, new_device}
use lan_mi_home.Appliance.Fields.{
  AdapterReport, not_configured, as_truth, reported, then_report, boolean_of, whole_number,
  Validator, has_unknown_field, name_of, write_fields,
}

-- LAMP_READ
abbrev pub lamp_read : Table Ident
lamp_read =
    (word "power", (2, 1))
    ∷ (word "brightness", (2, 2))
    ∷ (word "color_temperature", (2, 3))
    ∷ (word "default_power_on_state", (2, 12))
    ∷ (word "on_gradient_seconds", (2, 13))
    ∷ (word "off_gradient_seconds", (2, 14))
    ∷ (word "mode", (2, 15))
    ∷ (word "delay_enabled", (4, 1))
    ∷ (word "delay_minutes", (4, 2))
    ∷ (word "delay_remain_minutes", (4, 3))
    ∷ (word "focus_enabled", (5, 1))
    ∷ (word "focus_minutes", (5, 2))
    ∷ (word "rest_minutes", (5, 3))
    ∷ (word "recycle_number", (5, 4))
    ∷ []

-- LAMP_WRITE, which lacks `delay_remain_minutes`, and before it the field that `patch` adds.
abbrev pub lamp_write : Table Ident
lamp_write =
    (word "on_then_delayoff_minutes", (6, 1))
    ∷ (word "power", (2, 1))
    ∷ (word "brightness", (2, 2))
    ∷ (word "color_temperature", (2, 3))
    ∷ (word "default_power_on_state", (2, 12))
    ∷ (word "on_gradient_seconds", (2, 13))
    ∷ (word "off_gradient_seconds", (2, 14))
    ∷ (word "mode", (2, 15))
    ∷ (word "delay_enabled", (4, 1))
    ∷ (word "delay_minutes", (4, 2))
    ∷ (word "focus_enabled", (5, 1))
    ∷ (word "focus_minutes", (5, 2))
    ∷ (word "rest_minutes", (5, 3))
    ∷ (word "recycle_number", (5, 4))
    ∷ []

-- LAMP_ACTIONS: (siid, aiid), and the piid of the input, if there is one.
abbrev pub lamp_actions : Table (Ident × Option ℕ)
lamp_actions =
    (word "toggle", ((2, 1), none))
    ∷ (word "brightness-up", ((2, 2), some 16))
    ∷ (word "brightness-down", ((2, 3), some 16))
    ∷ (word "color-temperature-up", ((2, 4), some 17))
    ∷ (word "color-temperature-down", ((2, 5), some 17))
    ∷ (word "bright-circle", ((6, 1), none))
    ∷ (word "ct-circle", ((6, 5), none))
    ∷ []

unfoldable pub real_number : ℕ → ℕ → Validator
unfolding parse_float
real_number lo hi value = elim (parse_float lo hi value) [ ok x ↦ ok (real x) | err e ↦ err e ]

-- The dict `validators`, and before it the field that `patch` adds.
unfoldable pub lamp_validators : Table Validator
unfolding whole_number real_number boolean_of
lamp_validators =
    (word "on_then_delayoff_minutes", whole_number 0 120)
    ∷ (word "power", boolean_of)
    ∷ (word "brightness", whole_number 1 100)
    ∷ (word "color_temperature", whole_number 2700 5100)
    ∷ (word "default_power_on_state", whole_number 0 2)
    ∷ (word "on_gradient_seconds", real_number 0 5)
    ∷ (word "off_gradient_seconds", real_number 0 5)
    ∷ (word "mode", whole_number 0 6)
    ∷ (word "delay_enabled", boolean_of)
    ∷ (word "delay_minutes", whole_number 1 120)
    ∷ (word "focus_enabled", boolean_of)
    ∷ (word "focus_minutes", whole_number 1 60)
    ∷ (word "rest_minutes", whole_number 1 60)
    ∷ (word "recycle_number", whole_number 1 10)
    ∷ []

-- The values of a report, as they are shown.
unfoldable pub lamp_shown : Table Json → Table Json
unfolding as_truth
lamp_shown values =
    as_truth (word "focus_enabled")
      (as_truth (word "delay_enabled") (as_truth (word "power") values))

-- The parameters of an action: body.get("value") is None where it is missing.
action_params : Option ℕ → Option Json → Result Raised (List (ℕ × Json))
unfolding whole_number
action_params none value = ok []
action_params (some piid) value =
    elim (whole_number 1 1000 (elim value [ none ↦ null | some v ↦ v ])) [
      | err e ↦ err e
      | ok n ↦ ok ((piid, n) ∷ [])
    ]

module _ {D : Type 0} (device : Device D) where
  unfoldable pub lamp_state : Bool → D → D × AdapterReport
  unfolding get_many lamp_shown
  lamp_state false d = (d, not_configured)
  lamp_state true d =
      let (d', values) = (new_device device true >> get_many device lamp_read) d in
      (d', reported lamp_shown values)

  unfoldable pub lamp_writes : Bool → Table Json → Action D Unit
  unfolding write_fields lamp_validators new_device
  lamp_writes enabled body =
      new_device device enabled >> write_fields device lamp_write lamp_validators (λ _. false) body

  unfoldable pub lamp_patch : Bool → Table Json → D → D × Result Raised AdapterReport
  unfolding has_unknown_field lamp_writes lamp_state
  lamp_patch enabled body d =
      if has_unknown_field lamp_write body
      then (d, err value_error)
      else then_report (lamp_state enabled) (lamp_writes enabled body d)

  unfoldable pub lamp_action : Bool → Table Json → Action D Text
  unfolding action new_device name_of find action_params
  lamp_action enabled body = elim (find (name_of body) lamp_actions) [
    | none ↦ throw value_error
    | some (ident, input) ↦ (do
      params ← lift (action_params input (find (word "value") body))
      new_device device enabled
      action device ident params
      pure (name_of body))
  ]
