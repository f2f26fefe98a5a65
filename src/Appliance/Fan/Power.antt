-- ===== src/Appliance/Fan/Power.antt =====
-- router/lanmihome.py: the power of a fan that answers: the verified toggle of `patch`, and `ensure_power`.
use lan_mi_home.Base.{ℕ, Bool, true, [], ◌≡◌, ◌∙◌, refl, inl, inr, ap, if◌then◌else◌, Bool-cases}
use lan_mi_home.Sp651e.{ok, err}
use lan_mi_home.Appliance.Values.{Json, runtime_error, truth}
use lan_mi_home.Appliance.Actions.{bind-ok, then-ok}
use lan_mi_home.Appliance.Miot.{
  Device, miot_items, first_value, ensure_ok, get_one, action, new_device,
}
use lan_mi_home.Appliance.Fan.{
  same_bool, read_power, pause, check_power, toggle_power, set_power, ensure_toggled, ensure_power,
}

module _ {D : Type 0} (device : Device D) (power : D → Bool) (toggled : D → D) where
  -- A fan whose power can be read, and that acknowledges the action; what the toggle does is open.
  abbrev pub Shows : Type 0
  Shows =
      ((d : D)
        → (response : Json) × (value : Json) × (device.get_property_by (2, 1) d ≡ (d, ok response))
          × (first_value (miot_items response) ≡ ok value)
          × (truth value ≡ power d))
      × ((d : D)
          → (response : Json) × (device.call_action_by (2, 1) [] d ≡ (toggled d, ok response))
            × (ensure_ok response ≡ ok tt))
      × ((d : D) → device.open_device d ≡ (d, ok tt))

module _ {D : Type 0} (device : Device D) (power : D → Bool) (toggled : D → D)
    (shows : Shows device power toggled) where
  read_power-Shows : (d : D) → read_power device d ≡ (d, ok (power d))
  unfolding read_power get_one
  read_power-Shows d =
      let (response, value, answered, read, shown) = shows.0 d in
      bind-ok _ _ (bind-ok (device.get_property_by (2, 1)) _ answered ∙ ap (λ r. (d, r)) read)
      ∙ ap (λ b. (d, ok b)) shown

  action-Shows : (d : D) → action device (2, 1) [] d ≡ (toggled d, ok tt)
  unfolding action
  action-Shows d =
      let (response, answered, fine) = shows.1 d in
      bind-ok (device.call_action_by (2, 1) []) _ answered ∙ ap (λ r. (toggled d, r)) fine

  -- The fan after the toggle and a pause, if it was not as asked for.
  abbrev pub brought : ℕ → Bool → D → D
  brought milliseconds target d =
      if same_bool (power d) target then d else device.sleep milliseconds (toggled d)

  check_power_lem :
      (target : Bool) (d : D)
      → check_power device target (power d) d
        ≡ (d, if same_bool (power d) target then ok tt else err runtime_error)
  unfolding check_power
  check_power_lem target d = elim (Bool-cases (same_bool (power d) target)) [
    | inl right ↦ rw right
    | inr wrong ↦ rw wrong
  ]

  -- A power that is right is left alone. Else the fan is toggled once, and `patch` raises exactly when
  -- the power is not as asked for after the pause.
  pub set_power-checked :
      (target : Bool) (d : D)
      → set_power device target d ≡ (
        brought 350 target d,
        if same_bool (power (brought 350 target d)) target then ok tt else err runtime_error,
      )
  unfolding set_power toggle_power check_power pause
  set_power-checked target d =
      bind-ok (read_power device) _ (read_power-Shows d)
      ∙ elim (Bool-cases (same_bool (power d) target)) [
        | inl right ↦ rw (right, right)
        | inr wrong ↦ rw wrong (
            then-ok (action device (2, 1) []) _ (action-Shows d)
            ∙ then-ok (pause device 350) _ refl
            ∙ bind-ok (read_power device) _ (read_power-Shows _)
            ∙ check_power_lem target _)
      ]

  ensure_toggled-brought :
      (target : Bool) (d : D)
      → ensure_toggled device target (power d) d ≡ (brought 400 target d, ok tt)
  unfolding ensure_toggled pause
  ensure_toggled-brought target d = elim (Bool-cases (same_bool (power d) target)) [
    | inl right ↦ rw right
    | inr wrong ↦ rw wrong (then-ok (action device (2, 1) []) (pause device 400) (action-Shows d))
  ]

  -- So does the recovery, which says whether the power is right then.
  pub ensure_power-checked :
      (target : Bool) (d : D)
      → ensure_power device true target d
        ≡ (brought 400 target d, ok (same_bool (power (brought 400 target d)) target))
  unfolding ensure_power new_device
  ensure_power-checked target d =
      then-ok (new_device device true) _ (shows.2 d)
      ∙ bind-ok (read_power device) _ (read_power-Shows d)
      ∙ then-ok (ensure_toggled device target (power d)) _ (ensure_toggled-brought target d)
      ∙ bind-ok (read_power device) _ (read_power-Shows _)
