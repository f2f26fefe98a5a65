-- ===== src/LightStrip/Tests.antt =====
-- A strip as a pair of its power and its brightness, with an adapter for it.
use lan_mi_home.Base.{ℕ, ◌≤◌, Bool, true, false, Option, none, some, ◌≡◌, refl, arith}
use lan_mi_home.Base.Text.{word}
use lan_mi_home.Sp651e.{Changes, ok, percent_of}
use lan_mi_home.LightStrip.{Adapter, Report, Transport, validate_patch, pending_status, agrees}
use lan_mi_home.LightStrip.State.{state, full_body, state-available}
use lan_mi_home.LightStrip.Patch.{patch, Obeys, patch_obeyed}

abbrev Strip : Type 0
Strip = Bool × ℕ

kept_power : Option Bool → Bool → Bool
kept_power none p = p
kept_power (some q) p = q

kept_brightness : Option ℕ → ℕ → ℕ
kept_brightness none b = b
kept_brightness (some n) b = n

abbrev echo : Transport Strip
echo = record {
  read_state = λ s. some (full_body s.0 s.1);
  set_state = λ c s. ((kept_power c.power s.0, kept_brightness c.brightness s.1), true);
  firmware = λ s. none;
  mode = λ s. none;
}

abbrev adapter : Adapter
adapter = record {
  enabled = true;
  model = word "SP651E";
  address = word "AA:BB:CC:DD:EE:FF";
  protocol = word "sp651e";
}

abbrev no_strip : Option (Transport Strip)
no_strip = none

adapter_idle : pending_status adapter true ≡ none
unfolding pending_status
adapter_idle = refl

-- A strip at brightness byte 1.
state-available_example :
    (2 ≤ 1
      → ((state adapter echo (true, percent_of 1)).available ≡ true)
        × ((state adapter echo (true, percent_of 1)).power ≡ some true)
        × ((state adapter echo (true, percent_of 1)).brightness ≡ some (percent_of 1)))
    × (◌≡◌ {A = ℕ} 1 1 → (state adapter echo (true, percent_of 1)).available ≡ false)
state-available_example =
    state-available adapter echo (true, percent_of 1) true 1 adapter_idle refl (omega arith)
      (omega arith)

abbrev dim : Changes
dim = record { power = some false; brightness = some 30 }

dim_body : validate_patch (full_body false 30) ≡ ok dim
unfolding validate_patch
dim_body = refl

dim_held : Obeys echo dim (true, 7)
unfolding kept_power kept_brightness
dim_held = (false, 30, refl, refl, omega arith, omega arith, λ p e. cc, λ n e. cc)

patch_obeyed_example :
    (r : Report) × (patch adapter (some echo) (full_body false 30) (true, 7)
      ≡ ((echo.set_state dim (true, 7)).0, ok r))
    × (r.available ≡ true)
    × (agrees dim r ≡ true)
patch_obeyed_example =
    patch_obeyed adapter echo (full_body false 30) (true, 7) dim dim_body adapter_idle dim_held
