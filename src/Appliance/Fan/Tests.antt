-- ===== src/Appliance/Fan/Tests.antt =====
-- Commands to the concrete fan of Sample.
use lan_mi_home.Base.{true, false, none, some, [], ◌∷◌, ◌≡◌, refl, arith}
use lan_mi_home.Base.Bytes.{same}
use lan_mi_home.Base.Text.{Table, word, find}
use lan_mi_home.Sp651e.{ok}
use lan_mi_home.Appliance.Values.{Json, boolean, integer, pos, text, truth, entries, parse_bool}
use lan_mi_home.Appliance.Miot.{Ident, dicts, miot_items, item_ok, ensure_ok, first_value}
use lan_mi_home.Appliance.Fields.{available, has_unknown_field, entry_of}
use lan_mi_home.Appliance.Fields.Written.{same_ident, held_after, field_write, parsed}
use lan_mi_home.Appliance.Miot.Many.{known}
use lan_mi_home.Appliance.Fan.{fan_read, fan_write, fan_validators, fan_shown, is_power, fan_patch}
use lan_mi_home.Appliance.Fan.Obeyed.{Obeys, asked_power, fan_patch-obeyed}
use lan_mi_home.Appliance.Sample.{SampleStore, held, toggle, sample, sample-Answers}

sample-Obeys : Obeys sample held toggle
unfolding sample toggle held first_value miot_items dicts entries item_ok ensure_ok find same truth
sample-Obeys = record {
  opens = λ d. refl;
  answers = sample-Answers;
  shows = λ d. (_, refl, refl);
  takes = λ d written new. (_, _, refl, refl, λ ident. refl);
  toggles = λ d. (_, refl, refl);
  turns_over = λ d. refl;
  keeps = λ d ident other. ground arith;
  waits = λ milliseconds d. refl;
}

-- {"power": true, "speed": 40, "mode": "natural"}
abbrev body : Table Json
body =
    (word "power", boolean true)
    ∷ (word "speed", integer (pos 40))
    ∷ (word "mode", text (word "natural") none none)
    ∷ []

fan_patch-obeyed_example :
    (d' : SampleStore) × (fan_patch sample true body []
      ≡ (d', ok (available (fan_shown (known (λ ident. some (held d' ident)) fan_read)))))
    × (truth (held d' (2, 1)) ≡ true)
    × ((ident : Ident)
        → same_ident (2, 1) ident ≡ false
        → held d' ident
          ≡ held_after (parsed fan_write fan_validators is_power body).0 ident (held [] ident))
unfolding has_unknown_field asked_power parsed field_write entry_of fan_validators find same
    parse_bool
fan_patch-obeyed_example =
    fan_patch-obeyed sample held toggle sample-Obeys body (some true) [] refl refl refl
