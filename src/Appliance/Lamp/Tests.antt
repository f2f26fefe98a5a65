-- ===== src/Appliance/Lamp/Tests.antt =====
-- A command to a concrete lamp, whose third field is refused.
use lan_mi_home.Base.{true, some, [], ◌∷◌, ◌≡◌, refl}
use lan_mi_home.Base.Bytes.{same}
use lan_mi_home.Base.Text.{Table, word, find}
use lan_mi_home.Sp651e.{err}
use lan_mi_home.Appliance.Values.{
  Json, boolean, integer, pos, null, value_error, parse_int, parse_bool, to_int, zero_or_one,
}
use lan_mi_home.Appliance.Miot.{Ident, miot_items, dicts, ensure_ok}
use lan_mi_home.Appliance.Miot.Many.{known}
use lan_mi_home.Appliance.Fields.{
  available, has_unknown_field, entry_of, boolean_of, number_of, whole_number,
}
use lan_mi_home.Appliance.Fields.Written.{held_after, field_write, parsed, Takes}
use lan_mi_home.Appliance.Lamp.{lamp_read, lamp_validators, lamp_shown, lamp_patch}
use lan_mi_home.Appliance.Lamp.Obeyed.{lamp_parsed, lamp_answer, lamp_patch-parsed}
use lan_mi_home.Appliance.Sample.{SampleStore, held, sample, sample-Answers}

-- {"power": true, "brightness": 30, "mode": 9, "focus_minutes": 5}
abbrev body : Table Json
body =
    (word "power", boolean true)
    ∷ (word "brightness", integer (pos 30))
    ∷ (word "mode", integer (pos 9))
    ∷ (word "focus_minutes", integer (pos 5))
    ∷ []

-- The first two fields are written all the same.
lamp_parsed-body :
    lamp_parsed body ≡ (((2, 1), boolean true) ∷ ((2, 2), integer (pos 30)) ∷ [], err value_error)
unfolding parsed field_write entry_of lamp_validators find same boolean_of number_of whole_number
    parse_int to_int parse_bool zero_or_one
lamp_parsed-body = refl

sample-Takes : Takes sample held
unfolding sample held ensure_ok miot_items dicts
sample-Takes d written new = (_, _, refl, refl, λ ident. refl)

lamp_patch-parsed_example :
    (d' : SampleStore) × (lamp_patch sample true body [] ≡ (
      d',
      lamp_answer
          (lamp_parsed body).1
          (available (lamp_shown (known (λ ident. some (held d' ident)) lamp_read))),
    ))
    × ((ident : Ident) → held d' ident ≡ held_after (lamp_parsed body).0 ident null)
unfolding has_unknown_field find same sample held
lamp_patch-parsed_example =
    lamp_patch-parsed sample held (λ d. refl) sample-Answers sample-Takes body [] refl
