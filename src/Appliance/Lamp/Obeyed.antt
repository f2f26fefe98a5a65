-- ===== src/Appliance/Lamp/Obeyed.antt =====
-- router/lanmihome.py: a command through LampAdapter to a lamp that answers and takes what is written.
use lan_mi_home.Base.{true, false, some, List, ◌≡◌, ◌∙◌, refl, ap}
use lan_mi_home.Base.Text.{Table}
use lan_mi_home.Sp651e.{Result, ok, err}
use lan_mi_home.Appliance.Values.{Json, Raised}
use lan_mi_home.Appliance.Actions.{then-ok}
use lan_mi_home.Appliance.Miot.{Ident, Device, new_device}
use lan_mi_home.Appliance.Miot.Many.{
  HasNodupKeys, nodup_keys, nodup_keys_sound, Answers, known, get_many-known,
}
use lan_mi_home.Appliance.Fields.{
  AdapterReport, available, reported, then_report, has_unknown_field,
}
use lan_mi_home.Appliance.Fields.Written.{held_after, Takes, parsed, write_fields-parsed}
use lan_mi_home.Appliance.Lamp.{
  lamp_read, lamp_write, lamp_validators, lamp_shown, lamp_state, lamp_writes, lamp_patch,
}

lamp_read-HasNodupKeys : HasNodupKeys lamp_read
unfolding nodup_keys
lamp_read-HasNodupKeys = nodup_keys_sound lamp_read refl

-- The fields of a body up to the first that is refused, and its exception.
abbrev pub lamp_parsed : Table Json → List (Ident × Json) × Result {0} Raised Unit
lamp_parsed = parsed lamp_write lamp_validators (λ _. false)

-- An exception, or else the report.
abbrev pub lamp_answer : Result {0} Raised Unit → AdapterReport → Result Raised AdapterReport
lamp_answer (err e) report = err e
lamp_answer (ok _) report = ok report

module _ {D : Type 0} (device : Device D) (held : D → Ident → Json)
    (opens : (d : D) → device.open_device d ≡ (d, ok tt))
    (answers : (d : D) → Answers device d (λ ident. some (held d ident)))
    (takes : Takes device held) where
  lamp_state-held :
      (d : D)
      → lamp_state device true d
        ≡ (d, available (lamp_shown (known (λ ident. some (held d ident)) lamp_read)))
  unfolding lamp_state new_device
  lamp_state-held d =
      ap (λ (p : D × Result Raised (Table Json)). (p.0, reported lamp_shown p.1))
        (then-ok (new_device device true) _ (opens d)
          ∙ get_many-known device d (λ ident. some (held d ident)) lamp_read (answers d)
              lamp_read-HasNodupKeys)

  state-answer :
      (r : Result {0} Raised Unit) (d : D)
      → then_report (lamp_state device true) (d, r) ≡ (
        d,
        lamp_answer r (available (lamp_shown (known (λ ident. some (held d ident)) lamp_read))),
      )
  state-answer (err e) d = refl
  state-answer (ok _) d = rw (lamp_state-held d)

  -- A lamp that takes each write and answers each request, and a body of known fields: the fields are
  -- written in their order up to the first that is refused, which raises, or else all, and then the
  -- report shows what the lamp holds. What is written before a refusal stays.
  pub lamp_patch-parsed :
      (body : Table Json) (d : D)
      → has_unknown_field lamp_write body ≡ false
      → (d' : D) × (lamp_patch device true body d ≡ (
        d',
        lamp_answer
            (lamp_parsed body).1
            (available (lamp_shown (known (λ ident. some (held d' ident)) lamp_read))),
      ))
        × ((ident : Ident) → held d' ident ≡ held_after (lamp_parsed body).0 ident (held d ident))
  unfolding lamp_patch lamp_writes new_device
  lamp_patch-parsed body d known_fields =
      let (d', wrote, holds) =
        write_fields-parsed device held takes lamp_write lamp_validators (λ _. false) body d in
      let written : lamp_writes device true body d ≡ (d', (lamp_parsed body).1) =
        then-ok (new_device device true) _ (opens d) ∙ wrote in
      (d', rw (known_fields, written) (state-answer (lamp_parsed body).1 d'), holds)
