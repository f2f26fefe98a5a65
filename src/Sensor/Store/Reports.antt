-- ===== src/Sensor/Store/Reports.antt =====
-- router/lanmihome.py: an advertisement that is heard again.
use lan_mi_home.Base.{
  ℕ, true, not, ◌||◌, Option, none, some, ◌≡◌, inl, inr, refl, arith, ◌==◌, Bool-cases,
}
use lan_mi_home.Base.Bytes.{Bytes, same_iff}
use lan_mi_home.Sensor.{Floats, SensorFrame, decode_mibeacon_sensor, sensor_product_id}
use lan_mi_home.Sensor.Store.{
  Store, SensorConfig, Advertisement, has_measurement, is_other, is_foreign, is_repeated,
  update_field, keep_decoded, accept, process_payload, process_advertisement,
}

is_repeated_self : (known : ℕ × Bytes) → is_repeated known (some known) ≡ true
unfolding is_repeated
is_repeated_self (counter, raw) =
    let e : (counter == counter) ≡ true = ground arith in rw (e, (same_iff raw raw).1 refl) refl

update_field-twice :
    {A : Type 0} (new before : Option A)
    → update_field new (update_field new before) ≡ update_field new before
unfolding update_field
update_field-twice none before = refl
update_field-twice (some a) before = refl

update_field_self : {A : Type 0} (new : Option A) → update_field new new ≡ new
unfolding update_field
update_field_self none = refl
update_field_self (some a) = refl

keep_decoded-twice :
    (now later : ℕ) (adv : Advertisement) (d : SensorFrame) (s : Store)
    → keep_decoded later adv d (keep_decoded now adv d s) ≡ keep_decoded now adv d s
unfolding keep_decoded
keep_decoded-twice now later adv d s =
    let known : ℕ × Bytes = (d.frame_counter, d.raw) in
    elim (Bool-cases (is_repeated known s.last_identity)) [
      | inl again ↦ rw again (rw (again, update_field-twice adv.rssi s.rssi) refl)
      | inr new ↦ elim (Bool-cases (has_measurement d.reading)) [
        | inl measured ↦
            rw (new, measured, is_repeated_self known) (rw (update_field_self adv.rssi) refl)
        | inr empty ↦
            rw (new, empty, is_repeated_self known) (rw (update_field-twice adv.rssi s.rssi) refl)
      ]
    ]

accept-twice :
    (config : SensorConfig) (now later : ℕ) (adv : Advertisement) (d : Option SensorFrame)
    (s : Store)
    → accept config later adv d (accept config now adv d s) ≡ accept config now adv d s
unfolding accept
accept-twice config now later adv none s = refl
accept-twice config now later adv (some d) s =
    elim (Bool-cases (not (d.product_id == sensor_product_id) || is_foreign config.address d.mac)) [
      | inl refused ↦ rw refused refl
      | inr taken ↦ rw taken (keep_decoded-twice now later adv d s)
    ]

process_payload-twice :
    (floats : Floats) (decrypt : Bytes → Bytes → Bytes → Option Bytes) (config : SensorConfig)
    (now later : ℕ) (adv : Advertisement) (payload : Option Bytes) (s : Store)
    → process_payload floats decrypt config later adv payload
        (process_payload floats decrypt config now adv payload s)
      ≡ process_payload floats decrypt config now adv payload s
unfolding process_payload
process_payload-twice floats decrypt config now later adv none s = refl
process_payload-twice floats decrypt config now later adv (some payload) s =
    accept-twice config now later adv
      (decode_mibeacon_sensor floats decrypt payload config.bind_key adv.address) s

-- An advertisement that is heard again at a later time, with nothing between, changes nothing: the
-- reading it brought is not made fresh, and no report is counted.
pub process_advertisement-twice :
    (floats : Floats) (decrypt : Bytes → Bytes → Bytes → Option Bytes) (config : SensorConfig)
    (now later : ℕ) (adv : Advertisement) (s : Store)
    → process_advertisement floats decrypt config later adv
        (process_advertisement floats decrypt config now adv s)
      ≡ process_advertisement floats decrypt config now adv s
unfolding process_advertisement
process_advertisement-twice floats decrypt config now later adv s =
    elim (Bool-cases (not config.enabled || is_other config.address adv.address)) [
      | inl ignored ↦ rw ignored refl
      | inr heard ↦
          rw heard (process_payload-twice floats decrypt config now later adv adv.payload s)
    ]
