-- ===== src/Sensor/Tests.antt =====
-- A sensor at 21.5 degrees, whose frames are not really encrypted.
use lan_mi_home.Base.{true, Option, some, [], ◌∷◌, ◌++◌, ◌≡◌, refl, arith, take}
use lan_mi_home.Base.Bits.{test_bit}
use lan_mi_home.Base.Bytes.{Bytes}
use lan_mi_home.Sensor.{Floats, sensor_product_id, u16le, no_reading, read_objects}
use lan_mi_home.Sensor.Objects.{Object, written, apply_objects, read_objects-written}
use lan_mi_home.Sensor.Frames.{compact}
use lan_mi_home.Sensor.Store.{SensorConfig, Advertisement, no_data, process_advertisement}
use lan_mi_home.Sensor.Store.Reports.{process_advertisement-twice}

abbrev floats : Floats
floats = record { is_temperature = λ b. true; is_percentage = λ b. true }

abbrev opener : Bytes → Bytes → Bytes → Option Bytes
opener key nonce text = some (take 7 text)

abbrev own : Bytes
own = 1 ∷ 2 ∷ 3 ∷ 4 ∷ 5 ∷ 6 ∷ []

abbrev temperature : Object
temperature = record { low = 4; high = 16; value = 215 ∷ 0 ∷ [] }

-- Half an object behind it.
abbrev rest : Bytes
rest = 6 ∷ 16 ∷ []

abbrev sent : Bytes
sent = compact 8 0 0xB5 0x55 3 (4, 16, 2, 215, 0, 6, 16) (7, 8, 9) (1, 1, 1, 1)

is_encrypted : test_bit 8 3 ≡ true
unfolding test_bit
is_encrypted = refl

is_sensor : u16le sent 2 ≡ sensor_product_id
unfolding u16le
is_sensor = refl

read_objects-written_example :
    read_objects floats 9 (written (temperature ∷ []) ++ rest) no_reading
    ≡ apply_objects floats (temperature ∷ []) no_reading
read_objects-written_example =
    read_objects-written floats (temperature ∷ []) rest 9 no_reading refl (omega arith)

abbrev config : SensorConfig
config = record {
  enabled = true;
  address = some own;
  stale_seconds = 180;
  bind_key = some (9 ∷ []);
}

abbrev advertisement : Advertisement
advertisement = record { address = some own; payload = some sent; rssi = some 60 }

process_advertisement-twice_example :
    process_advertisement floats opener config 900 advertisement
      (process_advertisement floats opener config 100 advertisement (no_data config))
    ≡ process_advertisement floats opener config 100 advertisement (no_data config)
process_advertisement-twice_example =
    process_advertisement-twice floats opener config 100 900 advertisement (no_data config)
