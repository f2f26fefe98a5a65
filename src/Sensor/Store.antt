-- ===== src/Sensor/Store.antt =====
-- router/lanmihome.py: SensorStore. Times are in milliseconds; the text of a time is left out. A lock is held
-- around each change.
pub mod Reports
use lan_mi_home.Base.{
  ℕ, ◌+◌, ◌-◌, ◌/◌, Bool, true, false, not, ◌&&◌, ◌||◌, Option, none, some, List, [], ◌∷◌, leb,
  ◌==◌, if◌then◌else◌,
}
use lan_mi_home.Base.Bytes.{Bytes, same}
use lan_mi_home.Sensor.{
  Measure, Measurements, no_reading, SensorFrame, Floats, decode_mibeacon_sensor, sensor_product_id,
}

pub data Source : Type 0 where
  router_bluez : Source
  external : List ℕ → Source

-- self.data with self._last_identity
pub record Store : Type 0 where
  pub reading : Measurements
  pub rssi : Option ℕ
  pub mac : Option Bytes
  pub frame_counter : Option ℕ
  pub raw : Option Bytes
  pub encrypted : Option Bool
  pub authenticated : Bool
  pub received_epoch : Option ℕ
  pub reports : ℕ
  pub source : Option Source
  pub last_identity : Option (ℕ × Bytes)

-- What the configuration says: `none` for no address and no key.
pub record SensorConfig : Type 0 where
  pub enabled : Bool
  pub address : Option Bytes
  pub stale_seconds : ℕ
  pub bind_key : Option Bytes

pub no_data : SensorConfig → Store
no_data config = record {
  reading = no_reading;
  rssi = none;
  mac = config.address;
  frame_counter = none;
  raw = none;
  encrypted = none;
  authenticated = false;
  received_epoch = none;
  reports = 0;
  source = none;
  last_identity = none;
}

pub is_none : {A : Type 0} → Option A → Bool
is_none none = true
is_none (some a) = false

pub has_measurement : Measurements → Bool
has_measurement r =
    not (is_none r.temperature) || not (is_none r.humidity) || not (is_none r.battery)

pub same_address : Option Bytes → Option Bytes → Bool
same_address none none = true
same_address none (some b) = false
same_address (some a) none = false
same_address (some a) (some b) = same a b

-- self.address and address != self.address
pub is_other : Option Bytes → Option Bytes → Bool
is_other none address = false
is_other (some own) address = not (same_address (some own) address)

-- self.address and mac not in (self.address, "UNKNOWN")
pub is_foreign : Option Bytes → Option Bytes → Bool
is_foreign own none = false
is_foreign own (some mac) = is_other own (some mac)

pub is_repeated : ℕ × Bytes → Option (ℕ × Bytes) → Bool
is_repeated identity none = false
is_repeated (counter, raw) (some (c, r)) = counter == c && same raw r

-- The value where there is one, else what was there.
pub update_field : {A : Type 0} → Option A → Option A → Option A
update_field none before = before
update_field (some a) before = some a

pub update_reading : Measurements → Measurements → Measurements
update_reading new before = record {
  temperature = update_field new.temperature before.temperature;
  humidity = update_field new.humidity before.humidity;
  battery = update_field new.battery before.battery;
}

-- An advertisement: the address, the bytes under the UUID of MiBeacon, and the strength, where it has
-- them.
pub record Advertisement : Type 0 where
  pub address : Option Bytes
  pub payload : Option Bytes
  pub rssi : Option ℕ

-- The part of `process_advertisement` under the lock.
pub keep_decoded : ℕ → Advertisement → SensorFrame → Store → Store
keep_decoded now adv d s =
    let heard = record s { rssi = update_field adv.rssi s.rssi } in
    let known : ℕ × Bytes = (d.frame_counter, d.raw) in
    if is_repeated known s.last_identity
    then heard
    else if not (has_measurement d.reading)
    then record heard { last_identity = some known }
    else record s {
      last_identity = some known;
      reading = update_reading d.reading s.reading;
      rssi = adv.rssi;
      mac = update_field adv.address d.mac;
      frame_counter = some d.frame_counter;
      raw = some d.raw;
      encrypted = some d.encrypted;
      authenticated = d.authenticated;
      received_epoch = some now;
      reports = s.reports + 1;
      source = some router_bluez;
    }

pub accept : SensorConfig → ℕ → Advertisement → Option SensorFrame → Store → Store
accept config now adv none s = s
accept config now adv (some d) s =
    if not (d.product_id == sensor_product_id) || is_foreign config.address d.mac
    then s
    else keep_decoded now adv d s

module _ (floats : Floats) (decrypt : Bytes → Bytes → Bytes → Option Bytes)
    (config : SensorConfig) where
  pub process_payload : ℕ → Advertisement → Option Bytes → Store → Store
  process_payload now adv none s = s
  process_payload now adv (some payload) s =
      accept config now adv
        (decode_mibeacon_sensor floats decrypt payload config.bind_key adv.address) s

  pub process_advertisement : ℕ → Advertisement → Store → Store
  process_advertisement now adv s =
      if not config.enabled || is_other config.address adv.address
      then s
      else process_payload now adv adv.payload s

-- A body of a report, with the fields that it has.
pub record SensorReport : Type 0 where
  pub mac : Option Bytes
  pub product_id : Option ℕ
  pub seen_at : Option ℕ
  pub reading : Measurements
  pub rssi : Option ℕ
  pub frame_counter : Option ℕ
  pub raw : Option Bytes
  pub source : List ℕ

pub or_now : ℕ → Option ℕ → ℕ
or_now now none = now
or_now now (some seen) = if seen == 0 then now else seen

pub is_wrong_product : Option ℕ → Bool
is_wrong_product none = false
is_wrong_product (some id) = not (id == sensor_product_id)

-- `is_other` only where the report names a mac.
pub is_other_mac : Option Bytes → Option Bytes → Bool
is_other_mac own none = false
is_other_mac own (some mac) = is_other own (some mac)

-- `none` is a ValueError.
pub external_report : SensorConfig → ℕ → SensorReport → Store → Option Store
external_report config now body s =
    if is_other_mac config.address body.mac || is_wrong_product body.product_id
    then none
    else some (record s {
      reading = update_reading body.reading s.reading;
      rssi = update_field body.rssi s.rssi;
      frame_counter = update_field body.frame_counter s.frame_counter;
      raw = update_field body.raw s.raw;
      mac = update_field body.mac s.mac;
      authenticated = true;
      received_epoch = some (or_now now body.seen_at);
      reports = s.reports + 1;
      source = some (external body.source);
    })

pub age_of : ℕ → Option ℕ → Option ℕ
age_of now none = none
age_of now (some received) = if received == 0 then none else some ((now - received) / 1000)

pub is_fresh : ℕ → Option ℕ → Bool
is_fresh stale_seconds none = false
is_fresh stale_seconds (some age) = leb age stale_seconds

-- `age_seconds` and `available` of the snapshot.
pub age_and_available : SensorConfig → ℕ → Store → Option ℕ × Bool
age_and_available config now s =
    let age = age_of now s.received_epoch in
    (age, is_fresh config.stale_seconds age && has_measurement s.reading)
