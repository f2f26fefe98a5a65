-- ===== src/Sensor.antt =====
-- router/lanmihome.py: decode_mibeacon_sensor, what a sensor's advertisement says. An address is its
-- bytes, `none` where it is missing or none can be read from it; a mac is printed as its bytes.
pub mod Objects
pub mod Frames
pub mod Store
mod Tests
use lan_mi_home.Base.{
  ℕ, zero, suc, ◌+◌, ◌-◌, ◌^◌, Bool, true, false, not, ◌&&◌, ◌||◌, Option, none, some, List, [],
  ◌∷◌, ◌++◌, bit_and, bit_or, ltb, leb, ◌==◌, if◌then◌else◌, length, get_or, take, drop,
}
use mathlib.Core.List.{reverse}
use mathlib.Core.Option
use lan_mi_home.Base.Bits.{◌<<<◌, test_bit}
use lan_mi_home.Base.Bytes.{Bytes, slice}

abbrev pub sensor_product_id : ℕ
sensor_product_id = 0x55B5

pub u16le : Bytes → ℕ → ℕ
u16le frame offset = bit_or (get_or frame offset 0) (get_or frame (offset + 1) 0 <<< 8)

-- What is measured, with the sign before a number of tenths; `single` is the float of four bytes.
pub data Measure : Type 0 where
  tenths : (negative : Bool) (size : ℕ) → Measure
  whole : ℕ → Measure
  single : Bytes → Measure

-- _s16le(…) / 10.0
pub s16_tenths : ℕ → Measure
s16_tenths value = if test_bit value 15 then tenths true (2 ^ 16 - value) else tenths false value

pub record Measurements : Type 0 where
  pub temperature : Option Measure
  pub humidity : Option Measure
  pub battery : Option ℕ

abbrev pub no_reading : Measurements
no_reading = record { temperature = none; humidity = none; battery = none }

-- Whether the float of four bytes is at least -80 and at most 120, and at least 0 and at most 100: what
-- struct.unpack_from and the comparisons say.
pub record Floats : Type 0 where
  pub is_temperature : Bytes → Bool
  pub is_percentage : Bytes → Bool

module _ (floats : Floats) where
  -- One object, of a type and a value, by the first branch that applies.
  pub apply_object : ℕ → Bytes → Measurements → Measurements
  apply_object kind value r =
      let n = length value in
      if kind == 0x1004 && leb 2 n
      then record r { temperature = some (s16_tenths (u16le value 0)) }
      else if kind == 0x1006 && leb 2 n
      then record r { humidity = some (tenths false (u16le value 0)) }
      else if kind == 0x100A && leb 1 n
      then record r { battery = some (get_or value 0 0) }
      else if kind == 0x100D && leb 4 n
      then record r {
        temperature = some (s16_tenths (u16le value 0));
        humidity = some (tenths false (u16le value 2));
      }
      else if (kind == 0x4801 || kind == 0x4C01) && leb 4 n
      then (if floats.is_temperature (take 4 value)
          then record r { temperature = some (single (take 4 value)) }
          else r)
      else if (kind == 0x4802 || kind == 0x4C02) && leb 1 n
      then (if leb (get_or value 0 0) 100
          then record r { humidity = some (whole (get_or value 0 0)) }
          else r)
      else if (kind == 0x4808 || kind == 0x4C08) && leb 4 n
      then (if floats.is_percentage (take 4 value)
          then record r { humidity = some (single (take 4 value)) }
          else r)
      else if kind == 0x4803 && leb 1 n
      then record r { battery = some (get_or value 0 0) }
      else r

  -- The loop, on the bytes from the offset on. Each object uses up fuel; the bytes' number is enough.
  pub read_objects : ℕ → Bytes → Measurements → Measurements
  read_objects zero plain r = r
  read_objects (suc fuel) (t0 ∷ t1 ∷ n ∷ rest) r =
      let next =
        read_objects fuel (drop n rest) (apply_object (bit_or t0 (t1 <<< 8)) (take n rest) r) in
      if ltb (length rest) n then r else next
  read_objects (suc fuel) plain r = r

-- The dict that is returned, without the copies of the bytes in `plain`.
pub record SensorFrame : Type 0 where
  pub product_id : ℕ
  pub frame_counter : ℕ
  pub mac : Option Bytes
  pub encrypted : Bool
  pub authenticated : Bool
  pub reading : Measurements
  pub raw : Bytes

pub decoded : Bytes → Option Bytes → Bool → Bool → Measurements → SensorFrame
decoded frame mac encrypted authenticated reading = record {
  product_id = u16le frame 2;
  frame_counter = get_or frame 4 0;
  mac = mac;
  encrypted = encrypted;
  authenticated = authenticated;
  reading = reading;
  raw = frame;
}

-- The key of the sensor and the bytes of the nonce, where key_and_mac are known.
pub key_and_mac : Option Bytes → Option Bytes → Option (Bytes × Bytes)
key_and_mac none mac = none
key_and_mac (some key) none = none
key_and_mac (some key) (some mac) = some (key, mac)

-- `decrypt` is AESCCM(key, tag_length=4).decrypt with the associated data 0x11, on a key, a nonce, and
-- the text with its tag; `none` where it raises.
module _ (floats : Floats) (decrypt : Bytes → Bytes → Bytes → Option Bytes) where
  pub decode_plain : Bytes → Option Bytes → Bool → Bytes → SensorFrame
  decode_plain frame mac encrypted plain =
      decoded frame mac encrypted true (read_objects floats (length plain) plain no_reading)

  pub decode_decrypted : Bytes → Option Bytes → Option Bytes → SensorFrame
  decode_decrypted frame mac none = decoded frame mac true false no_reading
  decode_decrypted frame mac (some plain) = decode_plain frame mac true plain

  pub decode_encrypted : Bytes → Option Bytes → ℕ → Option (Bytes × Bytes) → Option SensorFrame
  decode_encrypted frame mac payload_start none = some (decoded frame mac true false no_reading)
  decode_encrypted frame mac payload_start (some (key, mac_nonce)) =
      let cipher_end = length frame - 7 in
      let nonce = mac_nonce ++ (slice 2 5 frame ++ slice cipher_end (cipher_end + 3) frame) in
      let ciphertext = slice payload_start cipher_end frame in
      let tag = drop (length frame - 4) frame in
      if ltb cipher_end payload_start
      then none
      else some (decode_decrypted frame mac (decrypt key nonce (ciphertext ++ tag)))

  pub decode_mibeacon_sensor : Bytes → Option Bytes → Option Bytes → Option SensorFrame
  decode_mibeacon_sensor frame bind_key address =
      let encrypted = test_bit (get_or frame 0 0) 3 in
      let compact_encrypted = encrypted && length frame == 19 in
      let has_capability = test_bit (get_or frame 0 0) 5 in
      let payload_start = if compact_encrypted then 5 else if has_capability then 12 else 11 in
      let mac_nonce =
        if compact_encrypted then Option.map reverse address else some (slice 5 11 frame) in
      let mac = if compact_encrypted then address else some (reverse (slice 5 11 frame)) in
      if ltb (length frame) 5 || not (u16le frame 2 == sensor_product_id)
      then none
      else if not compact_encrypted && ltb (length frame) 11
      then none
      else if encrypted
      then decode_encrypted frame mac payload_start (key_and_mac bind_key mac_nonce)
      else if ltb (length frame) payload_start
      then none
      else some (decode_plain frame mac false (drop payload_start frame))
