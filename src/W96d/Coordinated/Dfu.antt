-- ===== src/W96d/Coordinated/Dfu.antt =====
-- router/w96d_coordinated.py: the frames in which the fan answers questions about itself, `_crc8_step`,
-- `_dfu_pack`, `_dfu_request` with its `on_notify`, and `_load_device_info`.
pub mod Frames
mod Tests
use lan_mi_home.Base.{
  ℕ, zero, suc, ◌+◌, ◌*◌, ◌/◌, ◌%◌, ◌^◌, Bool, true, false, not, ◌&&◌, ◌||◌, Option, none, some,
  List, [], ◌∷◌, ◌++◌, ltb, leb, ◌==◌, if◌then◌else◌, length, get_or, take, drop,
}
use lan_mi_home.Base.Bits.{◌<<<◌, ◌>>>◌, test_bit}
use lan_mi_home.Base.Bytes.{Bytes, slice, from_le}
use Prim.Native.Nat.{bit_and, bit_or, bit_xor}

pub crc8_shift : ℕ → ℕ
crc8_shift crc =
    if test_bit crc 7 then bit_and (bit_xor (crc <<< 1) 0x3B) 0xFF else bit_and (crc <<< 1) 0xFF

pub crc8_loop : ℕ → ℕ → ℕ
crc8_loop zero crc = crc
crc8_loop (suc n) crc = crc8_loop n (crc8_shift crc)

pub crc8_table_value : ℕ → ℕ
crc8_table_value value = crc8_loop 8 (bit_and value 0xFF)

pub crc8_step : ℕ → ℕ → ℕ
crc8_step crc value = crc8_table_value (bit_and (bit_xor crc value) 0xFF)

-- The checksum over bytes, from 137.
pub crc8_run : ℕ → Bytes → ℕ
crc8_run crc [] = crc
crc8_run crc (b ∷ bytes) = crc8_run (crc8_step crc b) bytes

pub dfu_pack : Bytes → Bytes
dfu_pack payload =
    let frame : Bytes =
      0x55 ∷ 0 ∷ bit_and (length payload) 0xFF ∷ bit_and (length payload >>> 8) 0xFF ∷ payload in
    frame ++ crc8_run 137 frame ∷ []

-- The variables that `on_notify` keeps between notifications; `result` is the future.
pub record Parser : Type 0 where
  pub stage : ℕ
  pub key : ℕ
  pub mask : ℕ
  pub frame_length : ℕ
  pub rx_payload : Bytes
  pub crc : ℕ
  pub result : Option Bytes

abbrev pub parser : Parser
parser = record {
  stage = 0;
  key = 0;
  mask = 0;
  frame_length = 0;
  rx_payload = [];
  crc = 137;
  result = none;
}

-- result.set_result where it is not done
pub set_result : Bytes → Option Bytes → Option Bytes
set_result payload none = some payload
set_result payload (some before) = some before

-- The length is complete: out of range, the parser waits for another frame.
pub on_length : ℕ → Parser → Parser
on_length total p =
    if not (leb 1 total && leb total 300)
    then record p { frame_length = total; stage = 0 }
    else record p { frame_length = total; rx_payload = []; stage = 4 }

pub on_byte : ℕ → Parser → Parser
on_byte raw p =
    let decoded = bit_xor raw p.mask in
    let crc = crc8_step p.crc decoded in
    if p.stage == 0
    then (if raw == 0x55 then record p { crc = crc8_step 137 0x55; stage = 1 } else p)
    else if p.stage == 1
    then record p { key = raw; mask = crc8_table_value raw; crc = crc8_step p.crc raw; stage = 2 }
    else if p.stage == 2
    then record p { frame_length = decoded; crc = crc; stage = 3 }
    else if p.stage == 3
    then on_length (bit_or p.frame_length (decoded <<< 8)) (record p { crc = crc })
    else if ltb (length p.rx_payload) p.frame_length
    then record p { rx_payload = p.rx_payload ++ decoded ∷ []; crc = crc }
    else if decoded == p.crc
    then record p { result = set_result p.rx_payload p.result; stage = 0 }
    else record p { stage = 0 }

pub on_notify : Bytes → Parser → Parser
on_notify [] p = p
on_notify (raw ∷ bytes) p = on_notify bytes (on_byte raw p)

-- The notifications in the order in which they come.
pub on_notifies : List Bytes → Parser → Parser
on_notifies [] p = p
on_notifies (n ∷ notifications) p = on_notifies notifications (on_notify n p)

-- frame[offset : offset + size] for offset in range(0, len(frame), size); each slice uses up fuel, and
-- as much fuel as the frame has bytes is enough.
pub chunks : ℕ → ℕ → Bytes → List Bytes
chunks size zero frame = []
chunks size (suc fuel) [] = []
chunks size (suc fuel) (b ∷ frame) =
    take size (b ∷ frame) ∷ chunks size fuel (drop size (b ∷ frame))

-- The version is the tens and the ones of a byte.
pub record FanInfo : Type 0 where
  pub serial_number : Option ℕ
  pub firmware_version : Option (ℕ × ℕ)

pub firmware_of : Option Bytes → Option (ℕ × ℕ)
firmware_of none = none
firmware_of (some response) =
    if leb 2 (length response) && (bit_and (get_or response 0 0) 0x7F == 4)
    then some (get_or response 1 0 / 10, get_or response 1 0 % 10)
    else none

pub serial_of : Option Bytes → Option ℕ
serial_of none = none
serial_of (some response) =
    if leb 5 (length response) && (bit_and (get_or response 0 0) 0x7F == 10)
    then some (from_le (slice 1 5 response))
    else none

-- What was found, else what the state had.
pub found_else : {A : Type 0} → Option A → Option A → Option A
found_else none before = before
found_else (some a) before = some a

-- The link: whether it is up, the start of the notifications and a write, which may fail, and the
-- notifications that come within five seconds of the last write, and
-- the end of the notifications.
module _ {D : Type 0} (connected : D → Bool) (start_notify : D → D × Bool)
    (write : Bytes → D → D × Bool) (notified : D → D × List Bytes) (stop_notify : D → D) where
  pub write_chunks : List Bytes → D → D × Bool
  write_chunks [] d = (d, true)
  write_chunks (c ∷ rest) d =
      let (d', done) = write c d in let r = write_chunks rest d' in if done then r else (d', false)

  -- `none` for each exception, that of the timeout included.
  pub dfu_request : Bytes → D → D × Option Bytes
  dfu_request payload d =
      let (d1, started) = start_notify d in
      let frame = dfu_pack payload in
      let (d2, written) = write_chunks (chunks 197 (length frame) frame) d1 in
      let (d3, notifications) = notified d2 in
      if not (connected d)
      then (d, none)
      else if not started
      then (d1, none)
      else if not written
      then (stop_notify d2, none)
      else (stop_notify d3, (on_notifies notifications parser).result)

  -- `has_service` is whether the client lists the service.
  pub load_device_info : (D → Bool) → D → FanInfo → D × FanInfo
  load_device_info has_service d info =
      let (d1, first) = dfu_request (0x8A ∷ []) d in
      let (d2, second) = dfu_request (0x8F ∷ []) d1 in
      if not (connected d) || not (has_service d) then (d, info) else (
        d2,
        record {
          serial_number = found_else (serial_of second) info.serial_number;
          firmware_version = found_else (firmware_of first) info.firmware_version;
        },
      )
