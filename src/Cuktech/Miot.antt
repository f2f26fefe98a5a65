-- ===== src/Cuktech/Miot.antt =====
-- miot.py: the frames of MiotCommandClient, and what it makes of the answers. The encrypted channel is
-- a parameter: a client is given the plaintexts that `_decode_transport` finds, each with the time that
-- has passed when it arrives. Times are in milliseconds.
mod Tests
pub mod Frame
pub mod Answers
use lan_mi_home.Base.{
  ℕ, ◌+◌, ◌-◌, ◌/◌, ◌%◌, ◌^◌, min, Bool, true, false, not, ◌&&◌, ◌||◌, Option, none, some, List, [],
  ◌∷◌, ◌++◌, ltb, leb, ◌==◌, if◌then◌else◌, length, get_or, take, drop, bit_and, bit_or,
}
use lan_mi_home.Base.Bits.{◌<<<◌, ◌>>>◌}
use lan_mi_home.Base.Bytes.{Bytes, slice, from_le, to_le}

-- `_next_seq`: the sequence number, and the one to come.
unfoldable pub next_seq : ℕ → ℕ × ℕ
next_seq seq = let next = bit_and (seq + 1) 0xFF in (seq, if next == 0 then 1 else next)

-- The bytes of `_build_tlv` before the value, and the value.
unfoldable pub tlv : ℕ → ℕ → ℕ → ℕ → ℕ → Bytes → Bytes
tlv seq opcode siid piid type_id value_bytes =
    let type_len = bit_or (type_id <<< 12) (length value_bytes) in
    let total_len = 11 + length value_bytes in
    (bit_and total_len 0xFF
      ∷ 0x20
      ∷ bit_and seq 0xFF
      ∷ 0
      ∷ opcode
      ∷ 1
      ∷ bit_and siid 0xFF
      ∷ bit_and piid 0xFF
      ∷ bit_and (piid >>> 8) 0xFF
      ∷ bit_and type_len 0xFF
      ∷ bit_and (type_len >>> 8) 0xFF
      ∷ [])
    ++ value_bytes

-- Of a value below 2 ** 32, as `set` demands: a larger one would raise.
unfoldable pub build_tlv : ℕ → ℕ → ℕ → Option ℕ → Bytes
build_tlv seq siid piid none = tlv seq 0x02 siid piid 1 (0 ∷ [])
build_tlv seq siid piid (some value) =
    if leb value 0xFF
    then tlv seq 0 siid piid 1 (value ∷ [])
    else tlv seq 0 siid piid 5 (to_le 4 value)

-- `_header`; `none` for the three -1, which no answer is compared equal to.
pub header : Bytes → Option (ℕ × ℕ × ℕ)
header p =
    if ltb (length p) 9
    then none
    else some (get_or p 4 0, get_or p 6 0, bit_or (get_or p 7 0) (get_or p 8 0 <<< 8))

pub extract_get_value : Bytes → Option ℕ
extract_get_value p =
    let value_len = get_or p 11 0 in
    if ltb (length p) 14
    then none
    else if value_len == 0 || ltb (length p) (13 + value_len)
    then none
    else some (from_le (slice 13 (13 + value_len) p))

pub extract_push_value : Bytes → Option ℕ
extract_push_value p =
    let value_len = bit_and (from_le (slice 9 11 p)) 0x0FFF in
    if ltb (length p) 11
    then none
    else if value_len == 0 || ltb (length p) (11 + value_len)
    then none
    else some (from_le (slice 11 (11 + value_len) p))

pub record MiotResult : Type 0 where
  pub siid : ℕ
  pub piid : ℕ
  pub value : Option ℕ
  pub raw : Option Bytes
  pub acknowledged : Bool
  pub deferred_plaintexts : List Bytes

-- MiotResult(siid=…, piid=…, value=…)
abbrev pub result_of : ℕ → ℕ → Option ℕ → MiotResult
result_of siid piid value = record {
  siid = siid;
  piid = piid;
  value = value;
  raw = none;
  acknowledged = false;
  deferred_plaintexts = [];
}

-- The property `ok`.
unfoldable pub is_ok : MiotResult → Bool
is_ok r = r.acknowledged || (elim r.raw [ none ↦ false | some _ ↦ true ])

-- What a turn of the loop of `get` or `set` finds: the time since the call, and the plaintext, if one
-- was read. `quiet`: the wait ran out. `skipped`: a packet without one.
pub data Turn : Type 0 where
  quiet skipped : ℕ → Turn
  arrived : ℕ → Bytes → Turn

pub defer_push : Option (ℕ × ℕ × ℕ) → Bytes → MiotResult → MiotResult
defer_push none p r = r
defer_push (some (opcode, _, _)) p r =
    if opcode == 4 then record r { deferred_plaintexts = r.deferred_plaintexts ++ p ∷ [] } else r

-- Whether an answer is of the property.
pub is_of : ℕ → ℕ → Option (ℕ × ℕ × ℕ) → Bool
is_of siid piid none = false
is_of siid piid (some (_, got_siid, got_piid)) = got_siid == siid && got_piid == piid

pub has_opcode : ℕ → Option (ℕ × ℕ × ℕ) → Bool
has_opcode n none = false
has_opcode n (some (opcode, _, _)) = opcode == n

-- The loop of `get`, on the turns to come: after the last one nothing arrives before the deadline.
unfoldable pub get_loop : ℕ → List Turn → MiotResult → MiotResult
get_loop timeout [] r = r
get_loop timeout (quiet now ∷ turns) r =
    let rest = get_loop timeout turns r in if leb timeout now then r else rest
get_loop timeout (skipped now ∷ turns) r =
    let rest = get_loop timeout turns r in if leb timeout now then r else rest
get_loop timeout (arrived now p ∷ turns) r =
    let h = header p in
    let rest = get_loop timeout turns (defer_push h p r) in
    if has_opcode 3 h && is_of r.siid r.piid h
    then record r { raw = some p; value = extract_get_value p; acknowledged = true }
    else if leb timeout now
    then defer_push h p r
    else rest

-- `get`, on a channel that takes a frame or not, and answers with the turns; and the next number.
pub get : ℕ → ℕ → ℕ → ℕ → (Bytes → Bool × List Turn) → MiotResult × ℕ
unfolding next_seq
get seq siid piid timeout channel =
    let r = result_of siid piid none in
    let (sent, turns) = channel (build_tlv (next_seq seq).0 siid piid none) in
    (if not sent || timeout == 0 then r else get_loop timeout turns r, (next_seq seq).1)

-- An acknowledgement shortens the deadline to a second from now.
pub set_parsed : Option ℕ → MiotResult → MiotResult
set_parsed none r = r
set_parsed (some v) r = record r { value = some v }

-- The loop of `set`.
unfoldable pub set_loop : ℕ → Bool → List Turn → MiotResult → MiotResult
set_loop deadline got_ack [] r = record r { acknowledged = got_ack }
set_loop deadline got_ack (quiet now ∷ turns) r =
    let rest = set_loop deadline got_ack turns r in
    if got_ack
    then record r { acknowledged = true }
    else if leb deadline now
    then record r { acknowledged = got_ack }
    else rest
set_loop deadline got_ack (skipped now ∷ turns) r =
    let rest = set_loop deadline got_ack turns r in
    if leb deadline now then record r { acknowledged = got_ack } else rest
set_loop deadline got_ack (arrived now p ∷ turns) r =
    let h = header p in
    let sooner = min deadline (now + 1000) in
    let acked = set_loop sooner true turns r in
    let rest = set_loop deadline got_ack turns (defer_push h p r) in
    if is_of r.siid r.piid h && has_opcode 1 h
    then (if leb sooner now then record r { acknowledged = true } else acked)
    else if is_of r.siid r.piid h && has_opcode 4 h
    then set_parsed (extract_push_value p) (record r { raw = some p; acknowledged = true })
    else if leb deadline now
    then record (defer_push h p r) { acknowledged = got_ack }
    else rest

-- `set`; `none` is the ValueError.
pub set : ℕ → ℕ → ℕ → ℕ → ℕ → (Bytes → Bool × List Turn) → Option (MiotResult × ℕ)
unfolding next_seq
set seq siid piid value timeout channel =
    let r = result_of siid piid (some value) in
    let (sent, turns) = channel (build_tlv (next_seq seq).0 siid piid (some value)) in
    if ltb 0xFFFFFFFF value
    then none
    else some
        (if not sent || timeout == 0 then r else set_loop timeout false turns r, (next_seq seq).1)
