-- ===== src/Cuktech/Miot/Frame.antt =====
-- miot.py: the numbers and the frames of the commands.
use lan_mi_home.Base.{
  ℕ, zero, suc, ◌+◌, ◌-◌, ◌*◌, ◌/◌, ◌%◌, ◌^◌, ◌≤◌, ◌<◌, false, none, some, [], ◌∷◌, ◌≡◌, ◌∙◌, refl,
  ap, arith, ltb, leb, ◌==◌, length, take, bit_and, bit_or, Bool-cases, inl, inr,
}
use lan_mi_home.Base.Bits.{◌<<<◌, ◌>>>◌, bit_and-mask, bit_or-low-high, bit_or-high-low}
use lan_mi_home.Base.Bytes.{Bytes, from_le, to_le, from_le-to_le}
use lan_mi_home.Cuktech.Miot.{next_seq, tlv, build_tlv, header, extract_push_value}

-- The number that comes after a number of calls.
pub seq_after : ℕ → ℕ
unfolding next_seq
seq_after zero = 1
seq_after (suc n) = (next_seq (seq_after n)).1

low_byte : (x : ℕ) → bit_and x 0xFF ≡ x % 256
low_byte x = bit_and-mask 8 x

-- The numbers run through 1 to 255 and begin again.
pub seq_after_lem : (n : ℕ) → seq_after n ≡ 1 + n % 255
unfolding seq_after next_seq
seq_after_lem zero = refl
seq_after_lem (suc n) = let low = low_byte (seq_after n + 1) in ground (arith, low, seq_after_lem n)

-- The two bytes of a number, read as the decoders read them.
two_bytes : (x : ℕ) → x < 2 ^ 16 → bit_and x 0xFF + 256 * (bit_and (x >>> 8) 0xFF + 256 * 0) ≡ x
two_bytes x small =
    let low = low_byte x in let high = low_byte (x / 256) in rw (low, high) (omega arith)

two_bytes_or : (x : ℕ) → x < 2 ^ 16 → bit_or (bit_and x 0xFF) (bit_and (x >>> 8) 0xFF <<< 8) ≡ x
two_bytes_or x small =
    let low = low_byte x in
    let high = low_byte (x / 256) in
    rw (low, high) (bit_or-low-high 8 (x / 256 % 256) (x % 256) (omega arith) ∙ omega arith)

-- The length beside the type of a value.
type_len_lem :
    (type_id n : ℕ)
    → type_id < 16
    → n < 2 ^ 12
    → (bit_or (type_id <<< 12) n < 2 ^ 16) × (bit_and (bit_or (type_id <<< 12) n) 0x0FFF ≡ n)
type_len_lem type_id n ht hn =
    let field = bit_or-high-low 12 type_id n hn in
    let low = bit_and-mask 12 (type_id * 2 ^ 12 + n) in
    (rw field (omega arith), rw (field, low) (omega arith))

-- A frame with up to 4 bytes of value: its header reads back, and so does the value, as that of a push.
tlv_lem :
    (seq opcode siid piid type_id : ℕ) (value_bytes : Bytes)
    → siid < 256
    → piid < 2 ^ 16
    → type_id < 16
    → 1 ≤ length value_bytes
    → length value_bytes ≤ 4
    → (header (tlv seq opcode siid piid type_id value_bytes) ≡ some (opcode, siid, piid))
      × (extract_push_value (tlv seq opcode siid piid type_id value_bytes)
          ≡ some (from_le (take (length value_bytes) value_bytes)))
unfolding header tlv extract_push_value from_le
tlv_lem seq opcode siid piid type_id value_bytes hs hp ht lo hi =
    let n = length value_bytes in
    let (fits, low12) = type_len_lem type_id n ht (omega arith) in
    let id : bit_and siid 0xFF ≡ siid = low_byte siid ∙ omega arith in
    let found = two_bytes (bit_or (type_id <<< 12) n) fits in
    let nonempty : (n == 0) ≡ false = ground arith in
    let frame : Bytes = tlv seq opcode siid piid type_id value_bytes in
    let size : length frame ≡ 11 + n = omega arith in
    let long : ltb (length frame) 9 ≡ false = ground arith in
    let long' : ltb (length frame) 11 ≡ false = ground arith in
    let there : ltb (length frame) (11 + n) ≡ false = ground arith in
    let cut : 11 + n - 11 ≡ n = omega arith in
    (rw (id, two_bytes_or piid hp) (rw long), rw found (rw (low12, nonempty, long', there, cut)))

one_byte : (value : ℕ) → from_le (take 1 (value ∷ [])) ≡ value
unfolding from_le
one_byte value = omega arith

tlv_four :
    (seq siid piid value : ℕ)
    → siid < 256
    → piid < 2 ^ 16
    → value < 2 ^ 32
    → (header (tlv seq 0 siid piid 5 (to_le 4 value)) ≡ some (0, siid, piid))
      × (extract_push_value (tlv seq 0 siid piid 5 (to_le 4 value)) ≡ some value)
unfolding to_le
tlv_four seq siid piid value hs hp hv =
    let four =
      tlv_lem seq 0 siid piid 5 (to_le 4 value) hs hp (omega arith) (omega arith) (omega arith) in
    (four.0, four.1 ∙ ap some (from_le-to_le 4 value hv))

-- What `set` sends for a value below 2 ** 32: the header reads back as that of a command for the
-- property, and the value reads back as the value of a push would.
pub header-build_tlv :
    (seq siid piid value : ℕ)
    → siid < 256
    → piid < 2 ^ 16
    → value < 2 ^ 32
    → (header (build_tlv seq siid piid (some value)) ≡ some (0, siid, piid))
      × (extract_push_value (build_tlv seq siid piid (some value)) ≡ some value)
      × (header (build_tlv seq siid piid none) ≡ some (2, siid, piid))
unfolding build_tlv
header-build_tlv seq siid piid value hs hp hv =
    let asked =
      tlv_lem seq 2 siid piid 1 (0 ∷ []) hs hp (omega arith) (omega arith) (omega arith) in
    let small =
      tlv_lem seq 0 siid piid 1 (value ∷ []) hs hp (omega arith) (omega arith) (omega arith) in
    let big = tlv_four seq siid piid value hs hp hv in
    elim (Bool-cases (leb value 0xFF)) [
      | inl e ↦ (rw (e, small.0), rw e (small.1 ∙ ap some (one_byte value)), asked.0)
      | inr e ↦ (rw (e, big.0), rw (e, big.1), asked.0)
    ]
