-- ===== src/Cuktech/Protocol/Pdo/Laws.antt =====
-- protocol.py: the four bytes of PIID 17 and 18, as arithmetic.
use lan_mi_home.Base.{
  ℕ, ◌/◌, ◌%◌, ◌^◌, ◌<◌, none, some, [], ◌∷◌, ◌≡◌, ◌∙◌, refl, arith, bit_and, ◌==◌, if◌then◌else◌,
}
use lan_mi_home.Base.Bits.{bit_and-mask}
use lan_mi_home.Base.Dict.{lookup}
use lan_mi_home.Base.Text.{Text}
use lan_mi_home.Cuktech.Protocol.{PdoCap, pdo_kind_by_high_byte}
use lan_mi_home.Cuktech.Protocol.Pdo.{cap_of, kind_of, decode_pdo_caps, extract_hw_protocols}

-- (value >> k) & 0xFF after the mask to 32 bits
byte_at : (value k : ℕ) → bit_and (value / k) 0xFF ≡ value / k % 256
byte_at value k = bit_and-mask 8 (value / k)

pub extract_hw_protocols-17 :
    (value : ℕ)
    → extract_hw_protocols 17 value
      ≡ some ((1, value / 2 ^ 24 % 256) ∷ (2, value / 2 ^ 8 % 256) ∷ [])
unfolding extract_hw_protocols
extract_hw_protocols-17 value =
    rw (bit_and-mask 32 value)
      (rw (byte_at (value % 2 ^ 32) (2 ^ 24), byte_at (value % 2 ^ 32) (2 ^ 8)) (ground arith))

pub extract_hw_protocols-18 :
    (value : ℕ)
    → extract_hw_protocols 18 value
      ≡ some ((3, value / 2 ^ 24 % 256) ∷ (4, value / 2 ^ 8 % 256) ∷ [])
unfolding extract_hw_protocols
extract_hw_protocols-18 value =
    rw (bit_and-mask 32 value)
      (rw (byte_at (value % 2 ^ 32) (2 ^ 24), byte_at (value % 2 ^ 32) (2 ^ 8)) (ground arith))

-- The entry of a port whose cap byte and kind byte are known.
abbrev pub entry_of : ℕ → ℕ → PdoCap
entry_of cap kind = record {
  cap = if cap == 0 then none else some cap;
  kind = if cap == 0 then none else lookup kind pdo_kind_by_high_byte;
}

half_entry :
    (half : ℕ)
    → half < 2 ^ 16
    → (cap_of half ≡ (entry_of (half % 256) (half / 256)).cap)
      × (kind_of half ≡ (entry_of (half % 256) (half / 256)).kind)
unfolding cap_of kind_of
half_entry half h =
    let top : half / 256 % 256 ≡ half / 256 = omega arith in
    rw (bit_and-mask 8 half, byte_at half 256, top) (refl, refl)

decoded_halves :
    (value : ℕ) (high_port low_port : Text)
    → let lo : ℕ = value % 2 ^ 16 in
      let hi : ℕ = value / 2 ^ 16 % 2 ^ 16 in
      decode_pdo_caps value high_port low_port
      ≡ (low_port, entry_of (lo % 256) (lo / 256))
        ∷ (high_port, entry_of (hi % 256) (hi / 256))
        ∷ []
unfolding decode_pdo_caps
decoded_halves value high_port low_port =
    let lo : ℕ = value % 2 ^ 16 in
    let hi : ℕ = value / 2 ^ 16 % 2 ^ 16 in
    let low_half : value % 2 ^ 32 % 2 ^ 16 ≡ lo = omega arith in
    let high_half : value % 2 ^ 32 / 2 ^ 16 % 2 ^ 16 ≡ hi = omega arith in
    let low_entry = half_entry lo (omega arith) in
    let high_entry = half_entry hi (omega arith) in
    rw (bit_and-mask 32 value) (
      rw (bit_and-mask 16 (value % 2 ^ 32), bit_and-mask 16 (value % 2 ^ 32 / 2 ^ 16))
        (rw (low_half, high_half) (rw (low_entry.0, low_entry.1, high_entry.0, high_entry.1))))

-- The numbers of a frame's two ports, from the frame itself.
first_second :
    (value first second : ℕ)
    → extract_hw_protocols 17 value ≡ some ((1, first) ∷ (2, second) ∷ [])
    → (first ≡ value / 2 ^ 24 % 256) × (second ≡ value / 2 ^ 8 % 256)
first_second value first second e = ground (arith, extract_hw_protocols-17 value)

-- The byte that names a port's kind of PDO is the number of its hardware protocol.
pub decode_pdo_caps-hw_protocols :
    (value first second : ℕ) (high_port low_port : Text)
    → extract_hw_protocols 17 value ≡ some ((1, first) ∷ (2, second) ∷ [])
    → decode_pdo_caps value high_port low_port
      ≡ (low_port, entry_of (value % 256) second)
        ∷ (high_port, entry_of (value / 2 ^ 16 % 256) first)
        ∷ []
decode_pdo_caps-hw_protocols value first second high_port low_port e =
    let (is_first, is_second) = first_second value first second e in
    let low_cap : value % 2 ^ 16 % 256 ≡ value % 256 = omega arith in
    let low_kind : value % 2 ^ 16 / 256 ≡ second = omega arith in
    let high_cap : value / 2 ^ 16 % 2 ^ 16 % 256 ≡ value / 2 ^ 16 % 256 = omega arith in
    let high_kind : value / 2 ^ 16 % 2 ^ 16 / 256 ≡ first = omega arith in
    decoded_halves value high_port low_port ∙ rw (low_cap, low_kind, high_cap, high_kind)
