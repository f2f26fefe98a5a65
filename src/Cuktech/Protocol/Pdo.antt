-- ===== src/Cuktech/Protocol/Pdo.antt =====
-- protocol.py: what PIID 17 and 18 pack into one number, for two ports each.
mod Tests
pub mod Laws
use lan_mi_home.Base.{ℕ, Option, none, some, [], ◌∷◌, bit_and, ◌==◌, if◌then◌else◌}
use lan_mi_home.Base.Bits.{◌>>>◌}
use lan_mi_home.Base.Dict.{Dict, lookup}
use lan_mi_home.Base.Text.{Text, Table}
use lan_mi_home.Cuktech.Protocol.{PdoCap, PdoKind, pdo_kind_by_high_byte}

cap_of : ℕ → Option ℕ
cap_of half = let byte = bit_and half 0xFF in if byte == 0 then none else some byte

kind_of : ℕ → Option PdoKind
unfolding lookup
kind_of half =
    if bit_and half 0xFF == 0
    then none
    else lookup (bit_and (half >>> 8) 0xFF) pdo_kind_by_high_byte

unfoldable pub decode_pdo_caps : ℕ → Text → Text → Table PdoCap
unfolding cap_of kind_of
decode_pdo_caps value high_port low_port =
    let low = bit_and value 0xFFFFFFFF in
    let low_half = bit_and low 0xFFFF in
    let high_half = bit_and (low >>> 16) 0xFFFF in
    (low_port, record { cap = cap_of low_half; kind = kind_of low_half })
    ∷ (high_port, record { cap = cap_of high_half; kind = kind_of high_half })
    ∷ []

-- `none` is the ValueError for any other PIID.
unfoldable pub extract_hw_protocols : ℕ → ℕ → Option (Dict ℕ)
extract_hw_protocols piid value =
    let low = bit_and value 0xFFFFFFFF in
    let first = bit_and (low >>> 24) 0xFF in
    let second = bit_and (low >>> 8) 0xFF in
    if piid == 17
    then some ((1, first) ∷ (2, second) ∷ [])
    else if piid == 18
    then some ((3, first) ∷ (4, second) ∷ [])
    else none
