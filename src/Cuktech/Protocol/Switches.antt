-- ===== src/Cuktech/Protocol/Switches.antt =====
-- protocol.py: the bit field of PIID 21, one switch for each protocol of a port.
mod Tests
pub mod Laws
pub mod Range
use lan_mi_home.Base.{ℕ, Bool, Option, none, some, map, bit_and, bit_or, if◌then◌else◌}
use lan_mi_home.Base.Bits.{◌<<<◌, and_not, test_bit}
use lan_mi_home.Base.Text.{Text, Table, lower, find}
use lan_mi_home.Cuktech.Protocol.{protocol_switch_bits}

-- The two messages of the ValueError.
pub data SwitchError : Type 0 where
  unknown_port : Text → SwitchError
  not_exposed : Text → Text → SwitchError

pub data Result (A : Type 0) : Type 0 where
  ok : A → Result A
  err : SwitchError → Result A

decode_bits : ℕ → Table ℕ → Table Bool
decode_bits value bits = map (λ entry. (entry.0, test_bit value entry.1)) bits

unfoldable pub decode_protocol_extend : ℕ → Table (Table Bool)
unfolding decode_bits
decode_protocol_extend value =
    let low = bit_and value 0xFFFFFFFF in
    map (λ entry. (entry.0, decode_bits low entry.1)) protocol_switch_bits

-- PROTOCOL_SWITCH_BITS[port][protocol], and what a KeyError of it raises: the port is then looked
-- up again, to tell an unknown port from a protocol that the port lacks.
exposed : Text → Text → Option ℕ → Result ℕ
exposed port protocol none = err (not_exposed port protocol)
exposed port protocol (some b) = ok b

pub in_port : Text → Text → Option (Table ℕ) → Result ℕ
unfolding exposed
in_port port protocol none = err (unknown_port port)
in_port port protocol (some bits) = exposed port protocol (find protocol bits)

pub switch_bit : Text → Text → Result ℕ
unfolding in_port
switch_bit port protocol = in_port port protocol (find port protocol_switch_bits)

-- What `set_protocol_switch` makes of the number once the bit is known.
pub write_switch : ℕ → ℕ → Bool → ℕ
write_switch value b enabled =
    let low = bit_and value 0xFFFFFFFF in
    let switched = if enabled then bit_or low (1 <<< b) else and_not low (1 <<< b) in
    bit_or switched (bit_or (1 <<< 3) (1 <<< 11))

unfoldable pub set_protocol_switch : ℕ → Text → Text → Bool → Result ℕ
unfolding switch_bit write_switch
set_protocol_switch value port protocol enabled = elim (switch_bit (lower port) (lower protocol)) [
  | err e ↦ err e
  | ok b ↦ ok (write_switch value b enabled)
]
