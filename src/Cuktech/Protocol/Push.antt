-- ===== src/Cuktech/Protocol/Push.antt =====
-- protocol.py: the frames that report a property or the state of a port.
mod Tests
pub mod Laws
use lan_mi_home.Base.{
  ℕ, ◌+◌, ◌-◌, Bool, true, false, not, ◌&&◌, ◌||◌, Option, none, some, List, [], bit_and, bit_or,
  ltb, ◌==◌, if◌then◌else◌, length, get_or, drop,
}
use lan_mi_home.Base.Bits.{◌<<<◌}
use lan_mi_home.Base.Dict.{lookup}
use lan_mi_home.Base.Text.{Text, Table, word}
use lan_mi_home.Base.Bytes.{Bytes, slice, from_le, to_le, hex}
use lan_mi_home.Base.Float64.{of_ratio, times, round_2}
use lan_mi_home.Cuktech.Protocol.{
  PdoCap, PortReading, PropertyPush, Hint, named, raw_code, ProtocolSource, no_load, hardware,
  heuristic, port_names, protocol_name,
}
use lan_mi_home.Cuktech.Protocol.Estimate.{estimate_protocol_number}

-- plaintext[7] | (plaintext[8] << 8)
abbrev pub piid_of : Bytes → ℕ
piid_of p = bit_or (get_or p 7 0) (get_or p 8 0 <<< 8)

unfoldable pub parse_property_push : Bytes → Option PropertyPush
unfolding from_le
parse_property_push p =
    if ltb (length p) 11 || not (get_or p 4 0 == 0x04)
    then none
    else let siid = get_or p 6 0 in
      let piid = piid_of p in
      let n = bit_and (from_le (slice 9 11 p)) 0x0FFF in
      let raw = slice 11 (11 + n) p in
      if n == 0 || ltb (length p) (11 + n)
      then some (record { siid = siid; piid = piid; value = none; raw_value = []; plaintext = p })
      else some (record {
        siid = siid;
        piid = piid;
        value = some (from_le raw);
        raw_value = raw;
        plaintext = p;
      })

-- What the caller knows besides the frame: the keyword arguments.
pub record Context : Type 0 where
  pub pdo_data : Option PdoCap
  pub protocol_switches : Option (Table (Table Bool))
  pub hw_protocol : Option ℕ

-- The protocol's number, its hint and where it comes from.
hint_of : ℕ → ℕ → Hint
unfolding protocol_name
hint_of n code = if n == 0 then raw_code code else protocol_name (some n)

estimated : ℕ → ℕ → ℕ → Context → ℕ × Hint × ProtocolSource
unfolding hint_of estimate_protocol_number
estimated piid voltage code ctx =
    let n = estimate_protocol_number piid voltage code ctx.pdo_data ctx.protocol_switches in
    (n, hint_of n code, heuristic)

choose_protocol : ℕ → Bool → ℕ → ℕ → Context → Option ℕ → ℕ × Hint × ProtocolSource
unfolding estimated protocol_name
choose_protocol piid false voltage code ctx hw = (0, named (word "idle"), no_load)
choose_protocol piid true voltage code ctx none = estimated piid voltage code ctx
choose_protocol piid true voltage code ctx (some h) =
    if ltb 0 h then (h, protocol_name (some h), hardware) else estimated piid voltage code ctx

-- PORT_NAMES[piid], for a piid that the caller has found in the table
port_name : ℕ → Text
unfolding lookup
port_name piid = elim (lookup piid port_names) [ none ↦ [] | some n ↦ n ]

unfoldable pub make_port_reading : ℕ → ℕ → ℕ → ℕ → ℕ → List ℕ → Context → PortReading
unfolding of_ratio times round_2 choose_protocol port_name
make_port_reading piid status code current_raw voltage_raw plaintext_hex ctx =
    let voltage = of_ratio voltage_raw 10 in
    let current = of_ratio current_raw 10 in
    let active = not (status == 0) || ltb 0 voltage || ltb 0 current in
    let shared = (piid == 3 || piid == 4) && status == 0x11 in
    let (n, hint, source) = choose_protocol piid active voltage code ctx ctx.hw_protocol in
    record {
      piid = piid;
      name = if shared then word "C3+A" else port_name piid;
      voltage = voltage;
      current = current;
      power = round_2 (times voltage current);
      active = active;
      status_raw = status;
      code_raw = code;
      protocol_hint = hint;
      plaintext_hex = plaintext_hex;
      protocol_number = if n == 0 then none else some n;
      protocol_source = source;
      shared = shared;
      shared_group = if shared then some (word "c3+a") else none;
    }

-- Both parsers unpack four bytes: status, code, current, voltage.
unfoldable pub from_four : ℕ → Bytes → List ℕ → Context → PortReading
unfolding make_port_reading
from_four piid four plaintext_hex ctx =
    make_port_reading piid (get_or four 0 0) (get_or four 1 0) (get_or four 2 0) (get_or four 3 0)
      plaintext_hex ctx

unfoldable pub is_port : ℕ → Bool
unfolding lookup
is_port piid = elim (lookup piid port_names) [ none ↦ false | some _ ↦ true ]

unfoldable pub parse_port_push : Bytes → Context → Option PortReading
parse_port_push p ctx =
    if ltb (length p) 15 || not (get_or p 4 0 == 0x04)
    then none
    else if not (is_port (piid_of p))
    then none
    else some (from_four (piid_of p) (drop (length p - 4) p) (hex p) ctx)

-- plaintext.hex() if plaintext else ""
unfoldable pub hex_or_empty : Option Bytes → List ℕ
unfolding hex
hex_or_empty none = []
hex_or_empty (some p) = hex p

-- The value is not negative: it is read from bytes.
unfoldable pub parse_port_value : ℕ → ℕ → Option Bytes → Context → Option PortReading
parse_port_value piid value plaintext ctx =
    if not (is_port piid) || ltb 0xFFFFFFFF value
    then none
    else some (from_four piid (to_le 4 value) (hex_or_empty plaintext) ctx)
