-- ===== src/Cuktech/Protocol/Push/Tests.antt =====
-- Runs of the frame decoders.
use lan_mi_home.Base.{◌≡◌, refl, some, none, [], ◌∷◌, arith}
use lan_mi_home.Base.Bytes.{Bytes, from_le}
use lan_mi_home.Cuktech.Protocol.{PropertyPush}
use lan_mi_home.Cuktech.Protocol.Push.{
  Context, parse_property_push, parse_port_push, parse_port_value,
}
use lan_mi_home.Cuktech.Protocol.Push.Laws.{parse_port_push-eq-parse_port_value}

-- port 1 at 9.0 V and 2.0 A.
abbrev c1_frame : Bytes
c1_frame = 15 ∷ 0x20 ∷ 1 ∷ 0 ∷ 4 ∷ 1 ∷ 2 ∷ 1 ∷ 0 ∷ 4 ∷ 0x50 ∷ 1 ∷ 0x70 ∷ 20 ∷ 90 ∷ []

abbrev no_context : Context
no_context = record { pdo_data = none; protocol_switches = none; hw_protocol = none }

abbrev c1_push : PropertyPush
c1_push = record {
  siid = 2;
  piid = 1;
  value = some 0x5A147001;
  raw_value = 1 ∷ 0x70 ∷ 20 ∷ 90 ∷ [];
  plaintext = c1_frame;
}

c1_frame-parse : parse_property_push c1_frame ≡ some c1_push
unfolding parse_property_push from_le
c1_frame-parse = refl

parse_port_push-eq-parse_port_value_example :
    parse_port_push c1_frame no_context ≡ parse_port_value 1 0x5A147001 (some c1_frame) no_context
parse_port_push-eq-parse_port_value_example =
    parse_port_push-eq-parse_port_value c1_frame c1_push 0x5A147001 no_context (omega arith) refl
      c1_frame-parse refl refl
