-- ===== src/Cuktech/State/Tests.antt =====
-- Runs of the state of a charger.
use lan_mi_home.Base.{
  ◌/◌, ◌%◌, ◌^◌, ◌≡◌, refl, true, false, not, ◌&&◌, ◌||◌, some, none, [], ◌∷◌, ◌++◌, ◌==◌,
  if◌then◌else◌,
}
use lan_mi_home.Base.Bytes.{Bytes, hex}
use lan_mi_home.Base.Dict.{lookup}
use lan_mi_home.Base.Text.{word}
use lan_mi_home.Cuktech.Protocol.{PortReading, named, no_load}
use lan_mi_home.Cuktech.Protocol.Push.{parse_port_push, is_port, from_four, make_port_reading}
use lan_mi_home.Cuktech.State.{
  ChargerState, init, apply_setting, apply_port, decode_with, pdo_for_port, keep_reading,
  decode_port_push,
}
use lan_mi_home.Cuktech.State.Valid.{IsValid, init-IsValid, apply_setting-IsValid}
use lan_mi_home.Cuktech.State.Reach.{new, setting, Reach-IsValid}
use lan_mi_home.Cuktech.State.Hardware.{learnt, lookup-apply_setting, lookup-decode_port_push}

-- port 1 speaks PD and port 2 speaks PPS.
abbrev both_known : ChargerState
both_known = apply_setting 10 17 0x07140821 init

-- An idle frame of port 1.
abbrev idle_frame : Bytes
idle_frame = 15 ∷ 0x20 ∷ 1 ∷ 0 ∷ 4 ∷ 1 ∷ 2 ∷ 1 ∷ 0 ∷ 4 ∷ 0x50 ∷ 0 ∷ 0x70 ∷ 0 ∷ 0 ∷ []

abbrev idle_c1 : PortReading
idle_c1 = record {
  piid = 1;
  name = word "C1";
  voltage = 0;
  current = 0;
  power = 0;
  active = false;
  status_raw = 0;
  code_raw = 0x70;
  protocol_hint = named (word "idle");
  plaintext_hex = word "0f200100040102010004500070" ++ word "0000";
  protocol_number = none;
  protocol_source = no_load;
  shared = false;
  shared_group = none;
}

idle_c1-decode :
    decode_port_push 20 idle_frame both_known
    ≡ some (apply_port 20 idle_c1 both_known, some idle_c1)
unfolding decode_port_push decode_with pdo_for_port keep_reading parse_port_push is_port from_four
    make_port_reading hex lookup
idle_c1-decode = refl

lookup-decode_port_push_example :
    (lookup 1 (apply_port 20 idle_c1 both_known).hw_protocols
      ≡ (if 1 == 1 && not false then none else lookup 1 both_known.hw_protocols))
    × (lookup 1 (apply_port 20 idle_c1 both_known).ports
        ≡ (if 1 == 1 then some idle_c1 else lookup 1 both_known.ports))
lookup-decode_port_push_example =
    lookup-decode_port_push 20 1 idle_frame both_known (apply_port 20 idle_c1 both_known) idle_c1
      (apply_setting-IsValid 10 17 0x07140821 init init-IsValid) idle_c1-decode

lookup-apply_setting_example : lookup 2 (apply_setting 10 17 0x07140821 init).hw_protocols ≡ (
    if 17 == 17 && 2 == 1 || 17 == 18 && 2 == 3
    then learnt (0x07140821 / 2 ^ 24 % 256) (lookup 2 init.hw_protocols)
    else if 17 == 17 && 2 == 2 || 17 == 18 && 2 == 4
    then learnt (0x07140821 / 2 ^ 8 % 256) (lookup 2 init.hw_protocols)
    else lookup 2 init.hw_protocols)
lookup-apply_setting_example = lookup-apply_setting 10 17 0x07140821 2 init

Reach-IsValid_example : IsValid both_known
Reach-IsValid_example = Reach-IsValid (setting 10 17 0x07140821 new)

abbrev shared_state : ChargerState
shared_state = record init { ports = (4, idle_c1) ∷ []; c3a_shared = true }
