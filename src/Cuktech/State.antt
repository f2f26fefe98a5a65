-- ===== src/Cuktech/State.antt =====
-- state.py: what is known of one charger. A reading of `monotonic()` is an argument, in ticks.
mod Tests
pub mod Valid
pub mod Reach
pub mod Hardware
pub mod Snapshot
pub mod Shown
use lan_mi_home.Base.{
  ℕ, ◌-◌, Bool, true, false, not, ◌&&◌, ◌||◌, Option, none, some, [], ◌∷◌, ltb, leb, ◌==◌,
  if◌then◌else◌, length,
}
use lan_mi_home.Base.Bits.{test_bit}
use lan_mi_home.Base.Dict.{Dict, lookup, insert, erase}
use lan_mi_home.Base.Text.{Text, Table, word, find, assign}
use lan_mi_home.Base.Bytes.{Bytes}
use lan_mi_home.Base.Float64.{Float64, plus, round_2}
use lan_mi_home.Cuktech.Protocol.{PdoCap, PortReading, port_keys}
use lan_mi_home.Cuktech.Protocol.Switches.{decode_protocol_extend}
use lan_mi_home.Cuktech.Protocol.Pdo.{decode_pdo_caps, extract_hw_protocols}
use lan_mi_home.Cuktech.Protocol.Push.{Context, piid_of, parse_port_push, parse_port_value}

pub record ChargerState : Type 0 where
  pub connected : Bool
  pub authenticated : Bool
  pub model : Text
  pub firmware : Text
  pub miot_version : Text
  pub settings : Dict ℕ
  pub ports : Dict PortReading
  pub pdo_caps : Table (Table PdoCap)
  pub hw_protocols : Dict ℕ
  pub last_port_update : Dict ℕ
  pub last_setting_update : Dict ℕ
  pub c3a_shared : Bool

abbrev pub init : ChargerState
init = record {
  connected = false;
  authenticated = false;
  model = [];
  firmware = [];
  miot_version = [];
  settings = [];
  ports = [];
  pdo_caps = [];
  hw_protocols = [];
  last_port_update = [];
  last_setting_update = [];
  c3a_shared = false;
}

-- settings.get(21, 0)
protocol_extend : ChargerState → ℕ
unfolding lookup
protocol_extend s = elim (lookup 21 s.settings) [ none ↦ 0 | some v ↦ v ]

pub protocol_switches : ChargerState → Table (Table Bool)
unfolding protocol_extend decode_protocol_extend
protocol_switches s = decode_protocol_extend (protocol_extend s)

-- for port, proto in …items(): if proto > 0: self.hw_protocols[port] = proto
store_protocols : Dict ℕ → Dict ℕ → Dict ℕ
unfolding insert
store_protocols [] hw = hw
store_protocols ((port, proto) ∷ items) hw =
    store_protocols items (if ltb 0 proto then insert port proto hw else hw)

-- extract_hw_protocols(piid, value).items(): called for 17 and 18, where there is no ValueError
protocol_items : ℕ → ℕ → Dict ℕ
protocol_items piid value = elim (extract_hw_protocols piid value) [ none ↦ [] | some d ↦ d ]

-- The part of `apply_setting` for PIID 17 and 18.
learn_ports : Text → Text → Text → ℕ → ℕ → ChargerState → ChargerState
learn_ports group high low piid value s = record s {
  pdo_caps = assign group (decode_pdo_caps value high low) s.pdo_caps;
  hw_protocols = store_protocols (protocol_items piid value) s.hw_protocols;
}

pub apply_setting : ℕ → ℕ → ℕ → ChargerState → ChargerState
unfolding learn_ports
apply_setting now piid value s =
    let stored = record s {
      settings = insert piid value s.settings;
      last_setting_update = insert piid now s.last_setting_update;
    } in
    if piid == 17
    then learn_ports (word "c1c2") (word "c1") (word "c2") 17 value stored
    else if piid == 18
    then learn_ports (word "c3a") (word "c3") (word "a") 18 value stored
    else stored

pub apply_port : ℕ → PortReading → ChargerState → ChargerState
apply_port now reading s = record s {
  ports = insert reading.piid reading s.ports;
  last_port_update = insert reading.piid now s.last_port_update;
  hw_protocols = if reading.active then s.hw_protocols else erase reading.piid s.hw_protocols;
  c3a_shared =
      if reading.piid == 3
      then reading.shared
      else if reading.piid == 4 && reading.shared
      then true
      else s.c3a_shared;
}

-- pdo_caps.get(group, {}).get(key)
pdo_in : Text → Text → ChargerState → Option PdoCap
unfolding find
pdo_in group key s = elim (find group s.pdo_caps) [ none ↦ none | some t ↦ find key t ]

-- `none` is the KeyError of PORT_KEYS[piid].
pdo_for_port : ℕ → ChargerState → Option (Option PdoCap)
unfolding pdo_in lookup
pdo_for_port piid s = elim (lookup piid port_keys) [
  | none ↦ none
  | some key ↦ some (pdo_in (if piid == 1 || piid == 2 then word "c1c2" else word "c3a") key s)
]

-- The keyword arguments that both decoders pass.
context : Option PdoCap → ℕ → ChargerState → Context
unfolding protocol_switches lookup
context pdo piid s = record {
  pdo_data = pdo;
  protocol_switches = some (protocol_switches s);
  hw_protocol = lookup piid s.hw_protocols;
}

-- if reading: self.apply_port(reading)
keep_reading : ℕ → Option PortReading → ChargerState → ChargerState × Option PortReading
keep_reading now none s = (s, none)
keep_reading now (some r) s = (apply_port now r s, some r)

-- Both decoders: the outer `none` is the KeyError.
decode_with :
    ℕ
    → ChargerState
    → (Option PdoCap → Option PortReading)
    → Option (Option PdoCap)
    → Option (ChargerState × Option PortReading)
decode_with now s parse none = none
decode_with now s parse (some pdo) = some (keep_reading now (parse pdo) s)

pub decode_port_push : ℕ → Bytes → ChargerState → Option (ChargerState × Option PortReading)
decode_port_push now plaintext s =
    let piid = piid_of plaintext in
    if ltb (length plaintext) 9 || not (leb 1 piid && ltb piid 5)
    then some (s, none)
    else decode_with now s (λ pdo. parse_port_push plaintext (context pdo piid s))
        (pdo_for_port piid s)

pub decode_port_value :
    ℕ → ℕ → ℕ → Option Bytes → ChargerState → Option (ChargerState × Option PortReading)
decode_port_value now piid value plaintext s =
    decode_with now s (λ pdo. parse_port_value piid value plaintext (context pdo piid s))
      (pdo_for_port piid s)

-- bool(settings.get(16, 0x0F) & (1 << (piid - 1))), for the ports 1 to 4
pub port_enabled : ℕ → ChargerState → Bool
unfolding test_bit lookup
port_enabled piid s =
    test_bit (elim (lookup 16 s.settings) [ none ↦ 0x0F | some mask ↦ mask ]) (piid - 1)

-- The loop of `total_power`, from the sum so far.
sum_power : Bool → Dict PortReading → Float64 → Float64
unfolding plus
sum_power shared [] total = total
sum_power shared ((piid, r) ∷ ports) total =
    sum_power shared ports (if shared && piid == 4 then total else plus total r.power)

pub total_power : ChargerState → Float64
unfolding sum_power round_2
total_power s = round_2 (sum_power s.c3a_shared s.ports 0)
