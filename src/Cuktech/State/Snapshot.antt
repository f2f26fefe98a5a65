-- ===== src/Cuktech/State/Snapshot.antt =====
-- state.py: `snapshot`, the state as the interface reports it. A number that the source turns into
-- a text for a JSON key is kept as a number.
use lan_mi_home.Base.{
  ℕ, Bool, false, ◌&&◌, Option, none, some, [], ◌∷◌, map, leb, ◌==◌, if◌then◌else◌,
}
use lan_mi_home.Base.Dict.{Dict, lookup}
use lan_mi_home.Base.Text.{Text, Table, word, upper}
use lan_mi_home.Base.Float64.{Float64}
use lan_mi_home.Cuktech.Protocol.{PdoCap, PortReading, named, no_load, port_keys}
use lan_mi_home.Cuktech.State.{ChargerState, port_enabled, total_power, protocol_switches}

pub record PortEntry : Type 0 where
  pub reading : PortReading
  pub enabled : Bool
  pub measurement_suppressed_by : Option Text

pub record Snapshot : Type 0 where
  pub connected : Bool
  pub authenticated : Bool
  pub device_model : Text
  pub firmware_version : Text
  pub miot_version : Text
  pub ports : Table PortEntry
  pub total : Float64
  pub c3a_shared : Bool
  pub settings : Dict ℕ
  pub switches : Table (Table Bool)
  pub hw_protocols : Table ℕ
  pub pdo_caps : Table (Table PdoCap)

-- PORT_KEYS[piid], for a piid of the table
port_key : ℕ → Text
unfolding lookup
port_key piid = elim (lookup piid port_keys) [ none ↦ [] | some key ↦ key ]

-- The entry of a port that has not been read.
idle_reading : ℕ → Bool → PortReading
unfolding port_key upper
idle_reading piid c3a_shared =
    let joined = c3a_shared && piid == 3 in
    record {
      piid = piid;
      name = if joined then word "C3+A" else upper (port_key piid);
      voltage = 0;
      current = 0;
      power = 0;
      active = false;
      status_raw = 0;
      code_raw = 0;
      protocol_hint = named (word "idle");
      plaintext_hex = [];
      protocol_number = none;
      protocol_source = no_load;
      shared = joined;
      shared_group = if joined then some (word "c3+a") else none;
    }

port_entry : ChargerState → ℕ → Text × PortEntry
unfolding idle_reading port_enabled lookup
port_entry s piid = (
  port_key piid,
  record {
    reading = elim (lookup piid s.ports) [ none ↦ idle_reading piid s.c3a_shared | some r ↦ r ];
    enabled = port_enabled piid s;
    measurement_suppressed_by = if s.c3a_shared && piid == 4 then some (word "c3+a") else none;
  },
)

-- sorted(d.items()), by the key; the keys of a dict differ
insert_sorted : ℕ × ℕ → Dict ℕ → Dict ℕ
insert_sorted e [] = e ∷ []
insert_sorted e (f ∷ m) = if leb e.0 f.0 then e ∷ f ∷ m else f ∷ insert_sorted e m

sorted_items : Dict ℕ → Dict ℕ
unfolding insert_sorted
sorted_items [] = []
sorted_items (e ∷ m) = insert_sorted e (sorted_items m)

unfoldable pub snapshot : ChargerState → Snapshot
unfolding port_entry total_power sorted_items protocol_switches
snapshot s = record {
  connected = s.connected;
  authenticated = s.authenticated;
  device_model = s.model;
  firmware_version = s.firmware;
  miot_version = s.miot_version;
  ports = port_entry s 1 ∷ port_entry s 2 ∷ port_entry s 3 ∷ port_entry s 4 ∷ [];
  total = total_power s;
  c3a_shared = s.c3a_shared;
  settings = sorted_items s.settings;
  switches = protocol_switches s;
  hw_protocols = map (λ e. (port_key e.0, e.1)) (sorted_items s.hw_protocols);
  pdo_caps = s.pdo_caps;
}
