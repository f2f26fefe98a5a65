-- ===== src/Cuktech/State/Valid.antt =====
-- state.py: an invariant of the state of a charger, kept by every method that changes it.
use lan_mi_home.Base.{
  ℕ, ◌≤◌, ◌<◌, Bool, true, false, some, [], ◌∷◌, ◌≡◌, arith, ltb, ◌==◌, if◌then◌else◌, All,
  Bool-cases, ltb→lt, inl, inr,
}
use lan_mi_home.Base.Text.{Text, Table}
use lan_mi_home.Base.Dict.{
  Dict, lookup, insert, erase, HasNodupKeys, lookup-insert, lookup-erase, insert-HasNodupKeys,
  erase-HasNodupKeys,
}
use lan_mi_home.Cuktech.Protocol.{PortReading, PdoCap}
use lan_mi_home.Cuktech.Protocol.Pdo.{extract_hw_protocols}
use lan_mi_home.Cuktech.State.{
  ChargerState, init, store_protocols, protocol_items, learn_ports, apply_setting, apply_port,
}

-- A hardware number is known only of a port, and is not 0.
pub record IsHardware (hw : Dict ℕ) : Type 0 where
  pub nodup : HasNodupKeys hw
  pub at_port : (k n : ℕ) → lookup k hw ≡ some n → (1 ≤ k) × (k ≤ 4) × (0 < n)

-- A reading is filed under its own port; a shared reading of port 3 marks the state as shared.
pub record IsValid (s : ChargerState) : Type 0 where
  pub hardware : IsHardware s.hw_protocols
  pub filed :
      (k : ℕ) (r : PortReading) → lookup k s.ports ≡ some r → (r.piid ≡ k) × (1 ≤ k) × (k ≤ 4)
  pub marked : (r : PortReading) → lookup 3 s.ports ≡ some r → r.shared ≡ true → s.c3a_shared ≡ true
  pub settings_nodup : HasNodupKeys s.settings
  pub ports_nodup : HasNodupKeys s.ports

pub init-IsValid : IsValid init
unfolding lookup
init-IsValid = record {
  hardware = record { nodup = tt; at_port = λ k n h. cc };
  filed = λ k r h. cc;
  marked = λ r h. cc;
  settings_nodup = tt;
  ports_nodup = tt;
}

insert-IsHardware :
    (k n : ℕ) (hw : Dict ℕ) → 1 ≤ k → k ≤ 4 → 0 < n → IsHardware hw → IsHardware (insert k n hw)
insert-IsHardware k n hw lo hi pos h = record {
  nodup = insert-HasNodupKeys k n hw h.nodup;
  at_port = λ j m e. ground (arith, lookup-insert k j n hw, h.at_port j m);
}

erase-IsHardware : (k : ℕ) (hw : Dict ℕ) → IsHardware hw → IsHardware (erase k hw)
erase-IsHardware k hw h = record {
  nodup = erase-HasNodupKeys k hw h.nodup;
  at_port = λ j m e. ground (arith, lookup-erase k j hw h.nodup, h.at_port j m);
}

active_or_erased :
    (active : Bool) (k : ℕ) (hw : Dict ℕ)
    → IsHardware hw
    → IsHardware (if active then hw else erase k hw)
active_or_erased true k hw h = h
active_or_erased false k hw h = erase-IsHardware k hw h

pub apply_port-IsValid :
    (now : ℕ) (r : PortReading) (s : ChargerState)
    → 1 ≤ r.piid
    → r.piid ≤ 4
    → IsValid s
    → IsValid (apply_port now r s)
unfolding apply_port
apply_port-IsValid now r s lo hi h = record {
  hardware = active_or_erased r.active r.piid s.hw_protocols h.hardware;
  filed = λ k q e. ground (arith, lookup-insert r.piid k r s.ports, h.filed k q);
  marked = λ q e sh. ground (arith, lookup-insert r.piid 3 r s.ports, h.marked q);
  settings_nodup = h.settings_nodup;
  ports_nodup = insert-HasNodupKeys r.piid r s.ports h.ports_nodup;
}

-- Each item is of a port.
abbrev IsPortItems : Dict ℕ → Type 0
IsPortItems items = All (λ (item : ℕ × ℕ). (1 ≤ item.0) × (item.0 ≤ 4)) items

store_protocols-IsHardware :
    (items hw : Dict ℕ) → IsPortItems items → IsHardware hw → IsHardware (store_protocols items hw)
unfolding store_protocols
store_protocols-IsHardware [] hw of_ports h = h
store_protocols-IsHardware ((port, proto) ∷ items) hw of_ports h = elim (Bool-cases (ltb 0 proto)) [
  | inl pos ↦ rw pos (
      store_protocols-IsHardware items (insert port proto hw) of_ports.1
        (insert-IsHardware port proto hw of_ports.0.0 of_ports.0.1 (ltb→lt 0 proto pos) h))
  | inr zero_proto ↦ rw zero_proto (store_protocols-IsHardware items hw of_ports.1 h)
]

protocol_items-17 : (value : ℕ) → IsPortItems (protocol_items 17 value)
unfolding protocol_items extract_hw_protocols
protocol_items-17 value = omega arith

protocol_items-18 : (value : ℕ) → IsPortItems (protocol_items 18 value)
unfolding protocol_items extract_hw_protocols
protocol_items-18 value = omega arith

-- The invariant speaks of five fields only.
with_hardware :
    (s : ChargerState) (caps : Table (Table PdoCap)) (hw : Dict ℕ)
    → IsHardware hw
    → IsValid s
    → IsValid (record s { pdo_caps = caps; hw_protocols = hw })
with_hardware s caps hw k h = record {
  hardware = k;
  filed = h.filed;
  marked = h.marked;
  settings_nodup = h.settings_nodup;
  ports_nodup = h.ports_nodup;
}

with_settings :
    (s : ChargerState) (piid value now : ℕ)
    → IsValid s
    → IsValid (record s {
      settings = insert piid value s.settings;
      last_setting_update = insert piid now s.last_setting_update;
    })
with_settings s piid value now h = record {
  hardware = h.hardware;
  filed = h.filed;
  marked = h.marked;
  settings_nodup = insert-HasNodupKeys piid value s.settings h.settings_nodup;
  ports_nodup = h.ports_nodup;
}

learn_ports-IsValid :
    (group high low : Text) (piid value : ℕ) (s : ChargerState)
    → IsPortItems (protocol_items piid value)
    → IsValid s
    → IsValid (learn_ports group high low piid value s)
unfolding learn_ports
learn_ports-IsValid group high low piid value s items h =
    with_hardware s _ _ (store_protocols-IsHardware _ s.hw_protocols items h.hardware) h

pub apply_setting-IsValid :
    (now piid value : ℕ) (s : ChargerState) → IsValid s → IsValid (apply_setting now piid value s)
unfolding apply_setting
apply_setting-IsValid now piid value s h = elim (Bool-cases (piid == 17)) [
  | inl c1c2 ↦ rw c1c2 (
      learn_ports-IsValid _ _ _ 17 value _ (protocol_items-17 value)
        (with_settings s piid value now h))
  | inr other ↦ rw other (elim (Bool-cases (piid == 18)) [
    | inl c3a ↦ rw c3a (
        learn_ports-IsValid _ _ _ 18 value _ (protocol_items-18 value)
          (with_settings s piid value now h))
    | inr none_of_both ↦ rw none_of_both (with_settings s piid value now h)
  ])
]
