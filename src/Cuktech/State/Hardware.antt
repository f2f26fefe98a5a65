-- ===== src/Cuktech/State/Hardware.antt =====
-- state.py: how the hardware protocol numbers are learnt, kept and forgotten, and what uses them.
use lan_mi_home.Base.{
  ℕ, ◌/◌, ◌%◌, ◌^◌, true, false, not, ◌&&◌, ◌||◌, Option, none, some, [], ◌∷◌, ◌≡◌, refl, ap, inl,
  inr, arith, ltb, ◌==◌, if◌then◌else◌, Bool-cases,
}
use lan_mi_home.Base.Dict.{Dict, lookup, insert, lookup-insert, lookup-erase}
use lan_mi_home.Base.Bytes.{Bytes}
use lan_mi_home.Base.Float64.{Float64, plus, round_2}
use lan_mi_home.Cuktech.Protocol.{PortReading}
use lan_mi_home.Cuktech.Protocol.Pdo.Laws.{extract_hw_protocols-17, extract_hw_protocols-18}
use mathlib.Core.Path.{subst}
use lan_mi_home.Cuktech.State.{
  ChargerState, store_protocols, protocol_items, learn_ports, apply_setting, apply_port,
  decode_port_push, sum_power, total_power,
}
use lan_mi_home.Cuktech.State.Valid.{IsValid}
use lan_mi_home.Cuktech.State.Reach.{Decoded, ignored, read, decode_port_push-Decoded}

-- A port's number after a report: 0 leaves what is known.
abbrev pub learnt : ℕ → Option ℕ → Option ℕ
learnt n known = if n == 0 then known else some n

protocol_items-17 :
    (value : ℕ)
    → protocol_items 17 value ≡ (1, value / 2 ^ 24 % 256) ∷ (2, value / 2 ^ 8 % 256) ∷ []
unfolding protocol_items
protocol_items-17 value = rw (extract_hw_protocols-17 value, protocol_items)

protocol_items-18 :
    (value : ℕ)
    → protocol_items 18 value ≡ (3, value / 2 ^ 24 % 256) ∷ (4, value / 2 ^ 8 % 256) ∷ []
unfolding protocol_items
protocol_items-18 value = rw (extract_hw_protocols-18 value, protocol_items)

store_two :
    (p q m n k : ℕ) (hw : Dict ℕ)
    → (p == q) ≡ false
    → lookup k (store_protocols ((p, m) ∷ (q, n) ∷ []) hw) ≡ (
        if k == p
        then learnt m (lookup k hw)
        else if k == q
        then learnt n (lookup k hw)
        else lookup k hw)
unfolding store_protocols
store_two p q m n k hw ne =
    let hw' = if ltb 0 m then insert p m hw else hw in
    ground
      (arith, lookup-insert p k m hw, lookup-insert q k n hw, lookup-insert q k n (insert p m hw))

-- PIID 17 reports ports 1 and 2, and PIID 18 reports ports 3 and 4, by the bytes 3 and 1 of the value. A number
-- that is not 0 replaces what was known of its port; 0 keeps it. No other report touches a number.
pub lookup-apply_setting :
    (now piid value k : ℕ) (s : ChargerState)
    → lookup k (apply_setting now piid value s).hw_protocols ≡ (
        let known = lookup k s.hw_protocols in
        if piid == 17 && k == 1 || piid == 18 && k == 3
        then learnt (value / 2 ^ 24 % 256) known
        else if piid == 17 && k == 2 || piid == 18 && k == 4
        then learnt (value / 2 ^ 8 % 256) known
        else known)
unfolding apply_setting learn_ports
lookup-apply_setting now piid value k s = ground (
  arith,
  protocol_items-17 value,
  protocol_items-18 value,
  store_two 1 2 (value / 2 ^ 24 % 256) (value / 2 ^ 8 % 256) k s.hw_protocols refl,
  store_two 3 4 (value / 2 ^ 24 % 256) (value / 2 ^ 8 % 256) k s.hw_protocols refl,
)

-- The entries of port k once r has been filed.
abbrev Filed : ℕ → ChargerState → ChargerState × Option PortReading → PortReading → Type 0
Filed k s result r =
    (lookup k result.0.hw_protocols
      ≡ (if r.piid == k && not r.active then none else lookup k s.hw_protocols))
    × (lookup k result.0.ports ≡ (if r.piid == k then some r else lookup k s.ports))

lookup-apply_port :
    (now k : ℕ) (s : ChargerState) (r : PortReading)
    → IsValid s
    → Filed k s (apply_port now r s, some r) r
unfolding apply_port
lookup-apply_port now k s r valid = ground (
  arith,
  lookup-erase r.piid k s.hw_protocols valid.hardware.nodup,
  lookup-insert r.piid k r s.ports,
)

Decoded-Filed :
    (now k : ℕ) (s : ChargerState) (result : ChargerState × Option PortReading) (r : PortReading)
    → IsValid s
    → Decoded now s result
    → result.1 ≡ some r
    → Filed k s result r
Decoded-Filed now k s _ r valid ignored e = cc
Decoded-Filed now k s _ r valid (read q lo hi) e =
    let same_reading : q ≡ r = cc in
    subst (λ x. Filed k s (apply_port now q s, some q) x) same_reading
      (lookup-apply_port now k s q valid)

-- A port frame that shows the port idle forgets the number of that port; nothing else about the
-- numbers changes. The reading is filed under its port, and the other readings stay.
pub lookup-decode_port_push :
    (now k : ℕ) (p : Bytes) (s s' : ChargerState) (r : PortReading)
    → IsValid s
    → decode_port_push now p s ≡ some (s', some r)
    → (lookup k s'.hw_protocols
        ≡ (if r.piid == k && not r.active then none else lookup k s.hw_protocols))
      × (lookup k s'.ports ≡ (if r.piid == k then some r else lookup k s.ports))
lookup-decode_port_push now k p s s' r valid e =
    Decoded-Filed now k s (s', some r) r valid (decode_port_push-Decoded now p s (s', some r) e)
      refl

-- The readings of a state, without those of USB-A.
pub without_a : Dict PortReading → Dict PortReading
without_a [] = []
without_a ((piid, r) ∷ ports) =
    let rest = without_a ports in if piid == 4 then rest else (piid, r) ∷ rest

sum_power-without_a :
    (ports : Dict PortReading) (total : Float64)
    → sum_power true ports total ≡ sum_power false (without_a ports) total
unfolding sum_power without_a
sum_power-without_a [] total = refl
sum_power-without_a ((piid, r) ∷ ports) total = elim (Bool-cases (piid == 4)) [
  | inl a ↦ rw a (sum_power-without_a ports total)
  | inr other ↦ rw other (sum_power-without_a ports (plus total r.power))
]

-- While ports 3 and 4 share a supply, the total is that of the state in which A has no reading and
-- nothing is shared, whatever reading of A is kept.
pub total_power-shared :
    (s : ChargerState)
    → s.c3a_shared ≡ true
    → total_power s ≡ total_power (record s { ports = without_a s.ports; c3a_shared = false })
unfolding total_power
total_power-shared s joined = rw joined (ap round_2 (sum_power-without_a s.ports 0))
