-- ===== src/Cuktech/State/Reach.antt =====
-- state.py: the states that the methods reach, from a new charger.
use lan_mi_home.Base.{
  ℕ, ◌≤◌, Option, none, some, ◌≡◌, refl, inl, inr, ltb, leb, not, ◌&&◌, ◌||◌, Bool-cases, length,
}
use lan_mi_home.Base.Bytes.{Bytes}
use mathlib.Core.Path.{subst}
use lan_mi_home.Cuktech.Protocol.{PortReading, PdoCap}
use lan_mi_home.Cuktech.Protocol.Push.{piid_of}
use lan_mi_home.Cuktech.Protocol.Push.Laws.{parse_port_push-piid, parse_port_value-piid}
use lan_mi_home.Cuktech.State.{
  ChargerState, init, apply_setting, apply_port, keep_reading, context, pdo_for_port, decode_with,
  decode_port_push, decode_port_value,
}
use lan_mi_home.Cuktech.State.Valid.{
  IsValid, init-IsValid, apply_setting-IsValid, apply_port-IsValid,
}

-- What a decoder does with a state: nothing, or it files one reading of a port.
pub data Decoded (now : ℕ) (s : ChargerState) : ChargerState × Option PortReading → Type 0 where
  ignored : Decoded now s (s, none)
  read : (r : PortReading) → 1 ≤ r.piid → r.piid ≤ 4 → Decoded now s (apply_port now r s, some r)

decode_with-Decoded :
    (now : ℕ) (s : ChargerState) (parse : Option PdoCap → Option PortReading)
    → ((c : Option PdoCap) (r : PortReading) → parse c ≡ some r → (1 ≤ r.piid) × (r.piid ≤ 4))
    → (pdo : Option (Option PdoCap)) (result : ChargerState × Option PortReading)
    → decode_with now s parse pdo ≡ some result
    → Decoded now s result
unfolding decode_with keep_reading
decode_with-Decoded now s parse of_port none result e = cc
decode_with-Decoded now s parse of_port (some c) result e =
    subst (Decoded now s) (some_path e) (go (parse c) refl)
  where
    some_path : {a b : ChargerState × Option PortReading} → some a ≡ some b → a ≡ b
    some_path h = cc

    go : (found : Option PortReading) → parse c ≡ found → Decoded now s (keep_reading now found s)
    go none h = ignored
    go (some r) h = let (lo, hi) = of_port c r h in read r lo hi

pub decode_port_push-Decoded :
    (now : ℕ) (p : Bytes) (s : ChargerState) (result : ChargerState × Option PortReading)
    → decode_port_push now p s ≡ some result
    → Decoded now s result
unfolding decode_port_push
decode_port_push-Decoded now p s result e =
    elim (Bool-cases (ltb (length p) 9 || not (leb 1 (piid_of p) && ltb (piid_of p) 5))) [
      | inl short ↦ subst (Decoded now s) (let e' = rw short at e in cc) ignored
      | inr long ↦
          decode_with-Decoded now s _
            (λ c r h.
              let (_, lo, hi) = parse_port_push-piid p (context c (piid_of p) s) r h in (lo, hi))
            (pdo_for_port (piid_of p) s) result (rw long at e)
    ]

pub decode_port_value-Decoded :
    (now piid value : ℕ) (p : Option Bytes) (s : ChargerState)
    (result : ChargerState × Option PortReading)
    → decode_port_value now piid value p s ≡ some result
    → Decoded now s result
unfolding decode_port_value
decode_port_value-Decoded now piid value p s result e =
    decode_with-Decoded now s _
      (λ c r h.
        let (_, lo, hi) = parse_port_value-piid piid value p (context c piid s) r h in (lo, hi))
      (pdo_for_port piid s) result e

pub Decoded-IsValid :
    (now : ℕ) (s : ChargerState) (result : ChargerState × Option PortReading)
    → Decoded now s result
    → IsValid s
    → IsValid result.0
Decoded-IsValid now s _ ignored h = h
Decoded-IsValid now s _ (read r lo hi) h = apply_port-IsValid now r s lo hi h

-- The calls that change a state, and the states that they reach from a new one.
pub data Reach : ChargerState → Type 0 where
  new : Reach init
  setting :
      {s : ChargerState} (now piid value : ℕ) → Reach s → Reach (apply_setting now piid value s)
  push :
      {s s' : ChargerState} (now : ℕ) (p : Bytes) (found : Option PortReading)
      → decode_port_push now p s ≡ some (s', found)
      → Reach s
      → Reach s'
  value :
      {s s' : ChargerState} (now piid n : ℕ) (p : Option Bytes) (found : Option PortReading)
      → decode_port_value now piid n p s ≡ some (s', found)
      → Reach s
      → Reach s'

-- Every state that the calls reach satisfies the invariant: a hardware number is known of the ports
-- 1 to 4 only and is not 0, a reading is filed under its own port, a shared reading of port 3 marks the
-- state as shared, and no key is listed twice.
pub Reach-IsValid : {s : ChargerState} → Reach s → IsValid s
Reach-IsValid new = init-IsValid
Reach-IsValid (setting {s} now piid n r) = apply_setting-IsValid now piid n s (Reach-IsValid r)
Reach-IsValid (push {s} {s'} now p found e r) =
    Decoded-IsValid now s (s', found) (decode_port_push-Decoded now p s (s', found) e)
      (Reach-IsValid r)
Reach-IsValid (value {s} {s'} now piid n p found e r) =
    Decoded-IsValid now s (s', found) (decode_port_value-Decoded now piid n p s (s', found) e)
      (Reach-IsValid r)
