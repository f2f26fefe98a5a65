-- ===== src/Cuktech/Protocol/Switches/Range.antt =====
-- protocol.py: the number that `set_protocol_switch` makes has 32 bits.
use lan_mi_home.Base.{
  ℕ, ◌*◌, ◌^◌, ◌<◌, Bool, true, false, bit_and, bit_or, none, some, Option-cases, inl, inr, ◌≡◌,
  ◌∙◌, ap, refl, arith, ltb, ltb→lt, if◌then◌else◌, check_below, check_below_sound,
}
use lan_mi_home.Base.Bits.{and_not, bit_and-mask}
use lan_mi_home.Base.Bits.Bounds.{bit_or-lt, and_not-lt}
use lan_mi_home.Base.Text.{Text, Table, find, lower, lower-lower}
use lan_mi_home.Cuktech.Protocol.{protocol_switch_bits}
use native.Mathlib.Nat.{one-mul}
use lan_mi_home.Cuktech.Protocol.Switches.{
  Result, ok, err, switch_bit, in_port, write_switch, set_protocol_switch,
}
use lan_mi_home.Cuktech.Protocol.Switches.Laws.{set_protocol_switch-eq_ok, switch_bit-lt}

power_table : check_below (λ k. ltb (2 ^ k) (2 ^ 32)) 32 ≡ true
unfolding check_below
power_table = refl

write_switch-lt : (value b : ℕ) (enabled : Bool) → b < 32 → write_switch value b enabled < 2 ^ 32
unfolding write_switch
write_switch-lt value b enabled h =
    let low = bit_and value 0xFFFFFFFF in
    let small : low < 2 ^ 32 = omega (arith, bit_and-mask 32 value) in
    let place : 2 ^ b < 2 ^ 32 = ltb→lt _ _ (check_below_sound _ 32 power_table b h) in
    let shifted : 1 * 2 ^ b < 2 ^ 32 = rw one-mul place in
    elim enabled
      as (λ on.
        bit_or (if on then bit_or low (1 * 2 ^ b) else and_not low (1 * 2 ^ b)) 2056 < 2 ^ 32) [
          | true ↦ bit_or-lt 32 _ 2056 (bit_or-lt 32 low (1 * 2 ^ b) small shifted) (omega arith)
          | false ↦ bit_or-lt 32 _ 2056 (and_not-lt 32 low (1 * 2 ^ b) small) (omega arith)
        ]

pub set_protocol_switch-lt :
    (value : ℕ) (port protocol : Text) (enabled : Bool) {w : ℕ}
    → set_protocol_switch value port protocol enabled ≡ ok w
    → w < 2 ^ 32
set_protocol_switch-lt value port protocol enabled e =
    let (b, found, made) = set_protocol_switch-eq_ok value port protocol enabled e in
    rw made (write_switch-lt value b enabled (switch_bit-lt (lower port) (lower protocol) found))

missing :
    {A : Type 0} (port protocol : Text) {b : ℕ}
    → find port protocol_switch_bits ≡ none
    → switch_bit port protocol ≡ ok b
    → A
unfolding switch_bit in_port
missing port protocol unknown found =
    let e : in_port port protocol none ≡ ok _ = rw unknown at found in cc

pub known_port :
    (value : ℕ) (port protocol : Text) (enabled : Bool) {w : ℕ}
    → set_protocol_switch value port protocol enabled ≡ ok w
    → (bits : Table ℕ) × (find (lower port) protocol_switch_bits ≡ some bits)
known_port value port protocol enabled e =
    let (b, found, made) = set_protocol_switch-eq_ok value port protocol enabled e in
    elim (Option-cases (find (lower port) protocol_switch_bits)) [
      | inl unknown ↦ missing (lower port) (lower protocol) unknown found
      | inr known ↦ known
    ]

-- The names may be in lower case already.
pub set_protocol_switch-lower :
    (value : ℕ) (port protocol : Text) (enabled : Bool)
    → set_protocol_switch value (lower port) (lower protocol) enabled
      ≡ set_protocol_switch value port protocol enabled
unfolding set_protocol_switch
set_protocol_switch-lower value port protocol enabled =
    let made : Text → Text → Result ℕ =
      λ p q. elim (switch_bit p q) [ err e ↦ err e | ok b ↦ ok (write_switch value b enabled) ] in
    ap (λ p. made p (lower (lower protocol))) (lower-lower port)
    ∙ ap (λ q. made (lower port) q) (lower-lower protocol)
