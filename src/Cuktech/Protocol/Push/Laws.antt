-- ===== src/Cuktech/Protocol/Push/Laws.antt =====
-- protocol.py: what the parsed frames say.
use lan_mi_home.Base.{
  ℕ, ◌-◌, ◌^◌, ◌≤◌, ◌<◌, true, false, not, Option, none, some, List, ◌≡◌, refl, sym, ap, arith, ltb,
  ◌==◌, if◌then◌else◌, length, get_or, drop, take, take_all, length-drop, bit_and,
}
use mathlib.Core.Path.{subst, ◌∙◌}
use lan_mi_home.Base.Dict.{lookup}
use lan_mi_home.Base.Bytes.{
  Bytes, IsBytes, slice, from_le, to_le, hex, to_le-from_le, drop-IsBytes, from_le-lt,
}
use lan_mi_home.Cuktech.Protocol.{PortReading, PropertyPush}
use lan_mi_home.Cuktech.Protocol.Push.{
  Context, piid_of, parse_property_push, from_four, is_port, parse_port_push, parse_port_value,
  hex_or_empty,
}

-- PORT_NAMES lists the ports 1 to 4.
is_port_range : (piid : ℕ) → is_port piid ≡ true → (1 ≤ piid) × (piid ≤ 4)
unfolding is_port lookup
is_port_range piid h = ground arith

from_four-piid :
    (piid : ℕ) (four : Bytes) (h : List ℕ) (ctx : Context) → (from_four piid four h ctx).piid ≡ piid
unfolding from_four
from_four-piid piid four h ctx = refl

-- A reading is of the port that the frame names, one of the four.
pub parse_port_push-piid :
    (p : Bytes) (ctx : Context) (r : PortReading)
    → parse_port_push p ctx ≡ some r
    → (r.piid ≡ piid_of p) × (1 ≤ r.piid) × (r.piid ≤ 4)
unfolding parse_port_push
parse_port_push-piid p ctx r e = ground (
  arith,
  is_port_range (piid_of p),
  from_four-piid (piid_of p) (drop (length p - 4) p) (hex p) ctx,
)

pub parse_port_value-piid :
    (piid value : ℕ) (p : Option Bytes) (ctx : Context) (r : PortReading)
    → parse_port_value piid value p ctx ≡ some r
    → (r.piid ≡ piid) × (1 ≤ r.piid) × (r.piid ≤ 4)
unfolding parse_port_value
parse_port_value-piid piid value p ctx r e =
    ground (arith, is_port_range piid, from_four-piid piid (to_le 4 value) (hex_or_empty p) ctx)

-- What `parse_property_push` finds in a frame that carries a value.
parse_property_push-value :
    (p : Bytes) (push : PropertyPush) (v : ℕ)
    → parse_property_push p ≡ some push
    → push.value ≡ some v
    → (n : ℕ) × (push.raw_value ≡ take n (drop 11 p))
      × (v ≡ from_le push.raw_value)
      × (push.piid ≡ piid_of p)
      × (ltb (length p) 11 ≡ false)
      × ((get_or p 4 0 == 0x04) ≡ true)
unfolding parse_property_push
parse_property_push-value p push v e hv =
    let n = bit_and (from_le (slice 9 11 p)) 0x0FFF in
    (n, ground arith, ground arith, ground arith, ground arith, ground arith)

-- Both decoders, given the four bytes.
abbrev read_tail : ℕ → Bytes → Bytes → Context → Option PortReading
read_tail piid tail p ctx =
    if not (is_port piid) then none else some (from_four piid tail (hex p) ctx)

parse_port_push-tail :
    (p tail : Bytes) (ctx : Context)
    → length p ≡ 15
    → (get_or p 4 0 == 0x04) ≡ true
    → drop (length p - 4) p ≡ tail
    → parse_port_push p ctx ≡ read_tail (piid_of p) tail p ctx
unfolding parse_port_push
parse_port_push-tail p tail ctx len op last =
    let long : ltb (length p) 15 ≡ false = ground arith in rw (long, op, last)

parse_port_value-tail :
    (piid v : ℕ) (p tail : Bytes) (ctx : Context)
    → v < 2 ^ 32
    → to_le 4 v ≡ tail
    → parse_port_value piid v (some p) ctx ≡ read_tail piid tail p ctx
unfolding parse_port_value hex_or_empty
parse_port_value-tail piid v p tail ctx fits back =
    let small : ltb 0xFFFFFFFF v ≡ false = ground arith in rw (back, small) (ground arith)

tail_value_fits :
    (tail : Bytes) (v : ℕ) → length tail ≡ 4 → IsBytes tail → v ≡ from_le tail → v < 2 ^ 32
tail_value_fits tail v len bytes e =
    let below : from_le tail < 256 ^ 4 =
      subst (λ k. from_le tail < 256 ^ k) len (from_le-lt tail bytes) in
    omega arith

-- A report of four bytes that ends with them: the push decoder and the decoder of a value that was
-- asked for read the same state of the port.
pub parse_port_push-eq-parse_port_value :
    (p : Bytes) (push : PropertyPush) (v : ℕ) (ctx : Context)
    → IsBytes p
    → length p ≡ 15
    → parse_property_push p ≡ some push
    → push.value ≡ some v
    → length push.raw_value ≡ 4
    → parse_port_push p ctx ≡ parse_port_value push.piid v (some p) ctx
parse_port_push-eq-parse_port_value p push v ctx bytes len e hv four =
    let (n, raw, val, pid, long, op) = parse_property_push-value p push v e hv in
    let tail : Bytes = drop 11 p in
    let tail_four : length tail ≡ 4 = omega (arith, length-drop {0} 11 p) in
    let whole : push.raw_value ≡ tail =
      raw ∙ take_all n tail (ap length (sym raw) ∙ four ∙ sym tail_four) in
    let value : v ≡ from_le tail = val ∙ ap from_le whole in
    let back : to_le 4 v ≡ tail =
      ap (to_le 4) value
      ∙ ap (λ k. to_le k (from_le tail)) (sym tail_four)
      ∙ to_le-from_le tail (drop-IsBytes 11 p bytes) in
    let fits : v < 2 ^ 32 = tail_value_fits tail v tail_four (drop-IsBytes 11 p bytes) value in
    let last : drop (length p - 4) p ≡ tail = ap (λ k. drop (k - 4) p) len in
    let push_side = parse_port_push-tail p tail ctx len op last in
    push_side
    ∙ sym (
        ap (λ k. parse_port_value k v (some p) ctx) pid
        ∙ parse_port_value-tail (piid_of p) v p tail ctx fits back)
