-- ===== src/Cuktech/Protocol/Switches/Laws.antt =====
-- protocol.py: what `set_protocol_switch` writes is what `decode_protocol_extend` reads.
use lan_mi_home.Base.{
  ℕ, ◌*◌, ◌^◌, ◌<◌, bit_and, bit_or, Bool, true, false, ◌&&◌, ◌||◌, Option, none, some, ◌≡◌, refl,
  sym, ap, ◌∙◌, arith, ◌==◌, if◌then◌else◌, check_below, check_below_sound, ==_iff, All,
}
use lan_mi_home.Base.Bits.{
  bit, test_bit, and_not, test_bit-bit, bit-lt-two, bit-bit_and, bit-bit_or, bit-and_not, bit-pow,
}
use lan_mi_home.Base.Text.{Text, Table, word, lower, find, find-map, find-All}
use lan_mi_home.Base.Bytes.{same, same_iff}
use native.Mathlib.Nat.{one-mul}
use mathlib.Core.Path.{subst}
use mathlib.Core.Option
use lan_mi_home.Cuktech.Protocol.{protocol_switch_bits}
use lan_mi_home.Cuktech.Protocol.Switches.{
  Result, ok, err, decode_bits, decode_protocol_extend, exposed, in_port, switch_bit, write_switch,
  set_protocol_switch,
}

-- The digits 0 to 31 of a number survive the mask.
mask_table : check_below (λ k. bit 0xFFFFFFFF k == 1) 32 ≡ true
unfolding check_below bit
mask_table = refl

bit-mask32 : (x k : ℕ) → k < 32 → bit (bit_and x 0xFFFFFFFF) k ≡ bit x k
bit-mask32 x k h =
    let one : bit 0xFFFFFFFF k ≡ 1 = (==_iff _ 1).0 (check_below_sound _ 32 mask_table k h) in
    rw (bit-bit_and x 0xFFFFFFFF k, one) (omega (arith, bit-lt-two x k))

-- The two reserved digits.
reserved_table :
    check_below (λ k. bit (bit_or 8 2048) k == (if k == 3 || k == 11 then 1 else 0)) 32 ≡ true
unfolding check_below bit
reserved_table = refl

bit-write_switch :
    (value b : ℕ) (enabled : Bool) (k : ℕ)
    → k < 32
    → bit (write_switch value b enabled) k ≡ (
        if k == 3 || k == 11 then 1 else if b == k then (if enabled then 1 else 0) else bit value k)
unfolding write_switch
bit-write_switch value b enabled k h =
    let low = bit_and value 0xFFFFFFFF in
    let reserved = (==_iff _ _).0 (check_below_sound _ 32 reserved_table k h) in
    ground (
      arith,
      one-mul (2 ^ b),
      bit-mask32 value k h,
      bit-bit_or (bit_or low (1 * 2 ^ b)) 2056 k,
      bit-bit_or (and_not low (1 * 2 ^ b)) 2056 k,
      bit-bit_or low (2 ^ b) k,
      bit-and_not low (2 ^ b) k,
      bit-pow b k,
      bit-lt-two value k,
      reserved,
    )

-- A decoded table read at a port and a protocol.
abbrev pub read_at : Text → Option (Table Bool) → Option Bool
read_at protocol none = none
read_at protocol (some switches) = find protocol switches

abbrev pub switch_at : Text → Text → Table (Table Bool) → Option Bool
switch_at port protocol t = read_at protocol (find port t)

-- The port and the protocol that own a digit.
owner : ℕ → Text × Text
owner b =
    if b == 0
    then (word "c1", word "pd")
    else if b == 1
    then (word "c1", word "pps")
    else if b == 2
    then (word "c1", word "ufcs")
    else if b == 8
    then (word "c2", word "pd")
    else if b == 9
    then (word "c2", word "pps")
    else if b == 10
    then (word "c2", word "ufcs")
    else if b == 16
    then (word "c3", word "ufcs")
    else if b == 17
    then (word "c3", word "scp")
    else if b == 24
    then (word "a", word "ufcs")
    else (word "a", word "scp")

-- What each entry of the table satisfies: its digit has one owner, fits 32 bits and is not reserved.
abbrev IsEntry : Text → Text → ℕ → Type 0
IsEntry port protocol b = (owner b ≡ (port, protocol)) × (b < 32) × ((b == 3 || b == 11) ≡ false)

abbrev IsPortEntry : Text → Table ℕ → Type 0
IsPortEntry port bits = All (λ (entry : Text × ℕ). IsEntry port entry.0 entry.1) bits

entries : All (λ (entry : Text × Table ℕ). IsPortEntry entry.0 entry.1) protocol_switch_bits
unfolding owner
entries = ground arith

exposed-IsEntry :
    (port protocol : Text) (bits : Table ℕ)
    → IsPortEntry port bits
    → (found : Option ℕ) {b : ℕ} → find protocol bits ≡ found
    → exposed port protocol found ≡ ok b
    → IsEntry port protocol b
unfolding exposed
exposed-IsEntry port protocol bits h none p e = cc
exposed-IsEntry port protocol bits h (some d) {b} p e =
    let same_digit : d ≡ b = cc in
    subst (IsEntry port protocol) same_digit (find-All (IsEntry port) bits h protocol p)

in_port-IsEntry :
    (port protocol : Text) (found : Option (Table ℕ)) {b : ℕ}
    → find port protocol_switch_bits ≡ found
    → in_port port protocol found ≡ ok b
    → IsEntry port protocol b
unfolding in_port
in_port-IsEntry port protocol none p e = cc
in_port-IsEntry port protocol (some bits) p e =
    exposed-IsEntry port protocol bits (find-All IsPortEntry protocol_switch_bits entries port p)
      (find protocol bits) refl e

switch_bit-IsEntry :
    (port protocol : Text) {b : ℕ} → switch_bit port protocol ≡ ok b → IsEntry port protocol b
unfolding switch_bit
switch_bit-IsEntry port protocol e =
    in_port-IsEntry port protocol (find port protocol_switch_bits) refl e

-- Two names that own one digit are the same.
switch_bit_injective :
    (port protocol port' protocol' : Text) {b : ℕ}
    → switch_bit port protocol ≡ ok b
    → switch_bit port' protocol' ≡ ok b
    → (port ≡ port') × (protocol ≡ protocol')
switch_bit_injective port protocol port' protocol' e e' =
    let p = switch_bit-IsEntry port protocol e in
    let p' = switch_bit-IsEntry port' protocol' e' in
    (ap (λ (o : Text × Text). o.0) (sym p.0 ∙ p'.0), ap (λ (o : Text × Text). o.1) (sym p.0 ∙ p'.0))

-- The digit of the switch decides what a decoded table holds for it.
abbrev read_digit : ℕ → Result ℕ → Option Bool
read_digit value (err _) = none
read_digit value (ok b) = some (test_bit value b)

read_exposed :
    (value : ℕ) (port protocol : Text) (found : Option ℕ)
    → Option.map (test_bit value) found ≡ read_digit value (exposed port protocol found)
unfolding exposed
read_exposed value port protocol none = refl
read_exposed value port protocol (some b) = refl

read_port :
    (value : ℕ) (port protocol : Text) (found : Option (Table ℕ))
    → read_at protocol (Option.map (decode_bits value) found)
      ≡ read_digit value (in_port port protocol found)
unfolding in_port decode_bits
read_port value port protocol none = refl
read_port value port protocol (some bits) =
    find-map (test_bit value) bits protocol ∙ read_exposed value port protocol (find protocol bits)

switch_at-decode :
    (value : ℕ) (port protocol : Text)
    → switch_at port protocol (decode_protocol_extend value)
      ≡ read_digit (bit_and value 0xFFFFFFFF) (switch_bit port protocol)
unfolding decode_protocol_extend switch_bit
switch_at-decode value port protocol =
    let low = bit_and value 0xFFFFFFFF in
    ap (read_at protocol) (find-map (decode_bits low) protocol_switch_bits port)
    ∙ read_port low port protocol (find port protocol_switch_bits)

-- A switch of the table after a write to another or the same one.
test_bit-write_switch :
    (value b : ℕ) (enabled : Bool) (k : ℕ)
    → k < 32
    → (k == 3 || k == 11) ≡ false
    → test_bit (bit_and (write_switch value b enabled) 0xFFFFFFFF) k
      ≡ (if b == k then enabled else test_bit (bit_and value 0xFFFFFFFF) k)
test_bit-write_switch value b enabled k h free =
    let w = write_switch value b enabled in
    rw
      (
        test_bit-bit (bit_and w 0xFFFFFFFF) k,
        test_bit-bit (bit_and value 0xFFFFFFFF) k,
        bit-mask32 w k h,
        bit-mask32 value k h,
        bit-write_switch value b enabled k h,
        free,
      )
      (ground arith)

written :
    (value : ℕ) (enabled : Bool) (port protocol port' protocol' : Text) (b : ℕ) (r : Result ℕ)
    → switch_bit port protocol ≡ ok b
    → switch_bit port' protocol' ≡ r
    → read_digit (bit_and (write_switch value b enabled) 0xFFFFFFFF) r ≡ (
        if same port port' && same protocol protocol'
        then some enabled
        else read_digit (bit_and value 0xFFFFFFFF) r)
written value enabled port protocol port' protocol' b (err x) e e' =
    ground (arith, same_iff port port', same_iff protocol protocol')
written value enabled port protocol port' protocol' b (ok b') e e' =
    let entry = switch_bit-IsEntry port' protocol' e' in
    let read = test_bit-write_switch value b enabled b' entry.1 entry.2 in
    ground (
      arith,
      read,
      same_iff port port',
      same_iff protocol protocol',
      switch_bit_injective port protocol port' protocol' {b = b} e,
    )

pub set_protocol_switch-eq_ok :
    (value : ℕ) (port protocol : Text) (enabled : Bool) {w : ℕ}
    → set_protocol_switch value port protocol enabled ≡ ok w
    → (b : ℕ) × (switch_bit (lower port) (lower protocol) ≡ ok b)
      × (w ≡ write_switch value b enabled)
unfolding set_protocol_switch
set_protocol_switch-eq_ok value port protocol enabled e = ground arith

-- Reading after a write: the switch that was named has the value that was given, and every other
-- switch reads as before.
pub set_protocol_switch-decode :
    (value : ℕ) (port protocol : Text) (enabled : Bool) {w : ℕ}
    → set_protocol_switch value port protocol enabled ≡ ok w
    → (port' protocol' : Text)
    → switch_at port' protocol' (decode_protocol_extend w) ≡ (
        if same (lower port) port' && same (lower protocol) protocol'
        then some enabled
        else switch_at port' protocol' (decode_protocol_extend value))
unfolding set_protocol_switch
set_protocol_switch-decode value port protocol enabled {w} e port' protocol' =
    let (b, found, made) = set_protocol_switch-eq_ok value port protocol enabled e in
    let other = switch_bit port' protocol' in
    rw (switch_at-decode w port' protocol', switch_at-decode value port' protocol', made)
      (written value enabled (lower port) (lower protocol) port' protocol' b other found refl)

-- A successful call changes one digit of the 32, sets the two reserved ones, and keeps the others.
pub bit-set_protocol_switch :
    (value : ℕ) (port protocol : Text) (enabled : Bool) {w : ℕ}
    → set_protocol_switch value port protocol enabled ≡ ok w
    → (b : ℕ) × (switch_bit (lower port) (lower protocol) ≡ ok b)
      × ((k : ℕ)
          → k < 32
          → bit w k ≡ (
              if k == 3 || k == 11
              then 1
              else if b == k
              then (if enabled then 1 else 0)
              else bit value k))
bit-set_protocol_switch value port protocol enabled e =
    let (b, found, made) = set_protocol_switch-eq_ok value port protocol enabled e in
    (b, found, λ k h. rw made (bit-write_switch value b enabled k h))

pub switch_bit-lt : (port protocol : Text) {b : ℕ} → switch_bit port protocol ≡ ok b → b < 32
switch_bit-lt port protocol found = (switch_bit-IsEntry port protocol found).1
