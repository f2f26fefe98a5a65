-- ===== src/Sensor/Objects.antt =====
-- router/lanmihome.py: the objects that an advertisement's payload carries, one after another.
use lan_mi_home.Base.{
  ℕ, zero, suc, ◌+◌, ◌≤◌, Bool, true, false, List, [], ◌∷◌, ◌++◌, ◌≡◌, refl, ap, arith, bit_or, ltb,
  length, length-append, take, drop, append_assoc,
}
use lan_mi_home.Base.Bits.{◌<<<◌}
use lan_mi_home.Base.Bytes.{Bytes}
use lan_mi_home.Sensor.{Measurements, Floats, apply_object, read_objects}

-- An object: the two bytes of its type, and its value.
pub record Object : Type 0 where
  pub low : ℕ
  pub high : ℕ
  pub value : Bytes

-- The bytes of objects, each with the length of its value.
abbrev pub written : List Object → Bytes
written [] = []
written (o ∷ objects) = o.low ∷ o.high ∷ length o.value ∷ (o.value ++ written objects)

-- No object begins in the bytes: a part of a head, or a head that claims more than there is.
abbrev pub is_cut : Bytes → Bool
is_cut (t0 ∷ t1 ∷ n ∷ rest) = ltb (length rest) n
is_cut plain = true

pub apply_objects : Floats → List Object → Measurements → Measurements
apply_objects floats [] r = r
apply_objects floats (o ∷ objects) r =
    apply_objects floats objects (apply_object floats (bit_or o.low (o.high <<< 8)) o.value r)

take-length-append : (xs ys : Bytes) → take (length xs) (xs ++ ys) ≡ xs
take-length-append [] ys = refl
take-length-append (x ∷ xs) ys = ap (λ r. x ∷ r) (take-length-append xs ys)

drop-length-append : (xs ys : Bytes) → drop (length xs) (xs ++ ys) ≡ ys
drop-length-append [] ys = refl
drop-length-append (x ∷ xs) ys = drop-length-append xs ys

read_objects-cut :
    (floats : Floats) (fuel : ℕ) (rest : Bytes) (r : Measurements)
    → is_cut rest ≡ true
    → read_objects floats fuel rest r ≡ r
unfolding read_objects
read_objects-cut floats zero rest r cut = refl
read_objects-cut floats (suc fuel) [] r cut = refl
read_objects-cut floats (suc fuel) (t0 ∷ []) r cut = refl
read_objects-cut floats (suc fuel) (t0 ∷ t1 ∷ []) r cut = refl
read_objects-cut floats (suc fuel) (t0 ∷ t1 ∷ n ∷ rest) r cut = rw cut refl

-- With as much fuel as there are bytes, or more, the loop applies every object of a payload once and in
-- order, and stops at bytes in which none begins.
pub read_objects-written :
    (floats : Floats) (objects : List Object) (rest : Bytes) (fuel : ℕ) (r : Measurements)
    → is_cut rest ≡ true
    → length (written objects ++ rest) ≤ fuel
    → read_objects floats fuel (written objects ++ rest) r ≡ apply_objects floats objects r
unfolding apply_objects read_objects
read_objects-written floats [] rest fuel r cut h = read_objects-cut floats fuel rest r cut
read_objects-written floats (o ∷ objects) rest zero r cut h = absurd (omega arith)
read_objects-written floats (o ∷ objects) rest (suc fuel) r cut h =
    let n = length o.value in
    let tail = written objects ++ rest in
    let whole : (o.value ++ written objects) ++ rest ≡ o.value ++ tail =
      append_assoc o.value (written objects) rest in
    let long : length (o.value ++ tail) ≡ n + length tail = length-append o.value tail in
    let fits : ltb (length (o.value ++ tail)) n ≡ false = ground (arith, long) in
    let same_size = ap length whole in
    rw (whole, fits, take-length-append o.value tail, drop-length-append o.value tail)
      (read_objects-written floats objects rest fuel _ cut (omega (arith, long, same_size)))
