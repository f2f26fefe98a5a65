-- ===== src/Base/Bits.antt =====
-- The binary digits of a number, and `&`, `|`, `^`, `& ~` and `<<` by their digits.
pub mod Bounds
use Prim.Native.Nat.{
  ℕ, zero, suc, ◌+◌, ◌-◌, ◌*◌, ◌/◌, ◌%◌, ◌^◌, ◌≤◌, ◌<◌, min, max, bit_and, bit_or, bit_xor, digits,
  differ, bit_and-bitwise, bit_or-bitwise, bit_xor-bitwise,
}
use mathlib.Core.Path.{◌≡◌, refl, ap, ◌∙◌}
use mathlib.Core.Bool.{Bool, not}
use native.Mathlib.Omega.{arith}
use native.Mathlib.Nat.{
  pow-suc, one-mul, one-le-pow, mod-lt, mod-eq_of_lt, div-add-mod, add-mul-mod_self_left,
}
use lan_mi_home.Base.Tests.{◌==◌, if◌then◌else◌}

-- x << k
infixl 60 ◌<<<◌
abbrev pub ◌<<<◌ : ℕ → ℕ → ℕ
x <<< k = x * 2 ^ k

-- x >> k
infixl 60 ◌>>>◌
abbrev pub ◌>>>◌ : ℕ → ℕ → ℕ
x >>> k = x / 2 ^ k

-- x & ~m: the digits of x that m lacks.
unfoldable pub and_not : ℕ → ℕ → ℕ
and_not x m = bit_xor x (bit_and x m)

-- The k-th binary digit.
unfoldable pub bit : ℕ → ℕ → ℕ
bit x zero = x % 2
bit x (suc k) = bit (x / 2) k

-- bool(x & (1 << k))
unfoldable pub test_bit : ℕ → ℕ → Bool
test_bit x k = not (bit_and x (1 <<< k) == 0)

pub bit-lt-two : (x k : ℕ) → bit x k < 2
unfolding bit
bit-lt-two x zero = omega arith
bit-lt-two x (suc k) = bit-lt-two (x / 2) k

-- The native operations count digits with fuel; any two counts that suffice agree.
module _ (z : ℕ → ℕ) (f : ℕ → ℕ → ℕ) where
  enough_digits : (n m x y : ℕ) → x ≤ n → x ≤ m → digits z f n x y ≡ digits z f m x y
  enough_digits zero zero x y _ _ = refl
  enough_digits zero (suc m) zero y _ _ = refl
  enough_digits zero (suc m) (suc x) y p _ = absurd (omega arith)
  enough_digits (suc n) zero zero y _ _ = refl
  enough_digits (suc n) zero (suc x) y _ q = absurd (omega arith)
  enough_digits (suc n) (suc m) zero y _ _ = refl
  enough_digits (suc n) (suc m) (suc x) y p q =
      rw (enough_digits n m (suc x / 2) (y / 2) (omega arith) (omega arith))

  lowest_digit :
      (x y : ℕ)
      → digits z f (suc x) (suc x) y
        ≡ digits z f (suc x / 2) (suc x / 2) (y / 2) * 2 + f (suc x % 2) (y % 2)
  lowest_digit x y =
      omega (arith, enough_digits x (suc x / 2) (suc x / 2) (y / 2) (omega arith) (omega arith))

pub bit_and_step : (x y : ℕ) → bit_and x y ≡ bit_and (x / 2) (y / 2) * 2 + min (x % 2) (y % 2)
bit_and_step zero y = simp bit_and-bitwise (omega arith)
bit_and_step (suc x) y = simp bit_and-bitwise (lowest_digit (λ b. 0) min x y)

pub bit_or_step : (x y : ℕ) → bit_or x y ≡ bit_or (x / 2) (y / 2) * 2 + max (x % 2) (y % 2)
bit_or_step zero y = simp bit_or-bitwise (omega arith)
bit_or_step (suc x) y = simp bit_or-bitwise (lowest_digit (λ b. b) max x y)

pub bit_xor_step : (x y : ℕ) → bit_xor x y ≡ bit_xor (x / 2) (y / 2) * 2 + differ (x % 2) (y % 2)
bit_xor_step zero y = simp bit_xor-bitwise (omega arith)
bit_xor_step (suc x) y = simp bit_xor-bitwise (lowest_digit (λ b. b) differ x y)

pub bit-bit_and : (x y k : ℕ) → bit (bit_and x y) k ≡ min (bit x k) (bit y k)
unfolding bit
bit-bit_and x y zero = omega (arith, bit_and_step x y)
bit-bit_and x y (suc k) =
    let halves : bit_and x y / 2 ≡ bit_and (x / 2) (y / 2) = omega (arith, bit_and_step x y) in
    rw halves (bit-bit_and (x / 2) (y / 2) k)

pub bit-bit_or : (x y k : ℕ) → bit (bit_or x y) k ≡ max (bit x k) (bit y k)
unfolding bit
bit-bit_or x y zero = omega (arith, bit_or_step x y)
bit-bit_or x y (suc k) =
    let halves : bit_or x y / 2 ≡ bit_or (x / 2) (y / 2) = omega (arith, bit_or_step x y) in
    rw halves (bit-bit_or (x / 2) (y / 2) k)

pub differ_bits : (x y : ℕ) → x < 2 → y < 2 → differ x y < 2
differ_bits zero y p q = q
differ_bits (suc zero) zero p q = omega arith
differ_bits (suc zero) (suc y) p q = omega arith
differ_bits (suc (suc x)) y p _ = absurd (omega arith)

pub bit-bit_xor : (x y k : ℕ) → bit (bit_xor x y) k ≡ differ (bit x k) (bit y k)
unfolding bit
bit-bit_xor x y zero =
    omega (arith, bit_xor_step x y, differ_bits (x % 2) (y % 2) (omega arith) (omega arith))
bit-bit_xor x y (suc k) =
    let halves : bit_xor x y / 2 ≡ bit_xor (x / 2) (y / 2) =
      omega (arith, bit_xor_step x y, differ_bits (x % 2) (y % 2) (omega arith) (omega arith)) in
    rw halves (bit-bit_xor (x / 2) (y / 2) k)

differ-min : (x y : ℕ) → x < 2 → y < 2 → differ x (min x y) ≡ (if y == 0 then x else 0)
differ-min zero y _ _ = ground arith
differ-min (suc zero) zero _ _ = refl
differ-min (suc zero) (suc zero) _ _ = refl
differ-min (suc zero) (suc (suc y)) _ q = absurd (omega arith)
differ-min (suc (suc x)) y p _ = absurd (omega arith)

pub bit-and_not : (x m k : ℕ) → bit (and_not x m) k ≡ (if bit m k == 0 then bit x k else 0)
unfolding and_not
bit-and_not x m k =
    rw (bit-bit_xor x (bit_and x m) k, bit-bit_and x m k)
      (differ-min (bit x k) (bit m k) (bit-lt-two x k) (bit-lt-two m k))

bit-zero : (k : ℕ) → bit 0 k ≡ 0
unfolding bit
bit-zero zero = refl
bit-zero (suc k) = bit-zero k

halve_pow : (k : ℕ) → 2 ^ suc k / 2 ≡ 2 ^ k
halve_pow k = omega (arith, pow-suc 2 k)

even_pow : (k : ℕ) → 2 ^ suc k % 2 ≡ 0
even_pow k = omega (arith, pow-suc 2 k)

pub bit-pow : (k j : ℕ) → bit (2 ^ k) j ≡ (if k == j then 1 else 0)
unfolding bit
bit-pow zero zero = refl
bit-pow zero (suc j) = rw (bit-zero j) (ground arith)
bit-pow (suc k) zero = rw (even_pow k) (ground arith)
bit-pow (suc k) (suc j) = rw (halve_pow k) (rw (bit-pow k j) (ground arith))

bit_and-zero : (n x : ℕ) → x ≤ n → bit_and x 0 ≡ 0
bit_and-zero zero zero h = refl
bit_and-zero zero (suc x) h = absurd (omega arith)
bit_and-zero (suc n) zero h = refl
bit_and-zero (suc n) (suc x) h =
    omega (arith, bit_and_step (suc x) 0, bit_and-zero n (suc x / 2) (omega arith))

doubled : (d k : ℕ) → d * 2 ^ suc k ≡ d * 2 ^ k * 2
doubled d k = rw (pow-suc 2 k) (omega arith)

halved : (n : ℕ) → n * 2 / 2 ≡ n
halved n = omega arith

-- x & (1 << k) is the k-th digit at its place.
pub bit_and-pow : (x k : ℕ) → bit_and x (2 ^ k) ≡ bit x k * 2 ^ k
unfolding bit
bit_and-pow x zero = omega (arith, bit_and_step x 1, bit_and-zero (x / 2) (x / 2) (omega arith))
bit_and-pow x (suc k) =
    let low : bit_and x (2 ^ suc k) ≡ bit_and (x / 2) (2 ^ k) * 2 =
      rw (bit_and_step x (2 ^ suc k)) (rw (halve_pow k, even_pow k) (omega arith)) in
    rw low (rw (bit_and-pow (x / 2) k) (omega (arith, doubled (bit (x / 2) k) k)))

-- So the test of a digit reads the digit.
pub test_bit-bit : (x k : ℕ) → test_bit x k ≡ (bit x k == 1)
unfolding test_bit
test_bit-bit x k =
    let place : bit_and x (1 * 2 ^ k) ≡ bit x k * 2 ^ k = rw one-mul (bit_and-pow x k) in
    ground (arith, place, bit-lt-two x k, one-le-pow k 2)

-- Fields that do not overlap add up: low | (high << k).
pub bit_or-low-high : (k q r : ℕ) → r < 2 ^ k → bit_or r (q <<< k) ≡ r + q * 2 ^ k
bit_or-low-high zero q zero h = simp bit_or-bitwise (omega arith)
bit_or-low-high zero q (suc r) h = absurd (omega arith)
bit_or-low-high (suc k) q r h =
    let tail : bit_or (r / 2) (q * 2 ^ k) ≡ r / 2 + q * 2 ^ k =
      bit_or-low-high k q (r / 2) (omega (arith, pow-suc 2 k)) in
    let double : q * 2 ^ suc k ≡ q * 2 ^ k * 2 = doubled q k in
    rw (bit_or_step r (q * 2 ^ suc k), double, halved (q * 2 ^ k), tail) (omega arith)

bit_or-zero : (n x : ℕ) → x ≤ n → bit_or x 0 ≡ x
bit_or-zero n zero h = simp bit_or-bitwise (omega arith)
bit_or-zero zero (suc x) h = absurd (omega arith)
bit_or-zero (suc n) (suc x) h =
    omega (arith, bit_or_step (suc x) 0, bit_or-zero n (suc x / 2) (omega arith))

-- The same with the high field first: (high << k) | low.
pub bit_or-high-low : (k q r : ℕ) → r < 2 ^ k → bit_or (q <<< k) r ≡ q * 2 ^ k + r
bit_or-high-low zero q zero h = rw (bit_or-zero (q * 1) (q * 1) (omega arith)) (omega arith)
bit_or-high-low zero q (suc r) h = absurd (omega arith)
bit_or-high-low (suc k) q r h =
    let tail : bit_or (q * 2 ^ k) (r / 2) ≡ q * 2 ^ k + r / 2 =
      bit_or-high-low k q (r / 2) (omega (arith, pow-suc 2 k)) in
    let double : q * 2 ^ suc k ≡ q * 2 ^ k * 2 = doubled q k in
    rw (bit_or_step (q * 2 ^ suc k) r, double, halved (q * 2 ^ k), tail) (omega arith)

-- The remainder by twice a number, from the remainder of the half.
mod_twice : (x p : ℕ) → 0 < p → x % (p * 2) ≡ x / 2 % p * 2 + x % 2
mod_twice x p h =
    let r : ℕ = x / 2 % p * 2 + x % 2 in
    let small : r < p * 2 = omega (arith, mod-lt (x / 2) h) in
    let regroup : p * 2 * (x / 2 / p) ≡ p * (x / 2 / p) * 2 = grind arith in
    let split : x ≡ r + p * 2 * (x / 2 / p) = omega (arith, regroup, div-add-mod (x / 2) p) in
    ap (λ n. n % (p * 2)) split ∙ add-mul-mod_self_left r (p * 2) (x / 2 / p) ∙ mod-eq_of_lt small

-- x & (2 ** k - 1) keeps the k lowest digits.
pub bit_and-mask : (k x : ℕ) → bit_and x (2 ^ k - 1) ≡ x % 2 ^ k
bit_and-mask zero x = rw (bit_and-zero x x (omega arith)) (omega arith)
bit_and-mask (suc k) x =
    let pos : 0 < 2 ^ k = one-le-pow k 2 (omega arith) in
    let high : (2 ^ k * 2 - 1) / 2 ≡ 2 ^ k - 1 = omega arith in
    let low : (2 ^ k * 2 - 1) % 2 ≡ 1 = omega arith in
    rw (bit_and_step x (2 ^ suc k - 1), pow-suc 2 k, high, low, bit_and-mask k (x / 2))
      (omega (arith, mod_twice x (2 ^ k) pos))
