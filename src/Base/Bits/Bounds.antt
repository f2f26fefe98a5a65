-- ===== src/Base/Bits/Bounds.antt =====
-- What a mask undoes, and the digits that `&`, `|`, `^` and `& ~` stay below.
use Prim.Native.Nat.{
  ℕ, zero, suc, ◌+◌, ◌/◌, ◌%◌, ◌^◌, ◌≤◌, ◌<◌, bit_and, bit_or, bit_xor, differ, bit_and-bitwise,
  bit_xor-bitwise,
}
use mathlib.Core.Path.{◌≡◌, refl}
use native.Mathlib.Omega.{arith}
use native.Mathlib.Nat.{pow-suc}
use lan_mi_home.Base.Bits.{and_not, bit_and_step, bit_or_step, bit_xor_step, differ_bits}

differ-differ : (x y : ℕ) → x < 2 → y < 2 → differ (differ x y) y ≡ x
differ-differ zero zero p q = refl
differ-differ zero (suc zero) p q = refl
differ-differ (suc zero) zero p q = refl
differ-differ (suc zero) (suc zero) p q = refl
differ-differ x (suc (suc y)) p q = absurd (omega arith)
differ-differ (suc (suc x)) y p q = absurd (omega arith)

bit_xor-bit_xor-bounded : (n x y : ℕ) → x ≤ n → y ≤ n → bit_xor (bit_xor x y) y ≡ x
bit_xor-bit_xor-bounded zero zero zero p q = refl
bit_xor-bit_xor-bounded zero (suc x) y p q = absurd (omega arith)
bit_xor-bit_xor-bounded zero x (suc y) p q = absurd (omega arith)
bit_xor-bit_xor-bounded (suc n) x y p q =
    let small = differ_bits (x % 2) (y % 2) (omega arith) (omega arith) in
    let half : bit_xor x y / 2 ≡ bit_xor (x / 2) (y / 2) = omega (arith, bit_xor_step x y, small) in
    let low : bit_xor x y % 2 ≡ differ (x % 2) (y % 2) = omega (arith, bit_xor_step x y, small) in
    rw
      (
        bit_xor_step (bit_xor x y) y,
        half,
        low,
        bit_xor-bit_xor-bounded n (x / 2) (y / 2) (omega arith) (omega arith),
        differ-differ (x % 2) (y % 2) (omega arith) (omega arith),
      )
      (omega arith)

-- A mask undoes itself.
pub bit_xor-bit_xor : (x y : ℕ) → bit_xor (bit_xor x y) y ≡ x
bit_xor-bit_xor x y = bit_xor-bit_xor-bounded (x + y) x y (omega arith) (omega arith)

differ-zero : (x : ℕ) → x < 2 → differ x 0 ≡ x
differ-zero zero h = refl
differ-zero (suc zero) h = refl
differ-zero (suc (suc x)) h = absurd (omega arith)

bit_xor-zero-bounded : (n x : ℕ) → x ≤ n → bit_xor x 0 ≡ x
bit_xor-zero-bounded n zero h = simp bit_xor-bitwise (omega arith)
bit_xor-zero-bounded zero (suc x) h = absurd (omega arith)
bit_xor-zero-bounded (suc n) (suc x) h =
    let low : differ (suc x % 2) 0 ≡ suc x % 2 = differ-zero (suc x % 2) (omega arith) in
    rw (bit_xor_step (suc x) 0, bit_xor-zero-bounded n (suc x / 2) (omega arith), low) (omega arith)

pub bit_xor-zero : (x : ℕ) → bit_xor x 0 ≡ x
bit_xor-zero x = bit_xor-zero-bounded x x (omega arith)

pub bit_or-lt : (k x y : ℕ) → x < 2 ^ k → y < 2 ^ k → bit_or x y < 2 ^ k
bit_or-lt zero zero zero p q = omega arith
bit_or-lt zero (suc x) y p q = absurd (omega arith)
bit_or-lt zero zero (suc y) p q = absurd (omega arith)
bit_or-lt (suc k) x y p q = omega (
  arith,
  pow-suc 2 k,
  bit_or_step x y,
  bit_or-lt k (x / 2) (y / 2) (omega (arith, pow-suc 2 k)) (omega (arith, pow-suc 2 k)),
)

pub bit_xor-lt : (k x y : ℕ) → x < 2 ^ k → y < 2 ^ k → bit_xor x y < 2 ^ k
bit_xor-lt zero zero zero p q = omega arith
bit_xor-lt zero (suc x) y p q = absurd (omega arith)
bit_xor-lt zero zero (suc y) p q = absurd (omega arith)
bit_xor-lt (suc k) x y p q = omega (
  arith,
  pow-suc 2 k,
  bit_xor_step x y,
  differ_bits (x % 2) (y % 2) (omega arith) (omega arith),
  bit_xor-lt k (x / 2) (y / 2) (omega (arith, pow-suc 2 k)) (omega (arith, pow-suc 2 k)),
)

pub bit_and-lt : (k x y : ℕ) → x < 2 ^ k → bit_and x y < 2 ^ k
bit_and-lt zero zero y p = simp bit_and-bitwise (omega arith)
bit_and-lt zero (suc x) y p = absurd (omega arith)
bit_and-lt (suc k) x y p = omega (
  arith,
  pow-suc 2 k,
  bit_and_step x y,
  bit_and-lt k (x / 2) (y / 2) (omega (arith, pow-suc 2 k)),
)

pub and_not-lt : (k x m : ℕ) → x < 2 ^ k → and_not x m < 2 ^ k
unfolding and_not
and_not-lt k x m h = bit_xor-lt k x (bit_and x m) h (bit_and-lt k x m h)
