-- ===== src/Base/Bytes.antt =====
-- Python's bytes: lists of numbers below 256, with slices, `int.from_bytes`, `int.to_bytes`, `hex`.
use lan_mi_home.Base.Tests.{◌==◌, ltb, if◌then◌else◌}
use lan_mi_home.Base.Lists.{length, take, drop, All}
use Prim.Native.Nat.{ℕ, zero, suc, ◌+◌, ◌-◌, ◌*◌, ◌/◌, ◌%◌, ◌^◌, ◌<◌}
use mathlib.Core.Path.{◌≡◌, refl, ap, ap₂, ◌∙◌}
use mathlib.Core.Logic.{◌↔◌}
use mathlib.Core.Bool.{Bool, true, false, ◌&&◌}
use mathlib.Core.List.{List, [], ◌∷◌}
use native.Mathlib.Omega.{arith}
use native.Mathlib.Nat.{pow-suc}

abbrev pub Bytes : Type 0
Bytes = List ℕ

-- Every entry is a byte.
abbrev pub IsBytes : Bytes → Type 0
IsBytes bs = All (λ b. b < 256) bs

-- bs[start:stop]
abbrev pub slice : ℕ → ℕ → Bytes → Bytes
slice start stop bs = take (stop - start) (drop start bs)

-- a == b
unfoldable pub same : Bytes → Bytes → Bool
same [] [] = true
same [] (_ ∷ _) = false
same (_ ∷ _) [] = false
same (a ∷ xs) (b ∷ ys) = a == b && same xs ys

-- int.from_bytes(bs, "little")
unfoldable pub from_le : Bytes → ℕ
from_le [] = 0
from_le (b ∷ bs) = b + 256 * from_le bs

-- int.from_bytes(bs, "big"), from the number read so far
unfoldable pub from_be : ℕ → Bytes → ℕ
from_be acc [] = acc
from_be acc (b ∷ bs) = from_be (acc * 256 + b) bs

-- n.to_bytes(k, "little") of a number that fits
unfoldable pub to_le : ℕ → ℕ → Bytes
to_le zero n = []
to_le (suc k) n = n % 256 ∷ to_le k (n / 256)

-- seconds.to_bytes(2, "big") of a number that fits
unfoldable pub to_be16 : ℕ → Bytes
to_be16 n = n / 256 ∷ n % 256 ∷ []

-- the two digits of bytes.hex(), as code points
abbrev hex_digit : ℕ → ℕ
hex_digit d = if ltb d 10 then d + b'0' else d - 10 + b'a'

-- bs.hex()
unfoldable pub hex : Bytes → List ℕ
hex [] = []
hex (b ∷ bs) = hex_digit (b / 16) ∷ hex_digit (b % 16) ∷ hex bs

pub same_iff : (a b : Bytes) → (same a b ≡ true) ↔ (a ≡ b)
unfolding same
same_iff [] [] = ground arith
same_iff [] (_ ∷ _) = ground arith
same_iff (_ ∷ _) [] = ground arith
same_iff (a ∷ xs) (b ∷ ys) = ground (arith, same_iff xs ys)

pub length-to_le : (k n : ℕ) → length (to_le k n) ≡ k
unfolding to_le
length-to_le zero n = refl
length-to_le (suc k) n = ap suc (length-to_le k (n / 256))

pub to_le-IsBytes : (k n : ℕ) → IsBytes (to_le k n)
unfolding to_le
to_le-IsBytes zero n = tt
to_le-IsBytes (suc k) n = (omega arith, to_le-IsBytes k (n / 256))

pub from_le-to_le : (k n : ℕ) → n < 256 ^ k → from_le (to_le k n) ≡ n
unfolding from_le to_le
from_le-to_le zero n h = omega arith
from_le-to_le (suc k) n h =
    let fits : n / 256 < 256 ^ k = omega (arith, pow-suc 256 k) in
    rw (from_le-to_le k (n / 256) fits) (omega arith)

pub to_le-from_le : (bs : Bytes) → IsBytes bs → to_le (length bs) (from_le bs) ≡ bs
unfolding from_le to_le
to_le-from_le [] h = refl
to_le-from_le (b ∷ bs) (hb, hs) =
    let low : (b + 256 * from_le bs) % 256 ≡ b = omega arith in
    let high : (b + 256 * from_le bs) / 256 ≡ from_le bs = omega arith in
    ap₂ (λ x xs. x ∷ xs) low (ap (to_le (length bs)) high ∙ to_le-from_le bs hs)

pub drop-IsBytes : (n : ℕ) (bs : Bytes) → IsBytes bs → IsBytes (drop n bs)
drop-IsBytes zero bs h = h
drop-IsBytes (suc n) [] h = h
drop-IsBytes (suc n) (b ∷ bs) h = drop-IsBytes n bs h.1

pub from_le-lt : (bs : Bytes) → IsBytes bs → from_le bs < 256 ^ length bs
unfolding from_le
from_le-lt [] h = omega arith
from_le-lt (b ∷ bs) (hb, hs) = omega (arith, pow-suc 256 (length bs), from_le-lt bs hs)

pub from_be-to_be16 : (n : ℕ) → from_be 0 (to_be16 n) ≡ n
unfolding from_be to_be16
from_be-to_be16 n = omega arith
