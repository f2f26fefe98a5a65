-- ===== src/Base/Float64.antt =====
-- Python's float on the values that the program computes: IEEE double precision, each value a whole
-- number of units of 2 ** -60. A quotient, a difference or a product is rounded to 53 significant
-- binary digits, ties to even. Every value other than 0 that occurs is at least 2 ** -7, where the
-- unit is fine enough, and none is negative: differences are only taken inside abs().
use Prim.Native.Nat.{ℕ, ◌+◌, ◌-◌, ◌*◌, ◌/◌, ◌%◌, ◌^◌, min}
use mathlib.Core.Bool.{◌&&◌, ◌||◌}
use mathlib.Core.List.{List, [], ◌∷◌}
use lan_mi_home.Base.Tests.{◌==◌, ltb, leb, if◌then◌else◌}

abbrev pub Float64 : Type 0
Float64 = ℕ

abbrev scale : ℕ
scale = 2 ^ 60

-- The number of binary digits of a number below 2 ** 128, by halving the range of digits.
size_by : List ℕ → ℕ → ℕ
size_by [] n = min n 1
size_by (k ∷ ks) n =
    let big = leb (2 ^ k) n in (if big then k else 0) + size_by ks (if big then n / 2 ^ k else n)

size : ℕ → ℕ
unfolding size_by
size n = size_by (64 ∷ 32 ∷ 16 ∷ 8 ∷ 4 ∷ 2 ∷ 1 ∷ []) n

-- The whole number nearest to p / q, the even one of two that are equally near.
unfoldable pub nearest : ℕ → ℕ → ℕ
nearest p q =
    let m = p / q in
    let r = p % q in if ltb (r * 2) q || (r * 2 == q && m % 2 == 0) then m else m + 1

-- p / q as a float
unfoldable pub of_ratio : ℕ → ℕ → Float64
unfolding size nearest
of_ratio p q = let low = 2 ^ (size (p * scale / q) - 53) in nearest (p * scale) (q * low) * low

-- abs(a - b)
unfoldable pub distance : Float64 → Float64 → Float64
unfolding of_ratio
distance a b = of_ratio (if ltb a b then b - a else a - b) scale

-- a * b
unfoldable pub times : Float64 → Float64 → Float64
unfolding of_ratio
times a b = of_ratio (a * b) (scale * scale)

-- a + b
unfoldable pub plus : Float64 → Float64 → Float64
unfolding of_ratio
plus a b = of_ratio (a + b) scale

-- round(x)
unfoldable pub round : Float64 → ℕ
unfolding nearest
round x = nearest x scale

-- round(x, 2)
unfoldable pub round_2 : Float64 → Float64
unfolding of_ratio nearest
round_2 x = of_ratio (nearest (x * 100) scale) 100
