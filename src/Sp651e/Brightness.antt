-- ===== src/Sp651e/Brightness.antt =====
-- router/sp651e.py: the percentage of the interface and the byte of the strip.
use lan_mi_home.Base.{
  ℕ, ◌≤◌, true, if◌then◌else◌, ◌&&◌, ◌||◌, ◌≡◌, refl, arith, ltb, leb, ◌==◌, check_below,
  check_below_sound,
}
use lan_mi_home.Sp651e.{percent_of, raw_of}

percent_table :
    check_below
      (λ b. b == 0 || (percent_of (raw_of b) == b && leb 1 (raw_of b) && leb (raw_of b) 255))
      101
    ≡ true
unfolding check_below percent_of raw_of
percent_table = refl

-- Each percentage from 1 to 100 is sent as a byte from 1 to 255 that reads back as the percentage.
pub percent_of-raw_of :
    (b : ℕ) → 1 ≤ b → b ≤ 100 → (percent_of (raw_of b) ≡ b) × (1 ≤ raw_of b) × (raw_of b ≤ 255)
percent_of-raw_of b lo hi = ground (arith, check_below_sound _ 101 percent_table b)

raw_table :
    check_below
      (λ r. if ltb r 2 then percent_of r == 0 else leb 1 (percent_of r) && leb (percent_of r) 100)
      256
    ≡ true
unfolding check_below percent_of
raw_table = refl

-- A brightness byte from 2 to 255 reads as a percentage from 1 to 100; the bytes 0 and 1 read as 0.
pub percent_of_range :
    (r : ℕ)
    → r ≤ 255
    → (2 ≤ r → (1 ≤ percent_of r) × (percent_of r ≤ 100)) × (r ≤ 1 → percent_of r ≡ 0)
percent_of_range r h =
    let row = check_below_sound _ 256 raw_table r in
    (λ big. ground (arith, row), λ small. ground (arith, row))
