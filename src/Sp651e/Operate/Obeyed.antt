-- ===== src/Sp651e/Operate/Obeyed.antt =====
-- router/sp651e.py: `_operate` on a strip that answers and obeys its commands.
use lan_mi_home.Base.{
  ℕ, ◌≤◌, Bool, true, false, not, ◌||◌, Option, none, some, List, [], ◌∷◌, ◌≡◌, ◌∙◌, refl, sym, ap,
  arith, ◌==◌, if◌then◌else◌, ◌>>=◌, ◌++◌, Option-cases, inl, inr, Bool-cases,
}
use mathlib.Core.Path.{subst}
use lan_mi_home.Base.Bytes.{Bytes}
use lan_mi_home.Sp651e.{
  Status, Changes, int_of, frame, control_frames, percent_of, raw_of, brightness_frames,
  power_frames, control_frames,
}
use lan_mi_home.Sp651e.Brightness.{percent_of-raw_of}
use lan_mi_home.Sp651e.Operate.{
  xor, has_changes, expected_power, confirm, write_all, restore_power, change, operate,
}

write_all-append :
    {D : Type 0} (write : Bytes → D → Option D) (xs ys : List Bytes) (d : D)
    → write_all write (xs ++ ys) d ≡ (write_all write xs d >>= write_all write ys)
unfolding write_all
write_all-append write [] ys d = refl
write_all-append write (f ∷ xs) ys d = elim (Option-cases (write f d)) [
  | inl failed ↦ rw failed
  | inr (d', done) ↦ rw done (write_all-append write xs ys d')
]

-- What is asked of a report: the brightness, in the mode of constant light; the power.
abbrev pub HasBrightness : Option ℕ → Status → Type 0
HasBrightness none s = Unit
HasBrightness (some b) s = (s.brightness ≡ b) × (s.mode ≡ 2)

abbrev pub HasPower : Option Bool → Status → Type 0
HasPower none s = Unit
HasPower (some p) s = s.power ≡ p

-- The percentages that the interface accepts.
abbrev pub IsPercent : Option ℕ → Type 0
IsPercent none = Unit
IsPercent (some b) = (1 ≤ b) × (b ≤ 100)

keeps_mode :
    (current : Status)
    → (not (current.mode == 2) || not (current.effect == 1)) ≡ false
    → current.mode ≡ 2
keeps_mode current off = ground arith

confirm_lem :
    (c : Changes) (current s : Status)
    → s.power ≡ expected_power c current
    → HasBrightness c.brightness s
    → confirm c current s ≡ some s
unfolding confirm
confirm_lem c current s p b = elim (Option-cases c.brightness) [
  | inl unasked ↦ ground arith
  | inr (n, asked) ↦
      let lit : HasBrightness (some n) s = subst (λ o. HasBrightness o s) asked b in
      rw asked (ground arith)
]

HasBrightness-same :
    (b : Option ℕ) (s t : Status)
    → t.brightness ≡ s.brightness
    → t.mode ≡ s.mode
    → HasBrightness b s
    → HasBrightness b t
HasBrightness-same none s t same_brightness same_mode h = tt
HasBrightness-same (some b) s t same_brightness same_mode h =
    (same_brightness ∙ h.0, same_mode ∙ h.1)

xor-false : (a b : Bool) → xor a b ≡ false → a ≡ b
unfolding xor
xor-false a b h = ground arith

-- A strip that obeys: it answers with its state, and each command has its effect. A brightness
-- command may leave the power as it likes.
module _ {D : Type 0} (write : Bytes → D → Option D) (read : D → Option (Status × D))
    (view : D → Status)
    (answers : (d : D) → (d' : D) × (read d ≡ some (view d, d')) × (view d' ≡ view d))
    (obeys_power : (p : Bool) (d : D)
      → (d' : D) × (write (frame 0x50 (int_of p ∷ [])) d ≡ some d')
        × ((view d').power ≡ p)
        × ((view d').brightness ≡ (view d).brightness)
        × ((view d').mode ≡ (view d).mode))
    (obeys_mode : (d : D)
      → (d' : D) × (write (frame 0x53 (2 ∷ 1 ∷ [])) d ≡ some d') × ((view d').mode ≡ 2))
    (obeys_brightness : (raw : ℕ) (d : D)
      → (d' : D) × (write (frame 0x51 (1 ∷ raw ∷ [])) d ≡ some d')
        × ((view d').brightness ≡ percent_of raw)
        × ((view d').mode ≡ (view d).mode)) where
  set_brightness :
      (b : ℕ) (other_mode : Bool) (d : D)
      → 1 ≤ b
      → b ≤ 100
      → (other_mode ≡ false → (view d).mode ≡ 2)
      → (d' : D) × (write_all write
            ((if other_mode then frame 0x53 (2 ∷ 1 ∷ []) ∷ [] else [])
              ++ frame 0x51 (1 ∷ raw_of b ∷ []) ∷ [])
            d
          ≡ some d')
        × HasBrightness (some b) (view d')
  unfolding write_all
  set_brightness b true d lo hi keep =
      let (d₁, w₁, m₁) = obeys_mode d in
      let (d₂, w₂, b₂, m₂) = obeys_brightness (raw_of b) d₁ in
      (d₂, rw (w₁, w₂), (b₂ ∙ (percent_of-raw_of b lo hi).0, m₂ ∙ m₁))
  set_brightness b false d lo hi keep =
      let (d₂, w₂, b₂, m₂) = obeys_brightness (raw_of b) d in
      (d₂, rw w₂, (b₂ ∙ (percent_of-raw_of b lo hi).0, m₂ ∙ keep refl))

  set_power :
      (p : Option Bool) (d : D)
      → (d' : D) × (write_all write (power_frames p) d ≡ some d')
        × HasPower p (view d')
        × ((view d').brightness ≡ (view d).brightness)
        × ((view d').mode ≡ (view d).mode)
  unfolding write_all power_frames
  set_power none d = (d, refl, tt, refl, refl)
  set_power (some p) d = let (d', w, q, b, m) = obeys_power p d in (d', rw w, q, b, m)

  set_both :
      (p : Option Bool) (b : Option ℕ) (current : Status) (d : D)
      → IsPercent b
      → current ≡ view d
      → (d' : D) × (write_all write (brightness_frames b current ++ power_frames p) d ≡ some d')
        × HasPower p (view d')
        × HasBrightness b (view d')
  unfolding brightness_frames
  set_both p none current d ok_b e = let (d', w, q, _, _) = set_power p d in (d', w, q, tt)
  set_both p (some b) current d (lo, hi) e =
      let other_mode = not (current.mode == 2) || not (current.effect == 1) in
      let in_mode : (other_mode ≡ false → (view d).mode ≡ 2) =
        λ off. ap (λ (s : Status). s.mode) (sym e) ∙ keeps_mode current off in
      let (d₁, w₁, lit) = set_brightness b other_mode d lo hi in_mode in
      let (d₂, w₂, q, b₂, m₂) = set_power p d₁ in
      let frames =
        (if other_mode then frame 0x53 (2 ∷ 1 ∷ []) ∷ [] else [])
        ++ frame 0x51 (1 ∷ raw_of b ∷ []) ∷ [] in
      (d₂, write_all-append write frames (power_frames p) d ∙ rw w₁ w₂, q, (b₂ ∙ lit.0, m₂ ∙ lit.1))

  -- The report upon which `_operate` decides.
  settle :
      (c : Changes) (current seen : Status) (d : D)
      → seen ≡ view d
      → HasPower c.power seen
      → HasBrightness c.brightness seen
      → (s : Status) × (d' : D) × (restore_power write read c current (seen, d) ≡ some (s, d'))
        × (s.power ≡ expected_power c current)
        × HasBrightness c.brightness s
        × (view d' ≡ s)
  unfolding restore_power expected_power
  settle c current seen d e q b = elim (Option-cases c.power) [
    | inl unasked ↦ elim (Bool-cases (xor seen.power current.power)) [
      | inl switched ↦
          let (d₁, w₁, p₁, b₁, m₁) = obeys_power current.power d in
          let (d₂, r₂, v₂) = answers d₁ in
          let back =
            HasBrightness-same c.brightness seen (view d₁)
              (b₁ ∙ ap (λ (x : Status). x.brightness) (sym e))
              (m₁ ∙ ap (λ (x : Status). x.mode) (sym e)) b in
          (
            view d₁,
            d₂,
            rw (unasked, switched, w₁, r₂),
            p₁ ∙ sym (rw (unasked, expected_power)),
            back,
            v₂,
          )
      | inr kept ↦ (
        seen,
        d,
        rw (unasked, kept),
        xor-false seen.power current.power kept ∙ sym (rw (unasked, expected_power)),
        b,
        sym e,
      )
    ]
    | inr (p, asked) ↦
        let given : HasPower (some p) seen = subst (λ o. HasPower o seen) asked q in
        (seen, d, rw asked, given ∙ sym (rw (asked, expected_power)), b, sym e)
  ]

  -- On a strip that answers and obeys, an operation succeeds: the strip then has the brightness that was
  -- asked for, in the mode of constant light, and the power that was asked for or else the power that
  -- it had before, although a brightness command may have switched it.
  pub operate_obeyed :
      (c : Changes) (d : D)
      → has_changes (some c) ≡ true
      → IsPercent c.brightness
      → (s : Status) × (d' : D) × (operate write read (some c) d ≡ some (s, d'))
        × (s.power ≡ expected_power c (view d))
        × HasBrightness c.brightness s
        × (view d' ≡ s)
  unfolding operate change control_frames
  operate_obeyed c d changes ok_b =
      let (d₁, r₁, v₁) = answers d in
      let (d₂, w₂, p₂, b₂) = set_both c.power c.brightness (view d) d₁ ok_b (sym v₁) in
      let (d₃, r₃, v₃) = answers d₂ in
      let (s, d₄, r₄, p₄, b₄, v₄) = settle c (view d) (view d₂) d₃ (sym v₃) p₂ b₂ in
      (s, d₄, rw (r₁, changes, w₂, r₃, r₄, confirm_lem c (view d) s p₄ b₄), p₄, b₄, v₄)
