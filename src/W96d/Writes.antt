-- ===== src/W96d/Writes.antt =====
-- router/w96d_sidecar.py: what a list of writes does to natural wind and turbo.
use lan_mi_home.Base.{
  ℕ, Bool, true, false, List, [], ◌∷◌, ◌≡◌, ◌≢◌, ◌⊎◌, inl, inr, ◌∙◌, refl, sym, ap, arith, ◌==◌,
  Bool-cases, All,
}
use mathlib.Core.Bool.{true≢false}
use lan_mi_home.Base.Bytes.{Bytes}
use lan_mi_home.W96d.{char_natural, char_turbo, write_all}

-- A write leaves every other characteristic as it is; its own has the new value, or, if the write
-- raised, may also have the old one.
abbrev pub Obeys : {D : Type 0} → (ℕ → D → Bytes) → (ℕ → Bytes → D → D × Bool) → Type 0
Obeys {D} view write =
    (c : ℕ) (bytes : Bytes) (d : D)
    → ((x : ℕ) → x ≢ c → view x (write c bytes d).0 ≡ view x d)
      × ((view c (write c bytes d).0 ≡ bytes)
          ⊎ (((write c bytes d).1 ≡ false) × (view c (write c bytes d).0 ≡ view c d)))

-- Natural wind or turbo is off.
abbrev pub IsExclusive : {D : Type 0} → (ℕ → D → Bytes) → D → Type 0
IsExclusive view d = (view char_natural d ≡ 0 ∷ []) ⊎ (view char_turbo d ≡ 0 ∷ [])

-- A write that does not switch a characteristic on.
abbrev pub KeepsOff : ℕ → ℕ × Bytes → Type 0
KeepsOff x w = (w.0 ≢ x) ⊎ (w.1 ≡ 0 ∷ [])

module _ {D : Type 0} (view : ℕ → D → Bytes) (connect : D → D × Bool)
    (write : ℕ → Bytes → D → D × Bool) (obeys : Obeys view write) where
  write-KeepsOff :
      (x c : ℕ) (bytes : Bytes) (d : D)
      → KeepsOff x (c, bytes)
      → view x d ≡ 0 ∷ []
      → view x (write c bytes d).0 ≡ 0 ∷ []
  write-KeepsOff x c bytes d keeps off =
      let (others, own) = obeys c bytes d in
      elim (Bool-cases (c == x)) [
        | inr e ↦ let apart : x ≢ c = λ same_one. ground arith in others x apart ∙ off
        | inl e ↦
            let here : c ≡ x = ground arith in
            let at_x : view x (write c bytes d).0 ≡ view c (write c bytes d).0 =
              ap (λ y. view y (write c bytes d).0) (sym here) in
            elim own [
              | inr (_, kept) ↦ at_x ∙ kept ∙ ap (λ y. view y d) here ∙ off
              | inl written ↦ elim keeps [
                | inl other ↦ absurd (other here)
                | inr zero_byte ↦ at_x ∙ written ∙ zero_byte
              ]
            ]
      ]

  write_all-KeepsOff :
      (x : ℕ) (writes : List (ℕ × Bytes)) (d : D)
      → All (KeepsOff x) writes
      → view x d ≡ 0 ∷ []
      → view x (write_all connect write writes d).0 ≡ 0 ∷ []
  unfolding write_all
  write_all-KeepsOff x [] d keeps off = off
  write_all-KeepsOff x ((c, bytes) ∷ writes) d (keep, keeps) off =
      let first = write-KeepsOff x c bytes d keep off in
      let rest = write_all-KeepsOff x writes (write c bytes d).0 keeps first in
      elim (Bool-cases (write c bytes d).1) [ inl e ↦ rw e rest | inr e ↦ rw e first ]

  pub write_all-IsExclusive :
      (writes : List (ℕ × Bytes)) (d : D)
      → All (KeepsOff char_natural) writes
      → All (KeepsOff char_turbo) writes
      → IsExclusive view d
      → IsExclusive view (write_all connect write writes d).0
  write_all-IsExclusive writes d natural_keeps turbo_keeps (inl off) =
      inl (write_all-KeepsOff char_natural writes d natural_keeps off)
  write_all-IsExclusive writes d natural_keeps turbo_keeps (inr off) =
      inr (write_all-KeepsOff char_turbo writes d turbo_keeps off)

  -- Once a characteristic is switched off, it stays off; if that write raises, nothing follows.
  off_first :
      (x : ℕ) (writes : List (ℕ × Bytes)) (d : D)
      → All (KeepsOff x) writes
      → ((write x (0 ∷ []) d).1 ≡ true
          → view x (write_all connect write ((x, 0 ∷ []) ∷ writes) d).0 ≡ 0 ∷ [])
        × ((write x (0 ∷ []) d).1 ≡ false
            → (write_all connect write ((x, 0 ∷ []) ∷ writes) d).0 ≡ (write x (0 ∷ []) d).0)
  unfolding write_all
  off_first x writes d keeps =
      let (_, own) = obeys x (0 ∷ []) d in
      (
        λ returned.
            let off : view x (write x (0 ∷ []) d).0 ≡ 0 ∷ [] = elim own [
              | inl written ↦ written
              | inr (raised, _) ↦ absurd (true≢false (sym returned ∙ raised))
            ] in
            rw returned (write_all-KeepsOff x writes (write x (0 ∷ []) d).0 keeps off),
        λ raised. rw raised refl,
      )

  -- Of two characteristics, one is switched off and the other on.
  pub switch_over :
      (x y : ℕ) (bytes : Bytes) (d : D)
      → y ≢ x
      → (x ≡ char_natural) ⊎ (x ≡ char_turbo)
      → IsExclusive view d
      → IsExclusive view (write_all connect write ((x, 0 ∷ []) ∷ (y, bytes) ∷ []) d).0
  switch_over x y bytes d apart which h =
      let (went_on, stopped) = off_first x ((y, bytes) ∷ []) d (inl apart, tt) in
      elim (Bool-cases (write x (0 ∷ []) d).1) [
        | inl e ↦ elim which [
          | inl n ↦ inl (
              ap (λ z. view z (write_all connect write ((x, 0 ∷ []) ∷ (y, bytes) ∷ []) d).0) (sym n)
              ∙ went_on e)
          | inr t ↦ inr (
              ap (λ z. view z (write_all connect write ((x, 0 ∷ []) ∷ (y, bytes) ∷ []) d).0) (sym t)
              ∙ went_on e)
        ]
        | inr e ↦ rw (stopped e) (elim h [
          | inl n ↦ inl (write-KeepsOff char_natural x (0 ∷ []) d (inr refl) n)
          | inr t ↦ inr (write-KeepsOff char_turbo x (0 ∷ []) d (inr refl) t)
        ])
      ]
