-- ===== src/WifiSchedule/Modem/Obeyed.antt =====
-- modem_wifi_schedule.py: `set_enabled` on a modem that answers and obeys.
use mathlib.Core.Bool.{true≢false}
use lan_mi_home.Base.{
  Bool, true, false, ◌&&◌, ◌≡◌, ◌∙◌, refl, sym, ap, inl, inr, if◌then◌else◌, Bool-cases,
}
use lan_mi_home.Sp651e.{ok}
use lan_mi_home.WifiSchedule.Modem.{
  Band, band_2g, band_5g, Radios, is_on, Modem, same_bool, Call, continue, ◌>>=◌, return, wait,
  confirm_band, change_band, set_band, both_confirmed, set_enabled,
}

bind-ok :
    {M A B : Type 0} (f : Call M A) (next : A → Call M B) {m m' : M} {a : A}
    → f m ≡ (m', ok a)
    → (f >>= next) m ≡ next a m'
unfolding ◌>>=◌
bind-ok f next e = ap (continue next) e

same_bool-true : (a b : Bool) → same_bool a b ≡ true → a ≡ b
same_bool-true true true h = refl
same_bool-true false false h = refl
same_bool-true _ _ h = cc

same_bool-same : (a : Bool) → same_bool a a ≡ true
same_bool-same true = refl
same_bool-same false = refl

both-same :
    (enabled a b : Bool)
    → a ≡ enabled
    → b ≡ enabled
    → (same_bool a enabled && same_bool b enabled) ≡ true
both-same enabled a b p q = rw (p, q, same_bool-same enabled)

abbrev pub other : Band → Band
other band_2g = band_5g
other band_5g = band_2g

-- A modem that reports what it holds, shows the verified mode, and does what it is told to one band.
pub record Obeys {M : Type 0} (modem : Modem M) (held : M → Radios) (posted : Band → Bool → M → M)
    : Type 0 where
  pub reports : (m : M) → modem.radios m ≡ (m, ok (held m))
  pub verified : (band : Band) (m : M) → modem.control_page band m ≡ (m, ok true)
  pub takes : (band : Band) (on : Bool) (m : M) → modem.post band on m ≡ (posted band on m, ok tt)
  pub switched : (band : Band) (on : Bool) (m : M) → is_on band (held (posted band on m)) ≡ on
  pub kept :
      (band : Band) (on : Bool) (m : M)
      → is_on (other band) (held (posted band on m)) ≡ is_on (other band) (held m)
  pub waits : (m : M) → held (modem.sleep 2 m) ≡ held m

module _ {M : Type 0} (modem : Modem M) (held : M → Radios) (posted : Band → Bool → M → M)
    (obeys : Obeys modem held posted) (enabled : Bool) where
  abbrev brought : Band → M → M
  brought band m = modem.sleep 2 (posted band enabled m)

  brought-on : (band : Band) (m : M) → is_on band (held (brought band m)) ≡ enabled
  brought-on band m = ap (is_on band) (obeys.waits _) ∙ obeys.switched band enabled m

  change_band-obeyed :
      (band : Band) (m : M) → change_band modem enabled band m ≡ (brought band m, ok tt)
  unfolding change_band confirm_band wait
  change_band-obeyed band m =
      bind-ok (modem.control_page band) _ (obeys.verified band m)
      ∙ bind-ok (modem.post band enabled) _ (obeys.takes band enabled m)
      ∙ bind-ok (wait modem enabled) _ refl
      ∙ bind-ok modem.radios _ (obeys.reports _)
      ∙ right (is_on band (held (brought band m))) (brought-on band m)
    where
      right :
          (on : Bool)
          → on ≡ enabled
          → (if same_bool on enabled then return {M = M} tt else confirm_band modem enabled 4 band)
              (brought band m)
            ≡ (brought band m, ok tt)
      right on e = rw (e, same_bool-same enabled)

  -- A band is brought to what is asked for, and the other kept; a band that is so already is left alone.
  set_band-obeyed :
      (force : Bool) (band : Band) (m : M)
      → (m' : M) × (set_band modem enabled force band m ≡ (m', ok tt))
        × (is_on band (held m') ≡ enabled)
        × (is_on (other band) (held m') ≡ is_on (other band) (held m))
        × (force ≡ false → is_on band (held m) ≡ enabled → m' ≡ m)
  unfolding set_band
  set_band-obeyed true band m = (
    brought band m,
    change_band-obeyed band m,
    brought-on band m,
    ap (is_on (other band)) (obeys.waits _) ∙ obeys.kept band enabled m,
    λ unforced. cc,
  )
  set_band-obeyed false band m = elim (Bool-cases (same_bool (is_on band (held m)) enabled)) [
    | inl right ↦ (
      m,
      bind-ok modem.radios _ (obeys.reports m) ∙ rw right,
      same_bool-true _ _ right,
      refl,
      λ _ _. refl,
    )
    | inr wrong ↦ (
      brought band m,
      bind-ok modem.radios _ (obeys.reports m) ∙ rw wrong (change_band-obeyed band m),
      brought-on band m,
      ap (is_on (other band)) (obeys.waits _) ∙ obeys.kept band enabled m,
      λ _ already. absurd (
          true≢false
            (sym (same_bool-same enabled) ∙ ap (λ b. same_bool b enabled) (sym already) ∙ wrong)),
    )
  ]

  -- On a modem that answers and obeys, both bands are brought to what is asked for, which is confirmed;
  -- a modem on which both are so already is left alone, unless the change is forced.
  pub set_enabled-obeyed :
      (force : Bool) (m : M)
      → (m' : M) × (set_enabled modem enabled force m ≡ (m', ok (held m')))
        × ((held m').on_2g ≡ enabled)
        × ((held m').on_5g ≡ enabled)
        × (force ≡ false → (held m).on_2g ≡ enabled → (held m).on_5g ≡ enabled → m' ≡ m)
  unfolding set_enabled both_confirmed
  set_enabled-obeyed force m =
      let (m1, first, on_2g, kept_5g, left1) = set_band-obeyed force band_2g m in
      let (m2, second, on_5g, kept_2g, left2) = set_band-obeyed force band_5g m1 in
      let on_2g' : (held m2).on_2g ≡ enabled = kept_2g ∙ on_2g in
      let both : (same_bool (held m2).on_2g enabled && same_bool (held m2).on_5g enabled) ≡ true =
        both-same enabled _ _ on_2g' on_5g in
      (
        m2,
        bind-ok modem.radios _ (obeys.reports m)
            ∙ bind-ok (set_band modem enabled force band_2g) _ first
            ∙ bind-ok (set_band modem enabled force band_5g) _ second
            ∙ bind-ok modem.radios _ (obeys.reports m2)
            ∙ rw both,
        on_2g',
        on_5g,
        λ unforced was_2g was_5g. left2 unforced (kept_5g ∙ was_5g) ∙ left1 unforced was_2g,
      )
