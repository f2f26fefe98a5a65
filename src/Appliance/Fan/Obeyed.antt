-- ===== src/Appliance/Fan/Obeyed.antt =====
-- router/lanmihome.py: a command through FanAdapter to a fan that answers and obeys.
use mathlib.Core.Path.{subst}
use mathlib.Core.Bool.{true≢false}
use lan_mi_home.Base.{
  ℕ, Bool, true, false, not, Option, none, some, [], ◌∷◌, ◌≡◌, ◌∙◌, refl, inl, inr, ap, arith, All,
  Bool-cases, Option-cases,
}
use lan_mi_home.Base.Bytes.{same}
use lan_mi_home.Base.Text.{Text, Table, word, find, find-All}
use lan_mi_home.Sp651e.{Result, ok, err}
use lan_mi_home.Appliance.Values.{Json, Raised, truth, parse_bool}
use lan_mi_home.Appliance.Actions.{◌>>◌, lift, bind-ok, then-ok, Result-cases}
use lan_mi_home.Appliance.Miot.{
  Ident, Device, miot_items, first_value, ensure_ok, get_many, new_device,
}
use lan_mi_home.Appliance.Miot.Many.{
  HasNodupKeys, nodup_keys, nodup_keys_sound, Answers, known, get_many-known,
}
use lan_mi_home.Appliance.Fields.{available, Validator, entry_of, has_unknown_field}
use lan_mi_home.Appliance.Fields.Written.{
  same_ident, held_after, Takes, field_write, parsed, write_fields-parsed,
}
use lan_mi_home.Appliance.Fan.{
  fan_read, fan_write, fan_validators, fan_shown, is_power, same_bool, power_part, fan_writes,
  fan_state, fan_patch, ensure_power,
}
use lan_mi_home.Appliance.Fan.Power.{Shows, brought, set_power-checked, ensure_power-checked}

-- No field but `power`, which the loop skips, is written to the property of the power.
abbrev IsApart : Text → Ident → Type 0
IsApart key ident = is_power key ≡ false → same_ident (2, 1) ident ≡ false

fan_write-All : All (λ (e : Text × Ident). IsApart e.0 e.1) fan_write
unfolding same
fan_write-All = (
  λ bad. absurd (true≢false bad),
  (
    λ _. refl,
    (
      λ _. refl,
      (λ _. refl, (λ _. refl, (λ _. refl, (λ _. refl, (λ _. refl, (λ _. refl, (λ _. refl, tt))))))),
    ),
  ),
)

entry-apart :
    (key : Text) (entry : Ident × Validator)
    → is_power key ≡ false
    → entry_of fan_write fan_validators key ≡ some entry
    → same_ident (2, 1) entry.0 ≡ false
unfolding entry_of same
entry-apart key entry other e = elim (Option-cases (find key fan_write)) [
  | inl missing ↦ let bad = rw (missing, entry_of) at e in cc
  | inr (ident, found) ↦ elim (Option-cases (find key fan_validators)) [
    | inl missing ↦ let bad = rw (found, missing, entry_of) at e in cc
    | inr (validator, read) ↦
        let both = rw (found, read, entry_of) at e in
        let same_entry : (ident, validator) ≡ entry = cc in
        subst (λ (x : Ident × Validator). same_ident (2, 1) x.0 ≡ false) same_entry
          (find-All IsApart fan_write fan_write-All key found other)
  ]
]

field_write-apart :
    (entry : Option (Ident × Validator)) (value : Json) (w : Ident × Json)
    → ((e : Ident × Validator) → entry ≡ some e → same_ident (2, 1) e.0 ≡ false)
    → field_write entry value ≡ ok w
    → same_ident (2, 1) w.0 ≡ false
unfolding field_write
field_write-apart none value w apart h = cc
field_write-apart (some (ident, validator)) value w apart h =
    elim (Result-cases (validator value)) [
      | inr (r, e) ↦ let bad = rw (e, field_write) at h in cc
      | inl (v, e) ↦
          let taken = rw (e, field_write) at h in
          let same_write : (ident, v) ≡ w = cc in
          subst (λ x. same_ident (2, 1) x.0 ≡ false) same_write (apart (ident, validator) refl)
    ]

-- So the loop leaves the property of the power as it is.
power_kept :
    (body : Table Json) (v : Json)
    → held_after (parsed fan_write fan_validators is_power body).0 (2, 1) v ≡ v
unfolding parsed held_after
power_kept [] v = refl
power_kept ((key, value) ∷ body) v = elim (Bool-cases (is_power key)) [
  | inl skip ↦ rw skip (power_kept body v)
  | inr other ↦ elim (Result-cases (field_write (entry_of fan_write fan_validators key) value)) [
    | inr (r, e) ↦ rw (other, e)
    | inl ((ident, new), e) ↦
        rw
          (
            other,
            e,
            held_after,
            field_write-apart _ value (ident, new) (λ x h. entry-apart key x other h) e,
          )
          (power_kept body v)
  ]
]

-- A fan that answers each request and holds what it is told; the toggle turns its power over.
pub record Obeys {D : Type 0} (device : Device D) (held : D → Ident → Json) (toggled : D → D)
    : Type 0 where
  pub opens : (d : D) → device.open_device d ≡ (d, ok tt)
  pub answers : (d : D) → Answers device d (λ ident. some (held d ident))
  pub shows :
      (d : D)
      → (response : Json) × (device.get_property_by (2, 1) d ≡ (d, ok response))
        × (first_value (miot_items response) ≡ ok (held d (2, 1)))
  pub takes : Takes device held
  pub toggles :
      (d : D)
      → (response : Json) × (device.call_action_by (2, 1) [] d ≡ (toggled d, ok response))
        × (ensure_ok response ≡ ok tt)
  pub turns_over : (d : D) → truth (held (toggled d) (2, 1)) ≡ not (truth (held d (2, 1)))
  pub keeps :
      (d : D) (ident : Ident)
      → same_ident (2, 1) ident ≡ false
      → held (toggled d) ident ≡ held d ident
  pub waits : (milliseconds : ℕ) (d : D) → held (device.sleep milliseconds d) ≡ held d

-- What a body asks of the power, if anything.
unfoldable pub asked_power : Table Json → Result Raised (Option Bool)
unfolding find parse_bool
asked_power body = elim (find (word "power") body) [
  | none ↦ ok none
  | some v ↦ elim (parse_bool v) [ ok b ↦ ok (some b) | err e ↦ err e ]
]

abbrev pub or_before : Option Bool → Bool → Bool
or_before none before = before
or_before (some b) before = b

same_bool-true : (a b : Bool) → same_bool a b ≡ true → a ≡ b
same_bool-true true true h = refl
same_bool-true false false h = refl
same_bool-true _ _ h = cc

same_bool-false : (a b : Bool) → same_bool a b ≡ false → not a ≡ b
same_bool-false true false h = refl
same_bool-false false true h = refl
same_bool-false _ _ h = cc

same_bool-same : (a : Bool) → same_bool a a ≡ true
same_bool-same true = refl
same_bool-same false = refl

fan_read-HasNodupKeys : HasNodupKeys fan_read
unfolding nodup_keys
fan_read-HasNodupKeys = nodup_keys_sound fan_read refl

module _ {D : Type 0} (device : Device D) (held : D → Ident → Json) (toggled : D → D)
    (obeys : Obeys device held toggled) where
  abbrev power : D → Bool
  power d = truth (held d (2, 1))

  obeys-Shows : Shows device power toggled
  obeys-Shows = (
    λ d.
        (let (response, answered, read) = obeys.shows d in
          (response, held d (2, 1), answered, read, refl)),
    obeys.toggles,
    obeys.opens,
  )

  -- The toggle and the pause bring the power to what is asked for, and keep the rest.
  brought_lem :
      (milliseconds : ℕ) (target : Bool) (d : D)
      → let d' = brought device power toggled obeys-Shows milliseconds target d in
        (power d' ≡ target)
        × ((ident : Ident) → same_ident (2, 1) ident ≡ false → held d' ident ≡ held d ident)
  brought_lem milliseconds target d = elim (Bool-cases (same_bool (power d) target)) [
    | inl right ↦ rw right (same_bool-true (power d) target right, λ ident other. refl)
    | inr wrong ↦
        let still = obeys.waits milliseconds (toggled d) in
        rw wrong (
          ap (λ f. truth (f (2, 1))) still
              ∙ obeys.turns_over d
              ∙ same_bool-false (power d) target wrong,
          λ ident other. ap (λ f. f ident) still ∙ obeys.keeps d ident other,
        )
  ]

  -- The recovery of a fan that answers and obeys confirms the power that was asked for, and the fan has
  -- it; nothing else of the fan changes.
  pub ensure_power-obeyed :
      (target : Bool) (d : D)
      → (d' : D) × (ensure_power device true target d ≡ (d', ok true))
        × (truth (held d' (2, 1)) ≡ target)
        × ((ident : Ident) → same_ident (2, 1) ident ≡ false → held d' ident ≡ held d ident)
  ensure_power-obeyed target d =
      let (right, kept) = brought_lem 400 target d in
      let d' : D = brought device power toggled obeys-Shows 400 target d in
      (
        d',
        ensure_power-checked device power toggled obeys-Shows target d
            ∙ ap (λ b. (d', ok (same_bool b target))) right
            ∙ ap (λ b. (d', ok b)) (same_bool-same target),
        right,
        kept,
      )

  power_part-asked :
      (body : Table Json) (target : Option Bool) (d : D)
      → asked_power body ≡ ok target
      → (d' : D) × (power_part device (find (word "power") body) d ≡ (d', ok tt))
        × (power d' ≡ or_before target (power d))
        × ((ident : Ident) → same_ident (2, 1) ident ≡ false → held d' ident ≡ held d ident)
  unfolding power_part asked_power
  power_part-asked body target d h = elim (Option-cases (find (word "power") body)) [
    | inl missing ↦
        let none_asked = rw (missing, asked_power) at h in
        let same_target : none ≡ target = cc in
        rw missing (d, refl, ap (λ t. or_before t (power d)) same_target, λ ident other. refl)
    | inr (v, found) ↦ elim (Result-cases (parse_bool v)) [
      | inr (r, bad) ↦ let refused = rw (found, bad, asked_power) at h in cc
      | inl (b, read) ↦
          let asked = rw (found, read, asked_power) at h in
          let same_target : some b ≡ target = cc in
          let (right, kept) = brought_lem 350 b d in
          rw found (
            brought device power toggled obeys-Shows 350 b d,
            bind-ok (lift (parse_bool v)) _ (ap (λ r. (d, r)) read)
                ∙ set_power-checked device power toggled obeys-Shows b d
                ∙ ap (λ r. (brought device power toggled obeys-Shows 350 b d, r))
                    (rw (right) (ground arith)),
            right ∙ ap (λ t. or_before t (power d)) same_target,
            kept,
          )
    ]
  ]

  -- A body that passes is done as it says: the fan then holds each value that was asked for, and the
  -- power that was asked for, or else the one that it had; and the report shows what it holds.
  pub fan_patch-obeyed :
      (body : Table Json) (target : Option Bool) (d : D)
      → has_unknown_field fan_write body ≡ false
      → asked_power body ≡ ok target
      → (parsed fan_write fan_validators is_power body).1 ≡ ok tt
      → (d' : D) × (fan_patch device true body d
          ≡ (d', ok (available (fan_shown (known (λ ident. some (held d' ident)) fan_read)))))
        × (truth (held d' (2, 1)) ≡ or_before target (truth (held d (2, 1))))
        × ((ident : Ident)
            → same_ident (2, 1) ident ≡ false
            → held d' ident
              ≡ held_after (parsed fan_write fan_validators is_power body).0 ident (held d ident))
  unfolding fan_patch fan_writes fan_state new_device
  fan_patch-obeyed body target d known_fields asked accepted =
      let (d1, powered, right, kept) = power_part-asked body target d asked in
      let (d', wrote, holds) =
        write_fields-parsed device held obeys.takes fan_write fan_validators is_power body d1 in
      let written : fan_writes device true body d ≡ (d', ok tt) =
        then-ok (new_device device true) _ (obeys.opens d)
        ∙ then-ok (power_part device (find (word "power") body)) _ powered
        ∙ wrote
        ∙ ap (λ r. (d', r)) accepted in
      let reading : (new_device device true >> get_many device fan_read) d'
          ≡ (d', ok (known (λ ident. some (held d' ident)) fan_read)) =
        then-ok (new_device device true) _ (obeys.opens d')
        ∙ get_many-known device d' (λ ident. some (held d' ident)) fan_read (obeys.answers d')
            fan_read-HasNodupKeys in
      (
        d',
        rw (known_fields, written, reading),
        ap truth (holds (2, 1) ∙ power_kept body (held d1 (2, 1))) ∙ right,
        λ ident other.
            holds ident
            ∙ ap (held_after (parsed fan_write fan_validators is_power body).0 ident)
                (kept ident other),
      )
