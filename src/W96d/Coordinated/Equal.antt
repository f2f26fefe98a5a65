-- ===== src/W96d/Coordinated/Equal.antt =====
-- router/w96d_coordinated.py: `_coordinated_patch` against the `_patch` that it replaces.
use lan_mi_home.Base.{
  ℕ, Bool, true, false, Option, none, some, sym, ◌⊎◌, List, [], ◌∷◌, ◌≡◌, inl, inr, refl,
  Bool-cases, Option-cases,
}
use lan_mi_home.Base.Bytes.{Bytes}
use lan_mi_home.Base.Text.{Table, find}
use lan_mi_home.Sp651e.{Result, ok, err}
use lan_mi_home.W96d.{
  Json, Raised, as_bool, as_int, and_then, refuse_if, Field, fields, has_unknown, Manager,
  ensure_owned, write_all, run_writes, run_fields, client_error, commands,
}
use lan_mi_home.W96d.Patch.{patch, read_after-fan, read_after-outcome}
use lan_mi_home.W96d.Refresh.{W96dState, refresh}
use lan_mi_home.W96d.Coordinated.{
  Effect, effect_of, battery_effect, EffectField, coordinated_fields, Coordinated, raise_flags,
  run_effect, run_effects, coordinated_patch,
}

writes_of : Result Raised Effect → Result Raised (List (ℕ × Bytes))
writes_of (err e) = err e
writes_of (ok e) = ok e.writes

-- Two lists of fields with the same names and the same writes.
Agree : List EffectField → List Field → Type 0
Agree [] [] = Unit
Agree [] (_ ∷ _) = ⊥
Agree (_ ∷ _) [] = ⊥
Agree ((n, f) ∷ effects) ((m, g) ∷ rest) =
    (n ≡ m) × ((v : Json) → writes_of (f v) ≡ g v) × Agree effects rest

effect_of-and_then :
    {A : Type 0} (r : Result Raised A) (f : A → Effect)
    → writes_of (effect_of r f) ≡ and_then r (λ a. (f a).writes)
unfolding writes_of effect_of and_then
effect_of-and_then (err e) f = refl
effect_of-and_then (ok a) f = refl

coordinated_fields-Agree : Agree coordinated_fields fields
unfolding Agree coordinated_fields fields battery_effect
coordinated_fields-Agree = (
  refl,
  (λ v. effect_of-and_then (as_bool v) _),
  (
    refl,
    (λ v. effect_of-and_then (as_int 0 100 v) _),
    (
      refl,
      (λ v. effect_of-and_then (as_bool v) _),
      (
        refl,
        (λ v. effect_of-and_then (as_bool v) _),
        (
          refl,
          (λ v. effect_of-and_then (as_bool v) _),
          (
            refl,
            (λ v. effect_of-and_then (as_int 0 28800 v) _),
            (
              refl,
              (λ v. effect_of-and_then (refuse_if _ (as_int 0 65535 v)) _),
              (
                refl,
                (λ v. effect_of-and_then (as_int 0 1 v) _),
                (
                  refl,
                  (λ v. effect_of-and_then (as_int 0 600 v) _),
                  (refl, (λ v. effect_of-and_then (refuse_if _ (as_int 4800 5000 v)) _), tt),
                ),
              ),
            ),
          ),
        ),
      ),
    ),
  ),
)

module _ {D : Type 0} (connect : D → D × Bool) (write : ℕ → Bytes → D → D × Bool) where
  -- The fan and the outcome are the same.
  abbrev Same : (D × Coordinated) × Option Raised → D × Option Raised → Type 0
  Same a b = (a.0.0 ≡ b.0) × (a.1 ≡ b.1)

  run_effect-Same :
      (r : Result Raised Effect)
      (next : D → (W96dState → W96dState) → Coordinated → (D × Coordinated) × Option Raised)
      (next' : D → D × Option Raised) (d : D) (shown : W96dState → W96dState) (c : Coordinated)
      → ((d' : D) (shown' : W96dState → W96dState) (c' : Coordinated)
          → Same (next d' shown' c') (next' d'))
      → Same
          (run_effect connect write r next d shown c)
          (run_writes connect write (writes_of r) next' d)
  unfolding run_effect run_writes writes_of
  run_effect-Same (err e) next next' d shown c h = (refl, refl)
  run_effect-Same (ok e) next next' d shown c h =
      let d' = (write_all connect write e.writes d).0 in
      elim (Bool-cases (write_all connect write e.writes d).1) [
        | inl returned ↦
            rw returned
              (h d' (λ s. record (e.shown (shown s)) { failed = false }) (raise_flags e c))
        | inr raised ↦ rw raised (refl, refl)
      ]

  run_effects-Same :
      (effects : List EffectField) (rest : List Field) (body : Table Json)
      → Agree effects rest
      → (d : D) (shown : W96dState → W96dState) (c : Coordinated)
      → Same
          (run_effects connect write effects body d shown c)
          (run_fields connect write rest body d)
  unfolding Agree run_effects run_fields
  run_effects-Same [] [] body agree d shown c = (refl, refl)
  run_effects-Same [] (_ ∷ _) body agree d shown c = absurd agree
  run_effects-Same (_ ∷ _) [] body agree d shown c = absurd agree
  run_effects-Same ((n, f) ∷ effects) ((m, g) ∷ rest) body (names, writes, agree) d shown c =
      let next = run_effects connect write effects body in
      elim (Option-cases (find m body)) [
        | inl missing ↦ rw (names) (
            rw (missing, run_effects, run_fields)
              (run_effects-Same effects rest body agree d shown c))
        | inr (v, found) ↦ rw (names) (
            rw (found, run_effects, run_fields)
              (rw⁻¹ (writes v) (
                run_effect-Same (f v) next (run_fields connect write rest body) d shown c
                  (run_effects-Same effects rest body agree))))
      ]

  commands-Same :
      (m : Manager) (body : Table Json) (d : D) (c : Coordinated)
      → Same (coordinated_patch connect write true m body d c) (commands connect write m body d)
  unfolding coordinated_patch commands
  commands-Same m body d c =
      let d' = (ensure_owned connect write m d).0 in
      let same =
        run_effects-Same coordinated_fields fields body coordinated_fields-Agree d' (λ s. s) c in
      elim (Bool-cases (has_unknown body)) [
        | inl e ↦ rw e (refl, refl)
        | inr e ↦ elim (Option-cases (ensure_owned connect write m d).1) [
          | inl going ↦ rw (e, going) same
          | inr (_, raised) ↦ rw (e, raised) (refl, refl)
        ]
      ]

  -- Once the gate is granted, whatever the body, the flags and the failures of the client: the
  -- coordinated command does to the fan what `_patch` does. Where it raises, `_patch` raises the same.
  -- Where it returns, `_patch` returns or raises as the readings do that follow its commands.
  pub coordinated_patch-eq-patch :
      (read : ℕ → D → Option Bytes) (m : Manager) (body : Table Json) (d : D) (c : Coordinated)
      (s : W96dState)
      → ((coordinated_patch connect write true m body d c).0.0
          ≡ (patch connect write read m body d s).0.0)
        × ((e : Raised)
            → (coordinated_patch connect write true m body d c).1 ≡ some e
            → (patch connect write read m body d s).1 ≡ some e)
        × ((coordinated_patch connect write true m body d c).1 ≡ none
            → ((s' : W96dState) × (refresh read
                    (coordinated_patch connect write true m body d c).0.0
                    s
                  ≡ some s')
                × ((patch connect write read m body d s).1 ≡ none))
              ⊎ ((refresh read (coordinated_patch connect write true m body d c).0.0 s ≡ none)
                  × ((patch connect write read m body d s).1 ≡ some client_error)))
  unfolding patch
  coordinated_patch-eq-patch read m body d c s =
      let (fan, outcome) = commands-Same m body d c in
      let done = commands connect write m body d in
      let (raises, returns) = read_after-outcome read done s in
      rw (fan, outcome) (sym (read_after-fan read done s), raises, returns)
