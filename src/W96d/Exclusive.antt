-- ===== src/W96d/Exclusive.antt =====
-- router/w96d_sidecar.py: natural wind and turbo exclude each other in `_patch`.
use lan_mi_home.Base.{
  ℕ, Bool, true, false, Option, List, [], ◌∷◌, ◌≢◌, inl, inr, refl, arith, Option-cases, Bool-cases,
  All,
}
use lan_mi_home.Base.Bytes.{Bytes}
use lan_mi_home.Base.Text.{Table, find}
use lan_mi_home.Sp651e.{Result, ok, err}
use lan_mi_home.W96d.{
  Json, Raised, char_natural, char_turbo, char_light, char_timer, char_shutdown_delay,
  char_gear_down, char_turbo_time, char_battery, has_unknown, Field, fields, and_then, as_bool,
  as_int, natural_writes, turbo_writes, speed_writes, power_writes, battery_writes, Manager,
  write_all, run_writes, run_fields, ensure_owned, commands,
}
use lan_mi_home.W96d.Patch.{patch, read_after-fan}
use lan_mi_home.W96d.Refresh.{W96dState}
use lan_mi_home.W96d.Writes.{Obeys, IsExclusive, write_all-IsExclusive, switch_over}

module _ {D : Type 0} (view : ℕ → D → Bytes) (connect : D → D × Bool)
    (write : ℕ → Bytes → D → D × Bool) (obeys : Obeys view write) where
  -- The writes of an accepted value keep one of the two off.
  abbrev Keeps : Result Raised (List (ℕ × Bytes)) → Type 0
  Keeps (err e) = Unit
  Keeps (ok writes) =
      (d : D) → IsExclusive view d → IsExclusive view (write_all connect write writes d).0

  and_then-Keeps :
      {A : Type 0} (r : Result Raised A) (f : A → List (ℕ × Bytes))
      → ((a : A) → Keeps (ok (f a)))
      → Keeps (and_then r f)
  unfolding and_then
  and_then-Keeps (err e) f h = tt
  and_then-Keeps (ok a) f h = h a

  natural_writes-Keeps : (b : Bool) → Keeps (ok (natural_writes b))
  unfolding natural_writes
  natural_writes-Keeps true = λ d h.
      switch_over view connect write obeys char_turbo char_natural (1 ∷ []) d (omega arith)
        (inr refl) h
  natural_writes-Keeps false = λ d h.
      write_all-IsExclusive view connect write obeys ((char_natural, 0 ∷ []) ∷ []) d (inr refl, tt)
        (inr refl, tt) h

  turbo_writes-Keeps : (b : Bool) → Keeps (ok (turbo_writes b))
  unfolding turbo_writes
  turbo_writes-Keeps true = λ d h.
      switch_over view connect write obeys char_natural char_turbo (1 ∷ []) d (omega arith)
        (inl refl) h
  turbo_writes-Keeps false = λ d h.
      write_all-IsExclusive view connect write obeys ((char_turbo, 0 ∷ []) ∷ []) d (inr refl, tt)
        (inr refl, tt) h

  -- A single write to another characteristic.
  elsewhere :
      (c : ℕ) (bytes : Bytes) → c ≢ char_natural → c ≢ char_turbo → Keeps (ok ((c, bytes) ∷ []))
  elsewhere c bytes n t = λ d h.
      write_all-IsExclusive view connect write obeys ((c, bytes) ∷ []) d (inl n, tt) (inl t, tt) h

  speed_writes-Keeps : (speed : ℕ) → Keeps (ok (speed_writes speed))
  unfolding speed_writes
  speed_writes-Keeps speed = λ d h.
      write_all-IsExclusive view connect write obeys (speed_writes speed) d
        (inr refl, (inl (omega arith), (inr refl, (inl (omega arith), tt))))
        (inr refl, (inl (omega arith), (inr refl, (inl (omega arith), tt)))) h

  power_writes-Keeps : (b : Bool) → Keeps (ok (power_writes b))
  unfolding power_writes
  power_writes-Keeps b = λ d h.
      write_all-IsExclusive view connect write obeys (power_writes b) d
        (inr refl, (inr refl, (inl (omega arith), tt)))
        (inr refl, (inr refl, (inl (omega arith), tt))) h

  fields-Keeps : All (λ (f : Field). (v : Json) → Keeps (f.1 v)) fields
  unfolding fields battery_writes
  fields-Keeps = (
    λ v. and_then-Keeps (as_bool v) _ (λ b. elsewhere char_light _ (omega arith) (omega arith)),
    (
      λ v. and_then-Keeps (as_int 0 100 v) speed_writes speed_writes-Keeps,
      (
        λ v. and_then-Keeps (as_bool v) natural_writes natural_writes-Keeps,
        (
          λ v. and_then-Keeps (as_bool v) turbo_writes turbo_writes-Keeps,
          (
            λ v. and_then-Keeps (as_bool v) power_writes power_writes-Keeps,
            (
              λ v.
                  and_then-Keeps (as_int 0 28800 v) _
                    (λ n. elsewhere char_timer _ (omega arith) (omega arith)),
              (
                λ v.
                    and_then-Keeps _ _
                      (λ n. elsewhere char_shutdown_delay _ (omega arith) (omega arith)),
                (
                  λ v.
                      and_then-Keeps (as_int 0 1 v) _
                        (λ n. elsewhere char_gear_down _ (omega arith) (omega arith)),
                  (
                    λ v.
                        and_then-Keeps (as_int 0 600 v) _
                          (λ n. elsewhere char_turbo_time _ (omega arith) (omega arith)),
                    (
                      λ v.
                          and_then-Keeps _ battery_writes
                            (λ n. elsewhere char_battery _ (omega arith) (omega arith)),
                      tt,
                    ),
                  ),
                ),
              ),
            ),
          ),
        ),
      ),
    ),
  )

  run_writes-Keeps :
      (r : Result Raised (List (ℕ × Bytes))) (next : D → D × Option Raised) (d : D)
      → Keeps r
      → ((d' : D) → IsExclusive view d' → IsExclusive view (next d').0)
      → IsExclusive view d
      → IsExclusive view (run_writes connect write r next d).0
  unfolding run_writes
  run_writes-Keeps (err e) next d keeps go h = h
  run_writes-Keeps (ok writes) next d keeps go h =
      let written = keeps d h in
      elim (Bool-cases (write_all connect write writes d).1) [
        | inl e ↦ rw e (go (write_all connect write writes d).0 written)
        | inr e ↦ rw e written
      ]

  run_fields-Keeps :
      (rest : List Field) (body : Table Json)
      → All (λ (f : Field). (v : Json) → Keeps (f.1 v)) rest
      → (d : D) → IsExclusive view d
      → IsExclusive view (run_fields connect write rest body d).0
  unfolding run_fields
  run_fields-Keeps [] body keeps d h = h
  run_fields-Keeps ((name, writes_of) ∷ rest) body (keep, keeps) d h =
      elim (Option-cases (find name body)) [
        | inl e ↦ rw (e, run_fields) (run_fields-Keeps rest body keeps d h)
        | inr (v, e) ↦
            rw (e, run_fields)
              (run_writes-Keeps (writes_of v) (run_fields connect write rest body) d (keep v)
                (run_fields-Keeps rest body keeps) h)
      ]

  ensure_owned-IsExclusive :
      (m : Manager) (d : D)
      → IsExclusive view d
      → IsExclusive view (connect d).0
      → IsExclusive view (ensure_owned connect write m d).0
  unfolding ensure_owned
  ensure_owned-IsExclusive m d h connected = elim (Bool-cases m.enabled) [
    | inr e ↦ rw e h
    | inl e ↦ elim (Bool-cases m.paused) [
      | inl paused ↦ rw (e, paused) h
      | inr going ↦ elim (Bool-cases (connect d).1) [
        | inl returned ↦ rw (e, going, returned) connected
        | inr raised ↦ rw (e, going, raised) connected
      ]
    ]
  ]

  commands-IsExclusive :
      (m : Manager) (body : Table Json) (d : D)
      → IsExclusive view d
      → IsExclusive view (connect d).0
      → IsExclusive view (commands connect write m body d).0
  unfolding commands
  commands-IsExclusive m body d h connected =
      let owned = ensure_owned-IsExclusive m d h connected in
      let ran =
        run_fields-Keeps fields body fields-Keeps (ensure_owned connect write m d).0 owned in
      elim (Bool-cases (has_unknown body)) [
        | inl e ↦ rw e h
        | inr e ↦ elim (Option-cases (ensure_owned connect write m d).1) [
          | inl none_raised ↦ rw (e, none_raised) ran
          | inr (_, raised) ↦ rw (e, raised) owned
        ]
      ]

  -- Whatever the body, the flags and the failures of the client, those of the reading included: a fan
  -- on which natural wind or turbo is off is left so by `_patch`, if connecting leaves it so.
  pub patch-IsExclusive :
      (read : ℕ → D → Option Bytes) (m : Manager) (body : Table Json) (d : D) (s : W96dState)
      → IsExclusive view d
      → IsExclusive view (connect d).0
      → IsExclusive view (patch connect write read m body d s).0.0
  unfolding patch
  patch-IsExclusive read m body d s h connected =
      rw (read_after-fan read (commands connect write m body d) s)
        (commands-IsExclusive m body d h connected)
