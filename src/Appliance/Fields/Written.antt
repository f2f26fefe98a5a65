-- ===== src/Appliance/Fields/Written.antt =====
-- router/lanmihome.py: the loop over the fields of a body, against what an appliance then holds.
use lan_mi_home.Base.{
  Bool, ◌&&◌, Option, none, some, List, [], ◌∷◌, ◌≡◌, ◌∙◌, refl, inl, inr, ap, ◌==◌, if◌then◌else◌,
  Bool-cases,
}
use lan_mi_home.Base.Text.{Text, Table}
use lan_mi_home.Sp651e.{Result, ok, err}
use lan_mi_home.Appliance.Values.{Json, Raised, key_error}
use lan_mi_home.Appliance.Actions.{
  ◌>>=◌, pure, lift, Action, bind-ok, then-ok, then-err, Result-cases,
}
use lan_mi_home.Appliance.Miot.{Ident, Device, ensure_ok, miot_set}
use lan_mi_home.Appliance.Fields.{Validator, entry_of, write_field, write_fields}

abbrev pub same_ident : Ident → Ident → Bool
same_ident (s, p) (s', p') = s == s' && p == p'

-- What a property holds after some writes, the first of them first.
unfoldable pub held_after : List (Ident × Json) → Ident → Json → Json
held_after [] ident v = v
held_after ((written, new) ∷ writes) ident v =
    held_after writes ident (if same_ident ident written then new else v)

-- An appliance that takes every write, and then holds what was written.
abbrev pub Takes : {D : Type 0} → Device D → (D → Ident → Json) → Type 0
Takes {D} device held =
    (d : D) (written : Ident) (new : Json)
    → (d' : D) × (response : Json) × (device.set_property_by written new d ≡ (d', ok response))
      × (ensure_ok response ≡ ok tt)
      × ((ident : Ident) → held d' ident ≡ (if same_ident ident written then new else held d ident))

-- The field is refused, or it is a write.
unfoldable pub field_write : Option (Ident × Validator) → Json → Result Raised (Ident × Json)
field_write none value = err key_error
field_write (some (ident, validator)) value = elim (validator value) [
  | err e ↦ err e
  | ok v ↦ ok (ident, v)
]

-- A write before those of the rest.
abbrev pub and_rest :
    Result Raised (Ident × Json)
    → List (Ident × Json) × Result {0} Raised Unit
    → List (Ident × Json) × Result {0} Raised Unit
and_rest (err e) rest = ([], err e)
and_rest (ok w) (writes, r) = (w ∷ writes, r)

module _ (idents : Table Ident) (validators : Table Validator) (skipped : Text → Bool) where
  -- The fields up to the first that is refused, as writes, and the exception of that one.
  unfoldable pub parsed : Table Json → List (Ident × Json) × Result {0} Raised Unit
  unfolding field_write
  parsed [] = ([], ok tt)
  parsed ((key, value) ∷ body) =
      let rest = parsed body in
      if skipped key
      then rest
      else and_rest (field_write (entry_of idents validators key) value) rest

-- The turn of the loop reads the field, and then writes.
write_field-field_write :
    {D : Type 0} (device : Device D) (entry : Option (Ident × Validator)) (value : Json) (d : D)
    → write_field device entry value d
      ≡ (lift (field_write entry value) >>= λ w. miot_set device w.0 w.1) d
unfolding write_field field_write ◌>>=◌
write_field-field_write device none value d = refl
write_field-field_write device (some (ident, validator)) value d =
    elim (Result-cases (validator value)) [ inl (v, e) ↦ rw e | inr (r, e) ↦ rw e ]

module _ {D : Type 0} (device : Device D) (held : D → Ident → Json)
    (takes : Takes device held) where
  miot_set-Takes :
      (d : D) (written : Ident) (new : Json)
      → (d' : D) × (miot_set device written new d ≡ (d', ok tt))
        × ((ident : Ident)
            → held d' ident ≡ (if same_ident ident written then new else held d ident))
  unfolding miot_set
  miot_set-Takes d written new =
      let (d', response, written_ok, fine, holds) = takes d written new in
      (
        d',
        bind-ok (device.set_property_by written new) _ written_ok ∙ ap (λ r. (d', r)) fine,
        holds,
      )

  -- The loop ends as the reading of the fields does, and leaves what the writes before that make.
  pub write_fields-parsed :
      (idents : Table Ident) (validators : Table Validator) (skipped : Text → Bool)
      (body : Table Json) (d : D)
      → let (writes, r) = parsed idents validators skipped body in
        (d' : D) × (write_fields device idents validators skipped body d ≡ (d', r))
        × ((ident : Ident) → held d' ident ≡ held_after writes ident (held d ident))
  unfolding write_fields parsed held_after ◌>>=◌
  write_fields-parsed idents validators skipped [] d = (d, refl, λ ident. refl)
  write_fields-parsed idents validators skipped ((key, value) ∷ body) d =
      let write : Ident × Json → Action D Unit = λ w. miot_set device w.0 w.1 in
      let turn = write_field-field_write device (entry_of idents validators key) value d in
      elim (Bool-cases (skipped key)) [
        | inl skip ↦ rw skip (
            let (d', ran, holds) = write_fields-parsed idents validators skipped body d in
            (d', then-ok (pure tt) _ refl ∙ ran, holds))
        | inr keep ↦ elim (Result-cases (field_write (entry_of idents validators key) value)) [
          | inr (r, e) ↦
              rw (keep, e)
                (
                  d,
                  then-err (write_field device (entry_of idents validators key) value) _
                      (turn ∙ ap (λ o. (lift o >>= write) d) e),
                  λ ident'. refl,
                )
          | inl ((ident, v), e) ↦
              rw (keep, e)
                (let (d1, wrote, holds1) = miot_set-Takes d ident v in
                  let (d', ran, holds) = write_fields-parsed idents validators skipped body d1 in
                  (
                    d',
                    then-ok (write_field device (entry_of idents validators key) value) _
                          (turn ∙ ap (λ o. (lift o >>= write) d) e ∙ wrote)
                        ∙ ran,
                    λ ident'.
                        holds ident'
                        ∙ ap (held_after (parsed idents validators skipped body).0 ident')
                            (holds1 ident'),
                  ))
        ]
      ]
