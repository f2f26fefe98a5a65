-- ===== src/Appliance/Fields.antt =====
-- router/lanmihome.py: what the adapters of the fan and the lamp share: reports, validators, and the loop
-- over the fields of a body. A body is a JSON object, its entries in their order.
pub mod Written
use lan_mi_home.Base.{ℕ, Bool, true, false, Option, none, some, [], ◌∷◌, if◌then◌else◌}
use lan_mi_home.Base.Text.{Text, Table, word, find, assign}
use lan_mi_home.Sp651e.{Result, ok, err}
use lan_mi_home.Appliance.Values.{
  Json, boolean, integer, text, ℤ, Raised, key_error, truth, parse_bool, parse_int,
}
use lan_mi_home.Appliance.Actions.{Action, ◌>>=◌, ◌>>◌, pure, throw, lift}
use lan_mi_home.Appliance.Miot.{Ident, Device, miot_set}

-- What `state` returns: the values, or the exception.
pub data AdapterReport : Type 0 where
  not_configured : AdapterReport
  failed : Raised → AdapterReport
  available : Table Json → AdapterReport

-- if key in values: values[key] = bool(values[key])
unfoldable pub as_truth : Text → Table Json → Table Json
unfolding find truth assign
as_truth key values = elim (find key values) [
  | none ↦ values
  | some v ↦ assign key (boolean (truth v)) values
]

-- `except Exception` turns what was raised into a report.
abbrev pub reported : (Table Json → Table Json) → Result Raised (Table Json) → AdapterReport
reported shown (ok values) = available (shown values)
reported shown (err e) = failed e

-- What a request leaves, with the report of the new state, or the exception.
abbrev pub then_report :
    {D : Type 0}
    → (D → D × AdapterReport)
    → D × Result {0} Raised Unit
    → D × Result Raised AdapterReport
then_report state (d, err e) = (d, err e)
then_report state (d, ok _) = let (d', report) = state d in (d', ok report)

-- The validators that make a Boolean or a number.
unfoldable pub boolean_of : Json → Result Raised Json
unfolding parse_bool
boolean_of value = elim (parse_bool value) [ ok b ↦ ok (boolean b) | err e ↦ err e ]

unfoldable pub number_of : Result Raised ℤ → Result Raised Json
number_of (ok n) = ok (integer n)
number_of (err e) = err e

abbrev pub Validator : Type 0
Validator = Json → Result Raised Json

unfoldable pub whole_number : ℕ → ℕ → Validator
unfolding number_of parse_int
whole_number lo hi value = number_of (parse_int (some lo) (some hi) value)

-- unknown = set(body) - set(allowed)
unfoldable pub has_unknown_field : Table Ident → Table Json → Bool
unfolding find
has_unknown_field allowed [] = false
has_unknown_field allowed ((key, _) ∷ body) = elim (find key allowed) [
  | none ↦ true
  | some _ ↦ has_unknown_field allowed body
]

-- A field that is neither `power` nor unknown has both; Python would raise a KeyError.
unfoldable pub entry_of : Table Ident → Table Validator → Text → Option (Ident × Validator)
unfolding find
entry_of idents validators key = elim (find key idents) [
  | none ↦ none
  | some ident ↦ elim (find key validators) [ none ↦ none | some v ↦ some (ident, v) ]
]

module _ {D : Type 0} (device : Device D) where
  -- One turn of the loop over the other fields.
  unfoldable pub write_field : Option (Ident × Validator) → Json → Action D Unit
  unfolding miot_set
  write_field none value = throw key_error
  write_field (some (ident, validator)) value = do
    parsed ← lift (validator value)
    miot_set device ident parsed

  -- The loop over the fields that are not skipped.
  unfoldable pub write_fields :
      Table Ident → Table Validator → (Text → Bool) → Table Json → Action D Unit
  unfolding write_field entry_of
  write_fields idents validators skipped [] = pure tt
  write_fields idents validators skipped ((key, value) ∷ body) =
      (if skipped key then pure tt else write_field (entry_of idents validators key) value)
      >> write_fields idents validators skipped body

-- str(body.get("name") or ""): of other values than a str, none is spelled like an action.
unfoldable pub name_of : Table Json → Text
unfolding find
name_of body = elim (find (word "name") body) [ some (text t _ _) ↦ t | _ ↦ [] ]
