-- ===== src/Appliance/Miot.antt =====
-- router/lanmihome.py: the `_miot_*` helpers, `_device_enabled`, and MiotAdapter. The library miio is a
-- parameter: a call changes the device, and returns its response or raises. A request for a property is
-- the key, as its "did", with the siid and the piid. What is left out: names, addresses, timeouts, and
-- the texts of the exceptions.
pub mod Many
use lan_mi_home.Base.{
  ℕ, zero, suc, Bool, true, false, not, ◌&&◌, ◌||◌, Option, none, some, List, [], ◌∷◌, ◌==◌,
  if◌then◌else◌, length, take, drop, map,
}
use lan_mi_home.Base.Bytes.{same}
use lan_mi_home.Base.Text.{Text, Table, word, find, assign}
use lan_mi_home.Sp651e.{Result, ok, err}
use lan_mi_home.Appliance.Values.{
  Json, null, boolean, integer, pos, real, finite, text, array, object, Items, nil, cons, Fields,
  entries, Raised, value_error, runtime_error, connection_error, truth,
}
use lan_mi_home.Appliance.Actions.{Action, ◌>>=◌, ◌>>◌, pure, throw, lift}

-- (siid, piid), or (siid, aiid)
abbrev pub Ident : Type 0
Ident = ℕ × ℕ

pub record Device (D : Type 0) : Type 0 where
  pub open_device : Action D Unit  -- GenericMiot(...)
  pub get_property_by : Ident → Action D Json
  pub get_properties : List (Text × Ident) → Action D Json  -- send("get_properties", ...)
  pub set_property_by : Ident → Json → Action D Json
  pub call_action_by : Ident → List (ℕ × Json) → Action D Json
  pub sleep : (milliseconds : ℕ) → D → D

-- d.get(key) of a JSON object that is a dict
dict_of : Option Json → Table Json
unfolding entries
dict_of (some (object fields)) = entries fields
dict_of _ = []

is_dict : Option Json → Bool
is_dict (some (object _)) = true
is_dict _ = false

-- The empty dict stands for none.
unfoldable pub device_config : Table Json → Text → Table Json
unfolding find dict_of is_dict
device_config config name =
    let direct = find name config in
    if is_dict direct
    then dict_of direct
    else dict_of (find name (dict_of (find (word "devices") config)))

-- bool(cfg.get(key))
has : Text → Table Json → Bool
unfolding find truth
has key cfg = elim (find key cfg) [ none ↦ false | some v ↦ truth v ]

-- value is False
is_false : Option Json → Bool
is_false (some (boolean b)) = not b
is_false _ = false

unfoldable pub device_enabled : Table Json → Bool
unfolding find has is_false
device_enabled [] = false
device_enabled (entry ∷ rest) =
    let cfg = entry ∷ rest in
    if is_false (find (word "enabled") cfg)
    then false
    else (has (word "ip") cfg || has (word "host") cfg || has (word "address") cfg)
      && has (word "token") cfg

-- [item for item in response if isinstance(item, dict)]
unfoldable pub dicts : Items → List (Table Json)
unfolding entries
dicts nil = []
dicts (cons (object fields) items) = entries fields ∷ dicts items
dicts (cons _ items) = dicts items

result_items : Table Json → Option Json → List (Table Json)
unfolding dicts
result_items response (some (array items)) = dicts items
result_items response _ = response ∷ []

unfoldable pub miot_items : Json → List (Table Json)
unfolding dicts entries result_items find
miot_items (array items) = dicts items
miot_items (object fields) = result_items (entries fields) (find (word "result") (entries fields))
miot_items _ = []

-- code in (0, None), of a code that may be missing
code_ok : Option Json → Bool
code_ok none = true
code_ok (some null) = true
code_ok (some (boolean b)) = not b
code_ok (some (integer (pos n))) = n == 0
code_ok (some (real (finite _ whole rest))) = whole == 0 && rest == 0
code_ok (some _) = false

unfoldable pub item_ok : Table Json → Bool
unfolding code_ok find
item_ok item = code_ok (find (word "code") item)

all_ok : List (Table Json) → Bool
unfolding item_ok
all_ok [] = true
all_ok (item ∷ items) = item_ok item && all_ok items

unfoldable pub ensure_ok : Json → Result {0} Raised Unit
unfolding miot_items all_ok
ensure_ok response = if all_ok (miot_items response) then ok tt else err runtime_error

unfoldable pub value_of : Table Json → Result Raised Json
unfolding find
value_of item = elim (find (word "value") item) [ none ↦ err runtime_error | some v ↦ ok v ]

unfoldable pub first_value : List (Table Json) → Result Raised Json
unfolding item_ok value_of
first_value [] = err runtime_error
first_value (item ∷ _) = if item_ok item then value_of item else err runtime_error

-- str(item.get("did")) == key, for a key of letters: of other values than a str, None, True and False
-- are spelled with letters, and these are no keys.
is_did : Text → Option Json → Bool
unfolding same
is_did key (some (text did _ _)) = same did key
is_did key _ = false

-- by_did.get(key): of several items with one did, the last
unfoldable pub by_did : Text → List (Table Json) → Option (Table Json)
unfolding is_did find
by_did key [] = none
by_did key (item ∷ items) = elim (by_did key items) [
  | some later ↦ some later
  | none ↦ if is_did key (find (word "did") item) then some item else none
]

-- What an item adds to `out`.
take_value : Text → Option (Table Json) → Table Json → Table Json
unfolding item_ok find assign
take_value key none out = out
take_value key (some item) out =
    if item_ok item
    then (elim (find (word "value") item) [ none ↦ out | some v ↦ assign key v out ])
    else out

-- The values of a chunk.
unfoldable pub collect : List (Text × Ident) → List (Table Json) → Table Json → Table Json
unfolding by_did take_value
collect [] items out = out
collect ((key, _) ∷ chunk) items out = collect chunk items (take_value key (by_did key items) out)

module _ {D : Type 0} (device : Device D) where
  unfoldable pub get_one : Ident → Action D Json
  unfolding first_value miot_items
  get_one ident = do
    response ← device.get_property_by ident
    lift (first_value (miot_items response))

  -- The loop over the offsets, by the number of entries: each chunk takes ten.
  unfoldable pub get_chunks : ℕ → List (Text × Ident) → Table Json → Action D (Table Json)
  unfolding collect miot_items
  get_chunks zero mapping out = pure out
  get_chunks (suc fuel) [] out = pure out
  get_chunks (suc fuel) (entry ∷ rest) out = do
    response ← device.get_properties (take 10 (entry ∷ rest))
    get_chunks fuel (drop 10 (entry ∷ rest))
        (collect (take 10 (entry ∷ rest)) (miot_items response) out)

  unfoldable pub get_many : List (Text × Ident) → Action D (Table Json)
  unfolding get_chunks
  get_many mapping = get_chunks (length mapping) mapping []

  unfoldable pub miot_set : Ident → Json → Action D Unit
  unfolding ensure_ok
  miot_set ident value = do response ← device.set_property_by ident value; lift (ensure_ok response)

  unfoldable pub action : Ident → List (ℕ × Json) → Action D Unit
  unfolding ensure_ok
  action ident params = do response ← device.call_action_by ident params; lift (ensure_ok response)

  -- new_device of an adapter
  unfoldable pub new_device : Bool → Action D Unit
  new_device enabled = if enabled then device.open_device else throw connection_error
