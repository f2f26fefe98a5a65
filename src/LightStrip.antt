-- ===== src/LightStrip.antt =====
-- router/light_strip.py: the adapter between the HTTP interface and a transport of the strip. The
-- transport is a parameter: what it reads, and what a command does to it. Bodies are JSON values of
-- which the code looks at the type only; the configuration is taken as ASCII text.
mod Tests
pub mod Patch
pub mod State
use lan_mi_home.Base.{
  ◌≡◌, refl, arith, ℕ, ◌+◌, Bool, true, false, not, ◌&&◌, ◌||◌, Option, none, some, List, [], ◌∷◌,
  ltb, leb, ◌==◌, if◌then◌else◌, length,
}
use lan_mi_home.Base.Bytes.{same}
use lan_mi_home.Base.Text.{Text, Table, word, find, upper}
use lan_mi_home.Sp651e.{Result, ok, err, Changes}

-- A JSON value, and Python's bool and int among them; `negative n` is -(n + 1).
pub data Json : Type 0 where
  boolean : Bool → Json
  integer : ℕ → Json
  negative : ℕ → Json
  other : Json

pub data Body : Type 0 where
  object : Table Json → Body
  not_object : Body

-- The ValueErrors of `_validate_patch`.
pub data PatchError : Type 0 where
  not_a_patch unknown_fields power_not_boolean brightness_out_of_range : PatchError

is_known : Text → Bool
unfolding same
is_known key = same key (word "power") || same key (word "brightness")

has_unknown : Table Json → Bool
unfolding is_known
has_unknown [] = false
has_unknown ((key, _) ∷ body) = not (is_known key) || has_unknown body

is_boolean : Json → Bool
is_boolean (boolean _) = true
is_boolean _ = false

-- type(value) is int and 1 <= value <= 100
in_percent : Json → Bool
in_percent (integer n) = leb 1 n && leb n 100
in_percent _ = false

-- The test of a key that may be missing.
all_at : Text → (Json → Bool) → Table Json → Bool
unfolding find
all_at key test body = elim (find key body) [ none ↦ true | some v ↦ test v ]

-- What an accepted dict says.
power_of : Json → Option Bool
power_of (boolean b) = some b
power_of _ = none

brightness_of : Json → Option ℕ
brightness_of (integer n) = some n
brightness_of _ = none

changes_of : Table Json → Changes
unfolding power_of brightness_of find
changes_of body = record {
  power = elim (find (word "power") body) [ none ↦ none | some v ↦ power_of v ];
  brightness = elim (find (word "brightness") body) [ none ↦ none | some v ↦ brightness_of v ];
}

pub validate_patch : Body → Result PatchError Changes
unfolding has_unknown all_at is_boolean in_percent changes_of
validate_patch not_object = err not_a_patch
validate_patch (object []) = err not_a_patch
validate_patch (object (e ∷ rest)) =
    let body = e ∷ rest in
    if has_unknown body
    then err unknown_fields
    else if not (all_at (word "power") is_boolean body)
    then err power_not_boolean
    else if not (all_at (word "brightness") in_percent body)
    then err brightness_out_of_range
    else ok (changes_of body)

pub record Adapter : Type 0 where
  pub enabled : Bool
  pub model : Text
  pub address : Text
  pub protocol : Text

pub record Capabilities : Type 0 where
  pub model : Text
  pub enabled : Bool
  pub protocol_ready : Bool
  pub protocol : Text
  pub controls : List Text
  pub brightness_min : ℕ
  pub brightness_max : ℕ

pub record Report : Type 0 where
  pub name : Text
  pub model : Text
  pub address : Option Text
  pub enabled : Bool
  pub available : Bool
  pub control_ready : Bool
  pub power : Option Bool
  pub brightness : Option ℕ
  pub error : Option Text
  pub status : Text
  pub setup_required : Bool
  pub firmware : Option Text
  pub mode : Option ℕ
  pub capabilities : Capabilities

pub data Pending : Type 0 where
  disabled not_configured protocol_pending : Pending

is_empty : Text → Bool
is_empty [] = true
is_empty (_ ∷ _) = false

-- Whether there is a transport.
abbrev pub is_attached {ℓ} : {A : Type ℓ} → Option A → Bool
is_attached none = false
is_attached (some _) = true

-- `_pending_status`; `attached` says whether there is a transport.
unfoldable pub pending_status : Adapter → Bool → Option Pending
unfolding is_empty
pending_status a attached =
    if not a.enabled
    then (if is_empty a.address then some not_configured else some disabled)
    else if is_empty a.address
    then some not_configured
    else if not attached
    then some protocol_pending
    else none

pending_text : Pending → Text
pending_text disabled = word "disabled"
pending_text not_configured = word "not_configured"
pending_text protocol_pending = word "protocol_pending"

capabilities : Adapter → Bool → Capabilities
capabilities a attached = record {
  model = a.model;
  enabled = a.enabled;
  protocol_ready = attached;
  protocol = a.protocol;
  controls = word "power" ∷ word "brightness" ∷ [];
  brightness_min = 1;
  brightness_max = 100;
}

-- `_base_state`, with the status that every caller adds
base_state : Adapter → Bool → Text → Bool → Report
unfolding capabilities is_empty
base_state a attached status setup = record {
  name = word "灯带";
  model = a.model;
  address = if is_empty a.address then none else some a.address;
  enabled = a.enabled;
  available = false;
  control_ready = false;
  power = none;
  brightness = none;
  error = none;
  status = status;
  setup_required = setup;
  firmware = none;
  mode = none;
  capabilities = capabilities a attached;
}

-- The exceptions of `patch`: a ValueError, or LightStripUnavailable with its HTTP status.
pub data Unavailable : Type 0 where
  bad_request : PatchError → Unavailable
  not_ready : ℕ → Pending → Unavailable
  command_failed command_unconfirmed : ℕ → Unavailable

-- What the adapter uses of a transport. `read_state` is `none` where it raises; `set_state` says
-- whether it returned.
pub record Transport (T : Type 0) : Type 0 where
  pub read_state : T → Option Body
  pub set_state : Changes → T → T × Bool
  pub firmware : T → Option Text
  pub mode : T → Option ℕ

-- The values of a report that names both, as `state` demands.
pub both : Result PatchError Changes → Option (Bool × ℕ)
both (err _) = none
both (ok c) = elim c.power [
  | none ↦ none
  | some p ↦ elim c.brightness [ none ↦ none | some b ↦ some (p, b) ]
]

bool_eq : Bool → Bool → Bool
bool_eq true b = b
bool_eq false b = not b

pub power_agrees : Option Bool → Option Bool → Bool
unfolding bool_eq
power_agrees none _ = true
power_agrees (some p) none = false
power_agrees (some p) (some q) = bool_eq p q

pub brightness_agrees : Option ℕ → Option ℕ → Bool
brightness_agrees none _ = true
brightness_agrees (some b) none = false
brightness_agrees (some b) (some n) = b == n

-- reported[key] != value for no item of the changes
pub agrees : Changes → Report → Bool
unfolding power_agrees brightness_agrees
agrees c r = power_agrees c.power r.power && brightness_agrees c.brightness r.brightness

bool_eq_same : (b : Bool) → bool_eq b b ≡ true
unfolding bool_eq
bool_eq_same true = refl
bool_eq_same false = refl

pub power_agrees-some :
    (c : Option Bool) (power : Bool)
    → ((p : Bool) → c ≡ some p → power ≡ p)
    → power_agrees c (some power) ≡ true
unfolding power_agrees
power_agrees-some none power has = refl
power_agrees-some (some p) power has = rw (has p refl) (bool_eq_same p)

pub brightness_agrees-some :
    (c : Option ℕ) (b : ℕ) → ((n : ℕ) → c ≡ some n → b ≡ n) → brightness_agrees c (some b) ≡ true
unfolding brightness_agrees
brightness_agrees-some none b has = refl
brightness_agrees-some (some n) b has = let e = has n refl in ground arith
