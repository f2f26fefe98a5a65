-- ===== src/LightStrip/State.antt =====
-- router/light_strip.py: `state`, the report of the strip.
use lan_mi_home.Base.{
  ℕ, ◌≤◌, Bool, true, false, Option, none, some, [], ◌∷◌, ◌≡◌, ◌∙◌, ap, refl, arith, ◌>>=◌,
}
use lan_mi_home.Base.Bytes.{same}
use lan_mi_home.Base.Text.{Text, word}
use lan_mi_home.Sp651e.{percent_of}
use lan_mi_home.Sp651e.Brightness.{percent_of_range}
use lan_mi_home.LightStrip.{
  boolean, integer, Body, object, Adapter, Report, Transport, validate_patch, both, pending_status,
  pending_text, base_state,
}

offline : Adapter → Report
unfolding base_state
offline a =
    let r = base_state a true (word "offline") false in
    record r { error = some (word "light-strip-state-unavailable") }

pub ready : Adapter → Bool → ℕ → Option Text → Option ℕ → Report
unfolding base_state
ready a power brightness firmware mode =
    let r = base_state a true (word "ready") false in
    record r {
      available = true;
      control_ready = true;
      power = some power;
      brightness = some brightness;
      firmware = firmware;
      mode = mode;
    }

module _ {T : Type 0} where
  -- What is read of the transport: `none` if it raises, or if the values do not pass.
  pub values_of : Transport T → T → Option (Bool × ℕ)
  unfolding both validate_patch
  values_of strip t = do reported ← strip.read_state t; both (validate_patch reported)

  pub reported_or_offline : Adapter → Transport T → T → Option (Bool × ℕ) → Report
  unfolding ready offline
  reported_or_offline a strip t none = offline a
  reported_or_offline a strip t (some (p, b)) = ready a p b (strip.firmware t) (strip.mode t)

  pub state : Adapter → Transport T → T → Report
  unfolding pending_text base_state
  state a strip t = elim (pending_status a true) [
    | some p ↦ base_state a true (pending_text p) true
    | none ↦ reported_or_offline a strip t (values_of strip t)
  ]

-- `state` of an adapter without a transport: something is always pending.
pub state_detached : Adapter → Report
unfolding pending_status pending_text base_state
state_detached a = elim (pending_status a false) [
  | some p ↦ base_state a false (pending_text p) true
  | none ↦ base_state a false [] true
]

-- A body with both values.
abbrev pub full_body : Bool → ℕ → Body
full_body power b = object ((word "power", boolean power) ∷ (word "brightness", integer b) ∷ [])

pub full_body_accepted :
    (power : Bool) (b : ℕ)
    → 1 ≤ b
    → b ≤ 100
    → both (validate_patch (full_body power b)) ≡ some (power, b)
unfolding both validate_patch same
full_body_accepted power b lo hi = ground arith

full_body_refused :
    (power : Bool) (b : ℕ) → b ≡ 0 → both (validate_patch (full_body power b)) ≡ none
unfolding both validate_patch same
full_body_refused power b zero_percent = ground arith

pub read_full_body :
    {T : Type 0} (strip : Transport T) (t : T) (power : Bool) (b : ℕ)
    → strip.read_state t ≡ some (full_body power b)
    → values_of strip t ≡ both (validate_patch (full_body power b))
unfolding values_of
read_full_body strip t power b e = rw e

pub state-reported :
    {T : Type 0} (a : Adapter) (strip : Transport T) (t : T)
    → pending_status a true ≡ none
    → state a strip t ≡ reported_or_offline a strip t (values_of strip t)
unfolding state
state-reported a strip t idle = rw (idle, state)

-- An idle adapter over a transport that reads back two valid values shows them.
pub state-full :
    {T : Type 0} (a : Adapter) (strip : Transport T) (t : T) (power : Bool) (b : ℕ)
    → pending_status a true ≡ none
    → strip.read_state t ≡ some (full_body power b)
    → 1 ≤ b
    → b ≤ 100
    → (r : Report) × (state a strip t ≡ r)
      × (r.available ≡ true)
      × (r.power ≡ some power)
      × (r.brightness ≡ some b)
unfolding reported_or_offline ready
state-full a strip t power b idle report lo hi =
    let values = read_full_body strip t power b report ∙ full_body_accepted power b lo hi in
    (
      ready a power b (strip.firmware t) (strip.mode t),
      state-reported a strip t idle ∙ ap (reported_or_offline a strip t) values,
      refl,
      refl,
      refl,
    )

module _ {T : Type 0} (a : Adapter) (strip : Transport T) (t : T) (power : Bool) (raw : ℕ) where
  -- An enabled strip with an address that reports a brightness byte from 1 to 255 is shown as available,
  -- with its power and its percentage, exactly when the byte is not 1: that one reads as 0 percent,
  -- which the adapter takes for an invalid report.
  pub state-available :
      pending_status a true ≡ none
      → strip.read_state t ≡ some (full_body power (percent_of raw))
      → 1 ≤ raw
      → raw ≤ 255
      → (2 ≤ raw
          → ((state a strip t).available ≡ true)
            × ((state a strip t).power ≡ some power)
            × ((state a strip t).brightness ≡ some (percent_of raw)))
        × (raw ≡ 1 → (state a strip t).available ≡ false)
  unfolding reported_or_offline ready offline
  state-available idle report lo hi =
      let (in_range, reads_zero) = percent_of_range raw hi in
      let reads = read_full_body strip t power (percent_of raw) report in
      (
        λ big.
            let good =
              full_body_accepted power (percent_of raw) (in_range big).0 (in_range big).1 in
            rw (state-reported a strip t idle, reads, good) (refl, refl, refl),
        λ one.
            let bad = full_body_refused power (percent_of raw) (reads_zero (omega arith)) in
            rw (state-reported a strip t idle, reads, bad),
      )
