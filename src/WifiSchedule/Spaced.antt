-- ===== src/WifiSchedule/Spaced.antt =====
-- modem_wifi_schedule.py: how often the modem is asked within one slot and one boot of the router.
use lan_mi_home.Base.{
  ℕ, ◌+◌, ◌≤◌, Bool, true, false, some, List, [], ◌∷◌, ◌≡◌, refl, sym, ap, ◌∙◌, inl, inr, arith,
  if◌then◌else◌, Bool-cases,
}
use lan_mi_home.Base.Bytes.{same, same_iff}
use lan_mi_home.Base.Text.{Text}
use lan_mi_home.WifiSchedule.{
  Slot, Saved, same_slot, same_boot, retry_after, needs_reconcile, reconcile,
}

-- A call of `run reconcile`: its time, and whether the modem confirms if it is asked.
abbrev pub Call : Type 0
Call = ℕ × Bool

module _ (slot : Slot) (boot_id : Text) where
  -- The state after the calls, the latest first, and the calls that asked the modem.
  unfoldable pub reconcile_all : Saved → List Call → Saved × List Call
  unfolding reconcile
  reconcile_all start [] = (start, [])
  reconcile_all start ((epoch, answered) ∷ earlier) =
      let (saved, asked) = reconcile_all start earlier in
      let (saved', asks) = reconcile slot boot_id epoch answered saved in
      (saved', if asks then (epoch, answered) ∷ asked else asked)

-- The calls do not go back in time.
abbrev pub Forward : List Call → Type 0
Forward [] = Unit
Forward (call ∷ []) = Unit
Forward (call ∷ before ∷ earlier) = (before.0 ≤ call.0) × Forward (before ∷ earlier)

-- Each that asked came 300 seconds after the one before, or later, and that one was not confirmed.
abbrev pub Spaced : List Call → Type 0
Spaced [] = Unit
Spaced (call ∷ []) = Unit
Spaced (call ∷ before ∷ earlier) =
    (before.0 + retry_after ≤ call.0) × (before.1 ≡ false) × Spaced (before ∷ earlier)

-- What is saved is the last that asked.
abbrev IsLast : Slot → Text → Saved → List Call → Type 0
IsLast slot boot_id saved [] = Unit
IsLast slot boot_id saved ((epoch, answered) ∷ asked) = saved ≡ record {
  slot = some slot;
  boot_id = some boot_id;
  attempted_at = epoch;
  confirmed = answered;
}

-- No time of the list is after another one.
abbrev IsBefore : ℕ → List Call → Type 0
IsBefore epoch [] = Unit
IsBefore epoch (call ∷ asked) = call.0 ≤ epoch

needs-last :
    (slot : Slot) (boot_id : Text) (epoch at : ℕ) (answered : Bool)
    → at ≤ epoch
    → needs_reconcile
        (record {
          slot = some slot;
          boot_id = some boot_id;
          attempted_at = at;
          confirmed = answered;
        })
        slot
        boot_id
        epoch
      ≡ true
    → (at + retry_after ≤ epoch) × (answered ≡ false)
unfolding needs_reconcile same_slot same_boot
needs-last (day, boundary) boot_id epoch at answered le h =
    let slot_same : same boundary boundary ≡ true = (same_iff boundary boundary).1 refl in
    let boot_same : same boot_id boot_id ≡ true = (same_iff boot_id boot_id).1 refl in
    let rest = rw (slot_same, boot_same) at h in ground arith

asked-Spaced :
    (slot : Slot) (boot_id : Text) (epoch : ℕ) (answered : Bool) (saved : Saved) (asked : List Call)
    → needs_reconcile saved slot boot_id epoch ≡ true
    → IsLast slot boot_id saved asked
    → IsBefore epoch asked
    → Spaced asked
    → Spaced ((epoch, answered) ∷ asked)
asked-Spaced slot boot_id epoch answered saved [] due last before spaced = tt
asked-Spaced slot boot_id epoch answered saved ((at, confirmed) ∷ asked) due last before spaced =
    let due_again = sym (ap (λ s. needs_reconcile s slot boot_id epoch) last) ∙ due in
    let (apart, refused) = needs-last slot boot_id epoch at confirmed before due_again in
    (apart, refused, spaced)

reconcile-Spaced :
    (slot : Slot) (boot_id : Text) (epoch : ℕ) (answered : Bool) (saved : Saved) (asked : List Call)
    → IsLast slot boot_id saved asked
    → IsBefore epoch asked
    → Spaced asked
    → let (saved', asks) = reconcile slot boot_id epoch answered saved in
      let asked' = if asks then (epoch, answered) ∷ asked else asked in
      IsLast slot boot_id saved' asked' × Spaced asked' × IsBefore epoch asked'
unfolding reconcile
reconcile-Spaced slot boot_id epoch answered saved asked last before spaced =
    elim (Bool-cases (needs_reconcile saved slot boot_id epoch)) [
      | inr quiet ↦ rw quiet (last, spaced, before)
      | inl due ↦ rw due (
        refl,
        asked-Spaced slot boot_id epoch answered saved asked due last before spaced,
        omega arith,
      )
    ]

later-IsBefore :
    (early late : ℕ) (asked : List Call) → early ≤ late → IsBefore early asked → IsBefore late asked
later-IsBefore early late [] le h = tt
later-IsBefore early late (call ∷ asked) le h = omega (arith, h)

module _ (slot : Slot) (boot_id : Text) (start : Saved) where
  -- What holds after the calls up to a time.
  abbrev IsWell : ℕ → List Call → Type 0
  IsWell epoch calls =
      let (saved, asked) = reconcile_all slot boot_id start calls in
      IsLast slot boot_id saved asked × Spaced asked × IsBefore epoch asked

  all-IsWell :
      (call : Call) (earlier : List Call)
      → Forward (call ∷ earlier)
      → IsWell call.0 (call ∷ earlier)
  unfolding reconcile_all
  all-IsWell (epoch, answered) [] h = reconcile-Spaced slot boot_id epoch answered start [] tt tt tt
  all-IsWell (epoch, answered) (before ∷ earlier) (le, h) =
      let (last, spaced, early) = all-IsWell before earlier h in
      let (saved, asked) = reconcile_all slot boot_id start (before ∷ earlier) in
      reconcile-Spaced slot boot_id epoch answered _ _ last
        (later-IsBefore before.0 epoch _ le early) spaced

-- Within one slot and one boot, while the clock does not go back: of the calls of `reconcile` that ask
-- the modem, each comes 300 seconds after the one before, or later, and none follows one that was
-- confirmed.
pub reconcile_all-Spaced :
    (slot : Slot) (boot_id : Text) (start : Saved) (calls : List Call)
    → Forward calls
    → Spaced (reconcile_all slot boot_id start calls).1
unfolding reconcile_all
reconcile_all-Spaced slot boot_id start [] h = tt
reconcile_all-Spaced slot boot_id start (call ∷ earlier) h =
    (all-IsWell slot boot_id start call earlier h).1
