-- ===== src/WifiSchedule/Slot.antt =====
-- modem_wifi_schedule.py: a slot on the line of time.
use mathlib.Core.Path.{subst}
use lan_mi_home.Base.{
  ℕ, ◌+◌, ◌*◌, ◌≤◌, ◌<◌, Bool, ◌&&◌, Option, none, some, [], ◌∷◌, ◌≡◌, inl, inr, arith, ◌==◌,
  if-elim, Bool-cases, Option-cases, leb, if◌then◌else◌,
}
use lan_mi_home.Base.Text.{Text}
use lan_mi_home.Sp651e.{ok}
use lan_mi_home.WifiSchedule.{
  Slot, digit, time_of, minutes, local_minutes, slot_at, check_slot, schedule_slot,
}

-- The minute at which a slot begins, and the one at which the next begins.
abbrev pub begins_at : ℕ → ℕ → Bool → ℕ → ℕ
begins_at on_minute off_minute enabled day =
    day * 1440 + (if enabled then on_minute else off_minute)

abbrev pub ends_at : ℕ → ℕ → Bool → ℕ → ℕ
ends_at on_minute off_minute enabled day =
    day * 1440 + (if enabled then off_minute else on_minute + 1440)

-- The slot of a moment is the one that it lies in: its boundary has passed, and the next has not come;
-- it is named after the boundary.
slot_at-begins_at :
    (on_minute off_minute : ℕ) (on_at off_at : Text) (at : ℕ)
    → on_minute < off_minute
    → off_minute < 1440
    → 1440 ≤ at
    → let (enabled, (day, boundary)) = slot_at on_minute off_minute on_at off_at at in
      (begins_at on_minute off_minute enabled day ≤ at)
      × (at < ends_at on_minute off_minute enabled day)
      × (boundary ≡ (if enabled then on_at else off_at))
unfolding slot_at
slot_at-begins_at on_minute off_minute on_at off_at at order day_time later = ground arith

-- What is read of a character is a digit.
abbrev IsDigit : Option ℕ → Type 0
IsDigit none = Unit
IsDigit (some n) = n < 10

time_of-lt :
    (a b c d : Option ℕ) (n : ℕ)
    → IsDigit a
    → IsDigit b
    → IsDigit c
    → IsDigit d
    → time_of a b c d ≡ some n
    → n < 1440
unfolding time_of
time_of-lt (some a) (some b) (some c) (some d) n ha hb hc hd e = ground arith
time_of-lt none b c d n ha hb hc hd e = cc
time_of-lt (some a) none c d n ha hb hc hd e = cc
time_of-lt (some a) (some b) none d n ha hb hc hd e = cc
time_of-lt (some a) (some b) (some c) none n ha hb hc hd e = cc

digit-IsDigit : (c : ℕ) → IsDigit (digit c)
digit-IsDigit c = if-elim IsDigit (leb b'0' c && leb c b'9') (λ h. ground arith) (λ _. tt)

minutes-lt : (t : Text) (n : ℕ) → minutes t ≡ some n → n < 1440
unfolding minutes
minutes-lt (a ∷ b ∷ colon ∷ c ∷ d ∷ []) n e = elim (Bool-cases (colon == b':')) [
  | inl hit ↦
      time_of-lt (digit a) (digit b) (digit c) (digit d) n (digit-IsDigit a) (digit-IsDigit b)
        (digit-IsDigit c) (digit-IsDigit d) (rw hit at e)
  | inr miss ↦ let bad = rw miss at e in cc
]
minutes-lt _ n e = cc

-- A schedule that is read, at an instant after the first day: it is asked for on exactly from the time of
-- `on_at` to that of `off_at`, and the slot is the one that the moment lies in, by the clock of China:
-- its boundary has passed, and the next has not come.
pub schedule_slot-begins_at :
    (now : ℕ) (on_at off_at : Text) (enabled : Bool) (day : ℕ) (boundary : Text)
    → schedule_slot (some now) on_at off_at ≡ ok (enabled, (day, boundary))
    → 1440 ≤ local_minutes now
    → (on_minute : ℕ) × (off_minute : ℕ) × (minutes on_at ≡ some on_minute)
      × (minutes off_at ≡ some off_minute)
      × (begins_at on_minute off_minute enabled day ≤ local_minutes now)
      × (local_minutes now < ends_at on_minute off_minute enabled day)
      × (boundary ≡ (if enabled then on_at else off_at))
unfolding schedule_slot check_slot
schedule_slot-begins_at now on_at off_at enabled day boundary e later =
    elim (Option-cases (minutes on_at)) [
      | inl unread ↦ let bad = rw (unread, check_slot) at e in cc
      | inr (a, on_read) ↦ elim (Option-cases (minutes off_at)) [
        | inl unread ↦ let bad = rw (on_read, unread, check_slot) at e in cc
        | inr (b, off_read) ↦ elim (Bool-cases (leb b a)) [
          | inl backwards ↦ let bad = rw (on_read, off_read, check_slot, backwards) at e in cc
          | inr forwards ↦
              let found = rw (on_read, off_read, check_slot, forwards) at e in
              let same_slot : slot_at a b on_at off_at (local_minutes now)
                  ≡ (enabled, (day, boundary)) =
                cc in
              let lies =
                slot_at-begins_at a b on_at off_at (local_minutes now) (ground arith)
                  (minutes-lt off_at b off_read) later in
              let (begun, going, named) =
                subst
                  (λ (p : Bool × Slot).
                    (begins_at a b p.0 p.1.0 ≤ local_minutes now)
                    × (local_minutes now < ends_at a b p.0 p.1.0)
                    × (p.1.1 ≡ (if p.0 then on_at else off_at)))
                  same_slot lies in
              (a, b, on_read, off_read, begun, going, named)
        ]
      ]
    ]
