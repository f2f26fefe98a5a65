-- ===== src/WifiSchedule.antt =====
-- tools/modem_wifi_schedule/modem_wifi_schedule.py: the slots of the schedule, and when `run` asks the
-- modem to follow it. An instant is in microseconds since the first day, in UTC; a slot is the number of
-- its day and the text of its boundary. Modem for `set_enabled`.
pub mod Slot
pub mod Spaced
pub mod Modem
mod Tests
use lan_mi_home.Base.{
  ℕ, ◌+◌, ◌-◌, ◌*◌, ◌/◌, ◌%◌, Bool, true, false, not, ◌&&◌, ◌||◌, Option, none, some, List, [], ◌∷◌,
  ltb, leb, ◌==◌, if◌then◌else◌,
}
use lan_mi_home.Base.Bytes.{same}
use lan_mi_home.Base.Text.{Text}
use lan_mi_home.Sp651e.{Result, ok, err}

pub data ScheduleError : Type 0 where
  not_a_time no_daytime no_timezone : ScheduleError

-- [0-9], and its value
abbrev digit : ℕ → Option ℕ
digit c = if leb b'0' c && leb c b'9' then some (c - b'0') else none

-- The value of four digits that are read, if they are a time.
time_of : Option ℕ → Option ℕ → Option ℕ → Option ℕ → Option ℕ
time_of (some a) (some b) (some c) (some d) =
    if (ltb a 2 || (a == 2 && ltb b 4)) && ltb c 6
    then some ((a * 10 + b) * 60 + (c * 10 + d))
    else none
time_of _ _ _ _ = none

unfoldable pub minutes : Text → Option ℕ
unfolding time_of
minutes (a ∷ b ∷ colon ∷ c ∷ d ∷ []) =
    if colon == b':' then time_of (digit a) (digit b) (digit c) (digit d) else none
minutes _ = none

abbrev pub Slot : Type 0
Slot = ℕ × Text

-- The microseconds of a minute.
abbrev pub minute_length : ℕ
minute_length = 60000000

-- now.astimezone(CHINA_TIME), in whole minutes
unfoldable pub local_minutes : ℕ → ℕ
local_minutes now = now / minute_length + 480

-- With both times read; `at` is the local time. Before the first day Python raises.
unfoldable pub slot_at : ℕ → ℕ → Text → Text → ℕ → Bool × Slot
slot_at on_minute off_minute on_at off_at at =
    let day = at / 1440 in
    let minute = at % 1440 in
    let enabled = leb on_minute minute && ltb minute off_minute in
    let anchor = if ltb minute on_minute then day - 1 else day in
    (enabled, (anchor, if enabled then on_at else off_at))

check_slot : Option ℕ → Text → Text → Option ℕ → Option ℕ → Result ScheduleError (Bool × Slot)
unfolding slot_at local_minutes
check_slot now on_at off_at (some on_minute) (some off_minute) =
    if leb off_minute on_minute then err no_daytime else (elim now [
      | none ↦ err no_timezone
      | some instant ↦ ok (slot_at on_minute off_minute on_at off_at (local_minutes instant))
    ])
check_slot now on_at off_at _ _ = err not_a_time

-- Without a time zone, there is no instant.
unfoldable pub schedule_slot : Option ℕ → Text → Text → Result ScheduleError (Bool × Slot)
unfolding check_slot minutes
schedule_slot now on_at off_at = check_slot now on_at off_at (minutes on_at) (minutes off_at)

-- The state that `run` keeps, as far as it was there; `confirmed` is the test `is True`.
pub record Saved : Type 0 where
  pub slot : Option Slot
  pub boot_id : Option Text
  pub attempted_at : ℕ
  pub confirmed : Bool

same_slot : Option Slot → Slot → Bool
unfolding same
same_slot none slot = false
same_slot (some (day, at)) (day', at') = day == day' && same at at'

same_boot : Option Text → Text → Bool
unfolding same
same_boot none boot = false
same_boot (some b) boot = same b boot

-- 300 seconds
abbrev pub retry_after : ℕ
retry_after = 300000000

unfoldable pub needs_reconcile : Saved → Slot → Text → ℕ → Bool
unfolding same_slot same_boot
needs_reconcile previous slot boot_id epoch =
    if not (same_slot previous.slot slot) || not (same_boot previous.boot_id boot_id)
    then true
    else if previous.confirmed
    then false
    else not (leb previous.attempted_at epoch && ltb (epoch - previous.attempted_at) retry_after)

-- `run reconcile` once the slot is known: whether the modem is asked, and the state that is saved, with
-- whether the modem confirmed.
unfoldable pub reconcile : Slot → Text → ℕ → Bool → Saved → Saved × Bool
unfolding needs_reconcile
reconcile slot boot_id epoch answered previous =
    if needs_reconcile previous slot boot_id epoch
    then (
      record {
        slot = some slot;
        boot_id = some boot_id;
        attempted_at = epoch;
        confirmed = answered;
      },
      true,
    )
    else (previous, false)
