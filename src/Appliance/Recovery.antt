-- ===== src/Appliance/Recovery.antt =====
-- router/lanmihome.py: RecoveryController, as steps between which other threads may run: a request to
-- start, and the moves of the threads that run `_run`. Every change of the state is under the lock, and
-- so one step. A time of day is in microseconds, the monotonic clock in seconds. What ensure_power
-- returns or raises is given with the move.
pub mod Single
pub mod Attempts
mod Tests
use lan_mi_home.Base.{
  ℕ, zero, suc, ◌+◌, Bool, true, false, not, ◌&&◌, ◌||◌, Option, none, some, List, [], ◌∷◌, ◌++◌,
  max, ltb, leb, if◌then◌else◌,
}
use lan_mi_home.Sp651e.{Result, ok, err}
use lan_mi_home.Appliance.Values.{Raised}

-- The configuration: a time is missing where strptime raises a ValueError.
pub record Settings : Type 0 where
  pub enabled : Bool
  pub fan_enabled : Bool
  pub window_start : Option ℕ
  pub window_end : Option ℕ
  pub retry_seconds : ℕ
  pub force_timeout_seconds : ℕ

-- What the two numbers of the configuration are made into.
unfoldable pub make_settings :
    (enabled fan_enabled : Bool) (window_start window_end : Option ℕ) (retry timeout : ℕ) → Settings
make_settings enabled fan_enabled window_start window_end retry timeout = record {
  enabled = enabled;
  fan_enabled = fan_enabled;
  window_start = window_start;
  window_end = window_end;
  retry_seconds = max 1 retry;
  force_timeout_seconds = max 10 timeout;
}

unfoldable pub is_inside_window : Settings → ℕ → Bool
is_inside_window c now = elim c.window_start [
  | none ↦ false
  | some start ↦ elim c.window_end [
    | none ↦ false
    | some stop ↦
        if leb start stop then leb start now && leb now stop else leb start now || leb now stop
  ]
]

pub data Reason : Type 0 where
  fan_not_configured outside_window forced power_return_window : Reason
  confirmed_on timeout window_ended : Reason

pub record Progress : Type 0 where
  pub active : Bool
  pub success : Bool
  pub attempts : ℕ
  pub reason : Option Reason
  pub last_error : Option Raised

-- Where a thread is in `_run`: before the deadline is set, before the tests of the loop, in ensure_power,
-- asleep until a time, and after the loop.
pub data Phase : Type 0 where
  starting checking attempting leaving : Phase
  sleeping : ℕ → Phase

pub record Thread : Type 0 where
  pub force : Bool
  pub deadline : Option ℕ
  pub phase : Phase

pub record RecoverySystem : Type 0 where
  pub progress : Progress
  pub threads : List Thread
  pub clock : ℕ

pub init : RecoverySystem
init = record {
  progress = record {
    active = false;
    success = false;
    attempts = 0;
    reason = none;
    last_error = none;
  };
  threads = [];
  clock = 0;
}

unfoldable pub start : Settings → Bool → ℕ → RecoverySystem → RecoverySystem
unfolding is_inside_window
start c force now s =
    if s.progress.active
    then s
    else if not c.fan_enabled
    then refused fan_not_configured
    else if not force && not (is_inside_window c now)
    then refused outside_window
    else record s {
      progress = record {
        active = true;
        success = false;
        attempts = 0;
        reason = some (if force then forced else power_return_window);
        last_error = none;
      };
      threads = s.threads ++ record { force = force; deadline = none; phase = starting } ∷ [];
    }
  where
    refused : Reason → RecoverySystem
    refused why = record s { progress = record s.progress { reason = some why } }

unfoldable pub maybe_start : Settings → ℕ → RecoverySystem → RecoverySystem
unfolding start is_inside_window
maybe_start c now s = if c.enabled && is_inside_window c now then start c false now s else s

-- The two tests at the head of the loop.
unfoldable pub is_over : Settings → ℕ → ℕ → Thread → Bool
unfolding is_inside_window
is_over c now clock t =
    (not t.force && not (is_inside_window c now))
    || (t.force && (elim t.deadline [ none ↦ false | some d ↦ leb d clock ]))

-- What the end of an attempt makes of the progress, and whether the thread is done.
unfoldable pub attempted : Result Raised Bool → Progress → Progress × Bool
attempted (ok true) p = (
  record p { active = false; success = true; reason = some confirmed_on; last_error = none },
  true,
)
attempted (ok false) p = (p, false)
attempted (err e) p = (record p { last_error = some e }, false)

unfoldable pub left : Bool → Progress → Progress
left force p = record p {
  active = false;
  reason = if p.success then p.reason else some (if force then timeout else window_ended);
}

-- What a move finds: the time of day, and what ensure_power does, if it is asked.
pub record Tick : Type 0 where
  pub now : ℕ
  pub outcome : Result Raised Bool

-- A move of a thread from its phase; without a thread, it has ended.
unfoldable pub move_from :
    Settings → Tick → ℕ → Thread → Progress → Phase → Progress × Option Thread
unfolding is_over attempted left
move_from c tick clock t p starting = (
  p,
  some (record t {
    deadline = if t.force then some (clock + c.force_timeout_seconds) else none;
    phase = checking;
  }),
)
move_from c tick clock t p checking =
    if is_over c tick.now clock t
    then (p, some (record t { phase = leaving }))
    else (record p { attempts = suc p.attempts }, some (record t { phase = attempting }))
move_from c tick clock t p attempting =
    let (p', done) = attempted tick.outcome p in
    (p', if done then none else some (record t { phase = sleeping (clock + c.retry_seconds) }))
move_from c tick clock t p (sleeping until) =
    (p, some (if leb until clock then record t { phase = checking } else t))
move_from c tick clock t p leaving = (left t.force p, none)

unfoldable pub move : Settings → Tick → ℕ → Thread → Progress → Progress × Option Thread
unfolding move_from
move c tick clock t p = move_from c tick clock t p t.phase

abbrev pub and_others : Progress × Option Thread → List Thread → Progress × List Thread
and_others (p, none) others = (p, others)
and_others (p, some t) others = (p, t ∷ others)

-- A move of the i-th thread.
unfoldable pub move_at : Settings → Tick → ℕ → ℕ → List Thread → Progress → Progress × List Thread
unfolding move
move_at c tick clock i [] p = (p, [])
move_at c tick clock zero (t ∷ threads) p = and_others (move c tick clock t p) threads
move_at c tick clock (suc i) (t ∷ threads) p =
    let (p', rest) = move_at c tick clock i threads p in (p', t ∷ rest)

pub data RecoveryEvent : Type 0 where
  starts : (force : Bool) → (now : ℕ) → RecoveryEvent
  polls : (now : ℕ) → RecoveryEvent
  moves : ℕ → Tick → RecoveryEvent
  passes : (seconds : ℕ) → RecoveryEvent

unfoldable pub happen : Settings → RecoveryEvent → RecoverySystem → RecoverySystem
unfolding start maybe_start move_at
happen c (starts force now) s = start c force now s
happen c (polls now) s = maybe_start c now s
happen c (moves i tick) s =
    let (p, threads) = move_at c tick s.clock i s.threads s.progress in
    record s { progress = p; threads = threads }
happen c (passes seconds) s = record s { clock = s.clock + seconds }

unfoldable pub run : Settings → List RecoveryEvent → RecoverySystem → RecoverySystem
unfolding happen
run c [] s = s
run c (e ∷ events) s = run c events (happen c e s)
