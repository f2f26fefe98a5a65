-- ===== src/Recovery/Window.antt =====
-- router/recovery_supervisor.py: `inside_window` and `window_key` on the line of time.
use lan_mi_home.Base.{ℕ, ◌+◌, ◌*◌, ◌≤◌, ◌<◌, true, ◌&&◌, ◌≡◌, ◌↔◌, arith, leb, ◌==◌, if◌then◌else◌}
use lan_mi_home.Recovery.{Moment, inside_window, window_key}

-- The microseconds of a day.
abbrev pub day_length : ℕ
day_length = 86400000000

abbrev pub instant : Moment → ℕ
instant now = now.day * day_length + now.time

-- The last instant of the window of a day, which ends on the next one if it runs over midnight.
abbrev pub window_end : ℕ → ℕ → ℕ → ℕ
window_end key start stop =
    if leb start stop then key * day_length + stop else key * day_length + stop + day_length

-- A moment is inside a window, and this is the window of a day, exactly when it lies between the
-- start of the window on that day and its end, on the same day or the next.
pub inside_window-window_key :
    (now : Moment) (start stop key : ℕ)
    → 1 ≤ now.day
    → now.time < day_length
    → start < day_length
    → stop < day_length
    → ((inside_window now start stop && window_key now start stop == key) ≡ true)
      ↔ ((key * day_length + start ≤ instant now) × (instant now ≤ window_end key start stop))
unfolding inside_window window_key
inside_window-window_key now start stop key positive t s e = ground arith
