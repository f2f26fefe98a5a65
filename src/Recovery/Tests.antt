-- ===== src/Recovery/Tests.antt =====
-- A window from 23:00 to 06:30, and a night in it.
use lan_mi_home.Base.{
  ◌+◌, ◌*◌, ◌≤◌, true, false, ◌&&◌, some, List, [], ◌∷◌, ◌≡◌, ◌↔◌, refl, arith, ◌==◌,
}
use lan_mi_home.Recovery.{
  Moment, Config, Answer, inside_window, window_key, is_due, is_key, answer, turn,
}
use lan_mi_home.Recovery.Window.{day_length, instant, window_end, inside_window-window_key}
use lan_mi_home.Recovery.Turns.{Turn, run, was_confirmed, completed-was_confirmed}

abbrev late : Moment
late = record { year = 2026; day = 739000; time = 84600000000 }

-- Half past one on the next day.
abbrev early : Moment
early = record { year = 2026; day = 739001; time = 5400000000 }

abbrev night : Config
night = record { enabled = true; min_year = 2024; start = 82800000000; stop = 23400000000 }

abbrev idle : Answer
idle = record { active = false; success = false; confirmed_on = false }

abbrev settled : Answer
settled = record { active = false; success = true; confirmed_on = true }

-- A start is answered late, and settled early.
abbrev turns : List Turn
turns =
    record { config = some night; now = early; got = some settled; posted = false }
    ∷ record { config = some night; now = late; got = some idle; posted = true }
    ∷ []

night_completed : (run turns).completed_key ≡ some 739000
unfolding run turn is_due is_key answer inside_window window_key
night_completed = refl

completed-was_confirmed_example : was_confirmed 739000 turns ≡ true
completed-was_confirmed_example = completed-was_confirmed turns 739000 night_completed

inside_window-window_key_example :
    ((inside_window early 82800000000 23400000000
        && window_key early 82800000000 23400000000 == 739000)
      ≡ true)
    ↔ ((739000 * day_length + 82800000000 ≤ instant early)
        × (instant early ≤ window_end 739000 82800000000 23400000000))
inside_window-window_key_example =
    inside_window-window_key early 82800000000 23400000000 739000 (omega arith) (omega arith)
      (omega arith) (omega arith)
