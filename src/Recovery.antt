-- ===== src/Recovery.antt =====
-- router/recovery_supervisor.py: the window, and one turn of the loop. A moment is the number of its day
-- and the microsecond of that day; what the service answers is given with the turn. The lines that only
-- log are left out.
mod Tests
pub mod Window
pub mod Turns
use lan_mi_home.Base.{
  ℕ, ◌-◌, Bool, true, false, not, ◌&&◌, ◌||◌, Option, none, some, List, [], ◌∷◌, ltb, leb, ◌==◌,
  if◌then◌else◌,
}

pub record Moment : Type 0 where
  pub year : ℕ
  pub day : ℕ
  pub time : ℕ

-- What a turn reads of the configuration.
pub record Config : Type 0 where
  pub enabled : Bool
  pub min_year : ℕ
  pub start : ℕ
  pub stop : ℕ

unfoldable pub inside_window : Moment → ℕ → ℕ → Bool
inside_window now start stop =
    if leb start stop
    then leb start now.time && leb now.time stop
    else leb start now.time || leb now.time stop

-- The day of the window, as its number. Before the first day Python raises.
unfoldable pub window_key : Moment → ℕ → ℕ → ℕ
window_key now start stop = if ltb stop start && leb now.time stop then now.day - 1 else now.day

-- The answer to GET /api/v1/system/recovery: the tests of its fields.
pub record Answer : Type 0 where
  pub active : Bool
  pub success : Bool
  pub confirmed_on : Bool

pub record State : Type 0 where
  pub completed_key : Option ℕ
  pub triggered_key : Option ℕ

pub data Request : Type 0 where
  get_recovery post_start : Request

is_key : Option ℕ → ℕ → Bool
is_key none key = false
is_key (some k) key = k == key

-- Whether a turn has something to do: `reason` is "inside-window".
pub is_due : Config → Moment → Bool
is_due c now =
    if not c.enabled
    then false
    else if ltb now.year c.min_year
    then false
    else inside_window now c.start c.stop

-- With the answer; `posted` says whether the POST returned.
pub answer : Answer → Bool → ℕ → State → State × List Request
unfolding is_key
answer a posted key s =
    if is_key s.triggered_key key && a.success && a.confirmed_on
    then (record s { completed_key = some key }, get_recovery ∷ [])
    else if a.active
    then (record s { triggered_key = some key }, get_recovery ∷ [])
    else if posted
    then (record s { triggered_key = some key }, get_recovery ∷ post_start ∷ [])
    else (s, get_recovery ∷ post_start ∷ [])

-- A turn, with the requests that it sends. No configuration, or no answer, is an exception.
pub turn : Option Config → Moment → Option Answer → Bool → State → State × List Request
unfolding is_due answer is_key
turn none now a posted s = (s, [])
turn (some c) now a posted s =
    let key = window_key now c.start c.stop in
    if not (is_due c now)
    then (s, [])
    else if is_key s.completed_key key
    then (s, [])
    else (elim a [ none ↦ (s, get_recovery ∷ []) | some got ↦ answer got posted key s ])
