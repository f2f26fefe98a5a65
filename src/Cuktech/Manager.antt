-- ===== src/Cuktech/Manager.antt =====
-- manager.py: the choice of the port that is read next. Times are in milliseconds.
pub mod Choice
pub mod Desk
pub mod Site
pub mod Worker
pub mod Delay
mod Tests
use lan_mi_home.Base.{
  ℕ, ◌+◌, ◌-◌, ◌*◌, min, Bool, true, false, not, ◌&&◌, ◌||◌, Option, none, some, List, [], ◌∷◌, ltb,
  leb, ◌==◌, if◌then◌else◌,
}
use lan_mi_home.Base.Dict.{Dict, lookup}
use lan_mi_home.Cuktech.Protocol.{PortReading}

abbrev pub active_stale_after : ℕ
active_stale_after = 15000

abbrev pub idle_stale_after : ℕ
idle_stale_after = 90000

abbrev pub poll_retry_after : ℕ
poll_retry_after = 10000

-- bool(reading and reading.active)
pub is_active : Option PortReading → Bool
is_active none = false
is_active (some reading) = reading.active

-- When each port was last seen and last polled, by its number.
pub record Clocks : Type 0 where
  pub last_seen : ℕ → ℕ
  pub last_poll : ℕ → ℕ

pub age : Clocks → ℕ → ℕ → ℕ
age clocks now piid = now - clocks.last_seen piid

pub is_stale : Dict PortReading → Clocks → ℕ → ℕ → Bool
is_stale ports clocks now piid =
    let stale_after =
      if is_active (lookup piid ports) then active_stale_after else idle_stale_after in
    leb stale_after (age clocks now piid) && leb poll_retry_after (now - clocks.last_poll piid)

-- The candidates with their ages, among the ports that are left.
pub candidates : Dict PortReading → Clocks → ℕ → List ℕ → List (ℕ × ℕ)
candidates ports clocks now [] = []
candidates ports clocks now (piid ∷ piids) =
    let rest = candidates ports clocks now piids in
    if is_stale ports clocks now piid then (age clocks now piid, piid) ∷ rest else rest

-- The order of Python's tuples.
pub is_less : ℕ × ℕ → ℕ × ℕ → Bool
is_less (a, p) (b, q) = ltb a b || (a == b && ltb p q)

-- max, which keeps the first of equals.
pub greatest : ℕ × ℕ → List (ℕ × ℕ) → ℕ × ℕ
greatest best [] = best
greatest best (c ∷ cs) = greatest (if is_less best c then c else best) cs

pub max_of : List (ℕ × ℕ) → Option ℕ
max_of [] = none
max_of (c ∷ cs) = some (greatest c cs).1

pub stale_candidate : Dict PortReading → Clocks → ℕ → Option ℕ
stale_candidate ports clocks now = max_of (candidates ports clocks now (1 ∷ 2 ∷ 3 ∷ 4 ∷ []))
