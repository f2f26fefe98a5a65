-- ===== src/Appliance/Recovery/Tests.antt =====
-- A forced recovery of a fan that stays off.
use lan_mi_home.Base.{true, false, none, some, List, [], ◌∷◌, ◌++◌, ◌≡◌, refl, arith}
use lan_mi_home.Sp651e.{ok}
use lan_mi_home.Appliance.Recovery.{
  Settings, Thread, sleeping, Tick, RecoveryEvent, starts, moves, passes, init, start, is_over,
  attempted, left, move_from, move, move_at, happen, run,
}
use lan_mi_home.Appliance.Recovery.Single.{IsSingle, run-IsSingle}
use lan_mi_home.Appliance.Recovery.Attempts.Ends.{last_moves, run-ends}

-- Every 5 seconds, for 12 seconds.
abbrev every_five : Settings
every_five = record {
  enabled = true;
  fan_enabled = true;
  window_start = none;
  window_end = none;
  retry_seconds = 5;
  force_timeout_seconds = 12;
}

abbrev off : Tick
off = record { now = 0; outcome = ok false }

-- A thread begins, tries, and sleeps.
abbrev once : List RecoveryEvent
once = starts true 0 ∷ moves 0 off ∷ moves 0 off ∷ moves 0 off ∷ []

-- It wakes, tries again, and sleeps until 12 seconds have passed.
abbrev twice : List RecoveryEvent
twice = once ++ passes 5 ∷ moves 0 off ∷ moves 0 off ∷ moves 0 off ∷ passes 7 ∷ []

abbrev asleep : Thread
asleep = record { force = true; deadline = some 12; phase = sleeping 10 }

twice_threads : (run every_five twice init).threads ≡ asleep ∷ []
unfolding run happen start move_at move move_from is_over attempted left init
twice_threads = refl

twice_clock : (run every_five twice init).clock ≡ 12
unfolding run happen start move_at move move_from is_over attempted left init
twice_clock = refl

run-IsSingle_example :
    IsSingle (run every_five twice init).threads (run every_five twice init).progress
run-IsSingle_example = run-IsSingle every_five twice

run-ends_example :
    ((run every_five (last_moves every_five off off off off) (run every_five twice init)).threads
      ≡ [])
    × ((run every_five
          (last_moves every_five off off off off)
          (run every_five twice init)).progress.active
        ≡ false)
run-ends_example =
    run-ends every_five twice asleep 12 off off off off (omega arith) twice_threads refl refl
      (omega (arith, twice_clock))
