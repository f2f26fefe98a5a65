-- ===== src/Coordinator/Tests.antt =====
-- A charger connects while another client asks for a lease.
use lan_mi_home.Base.{
  Option, Bool, ◌&&◌, ℕ, true, false, some, none, List, [], ◌∷◌, ◌≡◌, refl, ◌==◌, if◌then◌else◌,
}
use lan_mi_home.Coordinator.{
  Pc, System, init, set_task, happen, run, run_next, scanner_running, on_detect, is_recent,
  seen_recently, connect_at, acquire_at, stopped_at, connected_at, GateEvent, interrupts,
  next_uninterrupted, uninterrupted, stop_at, resumed_at, resumed, release_setup, resume_scan,
  unlock, lend, is_lent,
}
use lan_mi_home.Coordinator.Holds.{is_inside}
use lan_mi_home.Coordinator.Holds.Runs.{run-IsExclusive}
use lan_mi_home.Coordinator.Holds.Release.{give_up, Frees, give_up-Frees}

abbrev events : List GateEvent
events =
    GateEvent.detected 3 1000
    ∷ GateEvent.connect 3 9000
    ∷ GateEvent.stopped 3 true
    ∷ GateEvent.connected 3 true
    ∷ []

abbrev setup_state : System
setup_state = record {
  locked = true;
  internal_owner = some 3;
  external_token = none;
  external_restart = false;
  scan_paused = true;
  scanning = false;
  seen = λ j. if 3 == j then some 1000 else none;
  tasks = λ j.
      if 3 == j
      then Pc.held true 4
      else if 3 == j
      then Pc.connecting true
      else if 3 == j
      then Pc.pausing
      else Pc.outside;
}

runs : run events (init true) ≡ some setup_state
unfolding run run_next happen init scanner_running on_detect is_recent seen_recently connect_at
    stopped_at connected_at set_task
runs = refl

-- A lease waits meanwhile.
waits : happen (GateEvent.acquire 4 77 true) setup_state ≡ none
unfolding happen acquire_at
waits = refl

calm_events : uninterrupted events (init true) ≡ true
unfolding uninterrupted next_uninterrupted interrupts happen init scanner_running on_detect
    is_recent seen_recently connect_at stopped_at connected_at set_task
calm_events = refl

-- A charger that is stopped within its connect frees the gate, and a lease is lent while it connects.
abbrev stopped_events : List GateEvent
stopped_events =
    GateEvent.detected 3 1000
    ∷ GateEvent.connect 3 9000
    ∷ GateEvent.stopped 3 true
    ∷ GateEvent.stop 3 5
    ∷ GateEvent.resume 5 true
    ∷ GateEvent.acquire 4 77 false
    ∷ []

abbrev inside_of : ℕ → Option System → Bool
inside_of i none = false
inside_of i (some s) = is_inside (s.tasks i) && is_lent s.external_token

stopped_setup : inside_of 3 (run stopped_events (init true)) ≡ true
unfolding run run_next happen init scanner_running on_detect is_recent seen_recently connect_at
    acquire_at stopped_at stop_at resumed_at resumed release_setup resume_scan unlock lend set_task
    is_inside is_lent
stopped_setup = refl

run-IsExclusive_example :
    ((i j : ℕ)
      → is_inside (setup_state.tasks i) ≡ true
      → is_inside (setup_state.tasks j) ≡ true
      → i ≡ j)
    × ((i : ℕ)
        → is_inside (setup_state.tasks i) ≡ true
        → (setup_state.locked ≡ true) × (setup_state.external_token ≡ none))
run-IsExclusive_example = run-IsExclusive events true setup_state calm_events runs

inside : is_inside (setup_state.tasks 3) ≡ true
unfolding is_inside
inside = refl

give_up-Frees_example : Frees (run (give_up false (Pc.held true 4) 3) setup_state)
give_up-Frees_example = give_up-Frees false (Pc.held true 4) 3 setup_state refl inside
