-- ===== src/Coordinator.antt =====
-- router/lanmihome_coordinated.py: the gate that lets one client at a time set up a Bluetooth connection,
-- and the advertisement scan that it pauses. What runs between two awaits is one step; a task stands at
-- one of the awaits of its call. A task is a charger's worker, or a request of a lease, its release or
-- its watchdog. Times are in milliseconds.
pub mod Holds
mod Tests
use lan_mi_home.Base.{
  ℕ, ◌+◌, ◌-◌, Bool, true, false, not, ◌&&◌, ◌||◌, Option, none, some, List, [], ◌∷◌, leb, ◌==◌,
  if◌then◌else◌,
}

-- The await at which a task stands. A charger holds its setup while it connects and, until its first port
-- readings, once it is connected: `restart` and `ports` are `_btcoord_restart_scan` and
-- `_btcoord_initial_ports`. A charger that another task disconnects within its connect has `abandoned`
-- the setup, but its connect goes on. Both `resuming`s await the start of the scanner, before the release.
pub data Pc : Type 0 where
  outside pausing : Pc
  connecting abandoned : (restart : Bool) → Pc
  held : (restart : Bool) (ports : ℕ) → Pc
  resuming lease_pausing lease_resuming : Pc

-- The gate's lock and the runtime's fields; `scanning` is the scanner's `is_scanning`.
pub record System : Type 0 where
  pub locked : Bool
  pub internal_owner : Option ℕ
  pub external_token : Option ℕ
  pub external_restart : Bool
  pub scan_paused : Bool
  pub scanning : Bool
  pub seen : ℕ → Option ℕ
  pub tasks : ℕ → Pc

pub set_task : ℕ → Pc → System → System
set_task i p s = record s { tasks = λ j. if i == j then p else s.tasks j }

pub scanner_running : System → Bool
scanner_running s = not s.scan_paused && s.scanning

pub on_detect : ℕ → ℕ → System → System
on_detect i now s = record s { seen = λ j. if i == j then some now else s.seen j }

pub is_recent : ℕ → Option ℕ → Bool
is_recent now none = false
is_recent now (some t) = leb (now - t) 15000

pub seen_recently : ℕ → ℕ → System → Bool
seen_recently i now s = is_recent now (s.seen i)

-- lock.release(), and the task is done.
pub unlock : ℕ → System → System
unlock i s = set_task i Pc.outside (record s { locked = false })

-- `_resume_scan` and the release behind it, up to the start of the scanner.
pub resume_scan : Bool → Pc → ℕ → System → System
resume_scan false p i s = unlock i s
resume_scan true p i s = set_task i p s

-- The scanner has started, or its start has raised; the gate is released either way.
pub resumed : Bool → ℕ → System → System
resumed started i s = unlock i (record s { scan_paused = false; scanning = started || s.scanning })

pub release_setup : Bool → ℕ → System → System
release_setup restart i s = resume_scan restart Pc.resuming i (record s { internal_owner = none })

-- `none`: the task does not stand at the point at which this can happen, or it waits for the lock.
pub connect_at : Pc → ℕ → ℕ → System → Option System
connect_at Pc.outside i now s =
    if not (seen_recently i now s)
    then some s
    else if s.locked
    then none
    else (let taken = record s { locked = true; internal_owner = some i } in
        some (set_task i (if scanner_running s then Pc.pausing else Pc.connecting false) taken))
connect_at _ i now s = none

-- The scanner has stopped, or raised.
pub stopped_at : Pc → Bool → ℕ → System → Option System
stopped_at Pc.pausing true i s =
    some (set_task i (Pc.connecting true) (record s { scanning = false; scan_paused = true }))
stopped_at Pc.pausing false i s = some (unlock i (record s { internal_owner = none }))
stopped_at _ ok i s = none

-- The charger's own connect has returned, or raised. Where it raises after the setup was given up, the
-- `except` releases the gate once more, whoever has it.
pub connected_at : Pc → Bool → ℕ → System → Option System
connected_at (Pc.connecting restart) true i s = some (set_task i (Pc.held restart 4) s)
connected_at (Pc.connecting restart) false i s = some (release_setup restart i s)
connected_at (Pc.abandoned restart) true i s = some (set_task i Pc.outside s)
connected_at (Pc.abandoned restart) false i s = some (release_setup restart i s)
connected_at _ ok i s = none

-- The authentication raised.
pub unauthenticated_at : Pc → ℕ → System → Option System
unauthenticated_at (Pc.held restart ports) i s = some (release_setup restart i s)
unauthenticated_at Pc.outside i s = some s
unauthenticated_at _ i s = none

-- A port was read on an authenticated charger; the fourth reading ends the setup.
pub polled_at : Pc → ℕ → System → Option System
polled_at (Pc.held restart ports) i s =
    if ports - 1 == 0
    then some (release_setup restart i s)
    else some (set_task i (Pc.held restart (ports - 1)) s)
polled_at Pc.outside i s = some s
polled_at _ i s = none

-- The worker's own `finally`, which comes once its connect has ended.
pub disconnect_at : Pc → ℕ → System → Option System
disconnect_at (Pc.held restart ports) i s = some (release_setup restart i s)
disconnect_at Pc.outside i s = some s
disconnect_at _ i s = none

-- The disconnect of the charger `i` by another task, `by`: `ChargerManager.stop`. That task releases the
-- setup that the charger holds, and awaits the start of the scanner.
pub stop_at : Pc → Pc → ℕ → ℕ → System → Option System
stop_at (Pc.connecting restart) Pc.outside i by s =
    some (release_setup restart by (set_task i (Pc.abandoned restart) s))
stop_at (Pc.held restart ports) Pc.outside i by s =
    some (release_setup restart by (set_task i Pc.outside s))
stop_at _ Pc.outside i by s = some s
stop_at _ _ i by s = none

-- `token` is what secrets.token_hex returns.
pub lend : ℕ → Bool → ℕ → System → System
lend token restart i s =
    set_task i Pc.outside (record s { external_token = some token; external_restart = restart })

pub acquire_at : Pc → Bool → ℕ → ℕ → System → Option System
acquire_at Pc.outside pause_scan token i s =
    if s.locked
    then none
    else (let taken = record s { locked = true } in
        if pause_scan && scanner_running s
        then some (set_task i Pc.lease_pausing taken)
        else some (lend token false i taken))
acquire_at _ pause_scan token i s = none

pub lease_stopped_at : Pc → Bool → ℕ → ℕ → System → Option System
lease_stopped_at Pc.lease_pausing true token i s =
    some (lend token true i (record s { scanning = false; scan_paused = true }))
lease_stopped_at Pc.lease_pausing false token i s = some (unlock i s)
lease_stopped_at _ ok token i s = none

pub is_lease : ℕ → Option ℕ → Bool
is_lease token none = false
is_lease token (some t) = token == t

-- A release by a client or by the watchdog; another token is refused.
pub release_at : Pc → ℕ → ℕ → System → Option System
release_at Pc.outside token i s =
    if not (is_lease token s.external_token)
    then some s
    else some (
        resume_scan s.external_restart Pc.lease_resuming i
          (record s { external_token = none; external_restart = false }))
release_at _ token i s = none

pub resumed_at : Pc → Bool → ℕ → System → Option System
resumed_at Pc.resuming started i s = some (resumed started i s)
resumed_at Pc.lease_resuming started i s = some (resumed started i s)
resumed_at _ started i s = none

pub data GateEvent : Type 0 where
  detected connect : (i now : ℕ) → GateEvent
  stopped connected : (i : ℕ) (ok : Bool) → GateEvent
  unauthenticated polled disconnect : (i : ℕ) → GateEvent
  stop : (i by : ℕ) → GateEvent
  acquire : (i token : ℕ) (pause_scan : Bool) → GateEvent
  lease_stopped : (i token : ℕ) (ok : Bool) → GateEvent
  release : (i token : ℕ) → GateEvent
  resume : (i : ℕ) (started : Bool) → GateEvent

pub happen : GateEvent → System → Option System
happen (GateEvent.detected i now) s = some (on_detect i now s)
happen (GateEvent.connect i now) s = connect_at (s.tasks i) i now s
happen (GateEvent.stopped i ok) s = stopped_at (s.tasks i) ok i s
happen (GateEvent.connected i ok) s = connected_at (s.tasks i) ok i s
happen (GateEvent.unauthenticated i) s = unauthenticated_at (s.tasks i) i s
happen (GateEvent.polled i) s = polled_at (s.tasks i) i s
happen (GateEvent.disconnect i) s = disconnect_at (s.tasks i) i s
happen (GateEvent.stop i by) s = stop_at (s.tasks i) (s.tasks by) i by s
happen (GateEvent.acquire i token pause_scan) s = acquire_at (s.tasks i) pause_scan token i s
happen (GateEvent.lease_stopped i token ok) s = lease_stopped_at (s.tasks i) ok token i s
happen (GateEvent.release i token) s = release_at (s.tasks i) token i s
happen (GateEvent.resume i started) s = resumed_at (s.tasks i) started i s

-- `none` where an event cannot happen.
pub run_next : (System → Option System) → Option System → Option System
run_next f none = none
run_next f (some s) = f s

pub run : List GateEvent → System → Option System
run [] s = some s
run (e ∷ events) s = run_next (run events) (happen e s)

pub is_connecting : Pc → Bool
is_connecting (Pc.connecting restart) = true
is_connecting _ = false

-- A disconnect by another task while the charger is within its connect.
pub interrupts : GateEvent → System → Bool
unfolding is_connecting
interrupts (GateEvent.stop i by) s = is_connecting (s.tasks i)
interrupts _ s = false

next_uninterrupted : (System → Bool) → Option System → Bool
next_uninterrupted f none = true
next_uninterrupted f (some s) = f s

-- A run with no such disconnect.
pub uninterrupted : List GateEvent → System → Bool
unfolding next_uninterrupted
uninterrupted [] s = true
uninterrupted (e ∷ events) s =
    not (interrupts e s) && next_uninterrupted (uninterrupted events) (happen e s)

-- `_patched_ble_init`, with a scanner that runs or not.
pub init : Bool → System
init scanning = record {
  locked = false;
  internal_owner = none;
  external_token = none;
  external_restart = false;
  scan_paused = false;
  scanning = scanning;
  seen = λ i. none;
  tasks = λ i. Pc.outside;
}

pub record GattStatus : Type 0 where
  pub busy : Bool
  pub internal_owner : Option ℕ
  pub external_lease : Bool
  pub scanner_running : Bool
  pub scanner_paused_for_setup : Bool

pub is_lent : Option ℕ → Bool
is_lent none = false
is_lent (some token) = true

pub gatt_status : System → GattStatus
gatt_status s = record {
  busy = s.locked;
  internal_owner = s.internal_owner;
  external_lease = is_lent s.external_token;
  scanner_running = scanner_running s;
  scanner_paused_for_setup = s.scan_paused;
}
