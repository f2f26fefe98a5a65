-- ===== src/Coordinator/Holds/Release.antt =====
-- router/lanmihome_coordinated.py: the gate is freed where every call of its holder raises.
use lan_mi_home.Base.{ℕ, Bool, true, false, ◌||◌, Option, none, some, List, [], ◌∷◌, ◌≡◌, refl, sym}
use mathlib.Core.Bool.{true≢false}
use lan_mi_home.Coordinator.{
  Pc, System, set_task, unlock, resume_scan, resumed, release_setup, stopped_at, connected_at,
  disconnect_at, lease_stopped_at, resumed_at, GateEvent, happen, run_next, run,
}
use lan_mi_home.Coordinator.Holds.{is_inside, self_eq}

-- The awaited call raises, the worker disconnects, and the start of the scanner succeeds or raises.
pub give_up : Bool → Pc → ℕ → List GateEvent
give_up started Pc.outside i = []
give_up started Pc.pausing i = GateEvent.stopped i false ∷ []
give_up started (Pc.connecting false) i = GateEvent.connected i false ∷ []
give_up started (Pc.connecting true) i =
    GateEvent.connected i false ∷ GateEvent.resume i started ∷ []
give_up started (Pc.held false ports) i = GateEvent.disconnect i ∷ []
give_up started (Pc.held true ports) i = GateEvent.disconnect i ∷ GateEvent.resume i started ∷ []
give_up started (Pc.abandoned false) i = GateEvent.connected i false ∷ []
give_up started (Pc.abandoned true) i =
    GateEvent.connected i false ∷ GateEvent.resume i started ∷ []
give_up started Pc.resuming i = GateEvent.resume i started ∷ []
give_up started Pc.lease_pausing i = GateEvent.lease_stopped i 0 false ∷ []
give_up started Pc.lease_resuming i = GateEvent.resume i started ∷ []

unlock-free : (i : ℕ) (s : System) → (unlock i s).locked ≡ false
unfolding unlock set_task
unlock-free i s = refl

-- A run that frees the lock.
abbrev pub Frees : Option System → Type 0
Frees o = (s : System) × (o ≡ some s) × (s.locked ≡ false)

freed_by : (i : ℕ) (s : System) → Frees (some (unlock i s))
freed_by i s = (unlock i s, refl, unlock-free i s)

setup_done : (i : ℕ) (s : System) → Frees (some (release_setup false i s))
unfolding release_setup resume_scan
setup_done i s = freed_by i (record s { internal_owner = none })

scan_done : (started : Bool) (i : ℕ) (s : System) → Frees (some (resumed started i s))
unfolding resumed
scan_done started i s =
    freed_by i (record s { scan_paused = false; scanning = started || s.scanning })

after_setup :
    (started : Bool) (i : ℕ) (s : System)
    → Frees (run (GateEvent.resume i started ∷ []) (release_setup true i s))
unfolding run run_next happen release_setup resume_scan set_task resumed_at resumed unlock
after_setup started i s = rw (self_eq i) (_, refl, refl)

-- A task within its setup, its lending or its return of the scan frees the lock even where every call
-- that it still awaits raises, and the start of the scanner with them.
pub give_up-Frees :
    (started : Bool) (p : Pc) (i : ℕ) (s : System)
    → s.tasks i ≡ p
    → is_inside p ≡ true
    → Frees (run (give_up started p i) s)
unfolding give_up run run_next happen is_inside stopped_at connected_at disconnect_at
    lease_stopped_at resumed_at
give_up-Frees started Pc.outside i s e inside = absurd (true≢false (sym inside))
give_up-Frees started Pc.pausing i s e inside = rw e (freed_by i _)
give_up-Frees started (Pc.connecting false) i s e inside = rw e (setup_done i s)
give_up-Frees started (Pc.connecting true) i s e inside = rw e (after_setup started i s)
give_up-Frees started (Pc.abandoned false) i s e inside = rw e (setup_done i s)
give_up-Frees started (Pc.abandoned true) i s e inside = rw e (after_setup started i s)
give_up-Frees started (Pc.held false ports) i s e inside = rw e (setup_done i s)
give_up-Frees started (Pc.held true ports) i s e inside = rw e (after_setup started i s)
give_up-Frees started Pc.resuming i s e inside = rw e (scan_done started i s)
give_up-Frees started Pc.lease_pausing i s e inside = rw e (freed_by i _)
give_up-Frees started Pc.lease_resuming i s e inside = rw e (scan_done started i s)
