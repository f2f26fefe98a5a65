-- ===== src/Coordinator/Holds/Steps.antt =====
-- router/lanmihome_coordinated.py: every step of a task, or of a lease, hands the gate on as `Handover` says.
use lan_mi_home.Base.{
  ℕ, ◌-◌, Bool, true, false, ◌&&◌, ◌||◌, Option, none, some, ◌≡◌, ◌∙◌, inl, inr, refl, sym, ◌==◌,
  if◌then◌else◌, Bool-cases,
}
use mathlib.Core.Bool.{true≢false}
use lan_mi_home.Coordinator.{
  Pc, System, set_task, scanner_running, seen_recently, unlock, resume_scan, resumed, release_setup,
  connect_at, stopped_at, connected_at, unauthenticated_at, polled_at, disconnect_at, lend,
  acquire_at, lease_stopped_at, resumed_at, stop_at, is_connecting,
}
use lan_mi_home.Coordinator.Holds.{
  Holder, nobody, task, client, owner_at, pauses_at, has_gate, Holds, moved-Holds, freed-Holds,
  Handover, Keeps, Held, inside-Keeps, no_abandoned,
}

-- The holder goes on to `p`, or is done.
moves :
    (i : ℕ) (p : Pc) (s : System)
    → has_gate p ≡ true
    → Held i p s
    → Keeps (task i) (some (set_task i p s))
moves i p s inside (l, t, o, q, others) =
    Keeps.hands (task i) (set_task i p s) Handover.stays (moved-Holds i p s l t o q others inside)

frees :
    (i : ℕ) (s : System)
    → s.external_token ≡ none
    → s.internal_owner ≡ none
    → s.scan_paused ≡ false
    → ((j : ℕ) → (i == j) ≡ false → s.tasks j ≡ Pc.outside)
    → Keeps (task i) (some (unlock i s))
frees i s t o q others =
    Keeps.hands nobody (unlock i s) Handover.freed (freed-Holds i s t o q others)

pub remains : (h : Holder) (s : System) → Holds h s → Keeps h (some s)
remains h s holds = Keeps.hands h s Handover.stays holds

release_setup-Keeps :
    (restart : Bool) (i : ℕ) (s : System)
    → s.locked ≡ true
    → s.external_token ≡ none
    → s.scan_paused ≡ restart
    → ((j : ℕ) → (i == j) ≡ false → s.tasks j ≡ Pc.outside)
    → Keeps (task i) (some (release_setup restart i s))
unfolding release_setup resume_scan owner_at pauses_at has_gate
release_setup-Keeps false i s l t q others =
    frees i (record s { internal_owner = none }) t refl q others
release_setup-Keeps true i s l t q others =
    moves i Pc.resuming (record s { internal_owner = none }) refl (l, t, refl, q, others)

resumed-Keeps :
    (started : Bool) (i : ℕ) (s : System)
    → s.external_token ≡ none
    → s.internal_owner ≡ none
    → ((j : ℕ) → (i == j) ≡ false → s.tasks j ≡ Pc.outside)
    → Keeps (task i) (some (resumed started i s))
unfolding resumed
resumed-Keeps started i s t o others =
    frees i (record s { scan_paused = false; scanning = started || s.scanning }) t o refl others

pub stopped_at-Keeps :
    (h : Holder) (s : System) (i : ℕ) (p : Pc) (ok : Bool)
    → s.tasks i ≡ p
    → Holds h s
    → Keeps h (stopped_at p ok i s)
unfolding stopped_at owner_at pauses_at has_gate
stopped_at-Keeps h s i Pc.pausing true e holds =
    inside-Keeps h s _ e refl holds λ (l, t, o, q, others).
      moves i (Pc.connecting true) (record s { scanning = false; scan_paused = true }) refl
        (l, t, o, refl, others)
stopped_at-Keeps h s i Pc.pausing false e holds =
    inside-Keeps h s _ e refl holds
      λ (l, t, o, q, others). frees i (record s { internal_owner = none }) t refl q others
stopped_at-Keeps h s i _ ok e holds = Keeps.not_now

pub connected_at-Keeps :
    (h : Holder) (s : System) (i : ℕ) (p : Pc) (ok : Bool)
    → s.tasks i ≡ p
    → Holds h s
    → Keeps h (connected_at p ok i s)
unfolding connected_at owner_at pauses_at has_gate
connected_at-Keeps h s i (Pc.connecting restart) true e holds =
    inside-Keeps h s _ e refl holds λ held. moves i (Pc.held restart 4) s refl held
connected_at-Keeps h s i (Pc.connecting restart) false e holds =
    inside-Keeps h s _ e refl holds
      λ (l, t, o, q, others). release_setup-Keeps restart i s l t q others
connected_at-Keeps h s i (Pc.abandoned restart) ok e holds = no_abandoned h s i restart e holds
connected_at-Keeps h s i _ ok e holds = Keeps.not_now

pub unauthenticated_at-Keeps :
    (h : Holder) (s : System) (i : ℕ) (p : Pc)
    → s.tasks i ≡ p
    → Holds h s
    → Keeps h (unauthenticated_at p i s)
unfolding unauthenticated_at owner_at pauses_at has_gate
unauthenticated_at-Keeps h s i (Pc.held restart ports) e holds =
    inside-Keeps h s _ e refl holds
      λ (l, t, o, q, others). release_setup-Keeps restart i s l t q others
unauthenticated_at-Keeps h s i Pc.outside e holds = remains h s holds
unauthenticated_at-Keeps h s i _ e holds = Keeps.not_now

pub disconnect_at-Keeps :
    (h : Holder) (s : System) (i : ℕ) (p : Pc)
    → s.tasks i ≡ p
    → Holds h s
    → Keeps h (disconnect_at p i s)
unfolding disconnect_at owner_at pauses_at has_gate
disconnect_at-Keeps h s i (Pc.held restart ports) e holds =
    inside-Keeps h s _ e refl holds
      λ (l, t, o, q, others). release_setup-Keeps restart i s l t q others
disconnect_at-Keeps h s i Pc.outside e holds = remains h s holds
disconnect_at-Keeps h s i _ e holds = Keeps.not_now

-- The task that disconnects a charger releases its setup.
stopped_by-Keeps :
    (restart : Bool) (i by : ℕ) (s : System)
    → s.locked ≡ true
    → s.external_token ≡ none
    → s.scan_paused ≡ restart
    → ((j : ℕ) → s.tasks j ≡ Pc.outside)
    → Keeps (task i) (some (release_setup restart by s))
unfolding release_setup resume_scan owner_at pauses_at has_gate
stopped_by-Keeps false i by s l t q all_out =
    let s' = record s { internal_owner = none } in
    Keeps.hands nobody (unlock by s') Handover.freed (freed-Holds by s' t refl q λ j _. all_out j)
stopped_by-Keeps true i by s l t q all_out =
    let s' = record s { internal_owner = none } in
    Keeps.hands (task by) (set_task by Pc.resuming s') Handover.stopped
      (moved-Holds by Pc.resuming s' l t refl q (λ j _. all_out j) refl)

all_outside :
    (i : ℕ) (s : System)
    → ((j : ℕ) → (i == j) ≡ false → s.tasks j ≡ Pc.outside)
    → (j : ℕ) → (set_task i Pc.outside s).tasks j ≡ Pc.outside
unfolding set_task
all_outside i s others j = elim (Bool-cases (i == j)) [
  | inl same ↦ rw same refl
  | inr apart ↦ rw apart (others j apart)
]

pub stop_at-Keeps :
    (h : Holder) (s : System) (i by : ℕ) (p p' : Pc)
    → s.tasks i ≡ p
    → is_connecting p ≡ false
    → Holds h s
    → Keeps h (stop_at p p' i by s)
unfolding stop_at is_connecting owner_at pauses_at has_gate set_task
stop_at-Keeps h s i by (Pc.connecting restart) p' e apart holds = absurd (true≢false apart)
stop_at-Keeps h s i by (Pc.held restart ports) Pc.outside e apart holds =
    inside-Keeps h s _ e refl holds λ (l, t, o, q, others).
      stopped_by-Keeps restart i by (set_task i Pc.outside s) l t q (all_outside i s others)
stop_at-Keeps h s i by _ Pc.outside e apart holds = remains h s holds
stop_at-Keeps h s i by _ _ e apart holds = Keeps.not_now

pub polled_at-Keeps :
    (h : Holder) (s : System) (i : ℕ) (p : Pc)
    → s.tasks i ≡ p
    → Holds h s
    → Keeps h (polled_at p i s)
unfolding polled_at owner_at pauses_at has_gate
polled_at-Keeps h s i (Pc.held restart ports) e holds =
    inside-Keeps h s _ e refl holds λ (l, t, o, q, others). elim (Bool-cases (ports - 1 == 0)) [
      | inl last ↦ rw last (release_setup-Keeps restart i s l t q others)
      | inr more ↦ rw more (moves i (Pc.held restart (ports - 1)) s refl (l, t, o, q, others))
    ]
polled_at-Keeps h s i Pc.outside e holds = remains h s holds
polled_at-Keeps h s i _ e holds = Keeps.not_now

pub resumed_at-Keeps :
    (h : Holder) (s : System) (i : ℕ) (p : Pc) (started : Bool)
    → s.tasks i ≡ p
    → Holds h s
    → Keeps h (resumed_at p started i s)
unfolding resumed_at owner_at pauses_at has_gate
resumed_at-Keeps h s i Pc.resuming started e holds =
    inside-Keeps h s _ e refl holds λ (l, t, o, q, others). resumed-Keeps started i s t o others
resumed_at-Keeps h s i Pc.lease_resuming started e holds =
    inside-Keeps h s _ e refl holds λ (l, t, o, q, others). resumed-Keeps started i s t o others
resumed_at-Keeps h s i _ started e holds = Keeps.not_now

-- A lease is lent by the task that has the gate.
lend-Keeps :
    (h : Holder) (token : ℕ) (restart : Bool) (i : ℕ) (s : System)
    → Handover h (client token)
    → s.locked ≡ true
    → s.internal_owner ≡ none
    → s.scan_paused ≡ restart
    → ((j : ℕ) → (i == j) ≡ false → s.tasks j ≡ Pc.outside)
    → Keeps h (some (lend token restart i s))
unfolding lend set_task Holds
lend-Keeps h token restart i s handover l o q others =
    Keeps.hands (client token) (lend token restart i s) handover (
      l,
      refl,
      o,
      q,
      λ j. elim (Bool-cases (i == j)) [
        | inl same ↦ rw same refl
        | inr apart ↦ rw apart (others j apart)
      ],
    )

pub lease_stopped_at-Keeps :
    (h : Holder) (s : System) (i : ℕ) (p : Pc) (ok : Bool) (token : ℕ)
    → s.tasks i ≡ p
    → Holds h s
    → Keeps h (lease_stopped_at p ok token i s)
unfolding lease_stopped_at owner_at pauses_at has_gate
lease_stopped_at-Keeps h s i Pc.lease_pausing true token e holds =
    inside-Keeps h s _ e refl holds λ (l, t, o, q, others).
      lend-Keeps (task i) token true i (record s { scanning = false; scan_paused = true })
        Handover.lent l o refl others
lease_stopped_at-Keeps h s i Pc.lease_pausing false token e holds =
    inside-Keeps h s _ e refl holds λ (l, t, o, q, others). frees i s t o q others
lease_stopped_at-Keeps h s i _ ok token e holds = Keeps.not_now

-- An open gate is nobody's.
open-nobody : (h : Holder) (s : System) → Holds h s → s.locked ≡ false → h ≡ nobody
unfolding Holds
open-nobody nobody s holds unlocked = refl
open-nobody (task i) s (l, _, _, _, _, _) unlocked = absurd (true≢false (sym l ∙ unlocked))
open-nobody (client token) s (l, _, _, _, _) unlocked = absurd (true≢false (sym l ∙ unlocked))

-- A task at its start takes an open gate; `next` is what it does with it.
takes-Keeps :
    (h : Holder) (s : System) (o : Option System)
    → Holds h s
    → (Holds nobody s → Keeps nobody o)
    → Keeps h (if s.locked then none else o)
takes-Keeps h s o holds next = elim (Bool-cases s.locked) [
  | inl busy ↦ rw busy Keeps.not_now
  | inr free ↦
      let is_nobody = open-nobody h s holds free in
      let begun : Keeps h o = rw is_nobody (next (rw⁻¹ is_nobody holds)) in rw free begun
]

-- What the task that has just taken the gate is.
begins :
    (i : ℕ) (p : Pc) (s : System)
    → has_gate p ≡ true
    → Held i p s
    → Keeps nobody (some (set_task i p s))
begins i p s inside (l, t, o, q, others) =
    Keeps.hands (task i) (set_task i p s) Handover.taken (moved-Holds i p s l t o q others inside)

pub connect_at-Keeps :
    (h : Holder) (s : System) (i : ℕ) (p : Pc) (now : ℕ)
    → s.tasks i ≡ p
    → Holds h s
    → Keeps h (connect_at p i now s)
unfolding connect_at Holds owner_at pauses_at has_gate
connect_at-Keeps h s i Pc.outside now e holds = elim (Bool-cases (seen_recently i now s)) [
  | inl seen ↦
      let taken = record s { locked = true; internal_owner = some i } in
      let p = if scanner_running s then Pc.pausing else Pc.connecting false in
      rw seen (
        takes-Keeps h s (some (set_task i p taken)) holds λ (l, t, o, q, all_out).
          elim (Bool-cases (scanner_running s)) [
            | inl on ↦ rw on (begins i Pc.pausing taken refl (refl, t, refl, q, λ j _. all_out j))
            | inr off ↦
                rw off
                  (begins i (Pc.connecting false) taken refl (refl, t, refl, q, λ j _. all_out j))
          ])
  | inr unseen ↦ rw unseen (remains h s holds)
]
connect_at-Keeps h s i _ now e holds = Keeps.not_now

pub acquire_at-Keeps :
    (h : Holder) (s : System) (i : ℕ) (p : Pc) (pause_scan : Bool) (token : ℕ)
    → s.tasks i ≡ p
    → Holds h s
    → Keeps h (acquire_at p pause_scan token i s)
unfolding acquire_at Holds owner_at pauses_at has_gate
acquire_at-Keeps h s i Pc.outside pause_scan token e holds =
    let taken = record s { locked = true } in
    let o =
      if pause_scan && scanner_running s
      then some (set_task i Pc.lease_pausing taken)
      else some (lend token false i taken) in
    takes-Keeps h s o holds λ (l, t, own, q, all_out).
      elim (Bool-cases (pause_scan && scanner_running s)) [
        | inl on ↦ rw on (begins i Pc.lease_pausing taken refl (refl, t, own, q, λ j _. all_out j))
        | inr off ↦
            rw off
              (lend-Keeps nobody token false i taken Handover.taken refl own q λ j _. all_out j)
      ]
acquire_at-Keeps h s i _ pause_scan token e holds = Keeps.not_now
