-- ===== src/Coordinator/Holds/Runs.antt =====
-- router/lanmihome_coordinated.py: any interleaving of the clients, and who holds the gate after it.
use lan_mi_home.Base.{
  ℕ, Bool, true, false, Option, none, some, List, [], ◌∷◌, ◌≡◌, ◌∙◌, inl, inr, refl, sym, arith,
  not, ◌&&◌, ==_iff, ◌==◌, Bool-cases,
}
use mathlib.Core.Bool.{true≢false}
use mathlib.Core.Path.{subst}
use lan_mi_home.Coordinator.{
  Pc, System, set_task, on_detect, unlock, resume_scan, is_lease, release_at, GateEvent, happen,
  run_next, run, init, interrupts, next_uninterrupted, uninterrupted,
}
use lan_mi_home.Coordinator.Holds.{
  Holder, nobody, task, client, owner_at, pauses_at, has_gate, Holds, moved-Holds, freed-Holds,
  Handover, Keeps, not_within, is_inside,
}
use lan_mi_home.Coordinator.Holds.Steps.{
  remains, connect_at-Keeps, stopped_at-Keeps, connected_at-Keeps, unauthenticated_at-Keeps,
  polled_at-Keeps, disconnect_at-Keeps, stop_at-Keeps, acquire_at-Keeps, lease_stopped_at-Keeps,
  resumed_at-Keeps,
}

-- While a lease is out, its client is the holder.
lease-client :
    (h : Holder) (s : System) (t : ℕ) → Holds h s → s.external_token ≡ some t → h ≡ client t
unfolding Holds
lease-client nobody s t (_, none_out, _, _, _) out = cc
lease-client (task i) s t (_, none_out, _, _, _, _) out = cc
lease-client (client u) s t (_, lent, _, _, _) out = cc

resume_scan-Keeps :
    (restart : Bool) (i token : ℕ) (s : System)
    → s.locked ≡ true
    → s.external_token ≡ none
    → s.internal_owner ≡ none
    → s.scan_paused ≡ restart
    → ((j : ℕ) → s.tasks j ≡ Pc.outside)
    → Keeps (client token) (some (resume_scan restart Pc.lease_resuming i s))
unfolding resume_scan owner_at pauses_at has_gate
resume_scan-Keeps false i token s l t o q all_out =
    Keeps.hands nobody (unlock i s) Handover.freed (freed-Holds i s t o q λ j _. all_out j)
resume_scan-Keeps true i token s l t o q all_out =
    Keeps.hands (task i) (set_task i Pc.lease_resuming s) Handover.returned
      (moved-Holds i Pc.lease_resuming s l t o q (λ j _. all_out j) refl)

returned-Keeps :
    (t i : ℕ) (s : System)
    → Holds (client t) s
    → Keeps (client t) (
        some (
          resume_scan s.external_restart Pc.lease_resuming i
            (record s { external_token = none; external_restart = false })))
unfolding Holds
returned-Keeps t i s (l, _, o, q, all_out) =
    resume_scan-Keeps s.external_restart i t
      (record s { external_token = none; external_restart = false }) l refl o q all_out

on_detect-Holds : (h : Holder) (s : System) (i now : ℕ) → Holds h s → Holds h (on_detect i now s)
unfolding Holds on_detect
on_detect-Holds nobody s i now holds = holds
on_detect-Holds (task k) s i now holds = holds
on_detect-Holds (client t) s i now holds = holds

is_lease-some : (token : ℕ) (o : Option ℕ) → is_lease token o ≡ true → (t : ℕ) × (o ≡ some t)
unfolding is_lease
is_lease-some token none h = absurd (true≢false (sym h))
is_lease-some token (some t) h = (t, refl)

release_at-Keeps :
    (h : Holder) (s : System) (i : ℕ) (p : Pc) (token : ℕ)
    → s.tasks i ≡ p
    → Holds h s
    → Keeps h (release_at p token i s)
unfolding release_at
release_at-Keeps h s i Pc.outside token e holds =
    elim (Bool-cases (is_lease token s.external_token)) [
      | inl lent ↦
          let (t, out) = is_lease-some token s.external_token lent in
          let is_client = lease-client h s t holds out in
          rw (lent, is_client) (returned-Keeps t i s (rw⁻¹ is_client holds))
      | inr other ↦ rw other (remains h s holds)
    ]
release_at-Keeps h s i _ token e holds = Keeps.not_now

pub happen-Keeps :
    (h : Holder) (s : System) (e : GateEvent)
    → interrupts e s ≡ false
    → Holds h s
    → Keeps h (happen e s)
unfolding happen interrupts
happen-Keeps h s (GateEvent.detected i now) apart holds =
    Keeps.hands h (on_detect i now s) Handover.stays (on_detect-Holds h s i now holds)
happen-Keeps h s (GateEvent.connect i now) apart holds =
    connect_at-Keeps h s i (s.tasks i) now refl holds
happen-Keeps h s (GateEvent.stopped i ok) apart holds =
    stopped_at-Keeps h s i (s.tasks i) ok refl holds
happen-Keeps h s (GateEvent.connected i ok) apart holds =
    connected_at-Keeps h s i (s.tasks i) ok refl holds
happen-Keeps h s (GateEvent.unauthenticated i) apart holds =
    unauthenticated_at-Keeps h s i (s.tasks i) refl holds
happen-Keeps h s (GateEvent.polled i) apart holds = polled_at-Keeps h s i (s.tasks i) refl holds
happen-Keeps h s (GateEvent.disconnect i) apart holds =
    disconnect_at-Keeps h s i (s.tasks i) refl holds
happen-Keeps h s (GateEvent.acquire i token pause_scan) apart holds =
    acquire_at-Keeps h s i (s.tasks i) pause_scan token refl holds
happen-Keeps h s (GateEvent.lease_stopped i token ok) apart holds =
    lease_stopped_at-Keeps h s i (s.tasks i) ok token refl holds
happen-Keeps h s (GateEvent.release i token) apart holds =
    release_at-Keeps h s i (s.tasks i) token refl holds
happen-Keeps h s (GateEvent.resume i started) apart holds =
    resumed_at-Keeps h s i (s.tasks i) started refl holds
happen-Keeps h s (GateEvent.stop i by) apart holds =
    stop_at-Keeps h s i by (s.tasks i) (s.tasks by) refl apart holds

pub init-Holds : (scanning : Bool) → Holds nobody (init scanning)
unfolding Holds init
init-Holds scanning = (refl, refl, refl, refl, λ j. refl)

-- Every state of a run has a holder.
pub data HasHolder : Option System → Type 0 where
  no_run : HasHolder none
  holder : (h : Holder) (s : System) → Holds h s → HasHolder (some s)

quiet_parts : (a b : Bool) → (not a && b) ≡ true → (a ≡ false) × (b ≡ true)
quiet_parts a b h = (ground arith, ground arith)

run_next-HasHolder :
    {h : Holder} {o : Option System} (f : System → Option System) (calm : System → Bool)
    → Keeps h o
    → ((h' : Holder) (s : System) → calm s ≡ true → Holds h' s → HasHolder (f s))
    → next_uninterrupted calm o ≡ true
    → HasHolder (run_next f o)
unfolding run_next next_uninterrupted
run_next-HasHolder f calm Keeps.not_now next quiet = HasHolder.no_run
run_next-HasHolder f calm (Keeps.hands h' s handover holds) next quiet = next h' s quiet holds

pub run-HasHolder :
    (events : List GateEvent) (h : Holder) (s : System)
    → uninterrupted events s ≡ true
    → Holds h s
    → HasHolder (run events s)
unfolding run uninterrupted
run-HasHolder [] h s quiet holds = HasHolder.holder h s holds
run-HasHolder (e ∷ events) h s quiet holds =
    let (first, rest) = quiet_parts (interrupts e s) _ quiet in
    run_next-HasHolder (run events) (uninterrupted events) (happen-Keeps h s e first holds)
      (λ h' s' quiet' holds'. run-HasHolder events h' s' quiet' holds') rest

-- What a holder excludes.
abbrev IsExclusive : System → Type 0
IsExclusive s =
    ((i j : ℕ) → is_inside (s.tasks i) ≡ true → is_inside (s.tasks j) ≡ true → i ≡ j)
    × ((i : ℕ) → is_inside (s.tasks i) ≡ true → (s.locked ≡ true) × (s.external_token ≡ none))

of_task : (i k : ℕ) (s : System) → Holds (task i) s → is_inside (s.tasks k) ≡ true → i ≡ k
unfolding Holds
of_task i k s (_, _, _, _, others, _) inside = elim (Bool-cases (i == k)) [
  | inl same ↦ (==_iff i k).0 same
  | inr apart ↦ not_within (s.tasks k) (others k apart) inside
]

Holds-IsExclusive : (h : Holder) (s : System) → Holds h s → IsExclusive s
unfolding Holds
Holds-IsExclusive nobody s (_, _, _, _, all_out) = (
  λ i j inside _. not_within (s.tasks i) (all_out i) inside,
  λ i inside. not_within (s.tasks i) (all_out i) inside,
)
Holds-IsExclusive (client t) s (_, _, _, _, all_out) = (
  λ i j inside _. not_within (s.tasks i) (all_out i) inside,
  λ i inside. not_within (s.tasks i) (all_out i) inside,
)
Holds-IsExclusive (task k) s holds =
    let (l, t, _, _, _, _) = holds in
    (
      λ i j first second. sym (of_task k i s holds first) ∙ of_task k j s holds second,
      λ i inside. (l, t),
    )

HasHolder-IsExclusive : {s : System} → HasHolder (some s) → IsExclusive s
HasHolder-IsExclusive (HasHolder.holder h s holds) = Holds-IsExclusive h s holds

-- After any run from the start in which no charger is disconnected by another task within its connect:
-- at most one task is within its setup, its lending or its return of the scan, and then the lock is taken
-- and no lease is out.
pub run-IsExclusive :
    (events : List GateEvent) (scanning : Bool) (s : System)
    → uninterrupted events (init scanning) ≡ true
    → run events (init scanning) ≡ some s
    → ((i j : ℕ) → is_inside (s.tasks i) ≡ true → is_inside (s.tasks j) ≡ true → i ≡ j)
      × ((i : ℕ) → is_inside (s.tasks i) ≡ true → (s.locked ≡ true) × (s.external_token ≡ none))
run-IsExclusive events scanning s quiet e =
    HasHolder-IsExclusive
      (subst HasHolder e (run-HasHolder events nobody (init scanning) quiet (init-Holds scanning)))
