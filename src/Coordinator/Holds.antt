-- ===== src/Coordinator/Holds.antt =====
-- router/lanmihome_coordinated.py: who holds the gate.
pub mod Steps
pub mod Runs
pub mod Release
use lan_mi_home.Base.{
  ℕ, ◌+◌, ◌-◌, Bool, true, false, not, ◌&&◌, ◌||◌, Option, none, some, List, [], ◌∷◌, ◌≡◌, ◌∙◌, ◌⊎◌,
  inl, inr, refl, sym, ap, arith, ==_iff, leb, ◌==◌, if◌then◌else◌, Bool-cases,
}
use mathlib.Core.Bool.{true≢false}
use lan_mi_home.Coordinator.{
  Pc, System, set_task, scanner_running, on_detect, seen_recently, unlock, resume_scan, resumed,
  release_setup, connect_at, stopped_at, connected_at, unauthenticated_at, polled_at, disconnect_at,
  lend, acquire_at, lease_stopped_at, is_lease, release_at, resumed_at, GateEvent, happen, run_next,
  run, init,
}

-- The holder of the gate: nobody, a task on its way through, or the client of a lease.
pub data Holder : Type 0 where
  nobody : Holder
  task : (i : ℕ) → Holder
  client : (token : ℕ) → Holder

-- The runtime's note of a charger, and whether the scan stands still, while a task is at an await.
pub owner_at : Pc → ℕ → Option ℕ
owner_at Pc.pausing i = some i
owner_at (Pc.connecting restart) i = some i
owner_at (Pc.held restart ports) i = some i
owner_at _ i = none

pub pauses_at : Pc → Bool
pauses_at (Pc.connecting restart) = restart
pauses_at (Pc.held restart ports) = restart
pauses_at Pc.resuming = true
pauses_at Pc.lease_resuming = true
pauses_at _ = false

unfoldable pub is_inside : Pc → Bool
is_inside Pc.outside = false
is_inside _ = true

-- Within its setup, its lending or its return of the scan, and not disconnected within its connect.
unfoldable pub has_gate : Pc → Bool
has_gate Pc.outside = false
has_gate (Pc.abandoned restart) = false
has_gate _ = true

-- Every task but the holder is outside, and every field says who holds the gate.
pub Holds : Holder → System → Type 0
Holds nobody s =
    (s.locked ≡ false)
    × (s.external_token ≡ none)
    × (s.internal_owner ≡ none)
    × (s.scan_paused ≡ false)
    × ((j : ℕ) → s.tasks j ≡ Pc.outside)
Holds (task i) s =
    (s.locked ≡ true)
    × (s.external_token ≡ none)
    × (s.internal_owner ≡ owner_at (s.tasks i) i)
    × (s.scan_paused ≡ pauses_at (s.tasks i))
    × ((j : ℕ) → (i == j) ≡ false → s.tasks j ≡ Pc.outside)
    × (has_gate (s.tasks i) ≡ true)
Holds (client token) s =
    (s.locked ≡ true)
    × (s.external_token ≡ some token)
    × (s.internal_owner ≡ none)
    × (s.scan_paused ≡ s.external_restart)
    × ((j : ℕ) → s.tasks j ≡ Pc.outside)

pub self_eq : (i : ℕ) → (i == i) ≡ true
self_eq i = ground arith

-- The holder's own step onto another await.
pub moved-Holds :
    (i : ℕ) (p : Pc) (s : System)
    → s.locked ≡ true
    → s.external_token ≡ none
    → s.internal_owner ≡ owner_at p i
    → s.scan_paused ≡ pauses_at p
    → ((j : ℕ) → (i == j) ≡ false → s.tasks j ≡ Pc.outside)
    → has_gate p ≡ true
    → Holds (task i) (set_task i p s)
unfolding Holds set_task
moved-Holds i p s l t o q others h =
    let e = self_eq i in rw e (l, t, o, q, (λ j apart. rw apart (others j apart)), h)

-- The holder is done, and nobody has the gate.
pub freed-Holds :
    (i : ℕ) (s : System)
    → s.external_token ≡ none
    → s.internal_owner ≡ none
    → s.scan_paused ≡ false
    → ((j : ℕ) → (i == j) ≡ false → s.tasks j ≡ Pc.outside)
    → Holds nobody (unlock i s)
unfolding Holds unlock set_task
freed-Holds i s t o q others = (
  refl,
  t,
  o,
  q,
  λ j. elim (Bool-cases (i == j)) [
    | inl same ↦ rw same refl
    | inr apart ↦ rw apart (others j apart)
  ],
)

-- The gate stays with its holder, is taken or freed, or a lease passes between the client and the task
-- that lends it or takes it back. From one task to another it passes only where that one disconnects the
-- charger, and from one client to another never.
pub data Handover : Holder → Holder → Type 0 where
  stays : {h : Holder} → Handover h h
  taken : {h : Holder} → Handover nobody h
  freed : {h : Holder} → Handover h nobody
  lent : {i token : ℕ} → Handover (task i) (client token)
  returned : {i token : ℕ} → Handover (client token) (task i)
  stopped : {i by : ℕ} → Handover (task i) (task by)

pub data Keeps (h : Holder) : Option System → Type 0 where
  not_now : Keeps h none
  hands : (h' : Holder) (s : System) → Handover h h' → Holds h' s → Keeps h (some s)

-- What `Holds` says of a holder that stands at `p`.
abbrev pub Held : ℕ → Pc → System → Type 0
Held i p s =
    (s.locked ≡ true)
    × (s.external_token ≡ none)
    × (s.internal_owner ≡ owner_at p i)
    × (s.scan_paused ≡ pauses_at p)
    × ((j : ℕ) → (i == j) ≡ false → s.tasks j ≡ Pc.outside)

pub not_inside {ℓ} : {A : Type ℓ} (p : Pc) → p ≡ Pc.outside → has_gate p ≡ true → A
unfolding has_gate
not_inside p e h = absurd (true≢false (sym h ∙ ap has_gate e))

pub not_within {ℓ} : {A : Type ℓ} (p : Pc) → p ≡ Pc.outside → is_inside p ≡ true → A
unfolding is_inside
not_within p e h = absurd (true≢false (sym h ∙ ap is_inside e))

-- While somebody holds the gate as the fields say, no task has abandoned its setup.
pub no_abandoned {ℓ} :
    {A : Type ℓ} (h : Holder) (s : System) (i : ℕ) (restart : Bool)
    → s.tasks i ≡ Pc.abandoned restart
    → Holds h s
    → A
unfolding Holds is_inside has_gate
no_abandoned nobody s i restart e (l, t, o, q, all_out) =
    not_within (Pc.abandoned restart) (sym e ∙ all_out i) refl
no_abandoned (client token) s i restart e (l, t, o, q, all_out) =
    not_within (Pc.abandoned restart) (sym e ∙ all_out i) refl
no_abandoned (task k) s i restart e (l, t, o, q, others, h) = elim (Bool-cases (k == i)) [
  | inl same ↦
      let at_k : s.tasks k ≡ Pc.abandoned restart = ap s.tasks ((==_iff k i).0 same) ∙ e in
      absurd (true≢false (sym h ∙ ap has_gate at_k))
  | inr apart ↦ not_within (Pc.abandoned restart) (sym e ∙ others i apart) refl
]

-- A task that has the gate is the holder.
inside-Held :
    (h : Holder) (s : System) (i : ℕ) (p : Pc)
    → s.tasks i ≡ p
    → has_gate p ≡ true
    → Holds h s
    → (h ≡ task i) × Held i p s
unfolding Holds has_gate
inside-Held nobody s i p e inside (l, t, o, q, all_out) = not_inside p (sym e ∙ all_out i) inside
inside-Held (client token) s i p e inside (l, t, o, q, all_out) =
    not_inside p (sym e ∙ all_out i) inside
inside-Held (task k) s i p e inside (l, t, o, q, others, h) = elim (Bool-cases (k == i)) [
  | inl same ↦
      let k_is : k ≡ i = (==_iff k i).0 same in
      let at_p : s.tasks k ≡ p = ap s.tasks k_is ∙ e in
      (
        ap task k_is,
        (
          l,
          t,
          o ∙ ap (owner_at (s.tasks k)) k_is ∙ ap (λ r. owner_at r i) at_p,
          q ∙ ap pauses_at at_p,
          λ j apart. others j (ap (λ m. m == j) k_is ∙ apart),
        ),
      )
  | inr apart ↦ not_inside p (sym e ∙ others i apart) inside
]

pub inside-Keeps :
    (h : Holder) (s : System) {i : ℕ} {p : Pc} (o : Option System)
    → s.tasks i ≡ p
    → has_gate p ≡ true
    → Holds h s
    → (Held i p s → Keeps (task i) o)
    → Keeps h o
inside-Keeps h s {i} {p} o e inside holds next =
    let (is_task, held) = inside-Held h s i p e inside holds in rw is_task (next held)
