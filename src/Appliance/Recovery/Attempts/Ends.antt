-- ===== src/Appliance/Recovery/Attempts/Ends.antt =====
-- router/lanmihome.py: a forced recovery that is past its deadline ends.
use mathlib.Core.Path.{ap₂}
use lan_mi_home.Base.{
  ℕ, suc, ◌+◌, ◌≤◌, Bool, true, false, Option, none, some, List, [], ◌∷◌, ◌≡◌, refl, arith, All,
  if-elim, if◌then◌else◌, leb,
}
use lan_mi_home.Sp651e.{Result, ok, err}
use lan_mi_home.Appliance.Values.{Raised}
use lan_mi_home.Appliance.Recovery.{
  Settings, Progress, Phase, starting, checking, attempting, leaving, sleeping, Thread,
  RecoverySystem, init, is_over, attempted, Tick, move, move_from, and_others, move_at, moves,
  passes, RecoveryEvent, happen, run,
}
use lan_mi_home.Appliance.Recovery.Attempts.{PacedAt, run_from-IsWell, init-IsWell}

module _ (c : Settings) (d : ℕ) where
  -- A thread that is at most so many moves away from its end.
  abbrev PhaseNear : ℕ → ℕ → Phase → Type 0
  PhaseNear left clock leaving = 1 ≤ left
  PhaseNear left clock checking = 2 ≤ left
  PhaseNear left clock (sleeping until) = (3 ≤ left) × (until ≤ clock)
  PhaseNear left clock _ = ⊥

  abbrev IsNear : ℕ → ℕ → Option Thread → Type 0
  IsNear left clock none = Unit
  IsNear left clock (some t) =
      (t.force ≡ true) × (t.deadline ≡ some d) × PhaseNear left clock t.phase

  -- The only thread, if there is one.
  abbrev AllNear : ℕ → ℕ → List Thread → Type 0
  AllNear left clock [] = Unit
  AllNear left clock (t ∷ []) = IsNear left clock (some t)
  AllNear left clock (t ∷ u ∷ threads) = ⊥

  and_others-AllNear :
      (left clock : ℕ) (r : Progress × Option Thread)
      → IsNear left clock r.1
      → AllNear left clock (and_others r []).1
  and_others-AllNear left clock (p, none) h = tt
  and_others-AllNear left clock (p, some t) h = h

  abbrev expired : Phase → Thread
  expired phase = record { force = true; deadline = some d; phase = phase }

  move_from-IsNear :
      (tick : Tick) (left clock : ℕ) (phase : Phase) (p : Progress)
      → d ≤ clock
      → PhaseNear (suc left) clock phase
      → IsNear left clock (move_from c tick clock (expired phase) p phase).1
  unfolding move_from is_over
  move_from-IsNear tick left clock leaving p over h = tt
  move_from-IsNear tick left clock checking p over h =
      let now_over : leb d clock ≡ true = ground arith in rw now_over (refl, refl, omega arith)
  move_from-IsNear tick left clock (sleeping until) p over h =
      let awake : leb until clock ≡ true = ground arith in rw awake (refl, refl, omega arith)
  move_from-IsNear tick left clock starting p over h = absurd h
  move_from-IsNear tick left clock attempting p over h = absurd h

  -- What a move and a pause of the retry time make of any thread past its deadline.
  begin-IsNear :
      (tick : Tick) (clock : ℕ) (phase : Phase) (p : Progress) (attempts : ℕ)
      → d ≤ clock
      → PacedAt c phase (some d) attempts clock
      → IsNear 3 (clock + c.retry_seconds) (move_from c tick clock (expired phase) p phase).1
  unfolding move_from is_over attempted
  begin-IsNear tick clock leaving p attempts over h = tt
  begin-IsNear tick clock checking p attempts over h =
      let now_over : leb d clock ≡ true = ground arith in rw now_over (refl, refl, omega arith)
  begin-IsNear tick clock (sleeping until) p attempts over h =
      if-elim (λ (u : Thread). IsNear 3 (clock + c.retry_seconds) (some u)) (leb until clock)
        (λ awake. (refl, refl, omega arith)) (λ asleep. (refl, refl, (omega arith, h.2)))
  begin-IsNear tick clock attempting p attempts over h = ended tick.outcome
    where
      ended :
          (r : Result Raised Bool)
          → IsNear 3 (clock + c.retry_seconds) (
              if (attempted r p).1
              then none
              else some (expired (sleeping (clock + c.retry_seconds))))
      ended (ok true) = tt
      ended (ok false) = (refl, refl, (omega arith, omega arith))
      ended (err e) = (refl, refl, (omega arith, omega arith))
  begin-IsNear tick clock starting p attempts over h = absurd h

  expired-eq : (t : Thread) → t.force ≡ true → t.deadline ≡ some d → t ≡ expired t.phase
  expired-eq t forced due =
      let build : Bool → Option ℕ → Thread =
        λ force deadline. record { force = force; deadline = deadline; phase = t.phase } in
      ap₂ build forced due

  move_at-AllNear :
      (tick : Tick) (left clock : ℕ) (threads : List Thread) (p : Progress)
      → d ≤ clock
      → AllNear (suc left) clock threads
      → AllNear left clock (move_at c tick clock 0 threads p).1
  unfolding move_at move
  move_at-AllNear tick left clock [] p over h = tt
  move_at-AllNear tick left clock (t ∷ []) p over (forced, due, near) =
      rw (expired-eq t forced due) (
        and_others-AllNear left clock (move_from c tick clock (expired t.phase) p t.phase)
          (move_from-IsNear tick left clock t.phase p over near))
  move_at-AllNear tick left clock (t ∷ u ∷ threads) p over h = absurd h

  happen-AllNear :
      (tick : Tick) (left : ℕ) (s : RecoverySystem)
      → d ≤ s.clock
      → AllNear (suc left) s.clock s.threads
      → AllNear left s.clock (happen c (moves 0 tick) s).threads
  unfolding happen
  happen-AllNear tick left s over h = move_at-AllNear tick left s.clock s.threads s.progress over h

  none_near : (clock : ℕ) (threads : List Thread) → AllNear 0 clock threads → threads ≡ []
  none_near clock [] h = refl
  none_near clock (t ∷ []) h = absurd (none_at t.phase h.2)
    where
      none_at : (phase : Phase) → PhaseNear 0 clock phase → ⊥
      none_at leaving h = omega arith
      none_at checking h = omega arith
      none_at (sleeping until) h = omega (arith, h.0)
      none_at starting h = h
      none_at attempting h = h
  none_near clock (t ∷ u ∷ threads) h = absurd h

module _ (c : Settings) (d : ℕ) where
  all_near :
      (tick : Tick) (s : RecoverySystem) (t : Thread)
      → s.threads ≡ t ∷ []
      → t.force ≡ true
      → t.deadline ≡ some d
      → d ≤ s.clock
      → All
          (λ u. u.force ≡ true → PacedAt c u.phase u.deadline s.progress.attempts s.clock)
          s.threads
      → let s' = happen c (passes c.retry_seconds) (happen c (moves 0 tick) s) in
        AllNear c d 3 s'.clock s'.threads
  unfolding happen move_at move
  all_near tick s t alone forced due over paced =
      let own = (rw alone at paced).0 forced in
      rw (alone, expired-eq c d t forced due)
        (and_others-AllNear c d 3 _
          (move_from c tick s.clock (expired c d t.phase) s.progress t.phase)
          (begin-IsNear c d tick s.clock t.phase s.progress s.progress.attempts over
            (rw due at own)))

-- The events of the end: a move, a pause of the retry time, and three moves.
abbrev pub last_moves : Settings → Tick → Tick → Tick → Tick → List RecoveryEvent
last_moves c first second third fourth =
    moves 0 first ∷ passes c.retry_seconds ∷ moves 0 second ∷ moves 0 third ∷ moves 0 fourth ∷ []

-- A forced recovery that is past its deadline ends, whatever the fan does: when its thread has moved,
-- the retry time has passed, and it has moved three times more, no thread runs, and the recovery is not
-- shown as active.
pub run-ends :
    (c : Settings) (events : List RecoveryEvent) (t : Thread) (d : ℕ)
    (first second third fourth : Tick)
    → 1 ≤ c.retry_seconds
    → (run c events init).threads ≡ t ∷ []
    → t.force ≡ true
    → t.deadline ≡ some d
    → d ≤ (run c events init).clock
    → let after = run c (last_moves c first second third fourth) (run c events init) in
      (after.threads ≡ []) × (after.progress.active ≡ false)
unfolding run
run-ends c events t d first second third fourth positive alone forced due over =
    let s : RecoverySystem = run c events init in
    let well = run_from-IsWell c positive events init (init-IsWell c positive) in
    let near = all_near c d first s t alone forced due over well.1 in
    let later : d ≤ s.clock + c.retry_seconds = omega (arith, over) in
    let s2 : RecoverySystem = happen c (passes c.retry_seconds) (happen c (moves 0 first) s) in
    let s3 : RecoverySystem = happen c (moves 0 second) s2 in
    let s4 : RecoverySystem = happen c (moves 0 third) s3 in
    let s5 : RecoverySystem = happen c (moves 0 fourth) s4 in
    let empty : s5.threads ≡ [] = none_near c d _ s5.threads (
      happen-AllNear c d fourth 0 s4 later
        (happen-AllNear c d third 1 s3 later (happen-AllNear c d second 2 s2 later near))) in
    let ended = run_from-IsWell c positive (last_moves c first second third fourth) s well in
    (empty, (rw empty at ended.0).0)
