-- ===== src/Appliance/Recovery/Attempts.antt =====
-- router/lanmihome.py: how often a forced recovery tries; Ends for its end.
pub mod Ends
use lan_mi_home.Base.{
  ℕ, zero, suc, ◌+◌, ◌*◌, ◌≤◌, ◌<◌, Bool, true, false, ◌&&◌, not, Option, none, some, List, [], ◌∷◌,
  ◌≡◌, ◌∙◌, refl, sym, inl, inr, arith, All, if-elim, if◌then◌else◌, Bool-cases, leb,
}
use lan_mi_home.Sp651e.{Result, ok, err}
use lan_mi_home.Appliance.Values.{Raised}
use lan_mi_home.Appliance.Recovery.{
  Settings, Progress, Phase, starting, checking, attempting, leaving, sleeping, Thread,
  RecoverySystem, init, is_inside_window, start, maybe_start, is_over, attempted, left, Tick, move,
  move_from, and_others, move_at, RecoveryEvent, starts, polls, moves, passes, happen, run,
}
use lan_mi_home.Appliance.Recovery.Single.{IsSingle, idle-IsSingle, happen-IsSingle, run-IsSingle}

one_more : (a r : ℕ) → suc a * r ≡ a * r + r
one_more a r = grind arith

module _ (c : Settings) where
  -- The tries fit the timeout.
  abbrev pub Fits : ℕ → Type 0
  Fits attempts = attempts * c.retry_seconds < c.force_timeout_seconds + c.retry_seconds

  -- Where a forced thread stands: the time since it began covers its tries.
  abbrev PacedAt : Phase → Option ℕ → ℕ → ℕ → Type 0
  PacedAt starting none attempts clock = attempts ≡ 0
  PacedAt checking (some d) attempts clock =
      Fits attempts × (d + attempts * c.retry_seconds ≤ clock + c.force_timeout_seconds)
  PacedAt attempting (some d) attempts clock =
      Fits attempts
      × (d + attempts * c.retry_seconds ≤ clock + c.force_timeout_seconds + c.retry_seconds)
  PacedAt (sleeping until) (some d) attempts clock =
      Fits attempts
      × (d + attempts * c.retry_seconds ≤ until + c.force_timeout_seconds)
      × (until ≤ clock + c.retry_seconds)
  PacedAt leaving (some d) attempts clock = Fits attempts
  PacedAt _ _ attempts clock = ⊥

  abbrev IsPaced : ℕ → ℕ → Thread → Type 0
  IsPaced attempts clock t = t.force ≡ true → PacedAt t.phase t.deadline attempts clock

  -- Together with the invariant of the threads.
  abbrev IsWell : RecoverySystem → Type 0
  IsWell s = IsSingle s.threads s.progress × All (IsPaced s.progress.attempts s.clock) s.threads

  later-PacedAt :
      (phase : Phase) (deadline : Option ℕ) (attempts clock seconds : ℕ)
      → PacedAt phase deadline attempts clock
      → PacedAt phase deadline attempts (clock + seconds)
  later-PacedAt starting none attempts clock seconds h = h
  later-PacedAt starting (some d) attempts clock seconds h = absurd h
  later-PacedAt checking (some d) attempts clock seconds h = (h.0, omega (arith, h.1))
  later-PacedAt checking none attempts clock seconds h = absurd h
  later-PacedAt attempting (some d) attempts clock seconds h = (h.0, omega (arith, h.1))
  later-PacedAt attempting none attempts clock seconds h = absurd h
  later-PacedAt (sleeping until) (some d) attempts clock seconds h = (h.0, h.1, omega (arith, h.2))
  later-PacedAt (sleeping until) none attempts clock seconds h = absurd h
  later-PacedAt leaving (some d) attempts clock seconds h = h
  later-PacedAt leaving none attempts clock seconds h = absurd h

  abbrev MovePaced : ℕ → Progress × Option Thread → Type 0
  MovePaced clock (p, none) = Unit
  MovePaced clock (p, some t') = PacedAt t'.phase t'.deadline p.attempts clock

  abbrev AllPaced : RecoverySystem → Type 0
  AllPaced s = All (IsPaced s.progress.attempts s.clock) s.threads

  -- A move leaves a thread what it is.
  abbrev KeepsForce : Bool → Progress × Option Thread → Type 0
  KeepsForce force (p, none) = Unit
  KeepsForce force (p, some t) = t.force ≡ force

  move_from-KeepsForce :
      (tick : Tick) (clock : ℕ) (t : Thread) (phase : Phase) (p : Progress)
      → KeepsForce t.force (move_from c tick clock t p phase)
  unfolding move_from
  move_from-KeepsForce tick clock t starting p = refl
  move_from-KeepsForce tick clock t checking p =
      if-elim (KeepsForce t.force) (is_over c tick.now clock t) (λ _. refl) (λ _. refl)
  move_from-KeepsForce tick clock t attempting p = ended (attempted tick.outcome p).1
    where
      u : Thread
      u = record t { phase = sleeping (clock + c.retry_seconds) }

      ended :
          (done : Bool)
          → KeepsForce t.force ((attempted tick.outcome p).0, if done then none else some u)
      ended true = tt
      ended false = refl
  move_from-KeepsForce tick clock t (sleeping until) p =
      if-elim (λ (u : Thread). u.force ≡ t.force) (leb until clock) (λ _. refl) (λ _. refl)
  move_from-KeepsForce tick clock t leaving p = tt

  and_others-IsPaced :
      (clock : ℕ) (force : Bool) (r : Progress × Option Thread)
      → KeepsForce force r
      → (force ≡ true → MovePaced clock r)
      → let (p', threads) = and_others r [] in All (IsPaced p'.attempts clock) threads
  and_others-IsPaced clock force (p, none) same_force h = tt
  and_others-IsPaced clock force (p, some t) same_force h = (λ e. h (sym same_force ∙ e), tt)

  attempted-PacedAt :
      (r : Result Raised Bool) (clock d : ℕ) (p : Progress)
      → PacedAt attempting (some d) p.attempts clock
      → let t : Thread = record { force = true; deadline = some d; phase = attempting } in
        let (p', done) = attempted r p in
        MovePaced clock (
          p',
          if done then none else some (record t { phase = sleeping (clock + c.retry_seconds) }),
        )
  unfolding attempted
  attempted-PacedAt (ok true) clock d p h = tt
  attempted-PacedAt (ok false) clock d p h = (h.0, omega (arith, h.1), omega arith)
  attempted-PacedAt (err e) clock d p h = (h.0, omega (arith, h.1), omega arith)

  module _ (positive : 1 ≤ c.retry_seconds) where
    move-PacedAt :
        (tick : Tick) (clock : ℕ) (deadline : Option ℕ) (phase : Phase) (p : Progress)
        → let t : Thread = record { force = true; deadline = deadline; phase = phase } in
          PacedAt phase deadline p.attempts clock
          → MovePaced clock (move_from c tick clock t p phase)
    unfolding move_from attempted left is_over
    move-PacedAt tick clock none starting p h = rw h (omega (arith, positive), omega arith)
    move-PacedAt tick clock (some d) starting p h = absurd h
    move-PacedAt tick clock (some d) checking p h =
        if-elim (MovePaced clock) (leb d clock) (λ over. h.0)
          λ on.
            let early : clock < d = ground arith in
            let next = one_more p.attempts c.retry_seconds in
            (omega (arith, early, next, h.0, h.1), omega (arith, early, next, h.0, h.1))
    move-PacedAt tick clock none checking p h = absurd h
    move-PacedAt tick clock (some d) attempting p h = attempted-PacedAt tick.outcome clock d p h
    move-PacedAt tick clock none attempting p h = absurd h
    move-PacedAt tick clock (some d) (sleeping until) p h =
        if-elim (λ (u : Thread). PacedAt u.phase u.deadline p.attempts clock) (leb until clock)
          (λ awake. let over : until ≤ clock = ground arith in (h.0, omega (arith, over, h.1)))
          (λ asleep. h)
    move-PacedAt tick clock none (sleeping until) p h = absurd h
    move-PacedAt tick clock deadline leaving p h = tt

    move_from-IsPaced :
        (tick : Tick) (clock : ℕ) (force : Bool) (deadline : Option ℕ) (phase : Phase)
        (p : Progress)
        → let t : Thread = record { force = force; deadline = deadline; phase = phase } in
          IsPaced p.attempts clock t
          → let (p', threads) = and_others (move_from c tick clock t p phase) [] in
            All (IsPaced p'.attempts clock) threads
    move_from-IsPaced tick clock true deadline phase p h =
        and_others-IsPaced clock true _ (move_from-KeepsForce tick clock _ phase p)
          λ _. move-PacedAt tick clock deadline phase p (h refl)
    move_from-IsPaced tick clock false deadline phase p h =
        and_others-IsPaced clock false _ (move_from-KeepsForce tick clock _ phase p) λ e. cc

    move_at-IsPaced :
        (tick : Tick) (clock i : ℕ) (threads : List Thread) (p : Progress)
        → IsSingle threads p
        → All (IsPaced p.attempts clock) threads
        → let (p', threads') = move_at c tick clock i threads p in
          All (IsPaced p'.attempts clock) threads'
    unfolding move_at move
    move_at-IsPaced tick clock i [] p one h = tt
    move_at-IsPaced tick clock zero (t ∷ []) p one h =
        move_from-IsPaced tick clock t.force t.deadline t.phase p h.0
    move_at-IsPaced tick clock (suc i) (t ∷ []) p one h = h
    move_at-IsPaced tick clock i (t ∷ u ∷ threads) p one h = absurd one

    start-IsPaced :
        (force : Bool) (now : ℕ) (s : RecoverySystem)
        → IsWell s
        → let s' = start c force now s in All (IsPaced s'.progress.attempts s'.clock) s'.threads
    unfolding start
    start-IsPaced force now s (one, h) =
        if-elim AllPaced s.progress.active (λ busy. h)
          λ idle.
            if-elim AllPaced (not c.fan_enabled) (λ missing. h)
              λ there.
                if-elim AllPaced (not force && not (is_inside_window c now)) (λ outside. h)
                  λ inside. rw (idle-IsSingle s.threads s.progress one idle) (λ _. refl, tt)

    later-All :
        (attempts clock seconds : ℕ) (threads : List Thread)
        → All (IsPaced attempts clock) threads
        → All (IsPaced attempts (clock + seconds)) threads
    later-All attempts clock seconds [] h = tt
    later-All attempts clock seconds (t ∷ threads) h = (
      λ e. later-PacedAt t.phase t.deadline attempts clock seconds (h.0 e),
      later-All attempts clock seconds threads h.1,
    )

    happen-IsPaced : (e : RecoveryEvent) (s : RecoverySystem) → IsWell s → AllPaced (happen c e s)
    unfolding happen maybe_start
    happen-IsPaced (starts force now) s h = start-IsPaced force now s h
    happen-IsPaced (polls now) s h =
        if-elim AllPaced (c.enabled && is_inside_window c now) (λ due. start-IsPaced false now s h)
          (λ quiet. h.1)
    happen-IsPaced (moves i tick) s (one, h) =
        move_at-IsPaced tick s.clock i s.threads s.progress one h
    happen-IsPaced (passes seconds) s (one, h) =
        later-All s.progress.attempts s.clock seconds s.threads h

    run_from-IsWell :
        (events : List RecoveryEvent) (s : RecoverySystem) → IsWell s → IsWell (run c events s)
    unfolding run
    run_from-IsWell [] s h = h
    run_from-IsWell (e ∷ events) s h =
        run_from-IsWell events (happen c e s) (happen-IsSingle c e s h.0, happen-IsPaced e s h)

    init-IsWell : IsWell init
    unfolding init
    init-IsWell = ((refl, λ e. cc), tt)

    paced-Fits :
        (phase : Phase) (deadline : Option ℕ) (attempts clock : ℕ)
        → PacedAt phase deadline attempts clock
        → Fits attempts
    paced-Fits starting none attempts clock h = rw h (omega (arith, positive))
    paced-Fits starting (some d) attempts clock h = absurd h
    paced-Fits checking (some d) attempts clock h = h.0
    paced-Fits checking none attempts clock h = absurd h
    paced-Fits attempting (some d) attempts clock h = h.0
    paced-Fits attempting none attempts clock h = absurd h
    paced-Fits (sleeping until) (some d) attempts clock h = h.0
    paced-Fits (sleeping until) none attempts clock h = absurd h
    paced-Fits leaving (some d) attempts clock h = h
    paced-Fits leaving none attempts clock h = absurd h

    -- While a forced recovery runs, its tries, one retry time apart, fit its timeout: the number of tries
    -- times the retry time is less than the timeout and one retry time.
    pub run-Fits :
        (events : List RecoveryEvent) (t : Thread) (rest : List Thread)
        → (run c events init).threads ≡ t ∷ rest
        → t.force ≡ true
        → Fits (run c events init).progress.attempts
    run-Fits events t rest e forced =
        let well = run_from-IsWell events init init-IsWell in
        let (own, others) = rw e at well.1 in
        paced-Fits t.phase t.deadline _ (run c events init).clock (own forced)
