-- ===== src/Appliance/Recovery/Single.antt =====
-- router/lanmihome.py: at most one thread of RecoveryController runs, and what `confirmed-on` means.
use lan_mi_home.Base.{
  if-elim, ℕ, zero, suc, Bool, true, false, ◌≢◌, if◌then◌else◌, ◌&&◌, not, none, some, List, [],
  ◌∷◌, ◌≡◌, refl, inl, inr, Bool-cases,
}
use lan_mi_home.Sp651e.{Result, ok, err}
use lan_mi_home.Appliance.Values.{Raised}
use lan_mi_home.Appliance.Recovery.{
  Settings, Reason, fan_not_configured, outside_window, forced, power_return_window, timeout,
  window_ended, confirmed_on, Progress, Phase, starting, checking, attempting, leaving, sleeping,
  Thread, RecoverySystem, init, is_inside_window, start, maybe_start, is_over, attempted, left,
  Tick, move, move_from, and_others, move_at, RecoveryEvent, starts, polls, moves, passes, happen,
  run,
}

-- The threads that run, against the progress that is shown.
abbrev pub IsSingle : List Thread → Progress → Type 0
IsSingle [] p = (p.active ≡ false) × (p.reason ≡ some confirmed_on → p.success ≡ true)
IsSingle (t ∷ []) p =
    (p.active ≡ true) × (p.success ≡ false) × (p.reason ≡ some confirmed_on → p.success ≡ true)
IsSingle (t ∷ u ∷ threads) p = ⊥

pub idle-IsSingle :
    (threads : List Thread) (p : Progress) → IsSingle threads p → p.active ≡ false → threads ≡ []
idle-IsSingle [] p h idle = refl
idle-IsSingle (t ∷ []) p h idle = cc
idle-IsSingle (t ∷ u ∷ threads) p h idle = absurd h

-- A refused start changes the reason only.
refused-IsSingle :
    (threads : List Thread) (p : Progress) (why : Reason)
    → why ≢ confirmed_on
    → IsSingle threads p
    → IsSingle threads (record p { reason = some why })
refused-IsSingle [] p why other h = (h.0, λ e. absurd (other cc))
refused-IsSingle (t ∷ []) p why other h = (h.0, h.1, λ e. absurd (other cc))
refused-IsSingle (t ∷ u ∷ threads) p why other h = h

new_reason :
    (force : Bool) → some (if force then forced else power_return_window) ≢ some confirmed_on
new_reason true e = cc
new_reason false e = cc

abbrev IsWell : RecoverySystem → Type 0
IsWell s = IsSingle s.threads s.progress

start-IsWell :
    (c : Settings) (force : Bool) (now : ℕ) (s : RecoverySystem)
    → IsWell s
    → IsWell (start c force now s)
unfolding start
start-IsWell c force now s h =
    if-elim IsWell s.progress.active (λ busy. h)
      λ idle.
        if-elim IsWell (not c.fan_enabled)
          (λ missing. refused-IsSingle s.threads s.progress fan_not_configured (λ e. cc) h)
          λ there.
            if-elim IsWell (not force && not (is_inside_window c now))
              (λ outside. refused-IsSingle s.threads s.progress outside_window (λ e. cc) h)
              λ inside.
                rw (idle-IsSingle s.threads s.progress h idle)
                  (refl, refl, λ e. absurd (new_reason force e))

left_reason : (force : Bool) → some (if force then timeout else window_ended) ≢ some confirmed_on
left_reason true e = cc
left_reason false e = cc

attempted-IsSingle :
    (r : Result Raised Bool) (t u : Thread) (p : Progress)
    → IsSingle (t ∷ []) p
    → let (p', done) = attempted r p in
      let (p'', threads) = and_others (p', if done then none else some u) [] in IsSingle threads p''
unfolding attempted
attempted-IsSingle (ok true) t u p h = (refl, λ _. refl)
attempted-IsSingle (ok false) t u p h = h
attempted-IsSingle (err e) t u p h = h

move_from-IsSingle :
    (c : Settings) (tick : Tick) (clock : ℕ) (t : Thread) (p : Progress) (phase : Phase)
    → IsSingle (t ∷ []) p
    → let (p', threads) = and_others (move_from c tick clock t p phase) [] in IsSingle threads p'
unfolding move_from left
move_from-IsSingle c tick clock t p starting h = h
move_from-IsSingle c tick clock t p checking h = elim (Bool-cases (is_over c tick.now clock t)) [
  | inl over ↦ rw over h
  | inr on ↦ rw on h
]
move_from-IsSingle c tick clock t p attempting h = attempted-IsSingle tick.outcome t _ p h
move_from-IsSingle c tick clock t p (sleeping until) h = h
move_from-IsSingle c tick clock t p leaving h =
    (refl, λ e. absurd (left_reason t.force (rw h.1 at e)))

move_at-IsSingle :
    (c : Settings) (tick : Tick) (clock i : ℕ) (threads : List Thread) (p : Progress)
    → IsSingle threads p
    → let (p', threads') = move_at c tick clock i threads p in IsSingle threads' p'
unfolding move_at move
move_at-IsSingle c tick clock i [] p h = h
move_at-IsSingle c tick clock zero (t ∷ []) p h = move_from-IsSingle c tick clock t p t.phase h
move_at-IsSingle c tick clock (suc i) (t ∷ []) p h = h
move_at-IsSingle c tick clock i (t ∷ u ∷ threads) p h = absurd h

pub happen-IsSingle :
    (c : Settings) (e : RecoveryEvent) (s : RecoverySystem)
    → IsSingle s.threads s.progress
    → IsSingle (happen c e s).threads (happen c e s).progress
unfolding happen maybe_start
happen-IsSingle c (starts force now) s h = start-IsWell c force now s h
happen-IsSingle c (polls now) s h = elim (Bool-cases (c.enabled && is_inside_window c now)) [
  | inl due ↦ rw due (start-IsWell c false now s h)
  | inr quiet ↦ rw quiet h
]
happen-IsSingle c (moves i tick) s h = move_at-IsSingle c tick s.clock i s.threads s.progress h
happen-IsSingle c (passes seconds) s h = h

pub run_from-IsSingle :
    (c : Settings) (events : List RecoveryEvent) (s : RecoverySystem)
    → IsSingle s.threads s.progress
    → IsSingle (run c events s).threads (run c events s).progress
unfolding run
run_from-IsSingle c [] s h = h
run_from-IsSingle c (e ∷ events) s h =
    run_from-IsSingle c events (happen c e s) (happen-IsSingle c e s h)

-- Whatever is asked for, and however the threads move: at most one thread runs `_run`; the recovery is
-- shown as active exactly while one does, and then not as a success; and the reason is `confirmed-on`
-- only of a success.
pub run-IsSingle :
    (c : Settings) (events : List RecoveryEvent)
    → IsSingle (run c events init).threads (run c events init).progress
unfolding init
run-IsSingle c events = run_from-IsSingle c events init (refl, λ e. cc)
