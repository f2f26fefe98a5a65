-- ===== src/Recovery/Turns.antt =====
-- router/recovery_supervisor.py: the loop over its turns, and what a completed window rests on.
use lan_mi_home.Base.{
  ℕ, Bool, true, false, ◌&&◌, ◌||◌, Option, none, some, List, [], ◌∷◌, ◌≡◌, ◌⊎◌, inl, inr, ap,
  arith, ◌==◌, Bool-cases,
}
use lan_mi_home.Recovery.{Moment, Config, Answer, State, window_key, is_due, is_key, answer, turn}

-- What a turn finds.
pub record Turn : Type 0 where
  pub config : Option Config
  pub now : Moment
  pub got : Option Answer
  pub posted : Bool

abbrev pub init : State
init = record { completed_key = none; triggered_key = none }

-- The supervisor after its turns, the latest first.
unfoldable pub run : List Turn → State
run [] = init
run (t ∷ earlier) = (turn t.config t.now t.got t.posted (run earlier)).0

-- The test of a turn inside the window of a day that finds an answer.
within_window : ℕ → (Answer → Bool) → Turn → Bool
within_window key test t = elim t.config [
  | none ↦ false
  | some c ↦
      is_due c t.now
      && window_key t.now c.start c.stop == key
      && (elim t.got [ none ↦ false | some a ↦ test a ])
]

-- The service was busy, or answered the POST of a start, whatever it answered.
pub attempted : ℕ → Turn → Bool
attempted key t = within_window key (λ a. a.active || t.posted) t

-- The service reported a success whose reason is `confirmed-on`.
pub confirmed : ℕ → Turn → Bool
confirmed key t = within_window key (λ a. a.success && a.confirmed_on) t

pub was_attempted : ℕ → List Turn → Bool
was_attempted key [] = false
was_attempted key (t ∷ earlier) = attempted key t || was_attempted key earlier

-- A turn that confirmed the recovery of that window comes after one that attempted it.
pub was_confirmed : ℕ → List Turn → Bool
was_confirmed key [] = false
was_confirmed key (t ∷ earlier) =
    (confirmed key t && was_attempted key earlier) || was_confirmed key earlier

is_key-eq : (o : Option ℕ) (key : ℕ) → is_key o key ≡ true → o ≡ some key
unfolding is_key
is_key-eq none key e = ground arith
is_key-eq (some k) key e = let same_one : k ≡ key = ground arith in ap some same_one

-- What an answer may change.
answer_changes :
    (a : Answer) (posted : Bool) (now_key : ℕ) (s : State) (key : ℕ)
    → (((answer a posted now_key s).0.completed_key ≡ some key)
        → (s.completed_key ≡ some key)
          ⊎ ((s.triggered_key ≡ some key)
              × (((now_key == key) && (a.success && a.confirmed_on)) ≡ true)))
      × (((answer a posted now_key s).0.triggered_key ≡ some key)
          → (s.triggered_key ≡ some key) ⊎ (((now_key == key) && (a.active || posted)) ≡ true))
unfolding answer
answer_changes a posted now_key s key =
    let known = is_key-eq s.triggered_key now_key in
    (λ h. ground (arith, known), λ h. ground (arith, known))

turn_changes :
    (c : Option Config) (now : Moment) (got : Option Answer) (posted : Bool) (s : State) (key : ℕ)
    → (let t : Turn = record { config = c; now = now; got = got; posted = posted } in
        (((turn c now got posted s).0.completed_key ≡ some key)
          → (s.completed_key ≡ some key)
            ⊎ ((s.triggered_key ≡ some key) × (confirmed key t ≡ true)))
        × (((turn c now got posted s).0.triggered_key ≡ some key)
            → (s.triggered_key ≡ some key) ⊎ (attempted key t ≡ true)))
unfolding turn within_window attempted confirmed
turn_changes none now got posted s key = (λ h. inl h, λ h. inl h)
turn_changes (some c) now none posted s key = (λ h. ground arith, λ h. ground arith)
turn_changes (some c) now (some a) posted s key =
    let now_key = window_key now c.start c.stop in
    let (completes, triggers) = answer_changes a posted now_key s key in
    elim (Bool-cases (is_due c now)) [
      | inr e ↦ rw e (λ h. inl h, λ h. inl h)
      | inl e ↦ elim (Bool-cases (is_key s.completed_key now_key)) [
        | inl done ↦ rw (e, done) (λ h. inl h, λ h. inl h)
        | inr going ↦ rw (e, going) (completes, triggers)
      ]
    ]

-- A window that is triggered was attempted, and one that is completed was confirmed.
run-was_confirmed :
    (turns : List Turn) (key : ℕ)
    → ((run turns).completed_key ≡ some key → was_confirmed key turns ≡ true)
      × ((run turns).triggered_key ≡ some key → was_attempted key turns ≡ true)
unfolding run was_attempted was_confirmed
run-was_confirmed [] key = (λ h. ground arith, λ h. ground arith)
run-was_confirmed (t ∷ earlier) key =
    let (completed, triggered) = run-was_confirmed earlier key in
    let (completes, triggers) = turn_changes t.config t.now t.got t.posted (run earlier) key in
    (
      λ h. elim (completes h) [
        | inl before ↦ let b = completed before in ground arith
        | inr (before, now) ↦ let b = triggered before in ground arith
      ],
      λ h. elim (triggers h) [
        | inl before ↦ let b = triggered before in ground arith
        | inr b ↦ ground arith
      ],
    )

-- The supervisor takes a window for completed only if in one of its own turns inside that window the
-- service reported a confirmed success, and in an earlier one, inside that window too, it was busy or
-- answered the POST of a start: a success left from an earlier window does not count by itself.
pub completed-was_confirmed :
    (turns : List Turn) (key : ℕ)
    → (run turns).completed_key ≡ some key
    → was_confirmed key turns ≡ true
completed-was_confirmed turns key h = (run-was_confirmed turns key).0 h
