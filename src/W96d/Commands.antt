-- ===== src/W96d/Commands.antt =====
-- router/w96d_sidecar.py: what an accepted body leaves on the fan.
use lan_mi_home.Base.{
  ℕ, Bool, true, false, Option, none, some, List, [], ◌∷◌, ◌++◌, ◌≡◌, inl, inr, ◌∙◌, refl, sym, ap,
  Option-cases, ◌==◌, if◌then◌else◌,
}
use lan_mi_home.Base.Bytes.{Bytes}
use lan_mi_home.Base.Text.{Table, find}
use lan_mi_home.Sp651e.{Result, ok, err}
use lan_mi_home.W96d.{
  Json, Raised, has_unknown, Field, fields, Manager, write_all, run_writes, run_fields,
  ensure_owned, commands,
}

unfoldable pub joined :
    Result Raised (List (ℕ × Bytes)) → Option (List (ℕ × Bytes)) → Option (List (ℕ × Bytes))
joined (ok writes) (some more) = some (writes ++ more)
joined (ok writes) none = none
joined (err e) more = none

-- All the writes that a body asks for, if each of its values is accepted.
unfoldable pub planned : List Field → Table Json → Option (List (ℕ × Bytes))
planned [] body = some []
planned ((name, writes_of) ∷ rest) body = elim (find name body) [
  | none ↦ planned rest body
  | some v ↦ joined (writes_of v) (planned rest body)
]

-- The last value that a list of writes gives a characteristic, which had one before.
unfoldable pub last_written : ℕ → List (ℕ × Bytes) → Bytes → Bytes
last_written x [] before = before
last_written x ((c, bytes) ∷ writes) before =
    last_written x writes (if c == x then bytes else before)

-- A fan on which every write returns, and stores its value in its characteristic.
abbrev pub Stores : {D : Type 0} → (ℕ → D → Bytes) → (ℕ → Bytes → D → D × Bool) → Type 0
Stores {D} view write =
    (c : ℕ) (bytes : Bytes) (d : D)
    → ((write c bytes d).1 ≡ true)
      × ((x : ℕ) → view x (write c bytes d).0 ≡ (if c == x then bytes else view x d))

pub last_written-append :
    (x : ℕ) (first more : List (ℕ × Bytes)) (before : Bytes)
    → last_written x (first ++ more) before ≡ last_written x more (last_written x first before)
unfolding last_written
last_written-append x [] more before = refl
last_written-append x ((c, bytes) ∷ first) more before =
    last_written-append x first more (if c == x then bytes else before)

joined_lem :
    (r : Result Raised (List (ℕ × Bytes))) (o : Option (List (ℕ × Bytes)))
    (writes : List (ℕ × Bytes))
    → joined r o ≡ some writes
    → (first : List (ℕ × Bytes)) × (more : List (ℕ × Bytes)) × (r ≡ ok first)
      × (o ≡ some more)
      × (writes ≡ first ++ more)
unfolding joined
joined_lem (ok first) (some more) writes e = (first, more, refl, refl, cc)
joined_lem (ok first) none writes e = absurd cc
joined_lem (err _) o writes e = absurd cc

nothing_written : (x : ℕ) (before : Bytes) → before ≡ last_written x [] before
unfolding last_written
nothing_written x before = refl

some_inj : {writes more : List (ℕ × Bytes)} → some writes ≡ some more → writes ≡ more
some_inj e = cc

module _ {D : Type 0} (view : ℕ → D → Bytes) (connect : D → D × Bool)
    (write : ℕ → Bytes → D → D × Bool) (stores : Stores view write) where
  write_all-Stores :
      (writes : List (ℕ × Bytes)) (d : D)
      → ((write_all connect write writes d).1 ≡ true)
        × ((x : ℕ) → view x (write_all connect write writes d).0 ≡ last_written x writes (view x d))
  unfolding write_all last_written
  write_all-Stores [] d = (refl, λ x. refl)
  write_all-Stores ((c, bytes) ∷ writes) d =
      let (returned, stored) = stores c bytes d in
      let (rest_returned, rest) = write_all-Stores writes (write c bytes d).0 in
      (rw returned rest_returned, λ x. rw returned (rest x ∙ ap (last_written x writes) (stored x)))

  run_fields-planned :
      (rest : List Field) (body : Table Json) (writes : List (ℕ × Bytes)) (d : D)
      → planned rest body ≡ some writes
      → ((run_fields connect write rest body d).1 ≡ none)
        × ((x : ℕ)
            → view x (run_fields connect write rest body d).0 ≡ last_written x writes (view x d))
  unfolding run_fields planned run_writes
  run_fields-planned [] body writes d e =
      (refl, λ x. nothing_written x (view x d) ∙ ap (λ l. last_written x l (view x d)) (some_inj e))
  run_fields-planned ((name, writes_of) ∷ rest) body writes d e =
      elim (Option-cases (find name body)) [
        | inl missing ↦
            rw (missing, run_fields)
              (run_fields-planned rest body writes d (rw (missing, planned) at e))
        | inr (v, found) ↦
            let (first, more, accepted, later, split) =
              joined_lem (writes_of v) (planned rest body) writes (rw (found, planned) at e) in
            let (returned, stored) = write_all-Stores first d in
            let (none_raised, rest_stored) =
              run_fields-planned rest body more (write_all connect write first d).0 later in
            rw (found, run_fields)
              (rw (accepted, run_writes)
                (rw returned (
                  none_raised,
                  λ x.
                      rest_stored x
                      ∙ ap (last_written x more) (stored x)
                      ∙ sym (last_written-append x first more (view x d))
                      ∙ ap (λ l. last_written x l (view x d)) (sym split),
                )))
      ]

  ensure_owned-idle :
      (m : Manager) (d : D)
      → m.enabled ≡ true
      → m.paused ≡ false
      → (connect d).1 ≡ true
      → ensure_owned connect write m d ≡ ((connect d).0, none)
  unfolding ensure_owned
  ensure_owned-idle m d enabled going returned = rw (enabled, going, returned) refl

  -- On an enabled, unpaused manager, over a fan that can be connected and stores what it is told, a body
  -- of known fields with accepted values is carried out: each characteristic has the last value that
  -- the planned writes give it, and one that they leave out keeps its own.
  pub commands-planned :
      (m : Manager) (body : Table Json) (writes : List (ℕ × Bytes)) (d : D)
      → m.enabled ≡ true
      → m.paused ≡ false
      → (connect d).1 ≡ true
      → has_unknown body ≡ false
      → planned fields body ≡ some writes
      → ((commands connect write m body d).1 ≡ none)
        × ((x : ℕ)
            → view x (commands connect write m body d).0
              ≡ last_written x writes (view x (connect d).0))
  unfolding commands
  commands-planned m body writes d enabled going returned known plan =
      let owned = ensure_owned-idle m d enabled going returned in
      let fan = ap (λ (p : D × Option Raised). p.0) owned in
      let outcome = ap (λ (p : D × Option Raised). p.1) owned in
      rw (known, outcome, fan) (run_fields-planned fields body writes (connect d).0 plan)
