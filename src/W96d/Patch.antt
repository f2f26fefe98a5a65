-- ===== src/W96d/Patch.antt =====
-- router/w96d_sidecar.py: `_patch` whole, the commands and the reading that follows them.
use lan_mi_home.Base.{ℕ, Bool, Option, none, some, ◌≡◌, ◌⊎◌, inl, inr, refl, Option-cases}
use lan_mi_home.Base.Bytes.{Bytes}
use lan_mi_home.Base.Text.{Table}
use lan_mi_home.W96d.{Json, Raised, client_error, Manager, commands}
use lan_mi_home.W96d.Refresh.{W96dState, refresh}

-- A reading leaves the fan as it is. Where one of them raises, so does `_patch`, although its commands
-- are done.
pub read_after :
    {D : Type 0}
    → (ℕ → D → Option Bytes)
    → D × Option Raised
    → W96dState
    → (D × W96dState) × Option Raised
read_after read (d, some e) s = ((d, s), some e)
read_after read (d, none) s = elim (refresh read d s) [
  | none ↦ ((d, s), some client_error)
  | some s' ↦ ((d, s'), none)
]

-- `connect`, `write` and `read` are the client's.
unfoldable pub patch :
    {D : Type 0}
    → (D → D × Bool)
    → (ℕ → Bytes → D → D × Bool)
    → (ℕ → D → Option Bytes)
    → Manager
    → Table Json
    → D
    → W96dState
    → (D × W96dState) × Option Raised
patch connect write read m body d s = read_after read (commands connect write m body d) s

-- The reading does not reach the fan.
pub read_after-fan :
    {D : Type 0} (read : ℕ → D → Option Bytes) (done : D × Option Raised) (s : W96dState)
    → (read_after read done s).0.0 ≡ done.0
unfolding read_after
read_after-fan read (d, some e) s = refl
read_after-fan read (d, none) s = elim (Option-cases (refresh read d s)) [
  | inl e ↦ rw (e, read_after) refl
  | inr (s', e) ↦ rw (e, read_after) refl
]

-- What `_patch` ends with, by how its commands ended.
pub read_after-outcome :
    {D : Type 0} (read : ℕ → D → Option Bytes) (done : D × Option Raised) (s : W96dState)
    → ((e : Raised) → done.1 ≡ some e → (read_after read done s).1 ≡ some e)
      × (done.1 ≡ none
          → ((s' : W96dState) × (refresh read done.0 s ≡ some s')
              × ((read_after read done s).1 ≡ none))
            ⊎ ((refresh read done.0 s ≡ none) × ((read_after read done s).1 ≡ some client_error)))
unfolding read_after
read_after-outcome read (d, some e) s = (λ e' h. h, λ h. absurd cc)
read_after-outcome read (d, none) s = (
  λ e h. absurd cc,
  λ _. elim (Option-cases (refresh read d s)) [
    | inl e ↦ inr (e, rw (e, read_after) refl)
    | inr (s', e) ↦ inl (s', e, rw (e, read_after) refl)
  ],
)
