-- ===== src/Appliance/Actions.antt =====
-- router/lanmihome.py: calls that change a device and may raise.
use lan_mi_home.Base.{◌≡◌, ◌⊎◌, inl, inr, refl, ap}
use lan_mi_home.Sp651e.{Result, ok, err}
use lan_mi_home.Appliance.Values.{Raised}

abbrev pub Action : Type 0 → Type 0 → Type 0
Action D A = D → D × Result Raised A

pub Result-cases :
    {A : Type 0} (r : Result Raised A) → ((a : A) × (r ≡ ok a)) ⊎ ((e : Raised) × (r ≡ err e))
Result-cases (ok a) = inl (a, refl)
Result-cases (err e) = inr (e, refl)

module _ {D : Type 0} where
  abbrev pub continue :
      {A B : Type 0} → (A → Action D B) → D × Result Raised A → D × Result Raised B
  continue next (d, ok a) = next a d
  continue next (d, err e) = (d, err e)

  infixl 5 ◌>>=◌ ◌>>◌
  unfoldable pub ◌>>=◌ : {A B : Type 0} → Action D A → (A → Action D B) → Action D B
  (m >>= next) d = continue next (m d)

  unfoldable pub ◌>>◌ : {A B : Type 0} → Action D A → Action D B → Action D B
  unfolding ◌>>=◌
  m >> next = m >>= λ _. next

  abbrev pub pure : {A : Type 0} → A → Action D A
  pure a d = (d, ok a)

  abbrev pub throw : {A : Type 0} → Raised → Action D A
  throw e d = (d, err e)

  -- A reader that leaves the device alone.
  abbrev pub lift : {A : Type 0} → Result Raised A → Action D A
  lift r d = (d, r)

  pub bind-ok :
      {A B : Type 0} (m : Action D A) (next : A → Action D B) {d d' : D} {a : A}
      → m d ≡ (d', ok a)
      → (m >>= next) d ≡ next a d'
  unfolding ◌>>=◌
  bind-ok m next e = ap (continue next) e

  pub bind-err :
      {A B : Type 0} (m : Action D A) (next : A → Action D B) {d d' : D} {r : Raised}
      → m d ≡ (d', err r)
      → (m >>= next) d ≡ (d', err r)
  unfolding ◌>>=◌
  bind-err m next e = ap (continue next) e

  pub then-ok :
      {A B : Type 0} (m : Action D A) (next : Action D B) {d d' : D} {a : A}
      → m d ≡ (d', ok a)
      → (m >> next) d ≡ next d'
  unfolding ◌>>◌
  then-ok m next e = bind-ok m (λ _. next) e

  pub then-err :
      {A B : Type 0} (m : Action D A) (next : Action D B) {d d' : D} {r : Raised}
      → m d ≡ (d', err r)
      → (m >> next) d ≡ (d', err r)
  unfolding ◌>>◌
  then-err m next e = bind-err m (λ _. next) e
