-- ===== src/Cuktech/Manager/Choice.antt =====
-- manager.py: the port that `_stale_candidate` picks.
use lan_mi_home.Base.{
  ℕ, zero, suc, ◌≤◌, ◌<◌, true, false, Option, none, some, List, [], ◌∷◌, ◌≡◌, ◌⊎◌, inl, inr, ◌∙◌,
  refl, sym, arith, Bool-cases, All,
}
use mathlib.Core.Bool.{true≢false}
use mathlib.Core.Path.{subst}
use lan_mi_home.Base.Dict.{Dict}
use lan_mi_home.Cuktech.Protocol.{PortReading}
use lan_mi_home.Cuktech.Manager.{
  Clocks, age, is_stale, candidates, is_less, greatest, max_of, stale_candidate,
}

is_less_trans : (x y z : ℕ × ℕ) → is_less x y ≡ false → is_less y z ≡ false → is_less x z ≡ false
unfolding is_less
is_less_trans (a, p) (b, q) (c, r) h k = ground arith

is_less_irrefl : (x : ℕ × ℕ) → is_less x x ≡ false
unfolding is_less
is_less_irrefl (a, p) = ground arith

is_less_asym : (x y : ℕ × ℕ) → is_less x y ≡ true → is_less y x ≡ false
unfolding is_less
is_less_asym (a, p) (b, q) h = ground arith

-- Nothing in the list is above `g`.
abbrev Above : ℕ × ℕ → ℕ × ℕ → List (ℕ × ℕ) → Type 0
Above g best cs = (is_less g best ≡ false) × All (λ c. is_less g c ≡ false) cs

greatest_less :
    (best c : ℕ × ℕ) (cs : List (ℕ × ℕ))
    → is_less best c ≡ true
    → greatest best (c ∷ cs) ≡ greatest c cs
unfolding greatest
greatest_less best c cs less = rw less refl

greatest_more :
    (best c : ℕ × ℕ) (cs : List (ℕ × ℕ))
    → is_less best c ≡ false
    → greatest best (c ∷ cs) ≡ greatest best cs
unfolding greatest
greatest_more best c cs more = rw more refl

greatest-Above : (best : ℕ × ℕ) (cs : List (ℕ × ℕ)) → Above (greatest best cs) best cs
unfolding greatest
greatest-Above best [] = (is_less_irrefl best, tt)
greatest-Above best (c ∷ cs) = elim (Bool-cases (is_less best c)) [
  | inl less ↦
      let (above, rest) = greatest-Above c cs in
      let down = is_less_trans (greatest c cs) c best above (is_less_asym best c less) in
      subst (λ g. Above g best (c ∷ cs)) (sym (greatest_less best c cs less)) (down, (above, rest))
  | inr more ↦
      let (above, rest) = greatest-Above best cs in
      let down = is_less_trans (greatest best cs) best c above more in
      subst (λ g. Above g best (c ∷ cs)) (sym (greatest_more best c cs more)) (above, (down, rest))
]

greatest_among :
    (P : ℕ × ℕ → Type 0) (best : ℕ × ℕ) (cs : List (ℕ × ℕ))
    → P best
    → All P cs
    → P (greatest best cs)
unfolding greatest
greatest_among P best [] p ps = p
greatest_among P best (c ∷ cs) p (q, ps) = elim (Bool-cases (is_less best c)) [
  | inl less ↦ rw less (greatest_among P c cs q ps)
  | inr more ↦ rw more (greatest_among P best cs p ps)
]

module _ (ports : Dict PortReading) (clocks : Clocks) (now : ℕ) where
  -- A port that is due, with its age.
  IsDue : ℕ × ℕ → Type 0
  IsDue (a, p) = (1 ≤ p) × (p ≤ 4) × (is_stale ports clocks now p ≡ true) × (a ≡ age clocks now p)

  candidates-IsDue :
      (piids : List ℕ)
      → All (λ p. (1 ≤ p) × (p ≤ 4)) piids
      → All IsDue (candidates ports clocks now piids)
  unfolding candidates IsDue
  candidates-IsDue [] h = tt
  candidates-IsDue (p ∷ piids) ((lo, hi), h) = elim (Bool-cases (is_stale ports clocks now p)) [
    | inl stale ↦ rw stale ((lo, hi, stale, refl), candidates-IsDue piids h)
    | inr fresh ↦ rw fresh (candidates-IsDue piids h)
  ]

  candidates_stale :
      (p : ℕ) (piids : List ℕ)
      → is_stale ports clocks now p ≡ true
      → candidates ports clocks now (p ∷ piids)
        ≡ (age clocks now p, p) ∷ candidates ports clocks now piids
  unfolding candidates
  candidates_stale p piids stale = rw stale refl

  candidates_fresh :
      (p : ℕ) (piids : List ℕ)
      → is_stale ports clocks now p ≡ false
      → candidates ports clocks now (p ∷ piids) ≡ candidates ports clocks now piids
  unfolding candidates
  candidates_fresh p piids fresh = rw fresh refl

  candidates-All :
      (Q : ℕ × ℕ → Type 0) (piids : List ℕ)
      → All Q (candidates ports clocks now piids)
      → All (λ p. is_stale ports clocks now p ≡ true → Q (age clocks now p, p)) piids
  unfolding candidates
  candidates-All Q [] h = tt
  candidates-All Q (p ∷ piids) h = elim (Bool-cases (is_stale ports clocks now p)) [
    | inl stale ↦
        let (first, rest) = subst (All Q) (candidates_stale p piids stale) h in
        (λ _. first, candidates-All Q piids rest)
    | inr fresh ↦
        let rest = subst (All Q) (candidates_fresh p piids fresh) h in
        (λ stale. absurd (true≢false (sym stale ∙ fresh)), candidates-All Q piids rest)
  ]

  -- The port that is picked: among the ports that are due it has the greatest age, and among those of
  -- that age the greatest number. No port is picked only where none is due.
  abbrev pub IsOldest : Option ℕ → Type 0
  IsOldest none = (q : ℕ) → 1 ≤ q → q ≤ 4 → is_stale ports clocks now q ≡ false
  IsOldest (some p) =
      (1 ≤ p)
      × (p ≤ 4)
      × (is_stale ports clocks now p ≡ true)
      × ((q : ℕ)
          → 1 ≤ q
          → q ≤ 4
          → is_stale ports clocks now q ≡ true
          → (age clocks now q < age clocks now p)
            ⊎ ((age clocks now q ≡ age clocks now p) × (q ≤ p)))

  of_four : (P : ℕ → Type 0) → All P (1 ∷ 2 ∷ 3 ∷ 4 ∷ []) → (q : ℕ) → 1 ≤ q → q ≤ 4 → P q
  of_four P (a, (b, (c, (d, _)))) zero lo hi = absurd (omega arith)
  of_four P (a, (b, (c, (d, _)))) (suc zero) lo hi = a
  of_four P (a, (b, (c, (d, _)))) (suc (suc zero)) lo hi = b
  of_four P (a, (b, (c, (d, _)))) (suc (suc (suc zero))) lo hi = c
  of_four P (a, (b, (c, (d, _)))) (suc (suc (suc (suc zero)))) lo hi = d
  of_four P (a, (b, (c, (d, _)))) (suc (suc (suc (suc (suc q))))) lo hi = absurd (omega arith)

  not_less : (a p b q : ℕ) → is_less (a, p) (b, q) ≡ false → (b < a) ⊎ ((b ≡ a) × (q ≤ p))
  unfolding is_less
  not_less a p b q h = ground arith

  max_of-IsOldest :
      (cs : List (ℕ × ℕ))
      → All IsDue cs
      → ((Q : ℕ × ℕ → Type 0)
          → All Q cs
          → (q : ℕ) → 1 ≤ q
          → q ≤ 4
          → is_stale ports clocks now q ≡ true
          → Q (age clocks now q, q))
      → IsOldest (max_of cs)
  unfolding max_of IsDue
  max_of-IsOldest [] due complete = λ q lo hi. elim (Bool-cases (is_stale ports clocks now q)) [
    | inl stale ↦ absurd (true≢false (complete (λ _. true ≡ false) tt q lo hi stale))
    | inr fresh ↦ fresh
  ]
  max_of-IsOldest (c ∷ cs) (d, due) complete =
      let g = greatest c cs in
      let (lo, hi, stale, aged) = greatest_among IsDue c cs d due in
      let above = greatest-Above c cs in
      (
        lo,
        hi,
        stale,
        λ q qlo qhi qstale.
            let below = complete (λ x. is_less g x ≡ false) above q qlo qhi qstale in
            subst (λ a. (age clocks now q < a) ⊎ ((age clocks now q ≡ a) × (q ≤ g.1))) aged
              (not_less g.0 g.1 (age clocks now q) q below),
      )

  -- The port that `_stale_candidate` picks is due, and of the four ports that are due it has the greatest
  -- age, or the greatest number among those of that age; it picks none only where none is due.
  pub stale_candidate-IsOldest : IsOldest (stale_candidate ports clocks now)
  unfolding stale_candidate
  stale_candidate-IsOldest =
      let four : List ℕ = 1 ∷ 2 ∷ 3 ∷ 4 ∷ [] in
      let due = candidates-IsDue four (
        (omega arith, omega arith),
        (
          (omega arith, omega arith),
          ((omega arith, omega arith), ((omega arith, omega arith), tt)),
        ),
      ) in
      max_of-IsOldest (candidates ports clocks now four) due (λ Q all q lo hi stale.
        of_four (λ p. is_stale ports clocks now p ≡ true → Q (age clocks now p, p))
          (candidates-All Q four all) q lo hi stale)
