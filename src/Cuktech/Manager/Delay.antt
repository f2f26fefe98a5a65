-- ===== src/Cuktech/Manager/Delay.antt =====
-- manager.py: the delay of `_worker` between its connections, in milliseconds.
use lan_mi_home.Base.{
  ℕ, zero, suc, ◌+◌, ◌*◌, ◌^◌, min, Bool, true, false, List, [], ◌∷◌, ◌≡◌, ◌<◌, ◌∙◌, refl, sym, ap,
  some, get_elem?, arith, if◌then◌else◌,
}
use native.Mathlib.Nat.{pow-suc, zero-add, add-zero, add-suc, suc-add}

-- The pauses after connections, of which each was authenticated or not, from a delay on.
unfoldable pub pauses : ℕ → List Bool → List ℕ
pauses delay [] = []
pauses delay (authenticated ∷ rest) =
    let pause = if authenticated then 2000 else delay in pause ∷ pauses (min (pause * 2) 30000) rest

-- The pause after so many failures in a row.
abbrev pub backoff : ℕ → ℕ
backoff k = min (2000 * 2 ^ k) 30000

abbrev pub failures : ℕ → List Bool
failures zero = []
failures (suc n) = false ∷ failures n

backoff_step : (k : ℕ) → min (backoff k * 2) 30000 ≡ backoff (suc k)
backoff_step k = omega (arith, pow-suc 2 k)

pauses-failures :
    (k n i : ℕ) → i < n → get_elem? (pauses (backoff k) (failures n)) i ≡ some (backoff (k + i))
unfolding pauses
pauses-failures k zero i lt = absurd (omega arith)
pauses-failures k (suc n) zero lt = ap (λ j. some (backoff j)) (sym (add-zero k))
pauses-failures k (suc n) (suc i) lt =
    ap (λ d. get_elem? (pauses d (failures n)) i) (backoff_step k)
    ∙ pauses-failures (suc k) n i (omega arith)
    ∙ ap (λ j. some (backoff j)) (suc-add k i ∙ sym (add-suc k i))

-- Whatever the delay was: after a connection that was authenticated the pause is 2 seconds, and then
-- twice as long after each connection that fails, up to 30 seconds.
pub pauses-backoff :
    (delay n i : ℕ) → i < suc n → get_elem? (pauses delay (true ∷ failures n)) i ≡ some (backoff i)
unfolding pauses
pauses-backoff delay n zero lt = refl
pauses-backoff delay n (suc i) lt =
    pauses-failures 1 n i (omega arith)
    ∙ ap (λ j. some (backoff j)) (suc-add 0 i ∙ ap suc (zero-add i))
