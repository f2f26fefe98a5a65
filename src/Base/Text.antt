-- ===== src/Base/Text.antt =====
-- Python's str as a list of code points: the words that the program looks up.
use lan_mi_home.Base.Tests.{leb, if◌then◌else◌, Bool-cases}
use lan_mi_home.Base.Bytes.{same, same_iff}
use Prim.Native.Nat.{ℕ, ◌+◌, ◌-◌}
use Prim.Native.Char.{code}
use Prim.Native.String.{String}
use mathlib.Core.Bool.{◌&&◌}
use mathlib.Core.Option
use mathlib.Core.Option.{Option, none, some}
use mathlib.Core.Path.{◌≡◌, refl, ap, ◌∙◌, subst₂}
use native.Mathlib.Omega.{arith}
use mathlib.Core.Logic.{inl, inr}
use lan_mi_home.Base.Lists.{All}
use mathlib.Core.List.{List, [], ◌∷◌, map}

abbrev pub Text : Type 0
Text = List ℕ

abbrev pub word : String → Text
word String.[] = []
word (String.◌∷◌ letter rest) = code letter ∷ word rest

-- str.lower() on one letter of ASCII. No letter beyond ASCII has a lower case that is spelled with
-- the letters and digits of the words looked up here.
abbrev lower_code : ℕ → ℕ
lower_code c = if leb b'A' c && leb c b'Z' then c + 32 else c

unfoldable pub lower : Text → Text
lower t = map lower_code t

lower_code-lower_code : (c : ℕ) → lower_code (lower_code c) ≡ lower_code c
lower_code-lower_code c = ground arith

pub lower-lower : (t : Text) → lower (lower t) ≡ lower t
unfolding lower
lower-lower [] = refl
lower-lower (c ∷ t) =
    ap (λ x. x ∷ lower (lower t)) (lower_code-lower_code c)
    ∙ ap (λ r. lower_code c ∷ r) (lower-lower t)

abbrev upper_code : ℕ → ℕ
upper_code c = if leb b'a' c && leb c b'z' then c - 32 else c

unfoldable pub upper : Text → Text
upper t = map upper_code t

-- A dict with words for keys.
abbrev pub Table {ℓ} : Type ℓ → Type ℓ
Table V = List (Text × V)

unfoldable pub find {ℓ} : {V : Type ℓ} → Text → Table V → Option V
find k [] = none
find k ((j, v) ∷ m) = if same j k then some v else find k m

-- d[k] = v
unfoldable pub assign {ℓ} : {V : Type ℓ} → Text → V → Table V → Table V
assign k v [] = (k, v) ∷ []
assign k v ((j, w) ∷ m) = if same j k then (k, v) ∷ m else (j, w) ∷ assign k v m

-- A law of every entry holds of what `find` returns, at the key that was asked for.
module _ {ℓ κ} {V : Type ℓ} where
  pub find-All :
      (P : Text → V → Type κ) (m : Table V)
      → All (λ (entry : Text × V). P entry.0 entry.1) m
      → (k : Text) {v : V} → find k m ≡ some v
      → P k v
  unfolding find
  find-All P [] h k e = cc
  find-All P ((j, w) ∷ m) h k e = elim (Bool-cases (same j k)) [
    | inl hit ↦ subst₂ P ((same_iff j k).0 hit) (let e' = rw hit at e in cc) h.0
    | inr miss ↦ find-All P m h.1 k (rw miss at e)
  ]

-- `find` after a change of every value
pub find-map {ℓ κ} :
    {V : Type ℓ} {W : Type κ} (g : V → W) (m : Table V) (k : Text)
    → find k (map (λ (entry : Text × V). (entry.0, g entry.1)) m) ≡ Option.map g (find k m)
unfolding find
find-map g [] k = refl
find-map g ((j, w) ∷ m) k = elim (Bool-cases (same j k)) [
  | inl hit ↦ rw hit
  | inr miss ↦ rw miss (find-map g m k)
]
