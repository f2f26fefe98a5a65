-- ===== src/Base/Dict.antt =====
-- Python's dict with small whole numbers for keys: the entries in the order of insertion. An
-- assignment to a key that is there keeps its place.
use Prim.Native.Nat.{ℕ}
use mathlib.Core.Path.{◌≡◌, refl}
use mathlib.Core.Option.{Option, none, some}
use mathlib.Core.List.{List, [], ◌∷◌}
use native.Mathlib.Omega.{arith}
use lan_mi_home.Base.Tests.{◌==◌, if◌then◌else◌}

abbrev pub Dict {ℓ} : Type ℓ → Type ℓ
Dict V = List (ℕ × V)

module _ {ℓ} {V : Type ℓ} where
  -- d.get(key)
  unfoldable pub lookup : ℕ → Dict V → Option V
  lookup key [] = none
  lookup key ((here, held) ∷ rest) = if here == key then some held else lookup key rest

  -- d[key] = new
  unfoldable pub insert : ℕ → V → Dict V → Dict V
  insert key new [] = (key, new) ∷ []
  insert key new ((here, held) ∷ rest) =
      if here == key then (key, new) ∷ rest else (here, held) ∷ insert key new rest

  -- d.pop(key, None)
  unfoldable pub erase : ℕ → Dict V → Dict V
  erase key [] = []
  erase key ((here, held) ∷ rest) = if here == key then rest else (here, held) ∷ erase key rest

  -- No key is listed twice.
  abbrev pub HasNodupKeys : Dict V → Type ℓ
  HasNodupKeys [] = Unit
  HasNodupKeys ((k, _) ∷ m) = (lookup k m ≡ none) × HasNodupKeys m

  pub lookup-insert :
      (key asked : ℕ) (new : V) (d : Dict V)
      → lookup asked (insert key new d) ≡ (if asked == key then some new else lookup asked d)
  unfolding lookup insert
  lookup-insert key asked new [] = ground arith
  lookup-insert key asked new (entry ∷ rest) = ground (arith, lookup-insert key asked new rest)

  pub lookup-erase :
      (key asked : ℕ) (d : Dict V)
      → HasNodupKeys d
      → lookup asked (erase key d) ≡ (if asked == key then none else lookup asked d)
  unfolding lookup erase
  lookup-erase key asked [] h = ground arith
  lookup-erase key asked (entry ∷ rest) h = ground (arith, lookup-erase key asked rest h.1)

  pub insert-HasNodupKeys :
      (k : ℕ) (v : V) (m : Dict V) → HasNodupKeys m → HasNodupKeys (insert k v m)
  unfolding insert lookup
  insert-HasNodupKeys k v [] h = (refl, tt)
  insert-HasNodupKeys k v ((i, w) ∷ m) h =
      ground (arith, insert-HasNodupKeys k v m h.1, lookup-insert k i v m)

  pub erase-HasNodupKeys : (k : ℕ) (m : Dict V) → HasNodupKeys m → HasNodupKeys (erase k m)
  unfolding erase
  erase-HasNodupKeys k [] h = tt
  erase-HasNodupKeys k ((i, w) ∷ m) h =
      ground (arith, erase-HasNodupKeys k m h.1, lookup-erase k i m h.1)
