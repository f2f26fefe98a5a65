-- ===== src/Appliance/Miot/Many.antt =====
-- router/lanmihome.py: `_miot_get_many` over an appliance that answers, against the values that it holds.
use mathlib.Core.Path.{subst}
use lan_mi_home.Base.{
  ℕ, zero, suc, ◌≤◌, Bool, true, false, not, ◌&&◌, Option, none, some, List, [], ◌∷◌, ◌++◌, ◌≡◌,
  ◌∙◌, refl, sym, ap, inl, inr, arith, length, take, drop, map, All, length-drop, take-append-drop,
  append-nil, append_assoc, if◌then◌else◌, Bool-cases, Option-cases,
}
use lan_mi_home.Base.Bytes.{same, same_iff}
use lan_mi_home.Base.Text.{Text, Table, word, find, assign}
use lan_mi_home.Sp651e.{ok}
use lan_mi_home.Appliance.Values.{Json, text, ℤ, Float}
use lan_mi_home.Appliance.Actions.{bind-ok}
use lan_mi_home.Appliance.Miot.{
  Ident, Device, miot_items, item_ok, is_did, by_did, take_value, collect, get_chunks, get_many,
}

-- What an item says of the value.
abbrev pub read_item : Table Json → Option Json
read_item item = if item_ok item then find (word "value") item else none

-- The entries that have a value, under their keys.
unfoldable pub known : (Ident → Option Json) → List (Text × Ident) → Table Json
known held [] = []
known held ((key, ident) ∷ mapping) = elim (held ident) [
  | none ↦ known held mapping
  | some v ↦ (key, v) ∷ known held mapping
]

-- No key is listed twice.
abbrev pub HasNodupKeys : List (Text × Ident) → Type 0
HasNodupKeys [] = Unit
HasNodupKeys ((key, _) ∷ rest) =
    All (λ (e : Text × Ident). same e.0 key ≡ false) rest × HasNodupKeys rest

-- The same as tests.
lacks : Text → List (Text × Ident) → Bool
unfolding same
lacks key [] = true
lacks key ((k, _) ∷ rest) = not (same k key) && lacks key rest

unfoldable pub nodup_keys : List (Text × Ident) → Bool
unfolding lacks
nodup_keys [] = true
nodup_keys ((key, _) ∷ rest) = lacks key rest && nodup_keys rest

lacks-All :
    (key : Text) (mapping : List (Text × Ident))
    → lacks key mapping ≡ true
    → All (λ (e : Text × Ident). same e.0 key ≡ false) mapping
unfolding lacks
lacks-All key [] h = tt
lacks-All key ((k, ident) ∷ mapping) h = (ground arith, lacks-All key mapping (ground arith))

pub nodup_keys_sound :
    (mapping : List (Text × Ident)) → nodup_keys mapping ≡ true → HasNodupKeys mapping
unfolding nodup_keys
nodup_keys_sound [] h = tt
nodup_keys_sound ((key, ident) ∷ mapping) h =
    (lacks-All key mapping (ground arith), nodup_keys_sound mapping (ground arith))

-- The replies of an appliance: each is filed under its key, and says what is held.
abbrev pub Replies : (Text × Ident → Table Json) → (Ident → Option Json) → Type 0
Replies reply held =
    (key : Text) (ident : Ident)
    → ((n : Option ℤ) × (x : Option Float) × (find (word "did") (reply (key, ident))
          ≡ some (text key n x)))
      × (read_item (reply (key, ident)) ≡ held ident)

-- An appliance that answers requests of at most ten properties, and stays as it is.
abbrev pub Answers : {D : Type 0} → Device D → D → (Ident → Option Json) → Type 0
Answers device d held =
    (reply : Text × Ident → Table Json) × Replies reply held
    × ((requests : List (Text × Ident))
        → length requests ≤ 10
        → (response : Json) × (device.get_properties requests d ≡ (d, ok response))
          × (miot_items response ≡ map reply requests))

same_refl : (k : Text) → same k k ≡ true
same_refl k = (same_iff k k).1 refl

same_flip : (j k : Text) → same j k ≡ false → same k j ≡ false
same_flip j k e = elim (Bool-cases (same k j)) [
  | inr no_match ↦ no_match
  | inl hit ↦
      let p = (same_iff k j).0 hit in let flipped : same j k ≡ true = (same_iff j k).1 (sym p) in cc
]

abbrev IsFresh : List (Text × Ident) → Table Json → Type 0
IsFresh mapping out = All (λ (e : Text × Ident). find e.0 out ≡ none) mapping

assign-fresh :
    (key : Text) (v : Json) (out : Table Json)
    → find key out ≡ none
    → assign key v out ≡ out ++ (key, v) ∷ []
unfolding find assign
assign-fresh key v [] h = refl
assign-fresh key v ((j, w) ∷ out) h = elim (Bool-cases (same j key)) [
  | inl hit ↦ let bad = rw hit at h in cc
  | inr miss ↦ rw miss (ap (λ r. (j, w) ∷ r) (assign-fresh key v out (rw miss at h)))
]

find-snoc :
    (asked key : Text) (v : Json) (out : Table Json)
    → same asked key ≡ false
    → find asked out ≡ none
    → find asked (out ++ (key, v) ∷ []) ≡ none
unfolding find
find-snoc asked key v [] apart h = rw (same_flip asked key apart)
find-snoc asked key v ((j, w) ∷ out) apart h = elim (Bool-cases (same j asked)) [
  | inl hit ↦ let bad = rw hit at h in cc
  | inr miss ↦ rw miss (find-snoc asked key v out apart (rw miss at h))
]

-- A new entry leaves the other keys fresh.
snoc-IsFresh :
    (key : Text) (v : Json) (mapping : List (Text × Ident)) (out : Table Json)
    → All (λ (e : Text × Ident). same e.0 key ≡ false) mapping
    → IsFresh mapping out
    → IsFresh mapping (out ++ (key, v) ∷ [])
snoc-IsFresh key v [] out a h = tt
snoc-IsFresh key v (e ∷ mapping) out a h =
    (find-snoc e.0 key v out a.0 h.0, snoc-IsFresh key v mapping out a.1 h.1)

known-append :
    (held : Ident → Option Json) (xs ys : List (Text × Ident))
    → known held (xs ++ ys) ≡ known held xs ++ known held ys
unfolding known
known-append held [] ys = refl
known-append held ((key, ident) ∷ xs) ys = elim (Option-cases (held ident)) [
  | inl e ↦ rw (e, known) (known-append held xs ys)
  | inr (v, e) ↦ rw (e, known) (ap (λ r. (key, v) ∷ r) (known-append held xs ys))
]

All-append-left :
    (P : Text × Ident → Type 0) (xs ys : List (Text × Ident)) → All P (xs ++ ys) → All P xs
All-append-left P [] ys h = tt
All-append-left P (x ∷ xs) ys h = (h.0, All-append-left P xs ys h.1)

-- The keys of a second part are fresh after the values of the first.
known-IsFresh :
    (held : Ident → Option Json) (xs ys : List (Text × Ident)) (out : Table Json)
    → HasNodupKeys (xs ++ ys)
    → IsFresh (xs ++ ys) out
    → IsFresh ys (out ++ known held xs)
unfolding known
known-IsFresh held [] ys out nd h = rw append-nil h
known-IsFresh held ((key, ident) ∷ xs) ys out nd h = elim (Option-cases (held ident)) [
  | inl e ↦ rw (e, known) (known-IsFresh held xs ys out nd.1 h.1)
  | inr (v, e) ↦
      rw (e, known, ← append_assoc out ((key, v) ∷ []) (known held xs))
        (known-IsFresh held xs ys (out ++ (key, v) ∷ []) nd.1
          (snoc-IsFresh key v (xs ++ ys) out nd.0 h.1))
]

-- Each request finds its own reply.
abbrev Finds : (Text × Ident → Table Json) → List (Table Json) → List (Text × Ident) → Type 0
Finds reply items mapping = All (λ (e : Text × Ident). by_did e.0 items ≡ some (reply e)) mapping

later-Finds :
    (reply : Text × Ident → Table Json) (item : Table Json) (items : List (Table Json))
    (mapping : List (Text × Ident))
    → Finds reply items mapping
    → Finds reply (item ∷ items) mapping
unfolding by_did
later-Finds reply item items [] h = tt
later-Finds reply item items (e ∷ mapping) h = (rw (h.0), later-Finds reply item items mapping h.1)

-- `out` with a value, if there is one.
abbrev with_value : Text → Option Json → Table Json → Table Json
with_value key none out = out
with_value key (some v) out = out ++ (key, v) ∷ []

take_value-with_value :
    (key : Text) (item : Table Json) (out : Table Json)
    → find key out ≡ none
    → take_value key (some item) out ≡ with_value key (read_item item) out
unfolding take_value
take_value-with_value key item out h = elim (Bool-cases (item_ok item)) [
  | inr bad ↦ rw bad
  | inl good ↦ elim (Option-cases (find (word "value") item)) [
    | inl e ↦ rw (good, e)
    | inr (v, e) ↦ rw (good, e) (assign-fresh key v out h)
  ]
]

module _ (reply : Text × Ident → Table Json) (held : Ident → Option Json)
    (replies : Replies reply held) where
  by_did-none :
      (key : Text) (mapping : List (Text × Ident))
      → All (λ (e : Text × Ident). same e.0 key ≡ false) mapping
      → by_did key (map reply mapping) ≡ none
  unfolding by_did is_did
  by_did-none key [] a = refl
  by_did-none key ((k, ident) ∷ mapping) a =
      let (n, x, filed) = (replies k ident).0 in rw (by_did-none key mapping a.1, filed, a.0)

  reply-Finds :
      (mapping : List (Text × Ident))
      → HasNodupKeys mapping
      → Finds reply (map reply mapping) mapping
  unfolding by_did is_did
  reply-Finds [] nd = tt
  reply-Finds ((key, ident) ∷ mapping) nd =
      let (n, x, filed) = (replies key ident).0 in
      (
        rw (by_did-none key mapping nd.0, filed, same_refl key),
        later-Finds reply (reply (key, ident)) (map reply mapping) mapping
            (reply-Finds mapping nd.1),
      )

  -- A chunk, over items in which each request finds its reply.
  collect-known :
      (items : List (Table Json)) (mapping : List (Text × Ident)) (out : Table Json)
      → Finds reply items mapping
      → HasNodupKeys mapping
      → IsFresh mapping out
      → collect mapping items out ≡ out ++ known held mapping
  unfolding collect known
  collect-known items [] out f nd h = sym (append-nil out)
  collect-known items ((key, ident) ∷ mapping) out f nd h =
      rw (f.0, take_value-with_value key (reply (key, ident)) out h.0, (replies key ident).1)
        (elim (Option-cases (held ident)) [
          | inl e ↦ rw (e, known) (collect-known items mapping out f.1 nd.1 h.1)
          | inr (v, e) ↦
              rw (e, known, ← append_assoc out ((key, v) ∷ []) (known held mapping))
                (collect-known items mapping (out ++ (key, v) ∷ []) f.1 nd.1
                  (snoc-IsFresh key v mapping out nd.0 h.1))
        ])

HasNodupKeys-append :
    (xs ys : List (Text × Ident)) → HasNodupKeys (xs ++ ys) → HasNodupKeys xs × HasNodupKeys ys
HasNodupKeys-append [] ys h = (tt, h)
HasNodupKeys-append (x ∷ xs) ys h =
    let (left, right) = HasNodupKeys-append xs ys h.1 in
    ((All-append-left _ xs ys h.0, left), right)

length-take-le : {A : Type 0} (n : ℕ) (xs : List A) → length (take n xs) ≤ n
length-take-le zero xs = omega arith
length-take-le (suc n) [] = omega arith
length-take-le (suc n) (x ∷ xs) = omega (arith, length-take-le n xs)

nil-IsFresh : (mapping : List (Text × Ident)) → IsFresh mapping []
unfolding find
nil-IsFresh [] = tt
nil-IsFresh (e ∷ mapping) = (refl, nil-IsFresh mapping)

module _ {D : Type 0} (device : Device D) (d : D) (held : Ident → Option Json) where
  get_chunks-known :
      (fuel : ℕ) (mapping : List (Text × Ident)) (out : Table Json)
      → Answers device d held
      → length mapping ≤ fuel
      → HasNodupKeys mapping
      → IsFresh mapping out
      → get_chunks device fuel mapping out d ≡ (d, ok (out ++ known held mapping))
  unfolding get_chunks known
  get_chunks-known zero [] out a enough nd h = ap (λ r. (d, ok r)) (sym (append-nil out))
  get_chunks-known zero (_ ∷ _) out a enough nd h = absurd (omega arith)
  get_chunks-known (suc fuel) [] out a enough nd h = ap (λ r. (d, ok r)) (sym (append-nil out))
  get_chunks-known (suc fuel) (entry ∷ rest) out (reply, replies, answers) enough nd h =
      let xs : List (Text × Ident) = take 10 (entry ∷ rest) in
      let ys : List (Text × Ident) = drop 10 (entry ∷ rest) in
      let whole : xs ++ ys ≡ entry ∷ rest = take-append-drop 10 (entry ∷ rest) in
      let apart : HasNodupKeys (xs ++ ys) = subst HasNodupKeys (sym whole) nd in
      let fresh : IsFresh (xs ++ ys) out = subst (λ m. IsFresh m out) (sym whole) h in
      let (left, right) = HasNodupKeys-append xs ys apart in
      let (response, answered, items) = answers xs (length-take-le 10 (entry ∷ rest)) in
      let collected : collect xs (miot_items response) out ≡ out ++ known held xs = rw items (
        collect-known reply held replies (map reply xs) xs out
          (reply-Finds reply held replies xs left) left (All-append-left _ xs ys fresh)) in
      let tail =
        get_chunks-known fuel ys (out ++ known held xs) (reply, replies, answers)
          (omega (arith, length-drop 10 (entry ∷ rest))) right
          (known-IsFresh held xs ys out apart fresh) in
      let joined : (out ++ known held xs) ++ known held ys ≡ out ++ known held (entry ∷ rest) =
        append_assoc out (known held xs) (known held ys)
        ∙ ap (λ r. out ++ r) (sym (known-append held xs ys) ∙ ap (known held) whole) in
      bind-ok (device.get_properties xs) _ answered
      ∙ ap (λ o. get_chunks device fuel ys o d) collected
      ∙ tail
      ∙ ap (λ r. (d, ok r)) joined

  -- An appliance that answers every request gives `_miot_get_many` the values that it holds, each under
  -- its key and in the order of the mapping; what has no value is left out. The requests are of ten
  -- properties at most.
  pub get_many-known :
      (mapping : List (Text × Ident))
      → Answers device d held
      → HasNodupKeys mapping
      → get_many device mapping d ≡ (d, ok (known held mapping))
  unfolding get_many
  get_many-known mapping a nd =
      get_chunks-known (length mapping) mapping [] a (omega arith) nd (nil-IsFresh mapping)
