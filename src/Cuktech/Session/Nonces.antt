-- ===== src/Cuktech/Session/Nonces.antt =====
-- miot.py: no nonce of `_encrypt` serves twice.
use lan_mi_home.Base.{
  ℕ, ◌+◌, ◌^◌, ◌≤◌, ◌<◌, true, Option, some, List, [], ◌∷◌, ◌++◌, ◌≡◌, ◌∙◌, refl, sym, ap, arith,
  ltb, length, take, drop, ◌>>=◌,
}
use lan_mi_home.Base.Bytes.{Bytes, from_le, to_le, from_le-to_le}
use lan_mi_home.Cuktech.Session.{Keys, Session, pack_le32, nonce, encrypt_with, encrypt}

module _ (unseal : Bytes → Bytes → Bytes → Option Bytes)
    (seal : Bytes → Bytes → Bytes → Bytes) where
  -- What a run of commands puts on the air.
  pub encrypt_all : List Bytes → Session → Option (List Bytes × Session)
  encrypt_all [] s = some ([], s)
  encrypt_all (p ∷ ps) s = do
    sent ← encrypt unseal seal p s
    others ← encrypt_all ps sent.1
    some (sent.0 ∷ others.0, others.1)

-- The plaintexts sealed one by one under the nonces of the numbers from `n` on.
pub sealed_from : (Bytes → Bytes → Bytes → Bytes) → Keys → ℕ → List Bytes → List Bytes
sealed_from seal k n [] = []
sealed_from seal k n (p ∷ ps) =
    (take 2 (to_le 4 n) ++ seal k.app_key (nonce k.app_iv (to_le 4 n)) p)
    ∷ sealed_from seal k (n + 1) ps

-- The session after that many packets.
abbrev pub sent_more : ℕ → Session → Session
sent_more n s = record s { send_it = s.send_it + n }

drop-append : (iv ys : Bytes) → drop (length iv) (iv ++ ys) ≡ ys
drop-append [] ys = refl
drop-append (x ∷ iv) ys = drop-append iv ys

nonce_injective :
    (iv : Bytes) (a b : ℕ)
    → a < 2 ^ 32
    → b < 2 ^ 32
    → nonce iv (to_le 4 a) ≡ nonce iv (to_le 4 b)
    → a ≡ b
unfolding nonce
nonce_injective iv a b ha hb e =
    let before : Bytes = iv ++ (0 ∷ 0 ∷ 0 ∷ 0 ∷ []) in
    let cut : (n : ℕ) → drop (length before) (nonce iv (to_le 4 n)) ≡ to_le 4 n =
      λ n. drop-append before (to_le 4 n) in
    let tails : to_le 4 a ≡ to_le 4 b = sym (cut a) ∙ ap (drop (length before)) e ∙ cut b in
    sym (from_le-to_le 4 a ha) ∙ ap from_le tails ∙ from_le-to_le 4 b hb

encrypt-some :
    (unseal : Bytes → Bytes → Bytes → Option Bytes) (seal : Bytes → Bytes → Bytes → Bytes)
    (k : Keys) (p : Bytes) (s : Session)
    → s.keys ≡ some k
    → s.send_it < 2 ^ 32
    → encrypt unseal seal p s
      ≡ some (
        take 2 (to_le 4 s.send_it) ++ seal k.app_key (nonce k.app_iv (to_le 4 s.send_it)) p,
        sent_more 1 s,
      )
unfolding encrypt encrypt_with pack_le32
encrypt-some unseal seal k p s keys small =
    let fits : ltb s.send_it (2 ^ 32) ≡ true = ground arith in
    ap (λ o. encrypt_with unseal seal o p s) keys ∙ rw fits

encrypt_all-sealed :
    (unseal : Bytes → Bytes → Bytes → Option Bytes) (seal : Bytes → Bytes → Bytes → Bytes)
    (k : Keys) (ps : List Bytes) (s : Session)
    → s.keys ≡ some k
    → s.send_it + length ps ≤ 2 ^ 32
    → encrypt_all unseal seal ps s ≡ some (sealed_from seal k s.send_it ps, sent_more (length ps) s)
unfolding encrypt_all sealed_from
encrypt_all-sealed unseal seal k [] s keys small =
    ap (λ n. some ([], record s { send_it = n })) (sym (omega arith))
encrypt_all-sealed unseal seal k (p ∷ ps) s keys small =
    let first = encrypt-some unseal seal k p s keys (omega arith) in
    let rest = encrypt_all-sealed unseal seal k ps (sent_more 1 s) keys (omega arith) in
    let count : s.send_it + 1 + length ps ≡ s.send_it + length (p ∷ ps) = omega arith in
    rw (first, rest) (rw count)

-- A session with keys seals any run of plaintexts while its counter fits 32 bits, each under the nonce
-- of its own number, and no two numbers have the same nonce.
pub encrypt_all_nonces :
    (unseal : Bytes → Bytes → Bytes → Option Bytes) (seal : Bytes → Bytes → Bytes → Bytes)
    (k : Keys) (ps : List Bytes) (s : Session)
    → s.keys ≡ some k
    → s.send_it + length ps ≤ 2 ^ 32
    → (encrypt_all unseal seal ps s
        ≡ some (sealed_from seal k s.send_it ps, sent_more (length ps) s))
      × ((a b : ℕ)
          → a < s.send_it + length ps
          → b < s.send_it + length ps
          → nonce k.app_iv (to_le 4 a) ≡ nonce k.app_iv (to_le 4 b)
          → a ≡ b)
encrypt_all_nonces unseal seal k ps s keys small = (
  encrypt_all-sealed unseal seal k ps s keys small,
  λ a b ha hb. nonce_injective k.app_iv a b (omega arith) (omega arith),
)
