-- ===== src/Cuktech/Session/Tests.antt =====
-- A toy cipher that appends four bytes, with sessions over it.
use lan_mi_home.Base.{
  ℕ, ◌+◌, ◌≤◌, ◌<◌, Option, none, some, List, [], ◌∷◌, ◌++◌, ◌≡◌, refl, arith, length,
}
use lan_mi_home.Base.Bytes.{Bytes, to_le}
use lan_mi_home.Cuktech.Session.{Keys, login, nonce}
use lan_mi_home.Cuktech.Session.Counter.{
  Follows, decrypt_all, packets, plaintexts, decrypt_all-packets,
}
use lan_mi_home.Cuktech.Session.Nonces.{encrypt_all, sealed_from, sent_more, encrypt_all_nonces}

-- The tag is the four bytes of the length.
seal : Bytes → Bytes → Bytes → Bytes
seal key n p = to_le 4 (length p) ++ p

drop_tag : Bytes → Option Bytes
drop_tag (_ ∷ _ ∷ _ ∷ _ ∷ p) = some p
drop_tag _ = none

unseal : Bytes → Bytes → Bytes → Option Bytes
unfolding drop_tag
unseal key n c = drop_tag c

unseal-seal : (key n p : Bytes) → unseal key n (seal key n p) ≡ some p
unfolding unseal seal to_le
unseal-seal key n p = refl

seal_tagged : (key n p : Bytes) → 4 ≤ length (seal key n p)
unfolding seal to_le
seal_tagged key n p = omega arith

abbrev keys : Keys
keys = record { dev_key = 1 ∷ []; app_key = 2 ∷ []; dev_iv = 3 ∷ []; app_iv = 4 ∷ [] }

logged_in : (login keys).keys ≡ some keys
unfolding login
logged_in = refl

-- The third packet is beyond the first 2 ** 16.
abbrev sent : List (ℕ × Bytes)
sent = (5, 7 ∷ []) ∷ (32000, 8 ∷ 9 ∷ []) ∷ (64700, []) ∷ (65600, 7 ∷ []) ∷ []

follows : Follows 0 sent
follows =
    let last : Follows 64700 ((65600, 7 ∷ []) ∷ []) = (omega arith, omega arith, omega arith, tt) in
    let third : Follows 32000 ((64700, []) ∷ (65600, 7 ∷ []) ∷ []) =
      (omega arith, omega arith, omega arith, last) in
    (omega arith, omega arith, omega arith, (omega arith, omega arith, omega arith, third))

decrypt_all-packets_example :
    (decrypt_all unseal seal (packets seal keys sent) (login keys)).1 ≡ plaintexts sent
unfolding login
decrypt_all-packets_example =
    decrypt_all-packets unseal seal unseal-seal seal_tagged keys 0 sent (login keys)
      (refl, refl, omega arith) follows

encrypt_all_nonces_example :
    (encrypt_all unseal seal ((7 ∷ []) ∷ (8 ∷ []) ∷ []) (login keys)
      ≡ some (
        sealed_from seal keys (login keys).send_it ((7 ∷ []) ∷ (8 ∷ []) ∷ []),
        sent_more 2 (login keys),
      ))
    × ((a b : ℕ)
        → a < (login keys).send_it + 2
        → b < (login keys).send_it + 2
        → nonce keys.app_iv (to_le 4 a) ≡ nonce keys.app_iv (to_le 4 b)
        → a ≡ b)
unfolding login
encrypt_all_nonces_example =
    encrypt_all_nonces unseal seal keys ((7 ∷ []) ∷ (8 ∷ []) ∷ []) (login keys) refl (omega arith)
