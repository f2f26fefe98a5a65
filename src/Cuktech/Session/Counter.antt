-- ===== src/Cuktech/Session/Counter.antt =====
-- session.py: the counter of `decrypt` follows the counter of the charger.
use lan_mi_home.Base.{
  ℕ, ◌+◌, ◌*◌, ◌%◌, ◌^◌, ◌≤◌, ◌<◌, true, false, Option, some, List, [], ◌∷◌, ◌++◌, ◌≡◌, ◌∙◌, refl,
  ap, arith, ltb, length, take, bit_or,
}
use lan_mi_home.Base.Bits.{◌<<<◌, bit_or-high-low}
use lan_mi_home.Base.Bytes.{Bytes, from_le, to_le, from_le-to_le}
use lan_mi_home.Cuktech.Session.{
  Keys, Session, pack_le32, nonce, advance, unseal_at, decrypt_with, decrypt,
}

-- The whole counter, of which a packet carries the low half.
abbrev pub counter : Session → ℕ
counter s = s.dev_it_hi * 2 ^ 16 + s.last_dev_it_lo

-- A session that has followed the charger to a counter.
abbrev pub IsAt : Keys → ℕ → Session → Type 0
IsAt k n s = (s.keys ≡ some k) × (counter s ≡ n) × (s.last_dev_it_lo < 2 ^ 16)

-- Less than 32768 packets later, the counter is found again from its low half.
advance-IsAt :
    (k : Keys) (n m : ℕ) (s : Session)
    → IsAt k n s
    → n ≤ m
    → m < n + 32768
    → IsAt k m (advance (m % 2 ^ 16) s)
unfolding advance
advance-IsAt k n m s (keys, at, lo) from to = (keys, ground arith, omega arith)

-- What the charger sends under a counter: its low half, then the sealed plaintext.
abbrev pub packet : (Bytes → Bytes → Bytes → Bytes) → Keys → ℕ → Bytes → Bytes
packet seal k n plaintext =
    to_le 2 (n % 2 ^ 16) ++ seal k.dev_key (nonce k.dev_iv (to_le 4 n)) plaintext

module _ (unseal : Bytes → Bytes → Bytes → Option Bytes)
    (seal : Bytes → Bytes → Bytes → Bytes) where
  -- What a loop over `decrypt` finds in a list of packets.
  pub decrypt_all : List Bytes → Session → Session × List (Option (Option Bytes))
  decrypt_all [] s = (s, [])
  decrypt_all (d ∷ ds) s =
      let (s', p) = decrypt unseal seal d s in let (s'', ps) = decrypt_all ds s' in (s'', p ∷ ps)

pub packets : (Bytes → Bytes → Bytes → Bytes) → Keys → List (ℕ × Bytes) → List Bytes
packets seal k [] = []
packets seal k ((n, p) ∷ sent) = packet seal k n p ∷ packets seal k sent

-- Counters that grow by less than 32768 at a time, and fit 32 bits.
abbrev pub Follows : ℕ → List (ℕ × Bytes) → Type 0
Follows n [] = Unit
Follows n ((m, _) ∷ sent) = (n ≤ m) × (m < n + 32768) × (m < 2 ^ 32) × Follows m sent

pub plaintexts : List (ℕ × Bytes) → List (Option (Option Bytes))
plaintexts [] = []
plaintexts ((_, p) ∷ sent) = some (some p) ∷ plaintexts sent

counter_bytes :
    (m : ℕ) (s : Session)
    → counter s ≡ m
    → s.last_dev_it_lo < 2 ^ 16
    → m < 2 ^ 32
    → pack_le32 (bit_or (s.dev_it_hi <<< 16) s.last_dev_it_lo) ≡ some (to_le 4 m)
unfolding pack_le32
counter_bytes m s at lo small =
    let whole : bit_or (s.dev_it_hi <<< 16) s.last_dev_it_lo ≡ m =
      bit_or-high-low 16 s.dev_it_hi s.last_dev_it_lo lo ∙ at in
    let fits : ltb m (2 ^ 32) ≡ true = ground arith in rw (whole, fits)

-- With keys, a packet of six bytes or more moves the counter to its low half and is opened there.
decrypt_with-some :
    (unseal : Bytes → Bytes → Bytes → Option Bytes) (seal : Bytes → Bytes → Bytes → Bytes)
    (k : Keys) (lo : ℕ) (sealed : Bytes) (s : Session)
    → lo < 2 ^ 16
    → 4 ≤ length sealed
    → decrypt_with unseal seal (some k) (to_le 2 lo ++ sealed) s
      ≡ (advance lo s, unseal_at unseal seal k (advance lo s) sealed)
unfolding decrypt_with to_le
decrypt_with-some unseal seal k lo sealed s small tagged =
    let long : ltb (length (to_le 2 lo ++ sealed)) 6 ≡ false = ground arith in
    let read : from_le (take 2 (to_le 2 lo ++ sealed)) ≡ lo = from_le-to_le 2 lo small in
    rw (long, read)

module _ (unseal : Bytes → Bytes → Bytes → Option Bytes) (seal : Bytes → Bytes → Bytes → Bytes)
    (opens : (key n p : Bytes) → unseal key n (seal key n p) ≡ some p)
    (tagged : (key n p : Bytes) → 4 ≤ length (seal key n p)) where
  unseal_at-sealed :
      (k : Keys) (m : ℕ) (p : Bytes) (s : Session)
      → IsAt k m s
      → m < 2 ^ 32
      → unseal_at unseal seal k s (seal k.dev_key (nonce k.dev_iv (to_le 4 m)) p) ≡ some (some p)
  unfolding unseal_at
  unseal_at-sealed k m p s (_, at, lo) small =
      rw (counter_bytes m s at lo small, opens k.dev_key (nonce k.dev_iv (to_le 4 m)) p)

  decrypt-packet :
      (k : Keys) (n m : ℕ) (p : Bytes) (s : Session)
      → IsAt k n s
      → n ≤ m
      → m < n + 32768
      → m < 2 ^ 32
      → (decrypt unseal seal (packet seal k m p) s ≡ (advance (m % 2 ^ 16) s, some (some p)))
        × IsAt k m (advance (m % 2 ^ 16) s)
  unfolding decrypt
  decrypt-packet k n m p s at from to small =
      let at' = advance-IsAt k n m s at from to in
      let sealed = seal k.dev_key (nonce k.dev_iv (to_le 4 m)) p in
      let opened =
        decrypt_with-some (unseal) (seal) k (m % 2 ^ 16) sealed s (omega arith)
          (tagged k.dev_key (nonce k.dev_iv (to_le 4 m)) p) in
      let found = unseal_at-sealed k m p (advance (m % 2 ^ 16) s) at' small in
      (
        ap (λ o. decrypt_with unseal seal o (packet seal k m p) s) at.0
            ∙ opened
            ∙ ap (λ o. (advance (m % 2 ^ 16) s, o)) found,
        at',
      )

  -- A charger that seals its plaintexts under counters that grow by less than 32768 at a time is
  -- understood: a session that has followed it so far finds every plaintext.
  pub decrypt_all-packets :
      (k : Keys) (n : ℕ) (sent : List (ℕ × Bytes)) (s : Session)
      → IsAt k n s
      → Follows n sent
      → (decrypt_all unseal seal (packets seal k sent) s).1 ≡ plaintexts sent
  unfolding decrypt_all packets plaintexts
  decrypt_all-packets k n [] s at follows = refl
  decrypt_all-packets k n ((m, p) ∷ sent) s at (from, to, small, follows) =
      let (opened, at') = decrypt-packet k n m p s at from to small in
      let rest = decrypt_all-packets k m sent (advance (m % 2 ^ 16) s) at' follows in
      rw (opened, rest)
