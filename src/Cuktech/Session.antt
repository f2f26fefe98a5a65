-- ===== src/Cuktech/Session.antt =====
-- session.py: the counters of an authenticated session, with the packets that they seal. AES-CCM is a
-- parameter; a session holds what `authenticate` leaves. `none` for an error of `struct.pack`, or for
-- keys that are missing.
mod Tests
pub mod Counter
pub mod Nonces
use lan_mi_home.Base.{
  ℕ, ◌+◌, ◌-◌, ◌^◌, Bool, true, false, not, ◌&&◌, ◌||◌, Option, none, some, List, [], ◌∷◌, ◌++◌,
  ltb, if◌then◌else◌, length, take, drop, bit_or, ◌>>=◌,
}
use lan_mi_home.Base.Bits.{◌<<<◌}
use lan_mi_home.Base.Bytes.{Bytes, from_le, to_le}

pub record Keys : Type 0 where
  pub dev_key : Bytes
  pub app_key : Bytes
  pub dev_iv : Bytes
  pub app_iv : Bytes

pub record Session : Type 0 where
  pub keys : Option Keys
  pub authenticated : Bool
  pub send_it : ℕ
  pub dev_it_hi : ℕ
  pub last_dev_it_lo : ℕ

-- The end of `authenticate`, with the keys that it derived.
pub login : Keys → Session
login keys = record {
  keys = some keys;
  authenticated = true;
  send_it = 0;
  dev_it_hi = 0;
  last_dev_it_lo = 0;
}

-- struct.pack("<I", n), which raises from 2 ** 32 on
unfoldable pub pack_le32 : ℕ → Option Bytes
pack_le32 n = if ltb n (2 ^ 32) then some (to_le 4 n) else none

-- iv + four zero bytes + the counter
unfoldable pub nonce : Bytes → Bytes → Bytes
nonce iv it_bytes = iv ++ (0 ∷ 0 ∷ 0 ∷ 0 ∷ []) ++ it_bytes

-- The counter moves to a new low half.
unfoldable pub advance : ℕ → Session → Session
advance it_lo s = record s {
  dev_it_hi =
      if ltb it_lo s.last_dev_it_lo && ltb 32768 (s.last_dev_it_lo - it_lo)
      then s.dev_it_hi + 1
      else s.dev_it_hi;
  last_dev_it_lo = it_lo;
}

-- AESCCM(key, tag_length=4).decrypt(nonce, data, None), `none` where it raises, and .encrypt
module _ (unseal : Bytes → Bytes → Bytes → Option Bytes)
    (seal : Bytes → Bytes → Bytes → Bytes) where
  -- The packet opened with the counter of the session.
  unfoldable pub unseal_at : Keys → Session → Bytes → Option (Option Bytes)
  unseal_at k s sealed = do
    it_bytes ← pack_le32 (bit_or (s.dev_it_hi <<< 16) s.last_dev_it_lo)
    some (unseal k.dev_key (nonce k.dev_iv it_bytes) sealed)

  -- The counter moves before the packet is known to be genuine.
  unfoldable pub decrypt_with : Option Keys → Bytes → Session → Session × Option (Option Bytes)
  decrypt_with none d s = (s, some none)
  decrypt_with (some k) d s =
      if ltb (length d) 6
      then (s, some none)
      else (let s' = advance (from_le (take 2 d)) s in (s', unseal_at k s' (drop 2 d)))

  unfoldable pub decrypt : Bytes → Session → Session × Option (Option Bytes)
  decrypt d s = decrypt_with s.keys d s

  unfoldable pub encrypt_with : Option Keys → Bytes → Session → Option (Bytes × Session)
  encrypt_with none plaintext s = none
  encrypt_with (some k) plaintext s = do
    it_bytes ← pack_le32 s.send_it
    let ciphertext = seal k.app_key (nonce k.app_iv it_bytes) plaintext
    some (take 2 it_bytes ++ ciphertext, record s { send_it = s.send_it + 1 })

  -- miot.py: `_encrypt`
  unfoldable pub encrypt : Bytes → Session → Option (Bytes × Session)
  encrypt plaintext s = encrypt_with s.keys plaintext s
