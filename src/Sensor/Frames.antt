-- ===== src/Sensor/Frames.antt =====
-- router/lanmihome.py: the short encrypted advertisement of 19 bytes, which carries no address.
use lan_mi_home.Base.{
  ℕ, true, Option, some, List, [], ◌∷◌, ◌++◌, ◌≡◌, ◌∙◌, ap, arith, length, ==_iff,
}
use mathlib.Core.List.{reverse}
use lan_mi_home.Base.Bits.{test_bit}
use lan_mi_home.Base.Bytes.{Bytes}
use lan_mi_home.Sensor.{
  sensor_product_id, u16le, no_reading, Floats, decoded, key_and_mac, decode_plain,
  decode_decrypted, decode_encrypted, decode_mibeacon_sensor,
}
use lan_mi_home.Sensor.Objects.{Object, written, is_cut, apply_objects, read_objects-written}

-- Control, product, counter, seven bytes of text, three of the payload's counter, four of the tag.
abbrev pub Seven : Type 0
Seven = ℕ × ℕ × ℕ × ℕ × ℕ × ℕ × ℕ

abbrev pub text : Seven → Bytes
text (a, b, c, d, e, f, g) = a ∷ b ∷ c ∷ d ∷ e ∷ f ∷ g ∷ []

abbrev pub compact : ℕ → ℕ → ℕ → ℕ → ℕ → Seven → ℕ × ℕ × ℕ → ℕ × ℕ × ℕ × ℕ → Bytes
compact c0 c1 p0 p1 counter t (k0, k1, k2) (g0, g1, g2, g3) =
    c0 ∷ c1 ∷ p0 ∷ p1 ∷ counter ∷ (text t ++ k0 ∷ k1 ∷ k2 ∷ g0 ∷ g1 ∷ g2 ∷ g3 ∷ [])

module _ (floats : Floats) (decrypt : Bytes → Bytes → Bytes → Option Bytes) where
  -- Where the frame's bit says that it is encrypted, its product is the sensor, and the text opens under
  -- the key with the reversed address, the product, the frame's counter and the payload's counter as its
  -- nonce, to objects and at most a part of another, the frame is authenticated and its reading is that of
  -- the objects, in order.
  pub decode_mibeacon_sensor-compact :
      (c0 c1 p0 p1 counter : ℕ) (t : Seven) (k0 k1 k2 g0 g1 g2 g3 : ℕ) (key address : Bytes)
      (objects : List Object) (rest : Bytes)
      → test_bit c0 3 ≡ true
      → u16le (compact c0 c1 p0 p1 counter t (k0, k1, k2) (g0, g1, g2, g3)) 2 ≡ sensor_product_id
      → is_cut rest ≡ true
      → decrypt key
          (reverse address ++ p0 ∷ p1 ∷ counter ∷ k0 ∷ k1 ∷ k2 ∷ [])
          (text t ++ g0 ∷ g1 ∷ g2 ∷ g3 ∷ [])
        ≡ some (written objects ++ rest)
      → decode_mibeacon_sensor floats decrypt
          (compact c0 c1 p0 p1 counter t (k0, k1, k2) (g0, g1, g2, g3))
          (some key)
          (some address)
        ≡ some (
            decoded
              (compact c0 c1 p0 p1 counter t (k0, k1, k2) (g0, g1, g2, g3))
              (some address)
              true
              true
              (apply_objects floats objects no_reading))
  unfolding decode_mibeacon_sensor decode_encrypted key_and_mac decode_decrypted decode_plain
  decode_mibeacon_sensor-compact c0 c1 p0 p1 counter (a, b, c, d, e, f, g) k0 k1 k2 g0 g1 g2 g3 key
        address objects rest bit product cut opened =
      let right = (==_iff _ _).1 product in
      let frame = compact c0 c1 p0 p1 counter (a, b, c, d, e, f, g) (k0, k1, k2) (g0, g1, g2, g3) in
      rw (bit, right)
        (ap (λ o. some (decode_decrypted floats decrypt frame (some address) o)) opened
          ∙ ap (λ r. some (decoded frame (some address) true true r))
              (read_objects-written floats objects rest (length (written objects ++ rest))
                no_reading cut (omega arith)))
