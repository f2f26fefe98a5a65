-- ===== src/W96d/Coordinated/Dfu/Frames.antt =====
-- router/w96d_coordinated.py: what `on_notify` makes of a frame, against the layout of a frame under a key.
use lan_mi_home.Base.{
  ℕ, zero, suc, ◌+◌, ◌*◌, ◌/◌, ◌%◌, ◌≤◌, ◌<◌, Bool, true, false, Option, none, some, List, [], ◌∷◌,
  ◌++◌, ◌≡◌, ◌≢◌, ◌∙◌, refl, sym, ap, arith, ltb, leb, ◌==◌, length, map, drop, length-drop,
  take-append-drop, map-append, append-nil, append_assoc, All,
}
use lan_mi_home.Base.Bits.{test_bit, bit_or-low-high, bit_and-mask}
use lan_mi_home.Base.Bits.Bounds.{bit_xor-bit_xor, bit_xor-zero}
use lan_mi_home.Base.Bytes.{Bytes}
use lan_mi_home.W96d.Coordinated.Dfu.{
  crc8_shift, crc8_loop, crc8_table_value, crc8_step, crc8_run, dfu_pack, Parser, parser,
  set_result, on_byte, on_length, on_notify, on_notifies, chunks, write_chunks, dfu_request,
}
use Prim.Native.Nat.{bit_and, bit_or, bit_xor}

-- The length in two bytes, low first, then the payload.
abbrev pub contents : Bytes → Bytes
contents payload = length payload % 256 ∷ length payload / 256 ∷ payload

abbrev pub checksum : ℕ → Bytes → ℕ
checksum key payload = crc8_run 137 (0x55 ∷ key ∷ contents payload)

-- Behind its start and its key a frame is masked with the key's entry of the checksum's table.
abbrev pub encode : ℕ → Bytes → Bytes
encode key payload =
    0x55
    ∷ key
    ∷ map (λ b. bit_xor b (crc8_table_value key)) (contents payload ++ checksum key payload ∷ [])

-- A parser within a payload.
abbrev collecting : ℕ → ℕ → ℕ → Bytes → ℕ → Option Bytes → Parser
collecting key mask total rx crc result = record {
  stage = 4;
  key = key;
  mask = mask;
  frame_length = total;
  rx_payload = rx;
  crc = crc;
  result = result;
}

module _ (key mask total : ℕ) (result : Option Bytes) where
  on_byte-collecting :
      (b : ℕ) (rx : Bytes) (crc : ℕ)
      → length rx < total
      → on_byte (bit_xor b mask) (collecting key mask total rx crc result)
        ≡ collecting key mask total (rx ++ b ∷ []) (crc8_step crc b) result
  unfolding on_byte
  on_byte-collecting b rx crc h =
      let more : ltb (length rx) total ≡ true = ground arith in
      rw (bit_xor-bit_xor b mask, more) refl

  length-snoc : (rx : Bytes) (b : ℕ) → length (rx ++ b ∷ []) ≡ length rx + 1
  length-snoc [] b = refl
  length-snoc (x ∷ rx) b = omega (arith, length-snoc rx b)

  on_notify-collecting :
      (payload rx rest : Bytes) (crc : ℕ)
      → length rx + length payload ≡ total
      → on_notify
          (map (λ b. bit_xor b mask) payload ++ rest)
          (collecting key mask total rx crc result)
        ≡ on_notify rest (collecting key mask total (rx ++ payload) (crc8_run crc payload) result)
  unfolding on_notify crc8_run
  on_notify-collecting [] rx rest crc h = rw (append-nil rx) refl
  on_notify-collecting (b ∷ payload) rx rest crc h =
      ap (λ p. on_notify (map (λ x. bit_xor x mask) payload ++ rest) p)
        (on_byte-collecting b rx crc (omega arith))
      ∙ on_notify-collecting payload (rx ++ b ∷ []) rest (crc8_step crc b)
          (omega (arith, length-snoc rx b))
      ∙ ap
          (λ r.
            on_notify rest
              (collecting key mask total r (crc8_run (crc8_step crc b) payload) result))
          (append_assoc rx (b ∷ []) payload)

  on_byte-checksum :
      (rx : Bytes) (crc : ℕ)
      → length rx ≡ total
      → on_byte (bit_xor crc mask) (collecting key mask total rx crc result)
        ≡ record (collecting key mask total rx crc result) {
          result = set_result rx result;
          stage = 0;
        }
  unfolding on_byte
  on_byte-checksum rx crc h =
      let full : ltb (length rx) total ≡ false = ground arith in
      let right : (crc == crc) ≡ true = ground arith in
      rw (bit_xor-bit_xor crc mask, full, right) refl

on_byte-idle : (b : ℕ) → b ≢ 0x55 → on_byte b parser ≡ parser
unfolding on_byte
on_byte-idle b not_start = let e : (b == 0x55) ≡ false = ground arith in rw e refl

-- What is not a start leaves a waiting parser as it is.
on_notify-noise :
    (noise rest : Bytes)
    → All (λ b. b ≢ 0x55) noise
    → on_notify (noise ++ rest) parser ≡ on_notify rest parser
unfolding on_notify
on_notify-noise [] rest other = refl
on_notify-noise (b ∷ noise) rest (not_start, other) =
    ap (λ p. on_notify (noise ++ rest) p) (on_byte-idle b not_start)
    ∙ on_notify-noise noise rest other

on_notify-append :
    (xs ys : Bytes) (p : Parser) → on_notify (xs ++ ys) p ≡ on_notify ys (on_notify xs p)
unfolding on_notify
on_notify-append [] ys p = refl
on_notify-append (x ∷ xs) ys p = on_notify-append xs ys (on_byte x p)

abbrev pub joined : List Bytes → Bytes
joined [] = []
joined (n ∷ ns) = n ++ joined ns

-- How the bytes are cut into notifications does not matter.
on_notifies-joined : (ns : List Bytes) (p : Parser) → on_notifies ns p ≡ on_notify (joined ns) p
unfolding on_notifies on_notify
on_notifies-joined [] p = refl
on_notifies-joined (n ∷ ns) p =
    rw (on_notify-append n (joined ns) p) (on_notifies-joined ns (on_notify n p))

-- The four bytes before the payload.
head-collecting :
    (key : ℕ) (payload rest : Bytes)
    → 1 ≤ length payload
    → length payload ≤ 300
    → on_notify
        (0x55
          ∷ key
          ∷ bit_xor (length payload % 256) (crc8_table_value key)
          ∷ bit_xor (length payload / 256) (crc8_table_value key)
          ∷ rest)
        parser
      ≡ on_notify rest (
          collecting key
            (crc8_table_value key)
            (length payload)
            []
            (crc8_run 137 (0x55 ∷ key ∷ length payload % 256 ∷ length payload / 256 ∷ []))
            none)
unfolding on_notify on_byte on_length crc8_run
head-collecting key payload rest low high =
    let n : ℕ = length payload in
    let lo : leb 1 (length payload) ≡ true = ground arith in
    let hi : leb (length payload) 300 ≡ true = ground arith in
    let total : bit_or (n % 256) (n / 256 * 256) ≡ n =
      bit_or-low-high 8 (n / 256) (n % 256) (omega arith) ∙ omega arith in
    rw
      (
        bit_xor-bit_xor (n % 256) (crc8_table_value key),
        bit_xor-bit_xor (n / 256) (crc8_table_value key),
        total,
        lo,
        hi,
      )
      refl

on_notify-one : (b : ℕ) (p : Parser) → on_notify (b ∷ []) p ≡ on_byte b p
unfolding on_notify
on_notify-one b p = refl

-- A frame under any key is read whole, wherever it is cut and whatever stands before it.
pub on_notifies-encode :
    (key : ℕ) (payload noise : Bytes) (ns : List Bytes)
    → 1 ≤ length payload
    → length payload ≤ 300
    → All (λ b. b ≢ 0x55) noise
    → joined ns ≡ noise ++ encode key payload
    → (on_notifies ns parser).result ≡ some payload
unfolding set_result crc8_run
on_notifies-encode key payload noise ns low high other cut =
    let mask = crc8_table_value key in
    let crc = checksum key payload in
    let start = crc8_run 137 (0x55 ∷ key ∷ length payload % 256 ∷ length payload / 256 ∷ []) in
    let e1 =
      head-collecting key payload (map (λ b. bit_xor b mask) payload ++ bit_xor crc mask ∷ []) low
        high in
    let e2 =
      on_notify-collecting key mask (length payload) none payload [] (bit_xor crc mask ∷ []) start
        (omega arith) in
    let e3 = on_byte-checksum key mask (length payload) none payload crc refl in
    rw
      (
        on_notifies-joined ns parser,
        cut,
        on_notify-noise noise (encode key payload) other,
        map-append (λ b. bit_xor b mask) payload (crc ∷ []),
        e1,
        e2,
        on_notify-one,
        e3,
      )
      refl

-- The frame that `_dfu_pack` builds has the key 0, whose mask is 0.
map-bit_xor-zero : (mask : ℕ) (xs : Bytes) → mask ≡ 0 → map (λ b. bit_xor b mask) xs ≡ xs
map-bit_xor-zero mask [] zero_mask = refl
map-bit_xor-zero mask (x ∷ xs) zero_mask =
    let first : bit_xor x mask ≡ x = rw zero_mask (bit_xor-zero x) in
    ap (λ y. y ∷ map (λ b. bit_xor b mask) xs) first
    ∙ ap (λ ys. x ∷ ys) (map-bit_xor-zero mask xs zero_mask)

no_mask : crc8_table_value 0 ≡ 0
unfolding crc8_table_value crc8_loop crc8_shift test_bit
no_mask = refl

dfu_pack-encode : (payload : Bytes) → length payload ≤ 300 → dfu_pack payload ≡ encode 0 payload
unfolding dfu_pack
dfu_pack-encode payload h =
    let n : ℕ = length payload in
    let lo : bit_and n 0xFF ≡ n % 256 = bit_and-mask 8 n in
    let hi : bit_and (n / 256) 0xFF ≡ n / 256 = bit_and-mask 8 (n / 256) ∙ omega arith in
    let e =
      map-bit_xor-zero (crc8_table_value 0) (contents payload ++ checksum 0 payload ∷ []) no_mask in
    rw (lo, hi) (ap (λ r. 0x55 ∷ 0 ∷ r) (sym e))

joined-chunks :
    (size fuel : ℕ) (frame : Bytes)
    → 0 < size
    → length frame ≤ fuel
    → joined (chunks size fuel frame) ≡ frame
unfolding chunks
joined-chunks size zero [] pos h = refl
joined-chunks size zero (b ∷ frame) pos h = absurd (omega arith)
joined-chunks size (suc fuel) [] pos h = refl
joined-chunks size (suc fuel) (b ∷ frame) pos h =
    rw
      (joined-chunks size fuel (drop size (b ∷ frame)) pos
        (omega (arith, length-drop size (b ∷ frame))))
      (take-append-drop size (b ∷ frame))

-- A payload of 1 to 300 bytes, packed and cut as it is written, 197 bytes at a time, is what a new parser
-- of notifications reads back from the pieces.
pub on_notifies-dfu_pack :
    (payload : Bytes)
    → 1 ≤ length payload
    → length payload ≤ 300
    → (on_notifies (chunks 197 (length (dfu_pack payload)) (dfu_pack payload)) parser).result
      ≡ some payload
on_notifies-dfu_pack payload low high =
    let frame = dfu_pack payload in
    on_notifies-encode 0 payload [] (chunks 197 (length frame) frame) low high tt (
      joined-chunks 197 (length frame) frame (omega arith) (omega arith)
      ∙ dfu_pack-encode payload high)

module _ {D : Type 0} (connected : D → Bool) (start_notify : D → D × Bool)
    (write : Bytes → D → D × Bool) (notified : D → D × List Bytes) (stop_notify : D → D) where
  -- A request on a link that is up, sent whole and answered with a payload of 1 to 300 bytes in a frame
  -- under any key, in any number of notifications and behind bytes that start no frame, comes to that
  -- payload, and ends the notifications.
  pub dfu_request-encode :
      (request payload noise : Bytes) (key : ℕ) (ns : List Bytes) (d d1 d2 d3 : D)
      → connected d ≡ true
      → start_notify d ≡ (d1, true)
      → write_chunks connected start_notify write notified stop_notify
          (chunks 197 (length (dfu_pack request)) (dfu_pack request))
          d1
        ≡ (d2, true)
      → notified d2 ≡ (d3, ns)
      → 1 ≤ length payload
      → length payload ≤ 300
      → All (λ b. b ≢ 0x55) noise
      → joined ns ≡ noise ++ encode key payload
      → dfu_request connected start_notify write notified stop_notify request d
        ≡ (stop_notify d3, some payload)
  unfolding dfu_request
  dfu_request-encode request payload noise key ns d d1 d2 d3 up started sent came low high other
        cut =
      rw
        (
          up,
          ap (λ p. p.0) started,
          ap (λ p. p.1) started,
          ap (λ p. p.0) sent,
          ap (λ p. p.1) sent,
          ap (λ p. p.0) came,
          ap (λ p. p.1) came,
          on_notifies-encode key payload noise ns low high other cut,
        )
        refl
