-- ===== src/W96d/Coordinated/Dfu/Tests.antt =====
-- A fan that tells its version under the key 9, in two notifications.
use lan_mi_home.Base.{ℕ, ◌+◌, Bool, true, some, List, [], ◌∷◌, ◌≡◌, refl, arith, length}
use lan_mi_home.Base.Bytes.{Bytes}
use lan_mi_home.W96d.Coordinated.Dfu.{
  parser, dfu_pack, chunks, on_notifies, write_chunks, firmware_of,
}
use lan_mi_home.W96d.Coordinated.Dfu.Frames.{encode, on_notifies-dfu_pack}

abbrev question : Bytes
question = 0x8A ∷ []

abbrev version_answer : Bytes
version_answer = 4 ∷ 23 ∷ []

abbrev notifications : List Bytes
notifications = (7 ∷ []) ∷ encode 9 version_answer ∷ []

abbrev connected : ℕ → Bool
connected d = true

abbrev start : ℕ → ℕ × Bool
start d = (d, true)

-- The fan counts the writes.
abbrev write : Bytes → ℕ → ℕ × Bool
write c d = (d + 1, true)

abbrev notified : ℕ → ℕ × List Bytes
notified d = (d, notifications)

abbrev stop : ℕ → ℕ
stop d = d

sent :
    write_chunks connected start write notified stop
      (chunks 197 (length (dfu_pack question)) (dfu_pack question))
      0
    ≡ (1, true)
unfolding write_chunks chunks dfu_pack
sent = refl

on_notifies-dfu_pack_example :
    (on_notifies (chunks 197 (length (dfu_pack question)) (dfu_pack question)) parser).result
    ≡ some question
on_notifies-dfu_pack_example = on_notifies-dfu_pack question (omega arith) (omega arith)

version : firmware_of (some version_answer) ≡ some (2, 3)
unfolding firmware_of
version = refl
