-- ===== src/Cuktech/Miot/Tests.antt =====
-- Commands over a channel whose answers are known.
use lan_mi_home.Base.{
  All, ◌≤◌, ◌<◌, Bool, true, ◌&&◌, none, some, List, [], ◌∷◌, ◌++◌, ◌≡◌, refl, arith, ltb,
}
use lan_mi_home.Base.Bytes.{Bytes}
use lan_mi_home.Cuktech.Miot.{
  MiotResult, next_seq, Turn, skipped, arrived, header, is_of, has_opcode, get, set, build_tlv,
  result_of,
}
use lan_mi_home.Cuktech.Miot.Answers.{
  answers, pushes, Waits, confirmed_in, answered, get-answered, set-acknowledged,
}

-- A push of port 1 in between, then the reply: property 2.17 has the value 42.
abbrev push : Bytes
push = 12 ∷ 0x20 ∷ 1 ∷ 0 ∷ 4 ∷ 1 ∷ 2 ∷ 1 ∷ 0 ∷ 1 ∷ 0x10 ∷ 1 ∷ []

abbrev reply : Bytes
reply = 14 ∷ 0x20 ∷ 9 ∷ 0 ∷ 3 ∷ 1 ∷ 2 ∷ 17 ∷ 0 ∷ 0 ∷ 0 ∷ 1 ∷ 0x10 ∷ 42 ∷ []

abbrev channel : Bytes → Bool × List Turn
channel frame = (true, (skipped 50 ∷ arrived 90 push ∷ []) ++ arrived 200 reply ∷ [])

nothing_yet : All (Waits 8000 2 17) (skipped 50 ∷ arrived 90 push ∷ [])
unfolding answers header has_opcode is_of
nothing_yet = ((omega arith, refl), ((omega arith, refl), tt))

answer_found : answers 2 17 (arrived 200 reply) ≡ true
unfolding answers header has_opcode is_of
answer_found = refl

get-answered_example :
    (get 9 2 17 8000 channel).0
    ≡ answered reply (pushes (skipped 50 ∷ arrived 90 push ∷ [])) (result_of 2 17 none)
get-answered_example =
    get-answered 9 2 17 8000 channel (skipped 50 ∷ arrived 90 push ∷ []) [] 200 reply refl
      (omega arith) nothing_yet answer_found

set-acknowledged_example :
    (0xFFFFFFFF < 7 → set 9 2 17 7 8000 channel ≡ none)
    × (7 ≤ 0xFFFFFFFF
        → (r : MiotResult) × (set 9 2 17 7 8000 channel ≡ some (r, (next_seq 9).1))
          × (r.acknowledged ≡ (
              (channel (build_tlv 9 2 17 (some 7))).0
              && ltb 0 8000
              && confirmed_in 8000 2 17 (channel (build_tlv 9 2 17 (some 7))).1)))
set-acknowledged_example = set-acknowledged 9 2 17 7 8000 channel
