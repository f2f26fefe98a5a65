-- ===== src/Cuktech/Miot/Answers.antt =====
-- miot.py: which answers end `get` and `set`, and what becomes of the pushes in between.
use lan_mi_home.Base.{
  ℕ, ◌+◌, ◌≤◌, ◌<◌, min, true, false, not, ◌&&◌, ◌||◌, Bool, Option, none, some, List, [], ◌∷◌,
  ◌++◌, ◌≡◌, ◌∙◌, refl, ap, arith, ltb, leb, ◌==◌, if◌then◌else◌, Bool-cases, inl, inr, All,
  append-nil, append_assoc,
}
use lan_mi_home.Base.Bytes.{Bytes}
use lan_mi_home.Cuktech.Miot.{
  MiotResult, next_seq, Turn, quiet, skipped, arrived, header, defer_push, is_of, has_opcode,
  get_loop, set_loop, set_parsed, get, set, build_tlv, result_of, extract_get_value,
  extract_push_value,
}

abbrev pub time : Turn → ℕ
time (quiet now) = now
time (skipped now) = now
time (arrived now p) = now

-- An answer to `get`.
unfoldable pub answers : ℕ → ℕ → Turn → Bool
answers siid piid (arrived now p) = has_opcode 3 (header p) && is_of siid piid (header p)
answers siid piid _ = false

-- An acknowledgement or a push of the property, either of which confirms `set`.
pub confirms : ℕ → ℕ → Turn → Bool
confirms siid piid (arrived now p) =
    is_of siid piid (header p) && (has_opcode 1 (header p) || has_opcode 4 (header p))
confirms siid piid _ = false

-- The pushes among turns, in their order.
pub pushes : List Turn → List Bytes
pushes [] = []
pushes (arrived now p ∷ turns) = if has_opcode 4 (header p) then p ∷ pushes turns else pushes turns
pushes (quiet now ∷ turns) = pushes turns
pushes (skipped now ∷ turns) = pushes turns

-- A turn before the deadline, without an answer.
abbrev pub Waits : ℕ → ℕ → ℕ → Turn → Type 0
Waits timeout siid piid turn = (time turn < timeout) × (answers siid piid turn ≡ false)

-- Whether a confirmation comes up before the deadline is found to have passed.
pub confirmed_in : ℕ → ℕ → ℕ → List Turn → Bool
unfolding confirms
confirmed_in deadline siid piid [] = false
confirmed_in deadline siid piid (turn ∷ turns) =
    confirms siid piid turn || (ltb (time turn) deadline && confirmed_in deadline siid piid turns)

set_parsed-acknowledged :
    (o : Option ℕ) (r : MiotResult) → (set_parsed o r).acknowledged ≡ r.acknowledged
unfolding set_parsed
set_parsed-acknowledged none r = refl
set_parsed-acknowledged (some v) r = refl

-- Putting a push aside changes nothing else.
defer_push-keeps :
    (h : Option (ℕ × ℕ × ℕ)) (p : Bytes) (r : MiotResult)
    → defer_push h p r ≡ record r { deferred_plaintexts = (defer_push h p r).deferred_plaintexts }
unfolding defer_push
defer_push-keeps none p r = refl
defer_push-keeps (some (opcode, _, _)) p r = elim (Bool-cases (opcode == 4)) [
  | inl e ↦ rw e refl
  | inr e ↦ rw e refl
]

-- Once acknowledged, a command is confirmed whatever follows.
set_loop-acked :
    (deadline : ℕ) (turns : List Turn) (r : MiotResult)
    → (set_loop deadline true turns r).acknowledged ≡ true
unfolding set_loop
set_loop-acked deadline [] r = refl
set_loop-acked deadline (quiet now ∷ turns) r = refl
set_loop-acked deadline (skipped now ∷ turns) r = ground (arith, set_loop-acked deadline turns r)
set_loop-acked deadline (arrived now p ∷ turns) r =
    let h = header p in
    ground (
      arith,
      set_loop-acked (min deadline (now + 1000)) turns r,
      set_loop-acked deadline turns (defer_push h p r),
      set_parsed-acknowledged (extract_push_value p)
          (record r { raw = some p; acknowledged = true }),
    )

set_loop-confirmed_in :
    (deadline : ℕ) (turns : List Turn) (r : MiotResult)
    → (set_loop deadline false turns r).acknowledged ≡ confirmed_in deadline r.siid r.piid turns
unfolding set_loop confirmed_in
set_loop-confirmed_in deadline [] r = refl
set_loop-confirmed_in deadline (quiet now ∷ turns) r =
    ground (arith, set_loop-confirmed_in deadline turns r)
set_loop-confirmed_in deadline (skipped now ∷ turns) r =
    ground (arith, set_loop-confirmed_in deadline turns r)
set_loop-confirmed_in deadline (arrived now p ∷ turns) r =
    let h = header p in
    let r' = defer_push h p r in
    let siid_kept : r'.siid ≡ r.siid = ap (λ x. x.siid) (defer_push-keeps h p r) in
    let piid_kept : r'.piid ≡ r.piid = ap (λ x. x.piid) (defer_push-keeps h p r) in
    ground (
      arith,
      set_loop-acked (min deadline (now + 1000)) turns r,
      set_loop-confirmed_in deadline turns r',
      set_parsed-acknowledged (extract_push_value p)
          (record r { raw = some p; acknowledged = true }),
    )

-- The result once an answer has come, the pushes before it put aside.
abbrev pub answered : Bytes → List Bytes → MiotResult → MiotResult
answered p before r = record r {
  value = extract_get_value p;
  raw = some p;
  acknowledged = true;
  deferred_plaintexts = r.deferred_plaintexts ++ before;
}

deferred_aside :
    (h : Option (ℕ × ℕ × ℕ)) (p : Bytes) (later : List Bytes) (r : MiotResult)
    → (defer_push h p r).deferred_plaintexts ++ later
      ≡ r.deferred_plaintexts ++ (if has_opcode 4 h then p ∷ later else later)
unfolding defer_push has_opcode
deferred_aside none p later r = refl
deferred_aside (some (opcode, _, _)) p later r = elim (Bool-cases (opcode == 4)) [
  | inl e ↦ rw e (append_assoc r.deferred_plaintexts (p ∷ []) later)
  | inr e ↦ rw e refl
]

get_loop-answered :
    (timeout : ℕ) (before after : List Turn) (now : ℕ) (p : Bytes) (r : MiotResult)
    → All (Waits timeout r.siid r.piid) before
    → answers r.siid r.piid (arrived now p) ≡ true
    → get_loop timeout (before ++ arrived now p ∷ after) r ≡ answered p (pushes before) r
unfolding get_loop answers pushes
get_loop-answered timeout [] after now p r waits e = rw (e, append-nil r.deferred_plaintexts)
get_loop-answered timeout (quiet at ∷ before) after now p r ((soon, none_yet), waits) e =
    let early : leb timeout at ≡ false = ground arith in
    rw early (get_loop-answered timeout before after now p r waits e)
get_loop-answered timeout (skipped at ∷ before) after now p r ((soon, none_yet), waits) e =
    let early : leb timeout at ≡ false = ground arith in
    rw early (get_loop-answered timeout before after now p r waits e)
get_loop-answered timeout (arrived at q ∷ before) after now p r ((soon, none_yet), waits) e =
    let early : leb timeout at ≡ false = ground arith in
    let h = header q in
    let d = (defer_push h q r).deferred_plaintexts in
    let rest =
      get_loop-answered timeout before after now p (record r { deferred_plaintexts = d }) waits e in
    rw (none_yet, early, defer_push-keeps h q r)
      (rest
        ∙ ap
            (λ l. record r {
              value = extract_get_value p;
              raw = some p;
              acknowledged = true;
              deferred_plaintexts = l;
            })
            (deferred_aside h q (pushes before) r))

-- A `get` that is answered before its time is over: the first answer for the property is the result,
-- and every push that came before it is put aside in its order.
pub get-answered :
    (seq siid piid timeout : ℕ) (channel : Bytes → Bool × List Turn) (before after : List Turn)
    (now : ℕ) (p : Bytes)
    → channel (build_tlv seq siid piid none) ≡ (true, before ++ arrived now p ∷ after)
    → 1 ≤ timeout
    → All (Waits timeout siid piid) before
    → answers siid piid (arrived now p) ≡ true
    → (get seq siid piid timeout channel).0 ≡ answered p (pushes before) (result_of siid piid none)
unfolding get
get-answered seq siid piid timeout channel before after now p heard positive waits e =
    let some_time : (timeout == 0) ≡ false = ground arith in
    rw (heard, some_time)
      (get_loop-answered timeout before after now p (result_of siid piid none) waits e)

-- A `set` of a value that does not fit 32 bits raises. Any other ends acknowledged exactly when the
-- channel took the frame and an acknowledgement or a push of the property came up in time.
pub set-acknowledged :
    (seq siid piid value timeout : ℕ) (channel : Bytes → Bool × List Turn)
    → let heard = channel (build_tlv seq siid piid (some value)) in
      (0xFFFFFFFF < value → set seq siid piid value timeout channel ≡ none)
      × (value ≤ 0xFFFFFFFF
          → (r : MiotResult) × (set seq siid piid value timeout channel
              ≡ some (r, (next_seq seq).1))
            × (r.acknowledged
                ≡ (heard.0 && ltb 0 timeout && confirmed_in timeout siid piid heard.1)))
unfolding set
set-acknowledged seq siid piid value timeout channel =
    let heard = channel (build_tlv seq siid piid (some value)) in
    let r = result_of siid piid (some value) in
    let looped = set_loop-confirmed_in timeout heard.1 r in
    (
      λ large. let e : ltb 0xFFFFFFFF value ≡ true = ground arith in rw e,
      λ fits.
          let e : ltb 0xFFFFFFFF value ≡ false = ground arith in
          (
            if not heard.0 || timeout == 0 then r else set_loop timeout false heard.1 r,
            rw e refl,
            ground (arith, looped),
          ),
    )
