-- ===== src/Cuktech/Manager/Desk/Fate.antt =====
-- manager.py: a request that is not answered is in the queue, or runs.
use mathlib.Core.Bool.{true≢false}
use lan_mi_home.Base.{
  ℕ, ◌<◌, Bool, true, false, not, ◌||◌, Option, none, some, List, [], ◌∷◌, ◌++◌, ◌≡◌, ◌⊎◌, refl,
  sym, ap, ◌∙◌, inl, inr, arith, ltb, ◌==◌, ==_iff, if-elim, Bool-cases,
}
use lan_mi_home.Cuktech.Manager.Desk.{
  not_authenticated, manager_stopped, Future, pending, cancelled, result, exception, Desk, opened,
  is_done, settle_future, submit, is_cancelled, take_up, begin_from, finish_of, refuse_all, Step,
  submitted, asked_to_stop, drained, begins, returns, raises, expires, advance_desk, advance_all,
}

-- Whether a request is in the queue.
abbrev pub waits_in : ℕ → List ℕ → Bool
waits_in i [] = false
waits_in i (x ∷ xs) = i == x || waits_in i xs

waits_in-snoc : (i x : ℕ) (xs : List ℕ) → waits_in i (xs ++ x ∷ []) ≡ (waits_in i xs || i == x)
waits_in-snoc i x [] = ground arith
waits_in-snoc i x (y ∷ xs) = ground (arith, waits_in-snoc i x xs)

-- A request that is not answered waits in the queue, or its operation runs.
abbrev pub IsAccounted : List ℕ → Desk → Type 0
IsAccounted queue s =
    (i : ℕ)
    → i < s.count
    → is_done (s.future_of i) ≡ false
    → (waits_in i queue ≡ true) ⊎ (s.running ≡ some i)

-- What is open after `settle_future` was open before, and is not what was settled.
settle_future-open :
    (i j : ℕ) (f : Future) (s : Desk)
    → is_done f ≡ true
    → is_done ((settle_future i f s).future_of j) ≡ false
    → ((j == i) ≡ false) × (is_done (s.future_of j) ≡ false)
unfolding settle_future
settle_future-open i j f s done h = elim (Bool-cases (j == i)) [
  | inr other ↦ (other, rw other at h)
  | inl same_one ↦
      let p = (==_iff j i).0 same_one in
      elim (Bool-cases (is_done (s.future_of i))) [
        | inl before ↦
            let after = rw (same_one, before) at h in
            absurd (true≢false (sym before ∙ ap (λ k. is_done (s.future_of k)) (sym p) ∙ after))
        | inr open_yet ↦ let after = rw (same_one, open_yet) at h in cc
      ]
]

submit-IsAccounted : (s : Desk) → IsAccounted s.queue s → IsAccounted (submit s).queue (submit s)
unfolding submit is_done
submit-IsAccounted s h =
    if-elim (λ (t : Desk). IsAccounted t.queue t) s.stopping (λ _. h)
      λ _ j lt open_yet. elim (Bool-cases (j == s.count)) [
        | inl new ↦ inl (rw (waits_in-snoc j s.count s.queue) (ground arith))
        | inr old ↦ elim (h j (ground arith) (rw old at open_yet)) [
          | inl waiting ↦ inl (rw (waits_in-snoc j s.count s.queue) (ground arith))
          | inr running ↦ inr running
        ]
      ]

-- What is open and is not the head of the queue.
skip_head :
    (i j : ℕ) (queue : List ℕ) (s : Desk)
    → IsAccounted (i ∷ queue) s
    → (j == i) ≡ false
    → j < s.count
    → is_done (s.future_of j) ≡ false
    → (waits_in j queue ≡ true) ⊎ (s.running ≡ some j)
skip_head i j queue s h other lt open_yet = elim (h j lt open_yet) [
  | inl waiting ↦ inl (rw other at waiting)
  | inr running ↦ inr running
]

is_cancelled-done : (f : Future) → is_cancelled f ≡ true → is_done f ≡ true
unfolding is_cancelled is_done
is_cancelled-done cancelled h = refl
is_cancelled-done pending h = cc
is_cancelled-done (result r) h = cc
is_cancelled-done (exception e) h = cc

-- What is done is not what is open.
open_apart :
    (i j : ℕ) (s : Desk)
    → is_done (s.future_of i) ≡ true
    → is_done (s.future_of j) ≡ false
    → (j == i) ≡ false
open_apart i j s done open_yet = elim (Bool-cases (j == i)) [
  | inr other ↦ other
  | inl same_one ↦ absurd (
      true≢false
        (sym done ∙ ap (λ k. is_done (s.future_of k)) (sym ((==_iff j i).0 same_one)) ∙ open_yet))
]

take_up-IsAccounted :
    (ready : Bool) (i : ℕ) (s : Desk)
    → s.running ≡ none
    → IsAccounted (i ∷ s.queue) s
    → let t = take_up ready i s in IsAccounted t.queue t
unfolding take_up is_cancelled is_done
take_up-IsAccounted ready i s idle h =
    if-elim (λ (t : Desk). IsAccounted t.queue t) (is_cancelled (s.future_of i))
      (λ gone j lt open_yet.
        skip_head i j s.queue s h (open_apart i j s (is_cancelled-done _ gone) open_yet) lt
          open_yet)
      λ there.
        if-elim (λ (t : Desk). IsAccounted t.queue t) (not ready)
          (λ away j lt open_yet.
            let (other, before) =
              settle_future-open i j (exception not_authenticated) s refl open_yet in
            skip_head i j s.queue s h other lt before)
          (λ here j lt open_yet. elim (h j lt open_yet) [
            | inr running ↦ let none_runs = sym idle ∙ running in cc
            | inl waiting ↦ elim (Bool-cases (j == i)) [
              | inl same_one ↦ inr (ap some (sym ((==_iff j i).0 same_one)))
              | inr other ↦ inl (rw other at waiting)
            ]
          ])

begin_from-IsAccounted :
    (ready : Bool) (running : Option ℕ) (queue : List ℕ) (s : Desk)
    → s.running ≡ running
    → s.queue ≡ queue
    → IsAccounted s.queue s
    → let t = begin_from ready running queue s in IsAccounted t.queue t
unfolding begin_from
begin_from-IsAccounted ready (some i) queue s idle e h = h
begin_from-IsAccounted ready none [] s idle e h = h
begin_from-IsAccounted ready none (i ∷ rest) s idle e h =
    take_up-IsAccounted ready i (record s { queue = rest }) idle (rw e at h)

settle_future-IsAccounted :
    (i : ℕ) (f : Future) (s : Desk)
    → is_done f ≡ true
    → IsAccounted s.queue s
    → IsAccounted s.queue (settle_future i f s)
unfolding settle_future
settle_future-IsAccounted i f s done h j lt open_yet =
    h j lt (settle_future-open i j f s done open_yet).1

finish_of-IsAccounted :
    (f : Future) (running : Option ℕ) (s : Desk)
    → is_done f ≡ true
    → s.running ≡ running
    → IsAccounted s.queue s
    → let t = finish_of f running s in IsAccounted t.queue t
unfolding finish_of
finish_of-IsAccounted f none s done e h j lt open_yet = h j lt open_yet
finish_of-IsAccounted f (some i) s done e h j lt open_yet =
    let (other, before) = settle_future-open i j f (record s { running = none }) done open_yet in
    elim (h j lt before) [
      | inl waiting ↦ inl waiting
      | inr running ↦
          let same_one : some i ≡ some j = sym e ∙ running in
          let same : i ≡ j = cc in absurd (true≢false (sym ((==_iff j i).1 (sym same)) ∙ other))
    ]

refuse_all-IsAccounted :
    (queue : List ℕ) (s : Desk)
    → IsAccounted queue s
    → IsAccounted (refuse_all queue s).queue (refuse_all queue s)
unfolding refuse_all
refuse_all-IsAccounted [] s h = h
refuse_all-IsAccounted (i ∷ rest) s h =
    refuse_all-IsAccounted rest (settle_future i (exception manager_stopped) s) λ j lt open_yet.
      let (other, before) = settle_future-open i j (exception manager_stopped) s refl open_yet in
      skip_head i j rest s h other lt before

pub advance_desk-IsAccounted :
    (e : Step) (s : Desk)
    → IsAccounted s.queue s
    → IsAccounted (advance_desk e s).queue (advance_desk e s)
unfolding advance_desk is_done
advance_desk-IsAccounted submitted s h = submit-IsAccounted s h
advance_desk-IsAccounted asked_to_stop s h = h
advance_desk-IsAccounted drained s h =
    if-elim (λ (t : Desk). IsAccounted t.queue t) s.stopping
      (λ _. refuse_all-IsAccounted s.queue s h) (λ _. h)
advance_desk-IsAccounted (begins ready) s h =
    begin_from-IsAccounted ready s.running s.queue s refl refl h
advance_desk-IsAccounted (returns r) s h = finish_of-IsAccounted (result r) s.running s refl refl h
advance_desk-IsAccounted (raises e) s h = finish_of-IsAccounted _ s.running s refl refl h
advance_desk-IsAccounted (expires i) s h =
    if-elim (λ (t : Desk). IsAccounted t.queue t) (ltb i s.count)
      (λ _. settle_future-IsAccounted i cancelled s refl h) (λ _. h)

pub advance_all-IsAccounted :
    (steps : List Step) (s : Desk)
    → IsAccounted s.queue s
    → IsAccounted (advance_all steps s).queue (advance_all steps s)
unfolding advance_all
advance_all-IsAccounted [] s h = h
advance_all-IsAccounted (e ∷ steps) s h =
    advance_all-IsAccounted steps (advance_desk e s) (advance_desk-IsAccounted e s h)

pub opened-IsAccounted : IsAccounted opened.queue opened
unfolding opened
opened-IsAccounted j lt open_yet = absurd (omega arith)
