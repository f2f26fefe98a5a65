-- ===== src/Cuktech/Manager/Desk/Stop.antt =====
-- manager.py: what `stop` leaves.
use mathlib.Core.Bool.{true≢false}
use lan_mi_home.Base.{
  ℕ, ◌<◌, Bool, true, Option, none, some, List, [], ◌∷◌, ◌≡◌, refl, sym, ◌∙◌, inl, inr, ltb,
  if-elim, Bool-cases,
}
use lan_mi_home.Cuktech.Manager.Desk.{
  operation_raised, manager_stopped, Future, result, exception, Desk, opened, is_done,
  settle_future, submit, begin_from, finish_of, refuse_all, Step, submitted, asked_to_stop, drained,
  begins, returns, raises, expires, advance_desk, advance_all,
}
use lan_mi_home.Cuktech.Manager.Desk.Fate.{
  advance_desk-IsAccounted, advance_all-IsAccounted, opened-IsAccounted,
}

-- A manager that stops, with an empty queue.
abbrev IsClosed : Desk → Type 0
IsClosed s = (s.stopping ≡ true) × (s.queue ≡ [])

refuse_all-IsClosed :
    (queue : List ℕ) (s : Desk) → s.stopping ≡ true → IsClosed (refuse_all queue s)
unfolding refuse_all settle_future
refuse_all-IsClosed [] s h = (h, refl)
refuse_all-IsClosed (i ∷ rest) s h =
    refuse_all-IsClosed rest (settle_future i (exception manager_stopped) s) h

finish_of-IsClosed :
    (f : Future) (running : Option ℕ) (s : Desk) → IsClosed s → IsClosed (finish_of f running s)
unfolding finish_of settle_future
finish_of-IsClosed f none s h = h
finish_of-IsClosed f (some i) s h = h

begin_from-IsClosed :
    (ready : Bool) (running : Option ℕ) (queue : List ℕ) (s : Desk)
    → s.stopping ≡ true
    → s.queue ≡ []
    → queue ≡ []
    → IsClosed (begin_from ready running queue s)
unfolding begin_from
begin_from-IsClosed ready (some i) queue s stops empty e = (stops, empty)
begin_from-IsClosed ready none [] s stops empty e = (stops, empty)
begin_from-IsClosed ready none (i ∷ rest) s stops empty e = cc

advance_desk-IsClosed : (e : Step) (s : Desk) → IsClosed s → IsClosed (advance_desk e s)
unfolding advance_desk submit settle_future finish_of begin_from
advance_desk-IsClosed submitted s (stops, empty) =
    if-elim IsClosed s.stopping (λ _. (stops, empty)) (λ on. absurd (true≢false (sym stops ∙ on)))
advance_desk-IsClosed asked_to_stop s (stops, empty) = (refl, empty)
advance_desk-IsClosed drained s (stops, empty) =
    if-elim IsClosed s.stopping (λ _. refuse_all-IsClosed s.queue s stops) (λ on. (stops, empty))
advance_desk-IsClosed (begins ready) s (stops, empty) =
    begin_from-IsClosed ready s.running s.queue s stops empty empty
advance_desk-IsClosed (returns r) s (stops, empty) =
    finish_of-IsClosed (result r) s.running s (stops, empty)
advance_desk-IsClosed (raises e) s (stops, empty) =
    finish_of-IsClosed (exception (operation_raised e)) s.running s (stops, empty)
advance_desk-IsClosed (expires i) s (stops, empty) =
    if-elim IsClosed (ltb i s.count) (λ _. (stops, empty)) (λ _. (stops, empty))

advance_all-IsClosed : (steps : List Step) (s : Desk) → IsClosed s → IsClosed (advance_all steps s)
unfolding advance_all
advance_all-IsClosed [] s h = h
advance_all-IsClosed (e ∷ steps) s h =
    advance_all-IsClosed steps (advance_desk e s) (advance_desk-IsClosed e s h)

drained-IsClosed : (s : Desk) → s.stopping ≡ true → IsClosed (advance_desk drained s)
unfolding advance_desk
drained-IsClosed s stops =
    if-elim IsClosed s.stopping (λ _. refuse_all-IsClosed s.queue s stops)
      (λ on. absurd (true≢false (sym stops ∙ on)))

-- Once `stop` has gone through the queue, whatever came before and comes after: as soon as no operation
-- runs, every request that was ever made has been answered, or given up by its caller.
pub stop-answers :
    (before after : List Step) (i : ℕ)
    → let s = advance_all before opened in
      let t = advance_all after (advance_desk drained s) in
      s.stopping ≡ true → t.running ≡ none → i < t.count → is_done (t.future_of i) ≡ true
stop-answers before after i stops idle made =
    let s : Desk = advance_all before opened in
    let known = advance_all-IsAccounted before opened opened-IsAccounted in
    let t : Desk = advance_all after (advance_desk drained s) in
    let left =
      advance_all-IsAccounted after (advance_desk drained s)
        (advance_desk-IsAccounted drained s known) in
    let closed = advance_all-IsClosed after (advance_desk drained s) (drained-IsClosed s stops) in
    elim (Bool-cases (is_done (t.future_of i))) [
      | inl done ↦ done
      | inr open_yet ↦ elim (left i made open_yet) [
        | inl waiting ↦ let in_none = rw closed.1 at waiting in cc
        | inr running ↦ let no_one = sym idle ∙ running in cc
      ]
    ]
