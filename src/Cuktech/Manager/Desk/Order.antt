-- ===== src/Cuktech/Manager/Desk/Order.antt =====
-- manager.py: the order in which the requests are taken up.
use lan_mi_home.Base.{
  ℕ, suc, ◌≤◌, ◌<◌, Bool, not, Option, none, some, List, [], ◌∷◌, ◌++◌, arith, ltb, if-elim,
}
use lan_mi_home.Cuktech.Manager.Desk.{
  Future, result, exception, manager_stopped, Desk, opened, settle_future, submit, is_cancelled,
  take_up, begin_from, finish_of, refuse_all, Step, submitted, asked_to_stop, drained, begins,
  returns, raises, expires, advance_desk, advance_all,
}

-- The numbers grow, from `low` on, and are below `high`.
abbrev Rising : ℕ → ℕ → List ℕ → Type 0
Rising low high [] = low ≤ high
Rising low high (i ∷ rest) = (low ≤ i) × (i < high) × Rising (suc i) high rest

-- The numbers fall, from below `high` on.
abbrev pub Falling : ℕ → List ℕ → Type 0
Falling high [] = Unit
Falling high (i ∷ rest) = (i < high) × Falling i rest

-- What was started came before what is in the queue.
abbrev IsOrdered : Desk → Type 0
IsOrdered s = (low : ℕ) × Falling low s.started × Rising low s.count s.queue

Falling-mono :
    (low high : ℕ) (started : List ℕ) → low ≤ high → Falling low started → Falling high started
Falling-mono low high [] le h = tt
Falling-mono low high (i ∷ rest) le h = (omega (arith, h.0), h.1)

Rising-snoc :
    (low high : ℕ) (queue : List ℕ)
    → Rising low high queue
    → Rising low (suc high) (queue ++ high ∷ [])
Rising-snoc low high [] h = (h, omega arith, omega arith)
Rising-snoc low high (i ∷ rest) h = (h.0, omega (arith, h.1), Rising-snoc (suc i) high rest h.2)

Rising-le : (low high : ℕ) (queue : List ℕ) → Rising low high queue → low ≤ high
Rising-le low high [] h = h
Rising-le low high (i ∷ rest) h = omega (arith, h.0, h.1)

submit-IsOrdered : (s : Desk) → IsOrdered s → IsOrdered (submit s)
unfolding submit
submit-IsOrdered s h =
    if-elim IsOrdered s.stopping (λ _. h) λ _. (h.0, h.1, Rising-snoc h.0 s.count s.queue h.2)

begin_from-IsOrdered :
    (ready : Bool) (running : Option ℕ) (queue : List ℕ) (s : Desk) (low : ℕ)
    → IsOrdered s
    → Falling low s.started
    → Rising low s.count queue
    → IsOrdered (begin_from ready running queue s)
unfolding begin_from take_up settle_future
begin_from-IsOrdered ready (some i) queue s low before f r = before
begin_from-IsOrdered ready none [] s low before f r = before
begin_from-IsOrdered ready none (i ∷ rest) s low before f r =
    let kept = Falling-mono low (suc i) s.started (omega (arith, r.0)) f in
    if-elim IsOrdered (is_cancelled (s.future_of i)) (λ _. (suc i, kept, r.2))
      λ _.
        if-elim IsOrdered (not ready) (λ _. (suc i, kept, r.2))
          λ _. (suc i, (omega arith, Falling-mono low i s.started r.0 f), r.2)

finish_of-IsOrdered :
    (f : Future) (running : Option ℕ) (s : Desk) → IsOrdered s → IsOrdered (finish_of f running s)
unfolding finish_of settle_future
finish_of-IsOrdered f none s h = h
finish_of-IsOrdered f (some i) s h = h

refuse_all-IsOrdered : (queue : List ℕ) (s : Desk) → IsOrdered s → IsOrdered (refuse_all queue s)
unfolding refuse_all settle_future
refuse_all-IsOrdered [] s (low, f, r) = (low, f, Rising-le low s.count s.queue r)
refuse_all-IsOrdered (i ∷ rest) s h =
    refuse_all-IsOrdered rest (settle_future i (exception manager_stopped) s) h

advance_desk-IsOrdered : (e : Step) (s : Desk) → IsOrdered s → IsOrdered (advance_desk e s)
unfolding advance_desk settle_future
advance_desk-IsOrdered submitted s h = submit-IsOrdered s h
advance_desk-IsOrdered asked_to_stop s h = h
advance_desk-IsOrdered drained s h =
    if-elim IsOrdered s.stopping (λ _. refuse_all-IsOrdered s.queue s h) (λ _. h)
advance_desk-IsOrdered (begins ready) s h =
    begin_from-IsOrdered ready s.running s.queue s h.0 h h.1 h.2
advance_desk-IsOrdered (returns r) s h = finish_of-IsOrdered (result r) s.running s h
advance_desk-IsOrdered (raises e) s h = finish_of-IsOrdered _ s.running s h
advance_desk-IsOrdered (expires i) s h = if-elim IsOrdered (ltb i s.count) (λ _. h) (λ _. h)

advance_all-IsOrdered :
    (steps : List Step) (s : Desk) → IsOrdered s → IsOrdered (advance_all steps s)
unfolding advance_all
advance_all-IsOrdered [] s h = h
advance_all-IsOrdered (e ∷ steps) s h =
    advance_all-IsOrdered steps (advance_desk e s) (advance_desk-IsOrdered e s h)

opened-IsOrdered : IsOrdered opened
unfolding opened
opened-IsOrdered = (0, tt, omega arith)

-- The operations are started in the order of the requests, and each at most once: of the list of what
-- was started, the latest first, each number is greater than the next.
pub started-Falling :
    (steps : List Step)
    → Falling (advance_all steps opened).count (advance_all steps opened).started
started-Falling steps =
    let (low, f, r) = advance_all-IsOrdered steps opened opened-IsOrdered in
    Falling-mono low _ _ (Rising-le low _ _ r) f
