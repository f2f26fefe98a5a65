-- ===== src/Cuktech/Manager/Desk.antt =====
-- manager.py: the requests of `execute`, `_run_one_operation` and `stop` for one charger, as steps between
-- which other tasks may run. Requests are numbered as they are made; what an operation comes to is given
-- with the step that ends it. `started` records the operations that were started, the latest first.
pub mod Fate
pub mod Stop
pub mod Order
mod Tests
use lan_mi_home.Base.{
  ℕ, zero, suc, Bool, true, false, not, ◌&&◌, Option, none, some, List, [], ◌∷◌, ◌++◌, ltb, ◌==◌,
  if◌then◌else◌,
}
use lan_mi_home.Cuktech.Controller.{Fault}

-- Why a future holds an exception.
pub data Refusal : Type 0 where
  operation_raised : Fault → Refusal
  not_authenticated manager_stopped : Refusal

pub data Future : Type 0 where
  pending cancelled : Future
  result : ℕ → Future
  exception : Refusal → Future

pub record Desk : Type 0 where
  pub stopping : Bool
  pub queue : List ℕ
  pub running : Option ℕ
  pub count : ℕ
  pub future_of : ℕ → Future
  pub started : List ℕ

pub opened : Desk
opened = record {
  stopping = false;
  queue = [];
  running = none;
  count = 0;
  future_of = λ _. pending;
  started = [];
}

-- future.done()
unfoldable pub is_done : Future → Bool
is_done pending = false
is_done _ = true

-- if not future.done(): future.set_result(...), or set_exception(...); and future.cancel()
unfoldable pub settle_future : ℕ → Future → Desk → Desk
unfolding is_done
settle_future i f s = record s {
  future_of = λ j. if j == i && not (is_done (s.future_of i)) then f else s.future_of j;
}

-- `execute` up to the wait. A manager that stops takes no request.
unfoldable pub submit : Desk → Desk
submit s = if s.stopping then s else record s {
  queue = s.queue ++ s.count ∷ [];
  count = suc s.count;
  future_of = λ j. if j == s.count then pending else s.future_of j;
}

unfoldable pub is_cancelled : Future → Bool
is_cancelled cancelled = true
is_cancelled _ = false

-- What is done with the next item: it is skipped, refused, or started.
unfoldable pub take_up : Bool → ℕ → Desk → Desk
unfolding is_cancelled settle_future
take_up ready i s =
    if is_cancelled (s.future_of i)
    then s
    else if not ready
    then settle_future i (exception not_authenticated) s
    else record s { running = some i; started = i ∷ s.started }

-- `_run_one_operation` up to the callback, on a charger that is connected and authenticated, or not. A
-- worker begins nothing while an operation runs.
unfoldable pub begin_from : Bool → Option ℕ → List ℕ → Desk → Desk
unfolding take_up
begin_from ready (some _) queue s = s
begin_from ready none [] s = s
begin_from ready none (i ∷ rest) s = take_up ready i (record s { queue = rest })

-- The end of the callback.
unfoldable pub finish_of : Future → Option ℕ → Desk → Desk
unfolding settle_future
finish_of f none s = s
finish_of f (some i) s = settle_future i f (record s { running = none })

-- The loop of `stop` over the queue.
unfoldable pub refuse_all : List ℕ → Desk → Desk
unfolding settle_future
refuse_all [] s = record s { queue = [] }
refuse_all (i ∷ rest) s = refuse_all rest (settle_future i (exception manager_stopped) s)

-- An operation ends in a result or an exception. `drained` is `stop` after its disconnects.
pub data Step : Type 0 where
  submitted asked_to_stop drained : Step
  begins : (ready : Bool) → Step
  returns : ℕ → Step
  raises : Fault → Step
  expires : ℕ → Step

unfoldable pub advance_desk : Step → Desk → Desk
unfolding submit begin_from finish_of settle_future refuse_all
advance_desk submitted s = submit s
advance_desk asked_to_stop s = record s { stopping = true }
advance_desk drained s = if s.stopping then refuse_all s.queue s else s
advance_desk (begins ready) s = begin_from ready s.running s.queue s
advance_desk (returns r) s = finish_of (result r) s.running s
advance_desk (raises e) s = finish_of (exception (operation_raised e)) s.running s
advance_desk (expires i) s = if ltb i s.count then settle_future i cancelled s else s

unfoldable pub advance_all : List Step → Desk → Desk
unfolding advance_desk
advance_all [] s = s
advance_all (e ∷ steps) s = advance_all steps (advance_desk e s)
