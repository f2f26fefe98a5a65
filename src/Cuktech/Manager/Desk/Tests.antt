-- ===== src/Cuktech/Manager/Desk/Tests.antt =====
-- Three requests: the first is carried out, the second is given up by its caller, and `stop` refuses the
-- third.
use lan_mi_home.Base.{true, List, [], ◌∷◌, ◌≡◌, refl, arith}
use lan_mi_home.Cuktech.Manager.Desk.{
  exception, manager_stopped, is_done, settle_future, submit, is_cancelled, take_up, begin_from,
  finish_of, refuse_all, Step, submitted, asked_to_stop, drained, begins, returns, expires, opened,
  advance_desk, advance_all,
}
use lan_mi_home.Cuktech.Manager.Desk.Stop.{stop-answers}
use lan_mi_home.Cuktech.Manager.Desk.Order.{Falling, started-Falling}

abbrev before : List Step
before =
    submitted
    ∷ submitted
    ∷ begins true
    ∷ submitted
    ∷ expires 1
    ∷ returns 7
    ∷ begins true
    ∷ asked_to_stop
    ∷ []

last_refused :
    (advance_all (drained ∷ []) (advance_all before opened)).future_of 2 ≡ exception manager_stopped
unfolding advance_all advance_desk submit begin_from take_up finish_of settle_future refuse_all
    is_cancelled is_done opened
last_refused = refl

stop-answers_example :
    is_done ((advance_all [] (advance_desk drained (advance_all before opened))).future_of 2) ≡ true
unfolding advance_all advance_desk submit begin_from take_up finish_of settle_future refuse_all
    is_cancelled is_done opened
stop-answers_example = stop-answers before [] 2 refl refl (omega arith)

started-Falling_example :
    Falling (advance_all before opened).count (advance_all before opened).started
started-Falling_example = started-Falling before
