-- ===== src/Cuktech/Manager/Worker/Valid.antt =====
-- manager.py: the invariant of a charger's state over the connections of its worker.
use lan_mi_home.Base.{
  ℕ, true, false, not, Option, none, some, List, [], ◌∷◌, All, inl, inr, Option-cases,
}
use lan_mi_home.Base.Bytes.{Bytes}
use lan_mi_home.Cuktech.State.Valid.{IsValid}
use lan_mi_home.Cuktech.Controller.{
  DeviceEvent, port_event, property_event, Controller, Link, on_link, link_error, connect,
  authenticate, disconnect, refresh_settings, process_next,
}
use lan_mi_home.Cuktech.Controller.Valid.{
  Keeps, bind-Keeps, if-Keeps, on_link-Keeps, return-Keeps, raise-Keeps,
}
use lan_mi_home.Cuktech.Controller.Operations.{
  connect-Keeps, authenticate-Keeps, disconnect-Keeps, refresh_settings-Keeps, process_next-Keeps,
}
use lan_mi_home.Cuktech.Manager.{stale_candidate}
use lan_mi_home.Cuktech.Manager.Site.{
  told_failed, Site, Radio, Waiting, nothing, given_up, operation, skip, tell,
}
use lan_mi_home.Cuktech.Manager.Worker.{
  reload_settings, setup, carry_out, run_one_operation, on_event, on_window, keep_alive, poll_stale,
  after_operation, monitor, worker_turn, worker_turns, connection, live,
}
use lan_mi_home.Cuktech.Manager.Worker.Polls.{
  on_controller-Keeps, skip-Keeps, tell-Keeps, emit_settings-Keeps, except-Keeps,
  emit_device_event-Keeps, emit_pending_events-Keeps, poll_one-Keeps, poll_each-Keeps,
  poll_first-Keeps, drain_initial-Keeps,
}

-- What waits keeps the invariant, if it is carried out.
abbrev pub WaitingKeeps : {D A : Type 0} → Waiting D A → Type 0
WaitingKeeps (operation callback) = Keeps callback
WaitingKeeps _ = Unit

module _ {D : Type 0} (link : Link D) (radio : Radio D) where
  reload_settings-Keeps : Keeps (reload_settings link radio)
  unfolding reload_settings
  reload_settings-Keeps =
      bind-Keeps _ _ (on_controller-Keeps (refresh_settings link) (refresh_settings-Keeps link))
        λ _. bind-Keeps _ _ (emit_pending_events-Keeps link radio) λ _.
          bind-Keeps _ _ (λ _ _ v. v) λ now. bind-Keeps _ _ (λ _ _ v. v) λ _. emit_settings-Keeps

  setup-Keeps : Keeps (setup link radio)
  unfolding setup
  setup-Keeps =
      bind-Keeps _ _ (λ _ _ v. v)
        λ stopping. if-Keeps stopping _ _ (return-Keeps false) (
          bind-Keeps _ _ (λ _ _ v. v)
            λ _. bind-Keeps _ _ (on_controller-Keeps (connect link) (connect-Keeps link)) λ _.
              bind-Keeps _ _ (λ _ _ v. v)
                λ _.
                  bind-Keeps _ _ (on_controller-Keeps (authenticate link) (authenticate-Keeps link))
                    λ _. bind-Keeps _ _ (λ _ _ v. v) λ _. return-Keeps true)

  run_one_operation-Keeps :
      {A : Type 0} (waiting : Waiting D A)
      → WaitingKeeps waiting
      → Keeps (run_one_operation link radio waiting)
  unfolding run_one_operation carry_out
  run_one_operation-Keeps nothing keeps = return-Keeps false
  run_one_operation-Keeps given_up keeps = return-Keeps true
  run_one_operation-Keeps (operation callback) keeps =
      bind-Keeps _ _ (λ _ _ v. v)
        λ ready.
          bind-Keeps _ _
            (if-Keeps (not ready) _ _ skip-Keeps (
              except-Keeps (carry_out link radio callback) (λ _. skip)
                (bind-Keeps _ _ (on_controller-Keeps callback keeps) λ _.
                  bind-Keeps _ _ (emit_pending_events-Keeps link radio) λ _. emit_settings-Keeps)
                (λ _. skip-Keeps)))
            λ _. return-Keeps true

  on_event-Keeps : (event : Option DeviceEvent) → Keeps (on_event link radio event)
  unfolding on_event
  on_event-Keeps none = skip-Keeps
  on_event-Keeps (some (port_event reading prop)) =
      bind-Keeps _ _ (emit_device_event-Keeps link radio (port_event reading prop))
        λ _. poll_each-Keeps link radio _
  on_event-Keeps (some (property_event prop)) =
      bind-Keeps _ _ (emit_device_event-Keeps link radio (property_event prop))
        λ _. poll_each-Keeps link radio _

  on_window-Keeps :
      (now : ℕ) (plaintext : Option Bytes) → Keeps (on_window link radio now plaintext)
  unfolding on_window
  on_window-Keeps now (some p) =
      bind-Keeps _ _
        (on_controller-Keeps (process_next link (some p)) (process_next-Keeps link (some p)))
        on_event-Keeps
  on_window-Keeps now none =
      bind-Keeps _ _ (λ _ _ v. v) λ book. if-Keeps _ _ _ reload_settings-Keeps skip-Keeps

  keep_alive-Keeps : (now : ℕ) → Keeps (keep_alive link radio now)
  unfolding keep_alive
  keep_alive-Keeps now =
      bind-Keeps _ _ (λ _ _ v. v)
        λ book. if-Keeps _ _ _ (bind-Keeps _ _ (λ _ _ v. v) λ _ _ _ v. v) skip-Keeps

  poll_stale-Keeps : (now : ℕ) → Keeps (poll_stale link radio now)
  unfolding poll_stale
  poll_stale-Keeps now =
      bind-Keeps _ _ (λ _ _ v. v)
        λ book.
          bind-Keeps _ _ (λ _ _ v. v)
            λ state. elim (Option-cases (stale_candidate state.ports book.clocks now)) [
              | inl quiet ↦ rw quiet skip-Keeps
              | inr (piid, due) ↦ rw due (poll_one-Keeps link radio piid)
            ]

  monitor-Keeps : Keeps (monitor link radio)
  unfolding monitor
  monitor-Keeps =
      bind-Keeps _ _
        (on_controller-Keeps (on_link link.next_plaintext) (on_link-Keeps link.next_plaintext))
        λ plaintext.
          bind-Keeps _ _ (λ _ _ v. v)
            λ now.
              bind-Keeps _ _ (on_window-Keeps now plaintext)
                λ _. bind-Keeps _ _ (keep_alive-Keeps now) λ _. poll_stale-Keeps now

  worker_turn-Keeps :
      {A : Type 0} (waiting : Waiting D A)
      → WaitingKeeps waiting
      → Keeps (worker_turn link radio waiting)
  unfolding worker_turn after_operation
  worker_turn-Keeps waiting keeps =
      bind-Keeps _ _ (run_one_operation-Keeps waiting keeps)
        λ ran. if-Keeps ran _ _ (bind-Keeps _ _ (λ _ _ v. v) λ now _ _ v. v) monitor-Keeps

  worker_turns-Keeps :
      {A : Type 0} (operations : List (Waiting D A))
      → All WaitingKeeps operations
      → Keeps (worker_turns link radio operations)
  unfolding worker_turns
  worker_turns-Keeps [] keeps = skip-Keeps
  worker_turns-Keeps (waiting ∷ operations) keeps =
      bind-Keeps _ _ (λ _ _ v. v)
        λ off.
          bind-Keeps _ _ (λ _ _ v. v)
            λ stopping.
              if-Keeps off _ _ (if-Keeps stopping _ _ skip-Keeps (raise-Keeps _ link_error)) (
                bind-Keeps _ _ (worker_turn-Keeps waiting keeps.0)
                  λ _. worker_turns-Keeps operations keeps.1)

  connection-Keeps :
      {A : Type 0} (operations : List (Waiting D A))
      → All WaitingKeeps operations
      → Keeps (connection link radio operations)
  unfolding connection
  connection-Keeps operations keeps = bind-Keeps _ _ setup-Keeps λ goes_on.
      if-Keeps (not goes_on) _ _ skip-Keeps (
        bind-Keeps _ _ (λ _ _ v. v)
          λ frames. bind-Keeps _ _ (drain_initial-Keeps link radio frames) λ _.
            bind-Keeps _ _ reload_settings-Keeps λ _.
              bind-Keeps _ _ (poll_first-Keeps link radio (1 ∷ 2 ∷ 3 ∷ 4 ∷ []))
                λ _. worker_turns-Keeps operations keeps)

  -- Whatever the charger answers, wherever its link is lost, and whenever the manager stops: a connection
  -- of the worker, from the setup to the disconnect, with callers' operations that keep the invariant
  -- each, keeps the invariant of the state.
  pub live-IsValid :
      {A : Type 0} (operations : List (Waiting D A)) (site : Site D) (c : Controller)
      → All WaitingKeeps operations
      → IsValid c.state
      → IsValid (live link radio operations site c).1.state
  unfolding live
  live-IsValid operations site c keeps valid =
      let whole : Keeps (live link radio operations) =
        bind-Keeps _ _ (λ _ _ v. v)
          λ started.
            bind-Keeps _ _ (λ _ _ v. v)
              λ _.
                bind-Keeps _ _
                  (except-Keeps (connection link radio operations) (λ e. tell (told_failed e))
                    (connection-Keeps operations keeps) (λ e. tell-Keeps (told_failed e)))
                  λ _. on_controller-Keeps (disconnect link) (disconnect-Keeps link) in
      whole site c valid
