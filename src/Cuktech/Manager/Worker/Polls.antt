-- ===== src/Cuktech/Manager/Worker/Polls.antt =====
-- manager.py: what a worker tells and polls keeps the invariant of the charger's state. A step that does
-- not touch the controller keeps it as it stands.
use lan_mi_home.Base.{ℕ, zero, suc, Option, none, some, List, [], ◌∷◌}
use lan_mi_home.Cuktech.Protocol.{PortReading}
use lan_mi_home.Cuktech.State.Valid.{IsValid}
use lan_mi_home.Cuktech.Controller.{
  DeviceEvent, port_event, property_event, Controller, Fault, Outcome, returned, raised,
  drain_pending_events, Link, Run, on_link, poll_port_result, process_next,
}
use lan_mi_home.Cuktech.Controller.Valid.{Keeps, bind-Keeps, if-Keeps, on_link-Keeps, return-Keeps}
use lan_mi_home.Cuktech.Controller.Operations.{poll_port_result-Keeps, process_next-Keeps}
use lan_mi_home.Cuktech.Manager.Site.{
  Told, Site, Radio, on_controller, edit, drain, handle, except, skip, tell, emit_settings,
}
use lan_mi_home.Cuktech.Manager.Worker.{
  emit_seen, emit_device_event, emit_events, emit_pending_events, show_reading, poll_one, poll_each,
  poll_first, drain_initial,
}

module _ {D : Type 0} where
  pub on_controller-Keeps : {A : Type 0} (m : Run D A) → Keeps m → Keeps (on_controller m)
  unfolding on_controller
  on_controller-Keeps m keeps site c valid = keeps site.device c valid

  pub drain-Keeps : Keeps (drain {D = D})
  unfolding drain drain_pending_events
  drain-Keeps site c valid = valid

  pub skip-Keeps : Keeps (skip {D = D})
  skip-Keeps = return-Keeps tt

  pub tell-Keeps : (what : Told) → Keeps (tell {D = D} what)
  unfolding tell edit
  tell-Keeps what site c valid = valid

  pub emit_settings-Keeps : Keeps (emit_settings {D = D})
  unfolding emit_settings
  emit_settings-Keeps = bind-Keeps _ _ (λ _ _ v. v) λ state _ _ v. v

  handle-IsValid :
      {A : Type 0} (handler : Fault → Run (Site D) Unit) (r : Site D × Controller × Outcome A)
      → ((e : Fault) → Keeps (handler e))
      → IsValid r.1.state
      → IsValid (handle handler r).1.state
  unfolding handle
  handle-IsValid handler (site, c, returned a) keeps valid = valid
  handle-IsValid handler (site, c, raised e) keeps valid = keeps e site c valid

  pub except-Keeps :
      {A : Type 0} (m : Run (Site D) A) (handler : Fault → Run (Site D) Unit)
      → Keeps m
      → ((e : Fault) → Keeps (handler e))
      → Keeps (except m handler)
  unfolding except
  except-Keeps m handler first second site c valid =
      handle-IsValid handler (m site c) second (first site c valid)

module _ {D : Type 0} (link : Link D) (radio : Radio D) where
  pub emit_seen-Keeps : (reading : PortReading) → Keeps (emit_seen link radio reading)
  unfolding emit_seen
  emit_seen-Keeps reading =
      bind-Keeps _ _ (λ _ _ v. v) λ now. bind-Keeps _ _ (λ _ _ v. v) λ _. λ _ _ v. v

  pub emit_device_event-Keeps : (event : DeviceEvent) → Keeps (emit_device_event link radio event)
  unfolding emit_device_event
  emit_device_event-Keeps (port_event reading prop) = emit_seen-Keeps reading
  emit_device_event-Keeps (property_event prop) = emit_settings-Keeps

  pub emit_events-Keeps : (events : List DeviceEvent) → Keeps (emit_events link radio events)
  unfolding emit_events
  emit_events-Keeps [] = skip-Keeps
  emit_events-Keeps (event ∷ events) =
      bind-Keeps _ _ (emit_device_event-Keeps event) λ _. emit_events-Keeps events

  pub emit_pending_events-Keeps : Keeps (emit_pending_events link radio)
  unfolding emit_pending_events
  emit_pending_events-Keeps = bind-Keeps _ _ drain-Keeps emit_events-Keeps

  pub shown-Keeps :
      (piid : ℕ) (reading : Option PortReading) → Keeps (show_reading link radio piid reading)
  unfolding show_reading
  shown-Keeps piid none = skip-Keeps
  shown-Keeps piid (some reading) =
      bind-Keeps _ _ (λ _ _ v. v) λ seen. bind-Keeps _ _ (λ _ _ v. v) λ _. λ _ _ v. v

  pub poll_one-Keeps : (piid : ℕ) → Keeps (poll_one link radio piid)
  unfolding poll_one
  poll_one-Keeps piid =
      bind-Keeps _ _
        (on_controller-Keeps (poll_port_result link piid) (poll_port_result-Keeps link piid))
        λ polled.
          bind-Keeps _ _ (λ _ _ v. v)
            λ now.
              bind-Keeps _ _ (λ _ _ v. v)
                λ _. bind-Keeps _ _ emit_pending_events-Keeps λ _. shown-Keeps piid polled.0

  pub poll_each-Keeps : (piids : List ℕ) → Keeps (poll_each link radio piids)
  unfolding poll_each
  poll_each-Keeps [] = skip-Keeps
  poll_each-Keeps (piid ∷ piids) = bind-Keeps _ _ (poll_one-Keeps piid) λ _. poll_each-Keeps piids

  pub poll_first-Keeps : (piids : List ℕ) → Keeps (poll_first link radio piids)
  unfolding poll_first
  poll_first-Keeps [] = skip-Keeps
  poll_first-Keeps (piid ∷ piids) =
      bind-Keeps _ _ (λ _ _ v. v)
        λ off.
          if-Keeps off _ _ skip-Keeps
            (bind-Keeps _ _ (poll_one-Keeps piid) λ _. poll_first-Keeps piids)

  pub drain_initial-Keeps : (frames : ℕ) → Keeps (drain_initial link radio frames)
  unfolding drain_initial
  drain_initial-Keeps zero = skip-Keeps
  drain_initial-Keeps (suc frames) =
      bind-Keeps _ _
        (on_controller-Keeps (on_link link.next_plaintext) (on_link-Keeps link.next_plaintext))
        λ plaintext.
          bind-Keeps _ _
            (on_controller-Keeps (process_next link plaintext) (process_next-Keeps link plaintext))
            λ _. drain_initial-Keeps frames
