-- ===== src/Cuktech/Controller/Operations.antt =====
-- controller.py: every operation of the controller keeps a valid state valid.
use lan_mi_home.Base.{
  ℕ, Bool, false, not, ◌&&◌, Option, none, some, List, [], ◌∷◌, inl, inr, ◌==◌, Option-cases,
}
use lan_mi_home.Base.Bytes.{Bytes}
use lan_mi_home.Base.Text.{Text, find, lower}
use lan_mi_home.Cuktech.Protocol.{PortReading, protocol_switch_bits}
use lan_mi_home.Cuktech.Protocol.Switches.{Result, ok, err, set_protocol_switch}
use lan_mi_home.Cuktech.State.{ChargerState, decode_port_value}
use lan_mi_home.Cuktech.State.Valid.{IsValid}
use lan_mi_home.Cuktech.Miot.{MiotResult, is_ok}
use lan_mi_home.Cuktech.Controller.{
  Controller, value_error, runtime_error, Link, process_plaintext, is_port_piid, is_writeable,
  port_mask, timer_ports, readable_settings, update, connect, authenticate, disconnect,
  read_settings, refresh_settings, file_reading, decode_value, poll_port_result, refresh_ports,
  get_property, set_property, set_timer, write_changed, switch_port, set_port, write_switched,
  switch_protocol, set_protocol, process_next, next_event,
}
use lan_mi_home.Cuktech.Controller.Valid.{
  Sound, decode_port_value-Sound, process_plaintext-Sound, Sound-IsValid, same_fields, Keeps,
  bind-Keeps, if-Keeps, on_link-Keeps, return-Keeps, raise-Keeps, apply_now-Keeps, get_value-Keeps,
  process_deferred-Keeps,
}
use lan_mi_home.Cuktech.Controller.Commands.{Command, perform, perform_all}

module _ {D : Type 0} (link : Link D) where
  -- A change of fields that the invariant does not speak of.
  flags-Keeps :
      (f : ChargerState → ChargerState)
      → ((s : ChargerState) → IsValid s → IsValid (f s))
      → Keeps (update {D = D} f)
  unfolding update
  flags-Keeps f keeps d c valid = keeps c.state valid

  pub connect-Keeps : Keeps (connect link)
  unfolding connect
  connect-Keeps = bind-Keeps _ _ (on_link-Keeps link.connect) λ _.
      bind-Keeps _ _ (flags-Keeps _ (λ s h. same_fields s h)) λ _.
        bind-Keeps _ _ (on_link-Keeps link.read_device_info)
          λ info. bind-Keeps _ _ (flags-Keeps _ (λ s h. same_fields s h)) λ _. return-Keeps info

  pub authenticate-Keeps : Keeps (authenticate link)
  unfolding authenticate
  authenticate-Keeps =
      bind-Keeps _ _ (on_link-Keeps link.authenticate) λ _. flags-Keeps _ (λ s h. same_fields s h)

  pub disconnect-Keeps : Keeps (disconnect link)
  unfolding disconnect
  disconnect-Keeps =
      bind-Keeps _ _ (on_link-Keeps link.disconnect) λ _. flags-Keeps _ (λ s h. same_fields s h)

  read_settings-Keeps : (piids : List ℕ) → Keeps (read_settings link piids)
  unfolding read_settings
  read_settings-Keeps [] = return-Keeps tt
  read_settings-Keeps (piid ∷ piids) = bind-Keeps _ _ (get_value-Keeps link piid) λ result.
      bind-Keeps _ _ (apply_now-Keeps link piid result.value) λ _. read_settings-Keeps piids

  pub refresh_settings-Keeps : Keeps (refresh_settings link)
  unfolding refresh_settings
  refresh_settings-Keeps = read_settings-Keeps readable_settings

  file_reading-Keeps :
      (o : Option (ChargerState × Option PortReading)) → Sound o → Keeps (file_reading link o)
  unfolding file_reading
  file_reading-Keeps _ Sound.fails d c valid = valid
  file_reading-Keeps _ (Sound.gives s reading sound) d c valid = sound

  decode_value-Keeps :
      (piid : ℕ) (r : MiotResult) (value : Option ℕ) → Keeps (decode_value link piid r value)
  unfolding decode_value
  decode_value-Keeps piid r none d c valid = valid
  decode_value-Keeps piid r (some value) d c valid =
      file_reading-Keeps (decode_port_value (link.clock d) piid value r.raw c.state)
        (decode_port_value-Sound (link.clock d) piid value r.raw c.state valid) d c valid

  pub poll_port_result-Keeps : (piid : ℕ) → Keeps (poll_port_result link piid)
  unfolding poll_port_result
  poll_port_result-Keeps piid = if-Keeps (not (is_port_piid piid)) _ _ (raise-Keeps _ value_error) (
      bind-Keeps _ _ (get_value-Keeps link piid) λ result.
        bind-Keeps _ _ (decode_value-Keeps piid result result.value)
          λ reading. return-Keeps (reading, result))

  refresh_ports-Keeps : (piids : List ℕ) → Keeps (refresh_ports link piids)
  unfolding refresh_ports
  refresh_ports-Keeps [] = return-Keeps []
  refresh_ports-Keeps (piid ∷ piids) =
      bind-Keeps _ _ (poll_port_result-Keeps piid)
        λ polled. bind-Keeps _ _ (refresh_ports-Keeps piids) λ readings. return-Keeps _

  get_property-Keeps : (piid : ℕ) → Keeps (get_property link piid)
  unfolding get_property
  get_property-Keeps piid = bind-Keeps _ _ (get_value-Keeps link piid) λ result.
      bind-Keeps _ _
        (if-Keeps (is_port_piid piid) _ _
          (bind-Keeps _ _ (decode_value-Keeps piid result result.value) λ _. return-Keeps tt)
          (apply_now-Keeps link piid result.value))
        λ _. return-Keeps result

  pub set_property-Keeps : (piid value : ℕ) (raw : Bool) → Keeps (set_property link piid value raw)
  unfolding set_property
  set_property-Keeps piid value raw =
      if-Keeps (not raw && not (is_writeable piid value)) _ _ (raise-Keeps _ value_error) (
        bind-Keeps _ _ (on_link-Keeps (link.set piid value)) λ result.
          bind-Keeps _ _ (process_deferred-Keeps link result) λ _.
            bind-Keeps _ _
              (if-Keeps (is_ok result && not (piid == 14)) _ _
                (apply_now-Keeps link piid (some value)) (return-Keeps tt))
              λ _. return-Keeps result)

  set_timer-Keeps : (port : Text) (minutes : ℕ) → Keeps (set_timer link port minutes)
  unfolding set_timer
  set_timer-Keeps port minutes = elim (Option-cases (find (lower port) timer_ports)) [
    | inl unknown ↦ rw (unknown, set_timer) (raise-Keeps _ value_error)
    | inr (piid, found) ↦ rw (found, set_timer) (set_property-Keeps piid minutes false)
  ]

  write_changed-Keeps : (piid current value : ℕ) → Keeps (write_changed link piid current value)
  unfolding write_changed
  write_changed-Keeps piid current value =
      if-Keeps (value == current) _ _ (return-Keeps _) (set_property-Keeps piid value false)

  switch_port-Keeps :
      (port : Text) (enabled : Bool) (current : Option ℕ)
      → Keeps (switch_port link port enabled current)
  unfolding switch_port
  switch_port-Keeps port enabled none = raise-Keeps _ runtime_error
  switch_port-Keeps port enabled (some mask) = elim (Option-cases (port_mask port enabled mask)) [
    | inl unknown ↦ rw (unknown, switch_port) (raise-Keeps _ value_error)
    | inr (value, found) ↦ rw (found, switch_port) (write_changed-Keeps 16 mask value)
  ]

  set_port-Keeps : (port : Text) (enabled : Bool) → Keeps (set_port link port enabled)
  unfolding set_port
  set_port-Keeps port enabled =
      bind-Keeps _ _ (get_property-Keeps 16)
        λ current. switch_port-Keeps (lower port) enabled current.value

  write_switched-Keeps :
      (current : ℕ) (value : Result ℕ) → Keeps (write_switched link current value)
  unfolding write_switched
  write_switched-Keeps current (err e) = raise-Keeps _ value_error
  write_switched-Keeps current (ok value) = write_changed-Keeps 21 current value

  switch_protocol-Keeps :
      (port protocol : Text) (enabled : Bool) (current : Option ℕ)
      → Keeps (switch_protocol link port protocol enabled current)
  unfolding switch_protocol
  switch_protocol-Keeps port protocol enabled none = raise-Keeps _ runtime_error
  switch_protocol-Keeps port protocol enabled (some current) =
      write_switched-Keeps current (set_protocol_switch current port protocol enabled)

  set_protocol-Keeps :
      (port protocol : Text) (enabled : Bool) → Keeps (set_protocol link port protocol enabled)
  unfolding set_protocol
  set_protocol-Keeps port protocol enabled =
      elim (Option-cases (find (lower port) protocol_switch_bits)) [
        | inl unknown ↦ rw (unknown, set_protocol) (raise-Keeps _ value_error)
        | inr (bits, found) ↦
            rw (found, set_protocol)
              (bind-Keeps _ _ (get_property-Keeps 21) λ current.
                switch_protocol-Keeps (lower port) (lower protocol) enabled current.value)
      ]

  pub process_next-Keeps : (p : Option Bytes) → Keeps (process_next link p)
  unfolding process_next
  process_next-Keeps none d c valid = valid
  process_next-Keeps (some p) d c valid =
      elim (Option-cases (process_plaintext (link.clock d) p c.state)) [
        | inl failed ↦ rw (failed, process_next) valid
        | inr ((s, event), e) ↦
            rw (e, process_next)
              (Sound-IsValid (process_plaintext-Sound (link.clock d) p c.state valid) e)
      ]

  next_event-Keeps : Keeps (next_event link)
  unfolding next_event
  next_event-Keeps = bind-Keeps _ _ (on_link-Keeps link.next_plaintext) process_next-Keeps

perform-IsValid :
    {D : Type 0} (link : Link D) (command : Command) (p : D × Controller)
    → IsValid p.1.state
    → IsValid (perform link command p).1.state
unfolding perform
perform-IsValid link Command.connect_to (d, c) = connect-Keeps link d c
perform-IsValid link Command.authenticate_it (d, c) = authenticate-Keeps link d c
perform-IsValid link Command.disconnect_it (d, c) = disconnect-Keeps link d c
perform-IsValid link Command.read_all (d, c) = refresh_settings-Keeps link d c
perform-IsValid link Command.await_event (d, c) = next_event-Keeps link d c
perform-IsValid link (Command.poll piid) (d, c) = poll_port_result-Keeps link piid d c
perform-IsValid link (Command.get_one piid) (d, c) = get_property-Keeps link piid d c
perform-IsValid link (Command.poll_ports piids) (d, c) = refresh_ports-Keeps link piids d c
perform-IsValid link (Command.set_one piid value raw) (d, c) =
    set_property-Keeps link piid value raw d c
perform-IsValid link (Command.timer port minutes) (d, c) = set_timer-Keeps link port minutes d c
perform-IsValid link (Command.switch port enabled) (d, c) = set_port-Keeps link port enabled d c
perform-IsValid link (Command.protocol port name enabled) (d, c) =
    set_protocol-Keeps link port name enabled d c

-- Whatever a charger answers, and whichever operations return or raise, any sequence of operations keeps
-- the invariant of the state: hardware numbers are of the ports 1 to 4 and not 0, a reading is filed
-- under its own port, a shared reading of port 3 marks the state, and no key is listed twice.
pub perform_all-IsValid :
    {D : Type 0} (link : Link D) (commands : List Command) (p : D × Controller)
    → IsValid p.1.state
    → IsValid (perform_all link commands p).1.state
unfolding perform_all
perform_all-IsValid link [] p valid = valid
perform_all-IsValid link (command ∷ commands) p valid =
    perform_all-IsValid link commands (perform link command p)
      (perform-IsValid link command p valid)
