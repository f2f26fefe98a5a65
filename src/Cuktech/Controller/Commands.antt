-- ===== src/Cuktech/Controller/Commands.antt =====
-- controller.py: the operations of the controller as commands of a caller.
use lan_mi_home.Base.{ℕ, Bool, List, [], ◌∷◌}
use lan_mi_home.Base.Text.{Text}
use lan_mi_home.Cuktech.Controller.{
  Controller, Outcome, Link, connect, authenticate, disconnect, refresh_settings, poll_port_result,
  refresh_ports, get_property, set_property, set_timer, set_port, set_protocol, next_event,
}

-- The operations that a caller has.
pub data Command : Type 0 where
  connect_to authenticate_it disconnect_it read_all await_event : Command
  poll get_one : ℕ → Command
  poll_ports : List ℕ → Command
  set_one : (piid value : ℕ) (raw : Bool) → Command
  timer : Text → ℕ → Command
  switch : Text → Bool → Command
  protocol : Text → Text → Bool → Command

-- The charger and the controller after an operation, however it ended.
abbrev pub left_by : {D A : Type 0} → D × Controller × Outcome A → D × Controller
left_by (d, c, outcome) = (d, c)

unfoldable pub perform : {D : Type 0} → Link D → Command → D × Controller → D × Controller
perform link Command.connect_to (d, c) = left_by (connect link d c)
perform link Command.authenticate_it (d, c) = left_by (authenticate link d c)
perform link Command.disconnect_it (d, c) = left_by (disconnect link d c)
perform link Command.read_all (d, c) = left_by (refresh_settings link d c)
perform link Command.await_event (d, c) = left_by (next_event link d c)
perform link (Command.poll piid) (d, c) = left_by (poll_port_result link piid d c)
perform link (Command.get_one piid) (d, c) = left_by (get_property link piid d c)
perform link (Command.poll_ports piids) (d, c) = left_by (refresh_ports link piids d c)
perform link (Command.set_one piid value raw) (d, c) =
    left_by (set_property link piid value raw d c)
perform link (Command.timer port minutes) (d, c) = left_by (set_timer link port minutes d c)
perform link (Command.switch port enabled) (d, c) = left_by (set_port link port enabled d c)
perform link (Command.protocol port name enabled) (d, c) =
    left_by (set_protocol link port name enabled d c)

unfoldable pub perform_all : {D : Type 0} → Link D → List Command → D × Controller → D × Controller
perform_all link [] p = p
perform_all link (command ∷ commands) p = perform_all link commands (perform link command p)
