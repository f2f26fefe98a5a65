-- ===== src/Cuktech/Controller/Tests.antt =====
-- A charger that keeps the number of PIID 21 and answers at once.
use lan_mi_home.Base.{ℕ, true, false, ◌&&◌, some, List, [], ◌∷◌, ◌≡◌, refl, if◌then◌else◌}
use lan_mi_home.Base.Bytes.{same}
use lan_mi_home.Base.Text.{word, find, lower}
use lan_mi_home.Cuktech.Protocol.Switches.{ok, decode_protocol_extend, set_protocol_switch}
use lan_mi_home.Cuktech.Protocol.Switches.Laws.{switch_at}
use lan_mi_home.Cuktech.State.{init, protocol_switches}
use lan_mi_home.Cuktech.Miot.{MiotResult, result_of, is_ok}
use lan_mi_home.Cuktech.Controller.{Controller, returned, raised, link_error, Link, set_protocol}
use lan_mi_home.Cuktech.Controller.Commands.{Command}
use lan_mi_home.Cuktech.Controller.Switched.{set_protocol-switch_at}
use lan_mi_home.Base.Bytes.{Bytes}

-- A push of PIID 5 with the value 2.
abbrev push : Bytes
push = 0 ∷ 0 ∷ 0 ∷ 0 ∷ 4 ∷ 0 ∷ 2 ∷ 5 ∷ 0 ∷ 1 ∷ 0 ∷ 2 ∷ []

abbrev charger : Link ℕ
charger = record {
  clock = λ d. 7;
  connect = λ d. (d, returned tt);
  read_device_info = λ d. (d, raised link_error);
  authenticate = λ d. (d, returned tt);
  disconnect = λ d. (d, returned tt);
  get = λ piid d. (d, returned (record (result_of 2 piid (some d)) { acknowledged = true }));
  set = λ piid value d.
      (value, returned (record (result_of 2 piid (some value)) { acknowledged = true }));
  next_plaintext = λ d. (d, returned (some push));
}

abbrev controller : Controller
controller = record { state = init; pending_events = [] }

abbrev commands : List Command
commands =
    Command.connect_to
    ∷ Command.read_all
    ∷ Command.poll 3
    ∷ Command.switch (word "C1") false
    ∷ Command.await_event
    ∷ []

made : set_protocol_switch 0 (word "C1") (word "PD") true ≡ ok 2057
unfolding set_protocol_switch find same lower
made = refl

acknowledged : (d : ℕ) → is_ok (record (result_of 2 21 (some d)) { acknowledged = true }) ≡ true
unfolding is_ok
acknowledged d = refl

set_protocol-switch_at_example :
    (d' : ℕ) × (c' : Controller) × (r : MiotResult) × (set_protocol charger
        (word "C1")
        (word "PD")
        true
        0
        controller
      ≡ (d', c', returned r))
    × ((port' protocol' : _)
        → switch_at port' protocol' (protocol_switches c'.state) ≡ (
            if same (lower (word "C1")) port' && same (lower (word "PD")) protocol'
            then some true
            else switch_at port' protocol' (decode_protocol_extend 0)))
set_protocol-switch_at_example =
    set_protocol-switch_at charger 0 0 2057 controller (word "C1") (word "PD") true 0 2057
      (_, refl, refl, refl) made (_, refl, acknowledged 2057, refl)
