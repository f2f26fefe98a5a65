-- ===== src/Cuktech/State/Shown.antt =====
-- state.py: the switches that a state shows once PIID 21 is known.
use lan_mi_home.Base.{ℕ, some, ◌≡◌, refl, ap}
use lan_mi_home.Base.Dict.{lookup, lookup-insert}
use lan_mi_home.Cuktech.Protocol.Switches.{decode_protocol_extend}
use lan_mi_home.Cuktech.State.{ChargerState, apply_setting, protocol_extend, protocol_switches}

protocol_extend-some :
    (value : ℕ) (s : ChargerState) → lookup 21 s.settings ≡ some value → protocol_extend s ≡ value
unfolding protocol_extend lookup
protocol_extend-some value s e = rw (e, protocol_extend) refl

stored-apply_setting :
    (now value : ℕ) (s : ChargerState)
    → lookup 21 (apply_setting now 21 value s).settings ≡ some value
unfolding apply_setting
stored-apply_setting now value s = lookup-insert 21 21 value s.settings

pub protocol_switches-apply_setting :
    (now value : ℕ) (s : ChargerState)
    → protocol_switches (apply_setting now 21 value s) ≡ decode_protocol_extend value
unfolding protocol_switches
protocol_switches-apply_setting now value s =
    let stored = apply_setting now 21 value s in
    ap decode_protocol_extend (protocol_extend-some value stored (stored-apply_setting now value s))
