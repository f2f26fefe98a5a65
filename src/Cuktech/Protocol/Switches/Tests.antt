-- ===== src/Cuktech/Protocol/Switches/Tests.antt =====
-- Runs of the switches of PIID 21.
use lan_mi_home.Base.{◌≡◌, refl, true, false, some, ◌&&◌, if◌then◌else◌}
use lan_mi_home.Base.Bits.{and_not}
use lan_mi_home.Base.Bytes.{same}
use lan_mi_home.Base.Text.{word, lower, find}
use lan_mi_home.Cuktech.Protocol.Switches.{
  ok, err, not_exposed, decode_protocol_extend, set_protocol_switch,
}
use lan_mi_home.Cuktech.Protocol.Switches.Laws.{switch_at, set_protocol_switch-decode}

clear_pd : set_protocol_switch 0x0303070F (word "C1") (word "PD") false ≡ ok 0x03030F0E
unfolding set_protocol_switch lower find same and_not
clear_pd = refl

no_such_protocol :
    set_protocol_switch 0 (word "a") (word "pd") true ≡ err (not_exposed (word "a") (word "pd"))
unfolding set_protocol_switch lower find same
no_such_protocol = refl

set_protocol_switch-decode_example :
    switch_at (word "c1") (word "pd") (decode_protocol_extend 0x03030F0E) ≡ (
      if same (lower (word "C1")) (word "c1") && same (lower (word "PD")) (word "pd")
      then some false
      else switch_at (word "c1") (word "pd") (decode_protocol_extend 0x0303070F))
set_protocol_switch-decode_example =
    set_protocol_switch-decode 0x0303070F (word "C1") (word "PD") false clear_pd (word "c1")
      (word "pd")
