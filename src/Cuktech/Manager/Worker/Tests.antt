-- ===== src/Cuktech/Manager/Worker/Tests.antt =====
-- A charger that answers and sends a push of PIID 17, and whose link lasts for one operation.
use lan_mi_home.Base.{ℕ, ◌+◌, true, false, some, List, [], ◌∷◌, leb}
use lan_mi_home.Base.Bytes.{Bytes}
use lan_mi_home.Cuktech.State.{init}
use lan_mi_home.Cuktech.Miot.{MiotResult, result_of}
use lan_mi_home.Cuktech.Controller.{Controller, returned, Link, set_property}
use lan_mi_home.Cuktech.Manager.Site.{Site, Radio, Waiting, nothing, given_up, operation}

-- A push of PIID 17.
abbrev push : Bytes
push = 0 ∷ 0 ∷ 0 ∷ 0 ∷ 4 ∷ 0 ∷ 2 ∷ 17 ∷ 0 ∷ 4 ∷ 0 ∷ 2 ∷ 0 ∷ 3 ∷ 0 ∷ []

-- Its state is a count of the calls.
abbrev charger : Link ℕ
charger = record {
  clock = λ d. 7;
  connect = λ d. (d + 1, returned tt);
  read_device_info =
      λ d. (d + 1, returned (record { model = []; firmware = []; protocol_version = [] }));
  authenticate = λ d. (d + 1, returned tt);
  disconnect = λ d. (d + 1, returned tt);
  get = λ piid d. (d + 1, returned (result_of 2 piid (some 1)));
  set = λ piid value d. (d + 1, returned (result_of 2 piid (some value)));
  next_plaintext = λ d. (d + 1, returned (some push));
}

abbrev radio : Radio ℕ
radio = record {
  monotonic = λ d. 1000;
  is_stopping = λ d. false;
  is_connected = λ d. leb d 40;
  is_authenticated = λ d. true;
  keepalive = λ d. (d + 1, returned tt);
  init_frames = λ d. 1;
}

abbrev operations : List (Waiting ℕ MiotResult)
operations = operation (set_property charger 5 2 false) ∷ given_up ∷ nothing ∷ nothing ∷ []

abbrev site : Site ℕ
site = record {
  device = 0;
  book = record {
    clocks = record { last_seen = λ _. 0; last_poll = λ _. 0 };
    last_settings_refresh = 0;
    last_keepalive = 0;
    told = [];
  };
}

abbrev controller : Controller
controller = record { state = init; pending_events = [] }
