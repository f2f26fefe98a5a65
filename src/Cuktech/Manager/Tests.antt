-- ===== src/Cuktech/Manager/Tests.antt =====
-- A charger whose ports 2 and 4 were seen last a hundred seconds ago.
use lan_mi_home.Base.{◌||◌, some, [], ◌≡◌, refl, ◌==◌, if◌then◌else◌}
use lan_mi_home.Base.Dict.{lookup}
use lan_mi_home.Cuktech.Manager.{
  Clocks, is_active, age, is_stale, candidates, is_less, greatest, max_of, stale_candidate,
}
use lan_mi_home.Cuktech.Manager.Choice.{IsOldest, stale_candidate-IsOldest}

abbrev clocks : Clocks
clocks = record {
  last_seen = λ piid. if piid == 2 || piid == 4 then 20000 else 119000;
  last_poll = λ piid. 100000;
}

stale_candidate-IsOldest_example : IsOldest [] clocks 120000 (stale_candidate [] clocks 120000)
stale_candidate-IsOldest_example = stale_candidate-IsOldest [] clocks 120000

picks_fourth : stale_candidate [] clocks 120000 ≡ some 4
unfolding stale_candidate max_of greatest is_less candidates is_stale age is_active lookup
picks_fourth = refl
