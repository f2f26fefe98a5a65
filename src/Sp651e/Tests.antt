-- ===== src/Sp651e/Tests.antt =====
-- A strip as a value, on which the client's operations are run.
use lan_mi_home.Base.{
  ℕ, Bool, true, false, Option, none, some, List, [], ◌∷◌, ◌≡◌, refl, arith, ◌==◌, if◌then◌else◌,
  get_or,
}
use lan_mi_home.Base.Bytes.{Bytes}
use lan_mi_home.Sp651e.{Status, Changes, frame, int_of, percent_of, verified_firmware}
use lan_mi_home.Sp651e.Cache.{
  Event, connected, reported, failed, notified, read_state, after, fresh, last_report,
  read_state-after,
}
use lan_mi_home.Sp651e.Operate.{has_changes, expected_power, operate}
use lan_mi_home.Sp651e.Operate.Obeyed.{HasBrightness, operate_obeyed}

-- A strip that goes off at every brightness command.
strip_write : Bytes → Status → Option Status
strip_write f s =
    let command = get_or f 1 0 in
    if command == 0x50
    then some (record s { power = get_or f 6 0 == 1 })
    else if command == 0x51
    then some (record s {
      power = false;
      brightness = percent_of (get_or f 7 0);
      raw_brightness = get_or f 7 0;
    })
    else some (record s { mode = get_or f 6 0; effect = get_or f 7 0 })

abbrev strip_read : Status → Option (Status × Status)
strip_read s = some (s, s)

abbrev strip_view : Status → Status
strip_view s = s

bool-int_of : (p : Bool) → (int_of p == 1) ≡ p
bool-int_of true = refl
bool-int_of false = refl

strip_power :
    (p : Bool) (s : Status)
    → (s' : Status) × (strip_write (frame 0x50 (int_of p ∷ [])) s ≡ some s')
      × (s'.power ≡ p)
      × (s'.brightness ≡ s.brightness)
      × (s'.mode ≡ s.mode)
unfolding strip_write frame
strip_power p s = (record s { power = p }, rw (bool-int_of p), refl, refl, refl)

strip_mode :
    (s : Status)
    → (s' : Status) × (strip_write (frame 0x53 (2 ∷ 1 ∷ [])) s ≡ some s') × (s'.mode ≡ 2)
unfolding strip_write frame
strip_mode s = (record s { mode = 2; effect = 1 }, refl, refl)

strip_brightness :
    (raw : ℕ) (s : Status)
    → (s' : Status) × (strip_write (frame 0x51 (1 ∷ raw ∷ [])) s ≡ some s')
      × (s'.brightness ≡ percent_of raw)
      × (s'.mode ≡ s.mode)
unfolding strip_write frame
strip_brightness raw s = (
  record s { power = false; brightness = percent_of raw; raw_brightness = raw },
  refl,
  refl,
  refl,
)

abbrev lit : Status
lit = record {
  power = true;
  brightness = 100;
  raw_brightness = 255;
  firmware = verified_firmware;
  mode = 3;
  effect = 7;
}

abbrev dim : Changes
dim = record { power = none; brightness = some 30 }

dim_changes : has_changes (some dim) ≡ true
unfolding has_changes
dim_changes = refl

operate_obeyed_example :
    (s : Status) × (s' : Status) × (operate strip_write strip_read (some dim) lit ≡ some (s, s'))
    × (s.power ≡ expected_power dim lit)
    × HasBrightness (some 30) s
    × (s' ≡ s)
operate_obeyed_example =
    operate_obeyed strip_write strip_read strip_view (λ s. (s, refl, refl)) strip_power strip_mode
      strip_brightness dim lit dim_changes (omega arith)

-- A client connects, and the strip is read; then a client that is gone receives a packet.
abbrev strip_history : List Event
strip_history =
    notified 1 12000 (0x53 ∷ 2 ∷ []) ∷ reported 900 lit ∷ connected 2 ∷ failed ∷ connected 1 ∷ []

read_state-after_example :
    read_state 15000 (after strip_history) ≡ fresh 15000 (last_report strip_history)
read_state-after_example = read_state-after 15000 strip_history
