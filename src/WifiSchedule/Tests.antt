-- ===== src/WifiSchedule/Tests.antt =====
-- A slot over midnight, the calls of ten minutes, and a modem that obeys.
use lan_mi_home.Base.{
  ℕ, ◌+◌, ◌*◌, ◌≤◌, ◌<◌, Bool, true, false, some, none, List, [], ◌∷◌, ◌≡◌, refl, arith,
}
use lan_mi_home.Base.Text.{word}
use lan_mi_home.Sp651e.{ok}
use lan_mi_home.WifiSchedule.{
  Saved, minutes, time_of, local_minutes, slot_at, check_slot, schedule_slot,
}
use lan_mi_home.WifiSchedule.Slot.{begins_at, ends_at, schedule_slot-begins_at}
use lan_mi_home.WifiSchedule.Spaced.{Call, Spaced, reconcile_all, reconcile_all-Spaced}
use lan_mi_home.WifiSchedule.Modem.{Band, band_2g, band_5g, Radios, is_on, Modem, set_enabled}
use lan_mi_home.WifiSchedule.Modem.Obeyed.{other, Obeys, set_enabled-obeyed}

-- 16:00 in UTC of the day 739000 is midnight of the next in China.
abbrev midnight : ℕ
midnight = (739000 * 1440 + 960) * 60000000

off_since_evening :
    schedule_slot (some midnight) (word "06:10") (word "23:15") ≡ ok (false, (739000, word "23:15"))
unfolding schedule_slot check_slot minutes time_of slot_at local_minutes
off_since_evening = refl

local_midnight : local_minutes midnight ≡ 739001 * 1440
unfolding local_minutes
local_midnight = refl

schedule_slot-begins_at_example :
    (on_minute : ℕ) × (off_minute : ℕ) × (minutes (word "06:10") ≡ some on_minute)
    × (minutes (word "23:15") ≡ some off_minute)
    × (begins_at on_minute off_minute false 739000 ≤ local_minutes midnight)
    × (local_minutes midnight < ends_at on_minute off_minute false 739000)
    × (word "23:15" ≡ word "23:15")
schedule_slot-begins_at_example =
    schedule_slot-begins_at midnight (word "06:10") (word "23:15") false 739000 (word "23:15")
      off_since_evening (omega (arith, local_midnight))

abbrev nothing_saved : Saved
nothing_saved = record { slot = none; boot_id = none; attempted_at = 0; confirmed = false }

-- The calls of ten minutes; the modem answers from the sixth minute on.
abbrev calls : List Call
calls =
    (600000000, true) ∷ (360000000, true) ∷ (299999999, false) ∷ (60000000, false) ∷ (0, false) ∷ []

reconcile_all-Spaced_example :
    Spaced (reconcile_all (739000, word "23:15") (word "boot") nothing_saved calls).1
reconcile_all-Spaced_example =
    reconcile_all-Spaced (739000, word "23:15") (word "boot") nothing_saved calls
      (omega arith, (omega arith, (omega arith, (omega arith, tt))))

post : Band → Bool → Radios → Radios
post band_2g on r = record r { on_2g = on }
post band_5g on r = record r { on_5g = on }

modem : Modem Radios
unfolding post
modem = record {
  radios = λ r. (r, ok r);
  control_page = λ band r. (r, ok true);
  post = λ band on r. (post band on r, ok tt);
  sleep = λ seconds r. r;
}

switched : (band : Band) (on : Bool) (r : Radios) → is_on band (post band on r) ≡ on
unfolding post
switched band_2g on r = refl
switched band_5g on r = refl

kept :
    (band : Band) (on : Bool) (r : Radios)
    → is_on (other band) (post band on r) ≡ is_on (other band) r
unfolding post
kept band_2g on r = refl
kept band_5g on r = refl

modem-Obeys : Obeys modem (λ r. r) post
unfolding modem
modem-Obeys = record {
  reports = λ r. refl;
  verified = λ band r. refl;
  takes = λ band on r. refl;
  switched = switched;
  kept = kept;
  waits = λ r. refl;
}

abbrev half_on : Radios
half_on = record { on_2g = true; on_5g = false }

set_enabled-obeyed_example :
    (m' : Radios) × (set_enabled modem true false half_on ≡ (m', ok m'))
    × (m'.on_2g ≡ true)
    × (m'.on_5g ≡ true)
    × (false ≡ false → true ≡ true → false ≡ true → m' ≡ half_on)
set_enabled-obeyed_example = set_enabled-obeyed modem (λ r. r) post modem-Obeys true false half_on
