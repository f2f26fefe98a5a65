-- ===== src/W96d/Tests.antt =====
-- A fan as a memory of its characteristics.
use lan_mi_home.Base.{
  Option, ◌||◌, ℕ, Bool, true, false, none, some, [], ◌∷◌, ◌≡◌, inl, ◌⊎◌, refl, arith, ◌==◌,
  if◌then◌else◌,
}
use lan_mi_home.Base.Bytes.{Bytes, same, to_be16}
use lan_mi_home.Base.Text.{Table, word, find}
use lan_mi_home.W96d.{
  Json, boolean, integer, Raised, client_error, Manager, fields, has_unknown, is_allowed, as_bool,
  as_int, within,
}
use lan_mi_home.W96d.Refresh.{W96dState, initial, decode_reads, refresh, refresh-stored}
use lan_mi_home.W96d.Coordinated.{Coordinated, coordinated_patch}
use lan_mi_home.W96d.Coordinated.Equal.{coordinated_patch-eq-patch}
use lan_mi_home.W96d.Coordinated.Refresh.{Refresher, refresh_cycle}
use lan_mi_home.W96d.Coordinated.Refresh.Complete.{reads_on, answers, refresh_cycle-decode_reads}
use lan_mi_home.W96d.Writes.{Obeys, IsExclusive}
use lan_mi_home.W96d.Exclusive.{patch-IsExclusive}
use lan_mi_home.W96d.Patch.{patch}
use lan_mi_home.W96d.Commands.{Stores}
use lan_mi_home.W96d.Asked.{Request, Asks, wanted, patch-wanted}

abbrev Fan : Type 0
Fan = ℕ → Bytes

abbrev store : ℕ → Bytes → Fan → Fan × Bool
store c bytes fan = ((λ x. if c == x then bytes else fan x), true)

abbrev attach : Fan → Fan × Bool
attach fan = (fan, true)

abbrev read : ℕ → Fan → Bytes
read x fan = fan x

store-Stores : Stores read store
store-Stores c bytes fan = (refl, λ x. refl)

store-Obeys : Obeys read store
store-Obeys c bytes fan = (
  λ x apart. let e : (c == x) ≡ false = ground arith in rw e refl,
  let e : (c == c) ≡ true = ground arith in inl (rw e refl),
)

abbrev fan : Fan
fan x = 0 ∷ []

abbrev manager : Manager
manager = record { enabled = true; paused = false }

-- The fields in another order than that of their writes.
abbrev body : Table Json
body = (word "timer_seconds", integer 600) ∷ (word "power", boolean true) ∷ []

known_body : has_unknown body ≡ false
unfolding has_unknown is_allowed fields same
known_body = refl

abbrev request : Request
request = record {
  indicator = none;
  speed = none;
  natural = none;
  turbo = none;
  power = some true;
  timer_seconds = some 600;
  sleep_delay_seconds = none;
  gear_down_mode = none;
  turbo_time_seconds = none;
  battery_profile = none;
}

body-Asks : Asks body request
unfolding find same as_bool as_int within
body-Asks = (
  refl,
  refl,
  refl,
  refl,
  (boolean true, refl, refl),
  (integer 600, refl, refl),
  refl,
  refl,
  refl,
  refl,
)

abbrev read_back : ℕ → Fan → Option Bytes
read_back x fan = some (fan x)

patch-IsExclusive_example :
    IsExclusive read
      (patch attach store read_back manager ((word "turbo", boolean true) ∷ []) fan initial).0.0
patch-IsExclusive_example =
    patch-IsExclusive read attach store store-Obeys read_back manager
      ((word "turbo", boolean true) ∷ []) fan initial (inl refl) (inl refl)

patch-wanted_example :
    ((patch attach store read_back manager body fan initial).1 ≡ none)
    × ((x : ℕ)
        → read x (patch attach store read_back manager body fan initial).0.0
          ≡ wanted request x (read x fan))
patch-wanted_example =
    patch-wanted read attach store store-Stores read_back manager body request fan initial
      (λ _ _. refl) refl refl refl known_body body-Asks

-- A fan that blows at 30 with its light on, for ten minutes.
abbrev busy_fan : Fan
busy_fan x =
    if x == 0xFFF2
    then 2 ∷ 88 ∷ []
    else if x == 0xFFF3
    then 30 ∷ []
    else if x == 0xFFF4 || x == 0xFFF6
    then 0 ∷ []
    else if x == 0xFFF5 || x == 0xFFF8
    then 0 ∷ 10 ∷ []
    else 1 ∷ []

refresh-stored_example :
    (s' : W96dState) × (refresh read_back busy_fan initial ≡ some s')
    × (s'.power ≡ some true)
    × (s'.natural ≡ some false)
    × (s'.indicator ≡ some true)
    × (s'.speed ≡ some 30)
    × (s'.timer_remaining_seconds ≡ some 600)
    × (s'.sleep_delay_seconds ≡ some 10)
    × (s'.gear_down_mode ≡ some 0)
    × (s'.turbo_time_seconds ≡ some 10)
unfolding to_be16
refresh-stored_example =
    refresh-stored read_back read busy_fan initial true false true 30 600 10 0 10 (λ x. refl) refl
      refl refl refl refl refl refl refl

abbrev calm : Coordinated
calm = record { state = initial; force_settings = false; force_telemetry = false }

coordinated_patch-eq-patch_example :
    ((coordinated_patch attach store true manager body fan calm).0.0
      ≡ (patch attach store read_back manager body fan initial).0.0)
    × ((e : Raised)
        → (coordinated_patch attach store true manager body fan calm).1 ≡ some e
        → (patch attach store read_back manager body fan initial).1 ≡ some e)
    × ((coordinated_patch attach store true manager body fan calm).1 ≡ none
        → ((s' : W96dState) × (refresh read_back
                (coordinated_patch attach store true manager body fan calm).0.0
                initial
              ≡ some s')
            × ((patch attach store read_back manager body fan initial).1 ≡ none))
          ⊎ ((refresh read_back
                  (coordinated_patch attach store true manager body fan calm).0.0
                  initial
                ≡ none)
              × ((patch attach store read_back manager body fan initial).1 ≡ some client_error)))
coordinated_patch-eq-patch_example =
    coordinated_patch-eq-patch attach store read_back manager body fan calm initial

-- Every characteristic has eight bytes.
abbrev long : ℕ → ℕ → Bytes
long x d = 0 ∷ 0 ∷ 0 ∷ 0 ∷ 0 ∷ 0 ∷ 0 ∷ 0 ∷ []

abbrev refresher : Refresher
refresher = record {
  cycle = 0;
  failed_refreshes = 2;
  force_settings = false;
  force_telemetry = false;
  initial = true;
  state = initial;
}

refresh_cycle-decode_reads_example : refresh_cycle (answers long) (λ d. true) 0 refresher ≡ (
  0,
  record refresher {
    cycle = 1;
    failed_refreshes = 0;
    force_settings = false;
    force_telemetry = false;
    initial = false;
    state = decode_reads (reads_on long 0) initial;
  },
  true,
)
refresh_cycle-decode_reads_example =
    refresh_cycle-decode_reads long 0 (λ d. true) refresher refl
      (
        omega arith,
        omega arith,
        omega arith,
        omega arith,
        omega arith,
        omega arith,
        omega arith,
        omega arith,
        omega arith,
        omega arith,
        omega arith,
        omega arith,
        omega arith,
      )
