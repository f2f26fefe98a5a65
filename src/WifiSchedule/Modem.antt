-- ===== src/WifiSchedule/Modem.antt =====
-- modem_wifi_schedule.py: `set_enabled` over the modem, a parameter: what the pages of its radios say,
-- and what a change does. A radio is its band; its domain is left out, and so are the texts of the pages.
pub mod Obeyed
use lan_mi_home.Base.{
  ℕ, zero, suc, Bool, true, false, not, ◌&&◌, ◌||◌, List, [], ◌∷◌, ◌≡◌, if◌then◌else◌,
}
use lan_mi_home.Sp651e.{Result, ok, err}

pub data Band : Type 0 where
  band_2g band_5g : Band

-- What both radios report.
pub record Radios : Type 0 where
  pub on_2g : Bool
  pub on_5g : Bool

abbrev pub is_on : Band → Radios → Bool
is_on band_2g r = r.on_2g
is_on band_5g r = r.on_5g

pub data ModemError : Type 0 where
  request_failed unverified_mode readback_failed not_confirmed : ModemError

-- A call changes the modem, and returns or raises. `control_page` is whether the page of a band shows the
-- verified mode; `post` sends the change, with the token of that page.
pub record Modem (M : Type 0) : Type 0 where
  pub radios : M → M × Result ModemError Radios
  pub control_page : Band → M → M × Result ModemError Bool
  pub post : Band → Bool → M → M × Result {0} ModemError Unit
  pub sleep : (seconds : ℕ) → M → M

abbrev same_bool : Bool → Bool → Bool
same_bool true b = b
same_bool false b = not b

abbrev pub Call : Type 0 → Type 0 → Type 0
Call M A = M → M × Result ModemError A

module _ {M : Type 0} where
  abbrev pub continue :
      {A B : Type 0} → (A → Call M B) → M × Result ModemError A → M × Result ModemError B
  continue next (m, ok a) = next a m
  continue next (m, err e) = (m, err e)

  infixl 5 ◌>>=◌
  unfoldable pub ◌>>=◌ : {A B : Type 0} → Call M A → (A → Call M B) → Call M B
  (f >>= next) m = continue next (f m)

  abbrev pub return : {A : Type 0} → A → Call M A
  return a m = (m, ok a)

  abbrev pub raise : {A : Type 0} → ModemError → Call M A
  raise e m = (m, err e)

module _ {M : Type 0} (modem : Modem M) (enabled : Bool) where
  wait : Call M Unit
  wait m = (modem.sleep 2 m, ok tt)

  -- The loop of five readings.
  confirm_band : ℕ → Band → Call M Unit
  unfolding wait
  confirm_band zero band = raise readback_failed
  confirm_band (suc attempts) band = do
    _ ← wait
    r ← modem.radios
    if same_bool (is_on band r) enabled then return tt else confirm_band attempts band

  change_band : Band → Call M Unit
  unfolding confirm_band
  change_band band = do
    verified ← modem.control_page band
    if not verified
        then raise unverified_mode
        else (do _ ← modem.post band enabled; confirm_band 5 band)

  -- A band that is as asked for is left alone, unless the change is forced.
  set_band : Bool → Band → Call M Unit
  unfolding change_band
  set_band true band = change_band band
  set_band false band = do
    r ← modem.radios
    if same_bool (is_on band r) enabled then return tt else change_band band

  both_confirmed : Radios → Bool
  both_confirmed r = same_bool r.on_2g enabled && same_bool r.on_5g enabled

  unfoldable pub set_enabled : Bool → Call M Radios
  unfolding set_band both_confirmed
  set_enabled force = do
    _ ← modem.radios
    _ ← set_band force band_2g
    _ ← set_band force band_5g
    actual ← modem.radios
    if both_confirmed actual then return actual else raise not_confirmed
