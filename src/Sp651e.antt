-- ===== src/Sp651e.antt =====
-- router/sp651e.py: the frames of the SP651E light strip, one operation on the strip, and the cache of
-- the transport. The Bluetooth client is a parameter: what a write does to the strip and what a query
-- finds. The event loop, the locks and the timeouts show only as a write or a query that fails.
mod Tests
pub mod Brightness
pub mod Operate
pub mod Cache
use lan_mi_home.Base.{
  ℕ, ◌+◌, ◌*◌, ◌<◌, Bool, true, false, not, ◌&&◌, ◌||◌, Option, none, some, List, [], ◌∷◌, ◌++◌,
  ltb, ◌==◌, if◌then◌else◌, length, get_or, take,
}
use lan_mi_home.Base.Bytes.{Bytes, same, slice}
use lan_mi_home.Base.Text.{Text, word}
use lan_mi_home.Base.Float64.{of_ratio, round}

unfoldable pub frame : ℕ → Bytes → Bytes
frame command payload = 0x53 ∷ command ∷ 0 ∷ 1 ∷ 0 ∷ length payload ∷ payload

abbrev pub verified_firmware : Text
verified_firmware = word "V3020.07"

-- What `decode_status` returns.
pub record Status : Type 0 where
  pub power : Bool
  pub brightness : ℕ
  pub raw_brightness : ℕ
  pub firmware : Text
  pub mode : ℕ
  pub effect : ℕ

-- The ValueErrors of `decode_status`; `not_ascii` is the UnicodeDecodeError of the firmware.
pub data StatusError : Type 0 where
  invalid_frame not_ascii not_verified invalid_state : StatusError

pub data Result {ℓ} (E : Type 0) (A : Type ℓ) : Type ℓ where
  ok : A → Result E A
  err : E → Result E A

is_ascii : Bytes → Bool
is_ascii [] = true
is_ascii (b ∷ bs) = ltb b 128 && is_ascii bs

-- round(raw * 100 / 255), and round(percent * 255 / 100)
unfoldable pub percent_of : ℕ → ℕ
unfolding of_ratio round
percent_of raw = round (of_ratio (raw * 100) 255)

unfoldable pub raw_of : ℕ → ℕ
unfolding of_ratio round
raw_of percent = round (of_ratio (percent * 255) 100)

is_status_frame : Bytes → Bool
unfolding same
is_status_frame d =
    not (ltb (length d) 37)
    && same (take 5 d) (0x53 ∷ 2 ∷ 0 ∷ 1 ∷ 0 ∷ [])
    && length d == get_or d 5 0 + 6

pub decode_status : Bytes → Result StatusError Status
decode_status d =
    let firmware = slice 11 19 d in
    if not (is_status_frame d)
    then err invalid_frame
    else if not (is_ascii firmware)
    then err not_ascii
    else if not (same firmware verified_firmware) || not (get_or d 19 0 == 1)
    then err not_verified
    else if ltb 1 (get_or d 29 0) || get_or d 36 0 == 0
    then err invalid_state
    else ok (record {
      power = get_or d 29 0 == 1;
      brightness = percent_of (get_or d 36 0);
      raw_brightness = get_or d 36 0;
      firmware = firmware;
      mode = get_or d 32 0;
      effect = get_or d 33 0;
    })

-- The dict of changes: either key may be missing.
pub record Changes : Type 0 where
  pub power : Option Bool
  pub brightness : Option ℕ

-- int(b)
abbrev pub int_of : Bool → ℕ
int_of true = 1
int_of false = 0

brightness_frames : Option ℕ → Status → List Bytes
brightness_frames none current = []
brightness_frames (some percent) current =
    (if not (current.mode == 2) || not (current.effect == 1)
      then frame 0x53 (2 ∷ 1 ∷ []) ∷ []
      else [])
    ++ frame 0x51 (1 ∷ raw_of percent ∷ []) ∷ []

power_frames : Option Bool → List Bytes
power_frames none = []
power_frames (some p) = frame 0x50 (int_of p ∷ []) ∷ []

unfoldable pub control_frames : Changes → Status → List Bytes
unfolding brightness_frames power_frames
control_frames changes current =
    brightness_frames changes.brightness current ++ power_frames changes.power
