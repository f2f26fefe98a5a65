-- ===== src/Sp651e/Operate.antt =====
-- router/sp651e.py: `_query` and `_operate`, over a client whose writes may fail, the checks on the last report included.
pub mod Obeyed
use lan_mi_home.Base.{
  ℕ, ◌≤◌, Bool, true, false, not, ◌&&◌, ◌||◌, Option, none, some, List, [], ◌∷◌, ◌≡◌, ◌∙◌, refl,
  sym, ap, arith, ◌==◌, if◌then◌else◌, take, ◌>>=◌, ◌++◌, Option-cases, inl, inr, Bool-cases,
}
use mathlib.Core.Path.{subst}
use lan_mi_home.Base.Bytes.{Bytes, same}
use lan_mi_home.Sp651e.{
  Status, Result, ok, err, Changes, int_of, frame, decode_status, control_frames, percent_of,
  raw_of, brightness_frames, power_frames, control_frames,
}
use lan_mi_home.Sp651e.Brightness.{percent_of-raw_of}

-- The first packet with the prefix of a status report, as `receive` finds it. `none`: nothing arrived
-- within three seconds, or `decode_status` raised.
first_report : List Bytes → Option Status
unfolding same
first_report [] = none
first_report (packet ∷ packets) =
    if same (take 2 packet) (0x53 ∷ 2 ∷ [])
    then elim (decode_status packet) [ ok s ↦ some s | err _ ↦ none ]
    else first_report packets

pub xor : Bool → Bool → Bool
xor true b = not b
xor false b = b

-- `if changes`
is_some {ℓ} : {A : Type ℓ} → Option A → Bool
is_some none = false
is_some (some _) = true

unfoldable pub has_changes : Option Changes → Bool
unfolding is_some
has_changes none = false
has_changes (some c) = is_some c.power || is_some c.brightness

-- dict(changes, power=changes.get("power", current["power"]))["power"]
pub expected_power : Changes → Status → Bool
expected_power c current = elim c.power [ none ↦ current.power | some p ↦ p ]

matches_brightness : Option ℕ → Status → Bool
matches_brightness none reported = true
matches_brightness (some b) reported = reported.brightness == b && reported.mode == 2

-- The checks on the last report: any mismatch raises.
pub confirm : Changes → Status → Status → Option Status
unfolding xor expected_power matches_brightness
confirm c current reported =
    if not (xor reported.power (expected_power c current))
      && matches_brightness c.brightness reported
    then some reported
    else none

module _ {D : Type 0} (write : Bytes → D → Option D) where
  -- `_query`: the queue is emptied, the question is written, and the packets that follow are read.
  pub query : (D → List Bytes × D) → D → Option (Status × D)
  unfolding first_report
  query packets d = do
    asked ← write (frame 2 (1 ∷ [])) d
    s ← first_report (packets asked).0
    some (s, (packets asked).1)

  pub write_all : List Bytes → D → Option D
  write_all [] d = some d
  write_all (f ∷ fs) d = write f d >>= write_all fs

module _ {D : Type 0} (write : Bytes → D → Option D) (read : D → Option (Status × D)) where
  -- The brightness command may switch the strip: the power is put back if it was not asked for.
  pub restore_power : Changes → Status → Status × D → Option (Status × D)
  unfolding is_some xor
  restore_power c current (reported, d) =
      if not (is_some c.power) && xor reported.power current.power
      then write (frame 0x50 (int_of current.power ∷ [])) d >>= read
      else some (reported, d)

  change : Changes → Status → D → Option (Status × D)
  unfolding confirm write_all restore_power
  change c current d = do
    d' ← write_all write (control_frames c current) d
    seen ← read d'
    reported ← restore_power c current seen
    s ← confirm c current reported.0
    some (s, reported.1)

  -- The session of `_operate` on a connected client; `none` is an exception, upon which the caller
  -- forgets the cached state and disconnects.
  pub operate : Option Changes → D → Option (Status × D)
  unfolding has_changes change
  operate none d = read d
  operate (some c) d = do
    current ← read d
    if has_changes (some c) then change c current.0 current.1 else some current
