-- ===== src/LightStrip/Patch.antt =====
-- router/light_strip.py: `patch`, a command through the adapter.
use lan_mi_home.Base.{ℕ, ◌≤◌, Bool, true, not, ◌||◌, Option, none, some, ◌≡◌, if◌then◌else◌}
use lan_mi_home.Sp651e.{Result, ok, err, Changes}
use lan_mi_home.LightStrip.{
  Body, PatchError, Adapter, Report, Pending, protocol_pending, Unavailable, bad_request, not_ready,
  command_failed, command_unconfirmed, Transport, disabled, not_configured, is_attached,
  validate_patch, pending_status, agrees, power_agrees-some, brightness_agrees-some,
}
use lan_mi_home.LightStrip.State.{state, full_body, state-full}

-- HTTPStatus.NOT_IMPLEMENTED, and HTTPStatus.SERVICE_UNAVAILABLE
status_of : Pending → ℕ
status_of protocol_pending = 501
status_of _ = 503

-- The last test of `patch`, on what the adapter reports after the command.
confirmed : Changes → Report → Result Unavailable Report
unfolding agrees
confirmed c r = if not r.available || not (agrees c r) then err (command_unconfirmed 503) else ok r

module _ {T : Type 0} where
  -- The command itself, once nothing is pending. A transport that raises may have changed.
  command : Adapter → Transport T → Changes → T → T × Result Unavailable Report
  unfolding confirmed
  command a strip c t =
      let (t', returned) = strip.set_state c t in
      if returned then (t', confirmed c (state a strip t')) else (t', err (command_failed 503))

  -- A missing transport is found pending, and would else raise.
  run : Adapter → Option (Transport T) → Changes → T → T × Result Unavailable Report
  unfolding command
  run a none c t = (t, err (command_failed 503))
  run a (some strip) c t = command a strip c t

  checked :
      Adapter → Option (Transport T) → Result PatchError Changes → T → T × Result Unavailable Report
  unfolding status_of
  checked a strip (err e) t = (t, err (bad_request e))
  checked a strip (ok c) t = elim (pending_status a (is_attached strip)) [
    | some p ↦ (t, err (not_ready (status_of p) p))
    | none ↦ run a strip c t
  ]

  pub patch : Adapter → Option (Transport T) → Body → T → T × Result Unavailable Report
  patch a strip body t = checked a strip (validate_patch body) t

-- A transport that holds what it is told: after the command it reads back both values, valid, with those
-- that were asked for.
abbrev pub Obeys : {T : Type 0} → Transport T → Changes → T → Type 0
Obeys {T} strip c t =
    (power : Bool) × (b : ℕ) × ((strip.set_state c t).1 ≡ true)
    × (strip.read_state (strip.set_state c t).0 ≡ some (full_body power b))
    × (1 ≤ b)
    × (b ≤ 100)
    × ((p : Bool) → c.power ≡ some p → power ≡ p)
    × ((n : ℕ) → c.brightness ≡ some n → b ≡ n)

refused_status :
    {T : Type 0} (a : Adapter) (strip : Option (Transport T)) (c : Changes) (p : Pending) (t : T)
    → pending_status a (is_attached strip) ≡ some p
    → checked a strip (ok c) t
      ≡ (t, err (not_ready (elim p [ protocol_pending ↦ 501 | _ ↦ 503 ]) p))
unfolding checked status_of
refused_status a strip c disabled t e = rw (e, checked)
refused_status a strip c not_configured t e = rw (e, checked)
refused_status a strip c protocol_pending t e = rw (e, checked)

-- A body that does not pass, and an adapter that is not ready, leave the transport alone. The answer
-- is a bad request, or 501 where only the transport is missing, or else 503.
pub patch_refused :
    {T : Type 0} (a : Adapter) (strip : Option (Transport T)) (body : Body) (t : T)
    → ((e : PatchError)
        → validate_patch body ≡ err e
        → patch a strip body t ≡ (t, err (bad_request e)))
      × ((c : Changes) (p : Pending)
          → validate_patch body ≡ ok c
          → pending_status a (is_attached strip) ≡ some p
          → patch a strip body t
            ≡ (t, err (not_ready (elim p [ protocol_pending ↦ 501 | _ ↦ 503 ]) p)))
unfolding patch checked status_of
patch_refused a strip body t =
    (λ e bad. rw bad, λ c p good pending. rw (good, checked) (refused_status a strip c p t pending))

agrees-both :
    (c : Changes) (r : Report) (power : Bool) (b : ℕ)
    → r.power ≡ some power
    → r.brightness ≡ some b
    → ((p : Bool) → c.power ≡ some p → power ≡ p)
    → ((n : ℕ) → c.brightness ≡ some n → b ≡ n)
    → agrees c r ≡ true
unfolding agrees
agrees-both c r power b rp rb has_power has_brightness =
    rw (rp, rb)
      (rw (
        power_agrees-some c.power power has_power,
        brightness_agrees-some c.brightness b has_brightness,
      ))

confirmed_lem :
    (c : Changes) (r : Report) → r.available ≡ true → agrees c r ≡ true → confirmed c r ≡ ok r
unfolding confirmed
confirmed_lem c r available agreed = rw (available, agreed)

command-returned :
    {T : Type 0} (a : Adapter) (strip : Transport T) (c : Changes) (t : T)
    → (strip.set_state c t).1 ≡ true
    → command a strip c t
      ≡ ((strip.set_state c t).0, confirmed c (state a strip (strip.set_state c t).0))
unfolding command
command-returned a strip c t returned = rw (returned, command)

patch_confirmed :
    {T : Type 0} (a : Adapter) (strip : Transport T) (body : Body) (t : T) (c : Changes)
    (r : Report)
    → validate_patch body ≡ ok c
    → pending_status a true ≡ none
    → (strip.set_state c t).1 ≡ true
    → state a strip (strip.set_state c t).0 ≡ r
    → r.available ≡ true
    → agrees c r ≡ true
    → patch a (some strip) body t ≡ ((strip.set_state c t).0, ok r)
unfolding patch checked run
patch_confirmed a strip body t c r good idle returned shown available agreed =
    let answer = confirmed_lem c r available agreed in
    let ran = command-returned a strip c t returned in
    rw (good, checked) (rw (idle, checked) (rw (ran, shown, answer)))

-- On a ready adapter, over a transport that holds what it is told, an accepted body is passed on once,
-- and answered with an available report that shows the changes.
pub patch_obeyed :
    {T : Type 0} (a : Adapter) (strip : Transport T) (body : Body) (t : T) (c : Changes)
    → validate_patch body ≡ ok c
    → pending_status a true ≡ none
    → Obeys strip c t
    → (r : Report) × (patch a (some strip) body t ≡ ((strip.set_state c t).0, ok r))
      × (r.available ≡ true)
      × (agrees c r ≡ true)
patch_obeyed a strip body t c good idle obeys =
    let (power, b, returned, report, lo, hi, has_power, has_brightness) = obeys in
    let t' = (strip.set_state c t).0 in
    let (r, shown, available, r_power, r_brightness) =
      state-full a strip t' power b idle report lo hi in
    let agreed = agrees-both c r power b r_power r_brightness has_power has_brightness in
    (
      r,
      patch_confirmed a strip body t c r good idle returned shown available agreed,
      available,
      agreed,
    )
