-- ===== src/Sp651e/Cache.antt =====
-- router/sp651e.py: the cached state of `SP651ETransport`. Times are readings of `monotonic()` in
-- milliseconds. The calls that touch the cache are events, given with what the client returned.
use lan_mi_home.Base.{
  ℕ, ◌-◌, Bool, Option, none, some, List, [], ◌∷◌, ◌≡◌, ◌∙◌, inl, inr, refl, ap, arith, false, ltb,
  ◌==◌, Bool-cases, if◌then◌else◌, take,
}
use lan_mi_home.Base.Bytes.{Bytes, same}
use lan_mi_home.Base.Text.{Text}
use lan_mi_home.Sp651e.{Status, ok, err, decode_status}

pub record Transport : Type 0 where
  pub firmware : Option Text
  pub mode : Option ℕ
  pub cached : Option (Bool × ℕ)
  pub updated : ℕ
  pub client : Option ℕ

abbrev pub init : Transport
init = record { firmware = none; mode = none; cached = none; updated = 0; client = none }

-- `_save`
save : ℕ → Status → Transport → Transport
save now s t = record t {
  firmware = some s.firmware;
  mode = some s.mode;
  cached = some (s.power, s.brightness);
  updated = now;
}

-- `none` is the ConnectionError.
pub read_state : ℕ → Transport → Option (Bool × ℕ)
read_state now t = if ltb (now - t.updated) 20000 then t.cached else none

-- A client of bleak is known by a number.
pub data Event : Type 0 where
  -- `_connect` ended with this client, or `_disconnect` took the client there was
  connected : ℕ → Event
  disconnected : Event
  -- `_run` begins a command, or `close` ends
  dropped : Event
  -- a poll, or a command by `_run`, ended with a report
  reported : ℕ → Status → Event
  -- a poll, or a command, raised: `_operate` drops the cache and disconnects
  failed : Event
  -- a client, current or not, received a packet
  notified : ℕ → ℕ → Bytes → Event

is_client : ℕ → Option ℕ → Bool
is_client client none = false
is_client client (some c) = client == c

-- `received`: what a packet with the prefix of a report holds, if it decodes
report_in : Bytes → Option Status
report_in packet =
    if same (take 2 packet) (0x53 ∷ 2 ∷ [])
    then elim (decode_status packet) [ ok s ↦ some s | err _ ↦ none ]
    else none

save_if : ℕ → Option Status → Transport → Transport
unfolding save
save_if now none t = t
save_if now (some s) t = save now s t

pub step : Event → Transport → Transport
unfolding save_if report_in is_client
step (connected client) t = record t { client = some client }
step disconnected t = record t { client = none }
step dropped t = record t { cached = none }
step (reported now s) t = save now s t
step failed t = record t { cached = none; client = none }
step (notified client now packet) t =
    if is_client client t.client then save_if now (report_in packet) t else t

-- The transport after a list of events, the latest first.
pub after : List Event → Transport
unfolding step
after [] = init
after (e ∷ earlier) = step e (after earlier)

-- The client that connected last, if it was not disconnected since.
pub connected_now : ℕ → List Event → Bool
connected_now client [] = false
connected_now client (connected c ∷ earlier) = client == c
connected_now client (disconnected ∷ earlier) = false
connected_now client (failed ∷ earlier) = false
connected_now client (_ ∷ earlier) = connected_now client earlier

-- The last report of a history, unless the cache was dropped after it. A packet counts where it decodes
-- and came from the client that was connected.
found_or : Option Status → ℕ → Option (ℕ × Status) → Option (ℕ × Status)
found_or none now before = before
found_or (some s) now before = some (now, s)

pub last_report : List Event → Option (ℕ × Status)
unfolding found_or report_in connected_now
last_report [] = none
last_report (connected client ∷ earlier) = last_report earlier
last_report (disconnected ∷ earlier) = last_report earlier
last_report (dropped ∷ earlier) = none
last_report (reported now s ∷ earlier) = some (now, s)
last_report (failed ∷ earlier) = none
last_report (notified client now packet ∷ earlier) =
    let before = last_report earlier in
    if connected_now client earlier then found_or (report_in packet) now before else before

-- What a reader is shown of a report.
abbrev pub fresh : ℕ → Option (ℕ × Status) → Option (Bool × ℕ)
fresh now none = none
fresh now (some (at, s)) = if ltb (now - at) 20000 then some (s.power, s.brightness) else none

-- A transport that stands for a report.
abbrev Holds : Option (ℕ × Status) → Transport → Type 0
Holds none t = t.cached ≡ none
Holds (some (at, s)) t = (t.cached ≡ some (s.power, s.brightness)) × (t.updated ≡ at)

save_if-Holds :
    (found : Option Status) (now : ℕ) (before : Option (ℕ × Status)) (t : Transport)
    → Holds before t
    → Holds (found_or found now before) (save_if now found t)
unfolding save_if found_or
save_if-Holds none now before t h = h
save_if-Holds (some s) now before t h = (refl, refl)

same_cache :
    (report : Option (ℕ × Status)) (t : Transport) (client : Option ℕ)
    → Holds report t
    → Holds report (record t { client = client })
same_cache none t client h = h
same_cache (some r) t client h = h

save_if-client :
    (found : Option Status) (now : ℕ) (t : Transport) → (save_if now found t).client ≡ t.client
unfolding save_if save
save_if-client none now t = refl
save_if-client (some s) now t = refl

-- The current client of the transport is the one that is connected.
after-connected_now :
    (client : ℕ) (events : List Event)
    → is_client client (after events).client ≡ connected_now client events
unfolding after connected_now is_client step save
after-connected_now client [] = refl
after-connected_now client (connected c ∷ earlier) = refl
after-connected_now client (disconnected ∷ earlier) = refl
after-connected_now client (dropped ∷ earlier) = after-connected_now client earlier
after-connected_now client (reported now s ∷ earlier) = after-connected_now client earlier
after-connected_now client (failed ∷ earlier) = refl
after-connected_now client (notified c now packet ∷ earlier) =
    let before = after-connected_now client earlier in
    let kept = save_if-client (report_in packet) now (after earlier) in
    elim (Bool-cases (is_client c (after earlier).client)) [
      | inl e ↦ rw e (ap (is_client client) kept ∙ before)
      | inr e ↦ rw e before
    ]

after-Holds : (events : List Event) → Holds (last_report events) (after events)
unfolding last_report after step save
after-Holds [] = refl
after-Holds (connected client ∷ earlier) =
    same_cache (last_report earlier) _ _ (after-Holds earlier)
after-Holds (disconnected ∷ earlier) = same_cache (last_report earlier) _ _ (after-Holds earlier)
after-Holds (dropped ∷ earlier) = refl
after-Holds (reported now s ∷ earlier) = (refl, refl)
after-Holds (failed ∷ earlier) = refl
after-Holds (notified client now packet ∷ earlier) =
    let known = after-connected_now client earlier in
    let before = after-Holds earlier in
    elim (Bool-cases (connected_now client earlier)) [
      | inl e ↦
          rw (known ∙ e, e)
            (save_if-Holds (report_in packet) now (last_report earlier) (after earlier) before)
      | inr e ↦ rw (known ∙ e, e) before
    ]

fresh-read_state :
    (now : ℕ) (report : Option (ℕ × Status)) (t : Transport)
    → Holds report t
    → read_state now t ≡ fresh now report
unfolding read_state
fresh-read_state now none t h = ground arith
fresh-read_state now (some r) t h = ground arith

-- After any history of connections, commands, polls, failures and packets, a reader is shown the last
-- report of the strip that was not dropped since, if it is less than 20 seconds old, and else is
-- refused. A packet of a client that is not the connected one is no report.
pub read_state-after :
    (now : ℕ) (events : List Event) → read_state now (after events) ≡ fresh now (last_report events)
read_state-after now events =
    fresh-read_state now (last_report events) (after events) (after-Holds events)
