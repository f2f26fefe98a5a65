-- ===== src/Cuktech/Manager/Worker.antt =====
-- manager.py: one connection of `_worker`, as operations of its controller over a site.
mod Polls
mod Guards
mod Affected
pub mod Valid
mod Tests
use lan_mi_home.Base.{
  ℕ, zero, suc, ◌-◌, Bool, true, false, not, ◌&&◌, ◌||◌, Option, none, some, List, [], ◌∷◌, leb,
  ◌==◌, if◌then◌else◌,
}
use lan_mi_home.Base.Bytes.{Bytes}
use lan_mi_home.Cuktech.Protocol.{PortReading, PropertyPush}
use lan_mi_home.Cuktech.Controller.{
  DeviceEvent, port_event, property_event, Fault, link_error, Link, Run, on_link, return, raise,
  ◌>>=◌, connect, authenticate, disconnect, refresh_settings, poll_port_result, process_next,
}
use lan_mi_home.Cuktech.Manager.{stale_candidate}
use lan_mi_home.Cuktech.Manager.Site.{
  settings_refresh_after, keepalive_after, told_reading, told_connecting, told_connected,
  told_authenticated, told_failed, Book, Site, Radio, Waiting, nothing, given_up, operation,
  new_book, set_clock, on_controller, on_radio, ask, edit, read_book, controller_state, drain,
  except, skip, tell, emit_settings,
}

module _ {D : Type 0} (link : Link D) (radio : Radio D) where
  -- last_seen[piid] = time.monotonic(), and _emit_reading
  pub emit_seen : PortReading → Run (Site D) Unit
  unfolding ask edit set_clock tell
  emit_seen reading = do
    now ← ask radio.monotonic
    _ ← edit λ b. record b {
      clocks = record b.clocks { last_seen = set_clock reading.piid now b.clocks.last_seen };
    }
    tell (told_reading reading)

  pub emit_device_event : DeviceEvent → Run (Site D) Unit
  unfolding emit_seen emit_settings
  emit_device_event (port_event reading _) = emit_seen reading
  emit_device_event (property_event _) = emit_settings

  pub emit_events : List DeviceEvent → Run (Site D) Unit
  unfolding emit_device_event
  emit_events [] = skip
  emit_events (event ∷ events) = do _ ← emit_device_event event; emit_events events

  pub emit_pending_events : Run (Site D) Unit
  unfolding drain emit_events
  emit_pending_events = do events ← drain; emit_events events

  -- What a poll has found.
  pub show_reading : ℕ → Option PortReading → Run (Site D) Unit
  unfolding ask edit set_clock tell
  show_reading piid none = skip
  show_reading piid (some reading) = do
    now ← ask radio.monotonic
    _ ← edit λ b. record b {
      clocks = record b.clocks { last_seen = set_clock piid now b.clocks.last_seen };
    }
    tell (told_reading reading)

  -- A poll of a port, wherever the worker makes one.
  pub poll_one : ℕ → Run (Site D) Unit
  unfolding on_controller ask edit set_clock emit_pending_events show_reading
  poll_one piid = do
    polled ← on_controller (poll_port_result link piid)
    now ← ask radio.monotonic
    _ ← edit λ b. record b {
      clocks = record b.clocks { last_poll = set_clock piid now b.clocks.last_poll };
    }
    _ ← emit_pending_events
    show_reading piid polled.0

  pub poll_each : List ℕ → Run (Site D) Unit
  unfolding poll_one
  poll_each [] = skip
  poll_each (piid ∷ piids) = do _ ← poll_one piid; poll_each piids

  -- `if self._stop.is_set() or not controller.connected: break`
  is_off : D → Bool
  is_off d = radio.is_stopping d || not (radio.is_connected d)

  -- The first polls.
  pub poll_first : List ℕ → Run (Site D) Unit
  unfolding poll_one ask is_off
  poll_first [] = skip
  poll_first (piid ∷ piids) = do
    off ← ask is_off
    if off then skip else (poll_one piid >>= λ _. poll_first piids)

  -- drain_initial_events: a turn of its loop takes a frame, so there are as many as there are frames.
  pub drain_initial : ℕ → Run (Site D) Unit
  unfolding on_controller
  drain_initial zero = skip
  drain_initial (suc frames) = do
    plaintext ← on_controller (on_link link.next_plaintext)
    _ ← on_controller (process_next link plaintext)
    drain_initial frames

  reload_settings : Run (Site D) Unit
  unfolding on_controller emit_pending_events ask edit emit_settings
  reload_settings = do
    _ ← on_controller (refresh_settings link)
    _ ← emit_pending_events
    now ← ask radio.monotonic
    _ ← edit λ b. record b { last_settings_refresh = now }
    emit_settings

  -- Within the setup lock: whether the worker goes on.
  setup : Run (Site D) Bool
  unfolding ask tell on_controller
  setup = do
    stopping ← ask radio.is_stopping
    if stopping then return false else (do
      _ ← tell told_connecting
      _ ← on_controller (connect link)
      _ ← tell told_connected
      _ ← on_controller (authenticate link)
      _ ← tell told_authenticated
      return true)

  -- The callback, and what follows it in the `try`.
  carry_out : {A : Type 0} → Run D A → Run (Site D) Unit
  unfolding on_controller emit_pending_events emit_settings
  carry_out callback = do _ ← on_controller callback; _ ← emit_pending_events; emit_settings

  -- `_run_one_operation`: an operation whose charger is not ready is refused, and one that raises tells
  -- nothing; either way the worker goes on. The result says whether there was an operation.
  pub run_one_operation : {A : Type 0} → Waiting D A → Run (Site D) Bool
  unfolding ask except carry_out
  run_one_operation nothing = return false
  run_one_operation given_up = return true
  run_one_operation (operation callback) = do
    ready ← ask λ d. radio.is_connected d && radio.is_authenticated d
    _ ← if not ready then skip else except (carry_out callback) (λ _. skip)
    return true

  -- The ports of a report of hardware numbers.
  pub affected : ℕ → List ℕ
  affected piid = if piid == 17 then 1 ∷ 2 ∷ [] else if piid == 18 then 3 ∷ 4 ∷ [] else []

  on_event : Option DeviceEvent → Run (Site D) Unit
  unfolding emit_device_event poll_each affected
  on_event none = skip
  on_event (some (port_event reading prop)) = do
    _ ← emit_device_event (port_event reading prop)
    poll_each (affected prop.piid)
  on_event (some (property_event prop)) = do
    _ ← emit_device_event (property_event prop)
    poll_each (affected prop.piid)

  -- What arrived within the timeout of the loop, at a time, or nothing.
  on_window : ℕ → Option Bytes → Run (Site D) Unit
  unfolding on_controller on_event read_book reload_settings
  on_window now (some plaintext) = do
    event ← on_controller (process_next link (some plaintext))
    on_event event
  on_window now none = do
    book ← read_book
    if leb settings_refresh_after (now - book.last_settings_refresh) then reload_settings else skip

  keep_alive : ℕ → Run (Site D) Unit
  unfolding read_book on_radio edit
  keep_alive now = do
    book ← read_book
    (if leb keepalive_after (now - book.last_keepalive)
        then (on_radio radio.keepalive >>= λ _. edit λ b. record b { last_keepalive = now })
        else skip)

  poll_stale : ℕ → Run (Site D) Unit
  unfolding read_book controller_state poll_one
  poll_stale now = do
    book ← read_book
    state ← controller_state
    elim (stale_candidate state.ports book.clocks now) [ none ↦ skip | some piid ↦ poll_one piid ]

  after_operation : Run (Site D) Unit
  unfolding ask edit
  after_operation = do
    now ← ask radio.monotonic
    edit λ b. record b { last_settings_refresh = now; last_keepalive = now }

  monitor : Run (Site D) Unit
  unfolding on_controller ask on_window keep_alive poll_stale
  monitor = do
    plaintext ← on_controller (on_link link.next_plaintext)
    now ← ask radio.monotonic
    _ ← on_window now plaintext
    _ ← keep_alive now
    poll_stale now

  -- A turn of the loop, with the head of the queue.
  worker_turn : {A : Type 0} → Waiting D A → Run (Site D) Unit
  unfolding run_one_operation after_operation monitor
  worker_turn waiting = do ran ← run_one_operation waiting; if ran then after_operation else monitor

  -- The loop for so many turns at most, each with the head of the queue; when it ends, a link that is lost
  -- is an exception.
  pub worker_turns : {A : Type 0} → List (Waiting D A) → Run (Site D) Unit
  unfolding ask is_off worker_turn
  worker_turns [] = skip
  worker_turns (waiting ∷ operations) = do
    off ← ask is_off
    stopping ← ask radio.is_stopping
    (if off
        then (if stopping then skip else raise link_error)
        else (worker_turn waiting >>= λ _. worker_turns operations))

  -- From the setup on: false says that the manager stops.
  pub connection : {A : Type 0} → List (Waiting D A) → Run (Site D) Unit
  unfolding setup ask drain_initial reload_settings poll_first worker_turns
  connection operations = do
    goes_on ← setup
    if not goes_on then skip else (do
      frames ← ask radio.init_frames
      _ ← drain_initial frames
      _ ← reload_settings
      _ ← poll_first (1 ∷ 2 ∷ 3 ∷ 4 ∷ [])
      worker_turns operations)

  -- With the book, the `except` clauses and the disconnect of `finally`.
  pub live : {A : Type 0} → List (Waiting D A) → Run (Site D) Unit
  unfolding ask edit new_book except connection tell on_controller
  live operations = do
    started ← ask radio.monotonic
    _ ← edit (new_book started)
    _ ← except (connection operations) (λ e. tell (told_failed e))
    on_controller (disconnect link)
