-- ===== src/Cuktech/Manager/Site.antt =====
-- manager.py: what a worker keeps beside its controller, and operations over both. A site is the charger
-- with the other tasks, and the worker's own book. Times are in milliseconds. The callbacks return; what
-- they are told is listed, the latest last. Log lines are left out.
use lan_mi_home.Base.{ℕ, Bool, List, [], ◌∷◌, ◌++◌, ◌==◌, if◌then◌else◌}
use lan_mi_home.Cuktech.Protocol.{PortReading}
use lan_mi_home.Cuktech.State.{ChargerState}
use lan_mi_home.Cuktech.Controller.{
  DeviceEvent, Controller, Fault, Outcome, returned, raised, drain_pending_events, Run, return,
  ◌>>=◌,
}
use lan_mi_home.Cuktech.Manager.{Clocks}

abbrev pub settings_refresh_after : ℕ
settings_refresh_after = 60000

abbrev pub keepalive_after : ℕ
keepalive_after = 10000

pub data Told : Type 0 where
  told_reading : PortReading → Told
  told_settings : ChargerState → Told
  told_connecting told_connected told_authenticated : Told
  told_failed : Fault → Told

pub record Book : Type 0 where
  pub clocks : Clocks
  pub last_settings_refresh : ℕ
  pub last_keepalive : ℕ
  pub told : List Told

pub record Site (D : Type 0) : Type 0 where
  pub device : D
  pub book : Book

-- What the worker asks beside the calls of its controller; `stopping` is self._stop.is_set().
pub record Radio (D : Type 0) : Type 0 where
  pub monotonic : D → ℕ
  pub is_stopping : D → Bool
  pub is_connected : D → Bool
  pub is_authenticated : D → Bool
  pub keepalive : D → D × Outcome Unit
  pub init_frames : D → ℕ  -- len(session._init_frames)

-- The head of the queue: an operation, or one whose caller has given up.
pub data Waiting (D A : Type 0) : Type 0 where
  nothing given_up : Waiting D A
  operation : Run D A → Waiting D A

-- At the start of a connection.
unfoldable pub new_book : ℕ → Book → Book
new_book started b = record {
  clocks = record { last_seen = λ _. started; last_poll = λ _. 0 };
  last_settings_refresh = 0;
  last_keepalive = started;
  told = b.told;
}

-- clock[piid] = now
unfoldable pub set_clock : ℕ → ℕ → (ℕ → ℕ) → ℕ → ℕ
set_clock piid now clock p = if p == piid then now else clock p

module _ {D : Type 0} where
  unfoldable pub on_controller : {A : Type 0} → Run D A → Run (Site D) A
  on_controller m site c =
      let (d, c', outcome) = m site.device c in (record site { device = d }, c', outcome)

  unfoldable pub on_radio : {A : Type 0} → (D → D × Outcome A) → Run (Site D) A
  on_radio f site c = let (d, outcome) = f site.device in (record site { device = d }, c, outcome)

  unfoldable pub ask : {A : Type 0} → (D → A) → Run (Site D) A
  ask f site c = (site, c, returned (f site.device))

  unfoldable pub edit : (Book → Book) → Run (Site D) Unit
  edit f site c = (record site { book = f site.book }, c, returned tt)

  unfoldable pub read_book : Run (Site D) Book
  read_book site c = (site, c, returned site.book)

  unfoldable pub controller_state : Run (Site D) ChargerState
  controller_state site c = (site, c, returned c.state)

  unfoldable pub drain : Run (Site D) (List DeviceEvent)
  drain site c = let (c', events) = drain_pending_events c in (site, c', returned events)

  unfoldable pub handle :
      {A : Type 0}
      → (Fault → Run (Site D) Unit)
      → Site D × Controller × Outcome A
      → Site D × Controller × Outcome Unit
  handle handler (site, c, returned _) = (site, c, returned tt)
  handle handler (site, c, raised e) = handler e site c

  -- The `except` clauses: what follows an exception.
  unfoldable pub except :
      {A : Type 0} → Run (Site D) A → (Fault → Run (Site D) Unit) → Run (Site D) Unit
  unfolding handle
  except m handler site c = handle handler (m site c)

  -- Without the case of an `if`.
  abbrev pub skip : Run (Site D) Unit
  skip = return tt

  unfoldable pub tell : Told → Run (Site D) Unit
  unfolding edit
  tell what = edit λ b. record b { told = b.told ++ what ∷ [] }

  -- _emit_settings
  unfoldable pub emit_settings : Run (Site D) Unit
  unfolding controller_state tell
  emit_settings = do state ← controller_state; tell (told_settings state)
