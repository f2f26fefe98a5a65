-- ===== src/Cuktech/Controller.antt =====
-- controller.py: CuktechController, what it makes of its session's answers, over an interface of the
-- session and its command client.
pub mod Commands
pub mod Valid
pub mod Operations
pub mod Switched
mod Tests
use lan_mi_home.Base.{
  ℕ, ◌^◌, Bool, true, false, not, ◌&&◌, ◌||◌, Option, none, some, List, [], ◌∷◌, ◌++◌, bit_or, ltb,
  leb, ◌==◌, if◌then◌else◌, map,
}
use lan_mi_home.Base.Bits.{◌<<<◌, and_not}
use lan_mi_home.Base.Bytes.{Bytes, same}
use lan_mi_home.Base.Dict.{Dict, lookup, insert}
use lan_mi_home.Base.Text.{Text, Table, word, lower, find}
use lan_mi_home.Cuktech.Protocol.{PortReading, PropertyPush, protocol_switch_bits}
use lan_mi_home.Cuktech.Protocol.Push.{parse_property_push}
use lan_mi_home.Cuktech.Protocol.Switches.{Result, ok, err, set_protocol_switch}
use lan_mi_home.Cuktech.State.{ChargerState, apply_setting, decode_port_push, decode_port_value}
use lan_mi_home.Cuktech.Miot.{MiotResult, result_of, is_ok}

abbrev pub port_bits : Table ℕ
port_bits = (word "c1", 0) ∷ (word "c2", 1) ∷ (word "c3", 2) ∷ (word "a", 3) ∷ []

abbrev pub timer_ports : Table ℕ
timer_ports = (word "c1", 9) ∷ (word "c2", 10) ∷ (word "c3", 11) ∷ (word "a", 12) ∷ []

abbrev pub readable_settings : List ℕ
readable_settings = 5 ∷ 6 ∷ 8 ∷ 9 ∷ 10 ∷ 11 ∷ 12 ∷ 13 ∷ 15 ∷ 16 ∷ 17 ∷ 18 ∷ 19 ∷ 20 ∷ 21 ∷ []

abbrev pub writeable_settings : List ℕ
writeable_settings = 5 ∷ 6 ∷ 7 ∷ 8 ∷ 9 ∷ 10 ∷ 11 ∷ 12 ∷ 13 ∷ 14 ∷ 15 ∷ 16 ∷ 19 ∷ 20 ∷ 21 ∷ []

abbrev pub piid_ranges : Dict (ℕ × ℕ)
piid_ranges =
    (5, (1, 4))
    ∷ (6, (0, 5))
    ∷ (8, (0, 1440))
    ∷ (9, (0, 1440))
    ∷ (10, (0, 1440))
    ∷ (11, (0, 1440))
    ∷ (12, (0, 1440))
    ∷ (13, (0, 1))
    ∷ (14, (1, 5))
    ∷ (15, (0, 1))
    ∷ (16, (0, 15))
    ∷ (19, (0, 1))
    ∷ (20, (0, 1))
    ∷ (21, (0, 0xFFFFFFFF))
    ∷ []

-- piid in range(1, 5)
abbrev pub is_port_piid : ℕ → Bool
is_port_piid piid = leb 1 piid && ltb piid 5

pub data DeviceEvent : Type 0 where
  port_event : PortReading → PropertyPush → DeviceEvent
  property_event : PropertyPush → DeviceEvent

pub record Controller : Type 0 where
  pub state : ChargerState
  pub pending_events : List DeviceEvent

-- DeviceInfo of session.py.
pub record DeviceInfo : Type 0 where
  pub model : Text
  pub firmware : Text
  pub protocol_version : Text

pub data Fault : Type 0 where
  value_error runtime_error key_error link_error : Fault

pub data Outcome (A : Type 0) : Type 0 where
  returned : A → Outcome A
  raised : Fault → Outcome A

-- What the controller uses of its session and of MiotCommandClient: each call changes the charger and
-- returns or raises. `clock` is time.time().
pub record Link (D : Type 0) : Type 0 where
  pub clock : D → ℕ
  pub connect : D → D × Outcome Unit
  pub read_device_info : D → D × Outcome DeviceInfo
  pub authenticate : D → D × Outcome Unit
  pub disconnect : D → D × Outcome Unit
  pub get : ℕ → D → D × Outcome MiotResult
  pub set : ℕ → ℕ → D → D × Outcome MiotResult
  pub next_plaintext : D → D × Outcome (Option Bytes)

-- if prop.value is not None: self.state.apply_setting(prop.piid, prop.value)
pub apply_value : ℕ → ℕ → Option ℕ → ChargerState → ChargerState
apply_value now piid none s = s
apply_value now piid (some value) s = apply_setting now piid value s

pub port_event_of :
    PropertyPush → ChargerState × Option PortReading → ChargerState × Option DeviceEvent
port_event_of prop (s, none) = (s, none)
port_event_of prop (s, some reading) = (s, some (port_event reading prop))

pub port_pushed :
    PropertyPush
    → Option (ChargerState × Option PortReading)
    → Option (ChargerState × Option DeviceEvent)
port_pushed prop none = none
port_pushed prop (some p) = some (port_event_of prop p)

pub process_push :
    ℕ → Bytes → ChargerState → Option PropertyPush → Option (ChargerState × Option DeviceEvent)
process_push now p s none = some (s, none)
process_push now p s (some prop) =
    if not (prop.siid == 2)
    then some (s, none)
    else if is_port_piid prop.piid
    then port_pushed prop (decode_port_push now p s)
    else some (apply_value now prop.piid prop.value s, some (property_event prop))

-- `none` is the KeyError of PORT_KEYS.
pub process_plaintext : ℕ → Bytes → ChargerState → Option (ChargerState × Option DeviceEvent)
process_plaintext now p s = process_push now p s (parse_property_push p)

pub keep_event : ChargerState × Option DeviceEvent → Controller → Controller
keep_event (s, none) c = record c { state = s }
keep_event (s, some e) c = record c { state = s; pending_events = c.pending_events ++ e ∷ [] }

-- The loop of `process_deferred`; `false` is the KeyError.
pub defer_all : ℕ → List Bytes → Controller → Controller × Bool
defer_all now [] c = (c, true)
defer_all now (p ∷ ps) c = elim (process_plaintext now p c.state) [
  | none ↦ (c, false)
  | some result ↦ defer_all now ps (keep_event result c)
]

unfoldable pub drain_pending_events : Controller → Controller × List DeviceEvent
drain_pending_events c = (record c { pending_events = [] }, c.pending_events)

unfoldable pub is_in : ℕ → List ℕ → Bool
is_in x [] = false
is_in x (y ∷ ys) = x == y || is_in x ys

pub is_within : ℕ → Option (ℕ × ℕ) → Bool
is_within value none = true
is_within value (some (low, high)) = leb low value && leb value high

-- Whether the two checks of `set_property` pass.
pub is_writeable : ℕ → ℕ → Bool
is_writeable piid value = is_in piid writeable_settings && is_within value (lookup piid piid_ranges)

-- The mask with a port's bit set or cleared, of all ports for "all".
pub port_mask : Text → Bool → ℕ → Option ℕ
port_mask port enabled mask =
    if same port (word "all")
    then some (if enabled then 0x0F else 0x00)
    else elim (find port port_bits) [
      | none ↦ none
      | some b ↦ some (if enabled then bit_or mask (1 <<< b) else and_not mask (1 <<< b))
    ]

-- An operation of the controller: the charger and the controller after it, and what it came to.
abbrev pub Run : Type 0 → Type 0 → Type 0
Run D A = D → Controller → D × Controller × Outcome A

module _ {D : Type 0} where
  unfoldable pub continue :
      {A B : Type 0} → (A → Run D B) → D × Controller × Outcome A → D × Controller × Outcome B
  continue next (d, c, returned a) = next a d c
  continue next (d, c, raised e) = (d, c, raised e)

  pub on_link : {A : Type 0} → (D → D × Outcome A) → Run D A
  on_link f d c = let (d', outcome) = f d in (d', c, outcome)

  pub update : (ChargerState → ChargerState) → Run D Unit
  update f d c = (d, record c { state = f c.state }, returned tt)

  unfoldable pub return : {A : Type 0} → A → Run D A
  return a d c = (d, c, returned a)

  unfoldable pub raise : {A : Type 0} → Fault → Run D A
  raise e d c = (d, c, raised e)

  infixl 5 ◌>>=◌
  unfoldable pub ◌>>=◌ : {A B : Type 0} → Run D A → (A → Run D B) → Run D B
  (m >>= next) d c = continue next (m d c)

module _ {D : Type 0} (link : Link D) where
  pub process_deferred : MiotResult → Run D Unit
  process_deferred r d c =
      let (c', done) = defer_all (link.clock d) r.deferred_plaintexts c in
      if done then (d, c', returned tt) else (d, c', raised key_error)

  pub apply_now : ℕ → Option ℕ → Run D Unit
  apply_now piid value d c = update (apply_value (link.clock d) piid value) d c

  -- self.miot.get, and what arrived meanwhile.
  pub get_value : ℕ → Run D MiotResult
  get_value piid = do result ← on_link (link.get piid); _ ← process_deferred result; return result

  pub connect : Run D DeviceInfo
  connect = do
    _ ← on_link link.connect
    _ ← update (λ s. record s { connected = true })
    info ← on_link link.read_device_info
    _ ← update (λ s. record s {
      model = info.model;
      firmware = info.firmware;
      miot_version = info.protocol_version;
    })
    return info

  pub authenticate : Run D Unit
  authenticate = do _ ← on_link link.authenticate; update (λ s. record s { authenticated = true })

  pub disconnect : Run D Unit
  disconnect = do
    _ ← on_link link.disconnect
    update (λ s. record s { connected = false; authenticated = false })

  pub read_settings : List ℕ → Run D Unit
  read_settings [] = return tt
  read_settings (piid ∷ piids) = do
    result ← get_value piid
    _ ← apply_now piid result.value
    read_settings piids

  pub refresh_settings : Run D Unit
  refresh_settings = read_settings readable_settings

  pub file_reading : Option (ChargerState × Option PortReading) → Run D (Option PortReading)
  file_reading none d c = (d, c, raised key_error)
  file_reading (some (s, reading)) d c = (d, record c { state = s }, returned reading)

  -- The part of `poll_port_result` and `get_property` that decodes a port's value.
  pub decode_value : ℕ → MiotResult → Option ℕ → Run D (Option PortReading)
  decode_value piid r none d c = (d, c, returned none)
  decode_value piid r (some value) d c =
      file_reading (decode_port_value (link.clock d) piid value r.raw c.state) d c

  pub poll_port_result : ℕ → Run D (Option PortReading × MiotResult)
  poll_port_result piid = if not (is_port_piid piid) then raise value_error else do
    result ← get_value piid
    reading ← decode_value piid result result.value
    return (reading, result)

  pub refresh_ports : List ℕ → Run D (List PortReading)
  refresh_ports [] = return []
  refresh_ports (piid ∷ piids) = do
    polled ← poll_port_result piid
    readings ← refresh_ports piids
    return (elim polled.0 [ none ↦ readings | some reading ↦ reading ∷ readings ])

  pub get_property : ℕ → Run D MiotResult
  get_property piid = do
    result ← get_value piid
    _ ←
        if is_port_piid piid
        then (decode_value piid result result.value >>= λ _. return tt)
        else apply_now piid result.value
    return result

  pub set_property : ℕ → ℕ → Bool → Run D MiotResult
  set_property piid value raw =
      if not raw && not (is_writeable piid value) then raise value_error else do
        result ← on_link (link.set piid value)
        _ ← process_deferred result
        _ ← if is_ok result && not (piid == 14) then apply_now piid (some value) else return tt
        return result

  pub set_timer : Text → ℕ → Run D MiotResult
  set_timer port minutes = elim (find (lower port) timer_ports) [
    | none ↦ raise value_error
    | some piid ↦ set_property piid minutes false
  ]

  -- The same value is not written again.
  pub write_changed : ℕ → ℕ → ℕ → Run D MiotResult
  write_changed piid current value =
      if value == current
      then return (record (result_of 2 piid (some value)) { acknowledged = true })
      else set_property piid value false

  pub switch_port : Text → Bool → Option ℕ → Run D MiotResult
  switch_port port enabled none = raise runtime_error
  switch_port port enabled (some mask) = elim (port_mask port enabled mask) [
    | none ↦ raise value_error
    | some value ↦ write_changed 16 mask value
  ]

  pub set_port : Text → Bool → Run D MiotResult
  set_port port enabled = do
    current ← get_property 16
    switch_port (lower port) enabled current.value

  pub write_switched : ℕ → Result ℕ → Run D MiotResult
  write_switched current (err e) = raise value_error
  write_switched current (ok value) = write_changed 21 current value

  pub switch_protocol : Text → Text → Bool → Option ℕ → Run D MiotResult
  switch_protocol port protocol enabled none = raise runtime_error
  switch_protocol port protocol enabled (some current) =
      write_switched current (set_protocol_switch current port protocol enabled)

  pub set_protocol : Text → Text → Bool → Run D MiotResult
  set_protocol port protocol enabled = elim (find (lower port) protocol_switch_bits) [
    | none ↦ raise value_error
    | some bits ↦ (do
      current ← get_property 21
      switch_protocol (lower port) (lower protocol) enabled current.value)
  ]

  pub process_next : Option Bytes → Run D (Option DeviceEvent)
  process_next none d c = (d, c, returned none)
  process_next (some p) d c = elim (process_plaintext (link.clock d) p c.state) [
    | none ↦ (d, c, raised key_error)
    | some (s, event) ↦ (d, record c { state = s }, returned event)
  ]

  pub next_event : Run D (Option DeviceEvent)
  next_event = do plaintext ← on_link link.next_plaintext; process_next plaintext
