-- ===== src/Cuktech/Controller/Valid.antt =====
-- controller.py: the invariant of a charger's state under every operation of its controller.
use lan_mi_home.Base.{
  ℕ, Bool, Option, none, some, List, [], ◌∷◌, ◌≡◌, inl, inr, true, false, if◌then◌else◌, ◌==◌,
  Bool-cases, Option-cases,
}
use mathlib.Core.Path.{subst}
use lan_mi_home.Base.Bytes.{Bytes}
use lan_mi_home.Base.Text.{Text}
use lan_mi_home.Cuktech.Protocol.{PortReading, PropertyPush}
use lan_mi_home.Cuktech.Protocol.Push.{parse_property_push}
use lan_mi_home.Cuktech.State.{ChargerState, decode_port_push, decode_port_value}
use lan_mi_home.Cuktech.State.Valid.{IsValid, apply_setting-IsValid}
use lan_mi_home.Cuktech.State.Reach.{
  Decoded-IsValid, decode_port_push-Decoded, decode_port_value-Decoded,
}
use lan_mi_home.Cuktech.Miot.{MiotResult}
use lan_mi_home.Cuktech.Controller.{
  DeviceEvent, Controller, Fault, Outcome, returned, raised, Link, apply_value, port_event_of,
  port_pushed, process_push, process_plaintext, keep_event, defer_all, is_port_piid, Run, continue,
  on_link, update, return, raise, ◌>>=◌, process_deferred, apply_now, get_value,
}

-- A step on the state fails, or comes to a valid state.
pub data Sound {X : Type 0} : Option (ChargerState × X) → Type 0 where
  fails : Sound none
  gives : (s : ChargerState) (x : X) → IsValid s → Sound (some (s, x))

decode_port_push-Sound :
    (now : ℕ) (p : Bytes) (s : ChargerState) → IsValid s → Sound (decode_port_push now p s)
decode_port_push-Sound now p s valid = elim (Option-cases (decode_port_push now p s)) [
  | inl failed ↦ rw failed Sound.fails
  | inr ((s', found), e) ↦ rw e (
      Sound.gives s' found
        (Decoded-IsValid now s (s', found) (decode_port_push-Decoded now p s (s', found) e) valid))
]

pub decode_port_value-Sound :
    (now piid value : ℕ) (raw : Option Bytes) (s : ChargerState)
    → IsValid s
    → Sound (decode_port_value now piid value raw s)
decode_port_value-Sound now piid value raw s valid =
    elim (Option-cases (decode_port_value now piid value raw s)) [
      | inl failed ↦ rw failed Sound.fails
      | inr ((s', found), e) ↦ rw e (
          Sound.gives s' found (
            Decoded-IsValid now s (s', found)
              (decode_port_value-Decoded now piid value raw s (s', found) e) valid))
    ]

apply_value-IsValid :
    (now piid : ℕ) (value : Option ℕ) (s : ChargerState)
    → IsValid s
    → IsValid (apply_value now piid value s)
unfolding apply_value
apply_value-IsValid now piid none s valid = valid
apply_value-IsValid now piid (some value) s valid = apply_setting-IsValid now piid value s valid

port_pushed-Sound :
    (prop : PropertyPush) (o : Option (ChargerState × Option PortReading))
    → Sound o
    → Sound (port_pushed prop o)
unfolding port_pushed port_event_of
port_pushed-Sound prop _ Sound.fails = Sound.fails
port_pushed-Sound prop _ (Sound.gives s none valid) = Sound.gives s none valid
port_pushed-Sound prop _ (Sound.gives s (some reading) valid) = Sound.gives s _ valid

process_push-Sound :
    (now : ℕ) (p : Bytes) (s : ChargerState) (prop : Option PropertyPush)
    → IsValid s
    → Sound (process_push now p s prop)
unfolding process_push
process_push-Sound now p s none valid = Sound.gives s none valid
process_push-Sound now p s (some prop) valid = elim (Bool-cases (prop.siid == 2)) [
  | inl charger ↦ elim (Bool-cases (is_port_piid prop.piid)) [
    | inl port ↦
        rw (charger, port)
          (port_pushed-Sound prop (decode_port_push now p s) (decode_port_push-Sound now p s valid))
    | inr setting ↦
        rw (charger, setting)
          (Sound.gives _ _ (apply_value-IsValid now prop.piid prop.value s valid))
  ]
  | inr other ↦ rw other (Sound.gives s none valid)
]

pub process_plaintext-Sound :
    (now : ℕ) (p : Bytes) (s : ChargerState) → IsValid s → Sound (process_plaintext now p s)
unfolding process_plaintext
process_plaintext-Sound now p s valid = process_push-Sound now p s (parse_property_push p) valid

pub Sound-IsValid :
    {X : Type 0} {o : Option (ChargerState × X)} {s : ChargerState} {x : X}
    → Sound o
    → o ≡ some (s, x)
    → IsValid s
Sound-IsValid Sound.fails e = cc
Sound-IsValid {X} {o} {s} {x} (Sound.gives s' x' valid) e =
    let same_state : s' ≡ s = cc in subst IsValid same_state valid

keep_event-IsValid :
    (s : ChargerState) (event : Option DeviceEvent) (c : Controller)
    → IsValid s
    → IsValid (keep_event (s, event) c).state
unfolding keep_event
keep_event-IsValid s none c valid = valid
keep_event-IsValid s (some e) c valid = valid

defer_all-IsValid :
    (now : ℕ) (ps : List Bytes) (c : Controller)
    → IsValid c.state
    → IsValid (defer_all now ps c).0.state
unfolding defer_all
defer_all-IsValid now [] c valid = valid
defer_all-IsValid now (p ∷ ps) c valid = elim (Option-cases (process_plaintext now p c.state)) [
  | inl failed ↦ rw (failed, defer_all) valid
  | inr ((s, event), e) ↦
      rw (e, defer_all)
        (defer_all-IsValid now ps (keep_event (s, event) c) (
          keep_event-IsValid s event c
            (Sound-IsValid (process_plaintext-Sound now p c.state valid) e)))
]

pub same_fields :
    (s : ChargerState) {connected authenticated : Bool} {model firmware miot_version : Text}
    → IsValid s
    → IsValid (record s {
      connected = connected;
      authenticated = authenticated;
      model = model;
      firmware = firmware;
      miot_version = miot_version;
    })
same_fields s h = record {
  hardware = h.hardware;
  filed = h.filed;
  marked = h.marked;
  settings_nodup = h.settings_nodup;
  ports_nodup = h.ports_nodup;
}

-- An operation, whether it returns or raises, leaves a valid state valid.
abbrev pub Keeps : {D A : Type 0} → Run D A → Type 0
Keeps {D} m = (d : D) (c : Controller) → IsValid c.state → IsValid (m d c).1.state

module _ {D : Type 0} where
  continue-IsValid :
      {A B : Type 0} (next : A → Run D B) (r : D × Controller × Outcome A)
      → IsValid r.1.state
      → ((a : A) → Keeps (next a))
      → IsValid (continue next r).1.state
  unfolding continue
  continue-IsValid next (d, c, returned a) valid keeps = keeps a d c valid
  continue-IsValid next (d, c, raised e) valid keeps = valid

  pub bind-Keeps :
      {A B : Type 0} (m : Run D A) (next : A → Run D B)
      → Keeps m
      → ((a : A) → Keeps (next a))
      → Keeps (m >>= next)
  unfolding ◌>>=◌
  bind-Keeps m next first keeps d c valid = continue-IsValid next (m d c) (first d c valid) keeps

  pub if-Keeps :
      {A : Type 0} (b : Bool) (m n : Run D A) → Keeps m → Keeps n → Keeps (if b then m else n)
  if-Keeps true m n first second = first
  if-Keeps false m n first second = second

  pub on_link-Keeps : {A : Type 0} (f : D → D × Outcome A) → Keeps (on_link f)
  unfolding on_link
  on_link-Keeps f d c valid = valid

  pub return-Keeps : {A : Type 0} (a : A) → Keeps (return {D = D} a)
  unfolding return
  return-Keeps a d c valid = valid

  pub raise-Keeps : (A : Type 0) (e : Fault) → Keeps (raise {D = D} {A = A} e)
  unfolding raise
  raise-Keeps A e d c valid = valid

module _ {D : Type 0} (link : Link D) where
  pub process_deferred-Keeps : (r : MiotResult) → Keeps (process_deferred link r)
  unfolding process_deferred
  process_deferred-Keeps r d c valid =
      elim (Bool-cases (defer_all (link.clock d) r.deferred_plaintexts c).1) [
        | inl done ↦ rw done (defer_all-IsValid (link.clock d) r.deferred_plaintexts c valid)
        | inr failed ↦ rw failed (defer_all-IsValid (link.clock d) r.deferred_plaintexts c valid)
      ]

  pub apply_now-Keeps : (piid : ℕ) (value : Option ℕ) → Keeps (apply_now link piid value)
  unfolding apply_now update
  apply_now-Keeps piid value d c valid = apply_value-IsValid (link.clock d) piid value c.state valid

  pub get_value-Keeps : (piid : ℕ) → Keeps (get_value link piid)
  unfolding get_value
  get_value-Keeps piid =
      bind-Keeps _ _ (on_link-Keeps (link.get piid))
        λ r. bind-Keeps _ _ (process_deferred-Keeps r) λ _. return-Keeps r
