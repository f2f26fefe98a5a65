-- ===== src/Cuktech/Controller/Switched.antt =====
-- controller.py: `set_protocol` on a charger that answers, against the switches that the state shows.
use lan_mi_home.Base.{
  ℕ, ◌^◌, ◌<◌, Bool, true, false, ◌&&◌, Option, some, [], ◌≡◌, ◌∙◌, inl, inr, refl, sym, ap, arith,
  ◌==◌, ==_iff, if◌then◌else◌, Bool-cases,
}
use lan_mi_home.Base.Bytes.{same}
use lan_mi_home.Base.Dict.{lookup}
use lan_mi_home.Base.Text.{Text, lower}
use lan_mi_home.Cuktech.Protocol.Switches.{ok, decode_protocol_extend, set_protocol_switch}
use lan_mi_home.Cuktech.Protocol.Switches.Laws.{switch_at, set_protocol_switch-decode}
use lan_mi_home.Cuktech.Protocol.Switches.Range.{
  set_protocol_switch-lt, known_port, set_protocol_switch-lower,
}
use lan_mi_home.Cuktech.State.Shown.{protocol_switches-apply_setting}
use lan_mi_home.Cuktech.State.{apply_setting, protocol_switches}
use lan_mi_home.Cuktech.Miot.{MiotResult, result_of, is_ok}
use lan_mi_home.Cuktech.Controller.{
  Controller, Outcome, returned, Link, apply_value, defer_all, is_in, is_within, is_writeable, Run,
  continue, on_link, update, return, ◌>>=◌, process_deferred, apply_now, get_value, get_property,
  set_property, write_changed, write_switched, switch_protocol, set_protocol,
}

-- What a write of PIID 21 checks first.
is_writeable-21 : (value : ℕ) → value < 2 ^ 32 → is_writeable 21 value ≡ true
unfolding is_writeable is_in is_within lookup
is_writeable-21 value h = ground arith

module _ {D : Type 0} where
  bind-returned :
      {A B : Type 0} (m : Run D A) (next : A → Run D B) {d d' : D} {c c' : Controller} {a : A}
      → m d c ≡ (d', c', returned a)
      → (m >>= next) d c ≡ next a d' c'
  unfolding ◌>>=◌ continue
  bind-returned m next e = ap (continue next) e

  on_link-returned :
      {A : Type 0} (f : D → D × Outcome A) {d d' : D} {a : A} (c : Controller)
      → f d ≡ (d', returned a)
      → on_link f d c ≡ (d', c, returned a)
  unfolding on_link
  on_link-returned f c e = ap (λ p. (p.0, c, p.1)) e

module _ {D : Type 0} (link : Link D) where
  -- A charger that answers a read of PIID 21, and one that takes a write, while nothing else arrives.
  abbrev pub Answers : D → ℕ → D → Type 0
  Answers d value d' =
      (r : MiotResult) × (link.get 21 d ≡ (d', returned r))
      × (r.value ≡ some value)
      × (r.deferred_plaintexts ≡ [])

  abbrev pub Takes : D → ℕ → D → Type 0
  Takes d value d' =
      (r : MiotResult) × (link.set 21 value d ≡ (d', returned r))
      × (is_ok r ≡ true)
      × (r.deferred_plaintexts ≡ [])

  -- The controller after PIID 21 was read or written.
  abbrev filed : D → ℕ → Controller → Controller
  filed d value c = record c { state = apply_setting (link.clock d) 21 value c.state }

  process_deferred-quiet :
      (r : MiotResult) (d : D) (c : Controller)
      → r.deferred_plaintexts ≡ []
      → process_deferred link r d c ≡ (d, c, returned tt)
  unfolding process_deferred defer_all
  process_deferred-quiet r d c quiet = rw (quiet, defer_all) refl

  apply_now-value :
      (piid value : ℕ) (o : Option ℕ) (d : D) (c : Controller)
      → o ≡ some value
      → apply_now link piid o d c
        ≡ (d, record c { state = apply_setting (link.clock d) piid value c.state }, returned tt)
  unfolding apply_now update apply_value
  apply_now-value piid value o d c found = rw (found, apply_value) refl

  get_value-quiet :
      (piid : ℕ) (r : MiotResult) (d d' : D) (c : Controller)
      → link.get piid d ≡ (d', returned r)
      → r.deferred_plaintexts ≡ []
      → get_value link piid d c ≡ (d', c, returned r)
  unfolding get_value return
  get_value-quiet piid r d d' c got quiet =
      bind-returned _ _ (on_link-returned (link.get piid) c got)
      ∙ bind-returned _ _ (process_deferred-quiet r d' c quiet)

  get_property-Answers :
      (d d' : D) (value : ℕ) (c : Controller)
      → Answers d value d'
      → (r : MiotResult) × (r.value ≡ some value)
        × (get_property link 21 d c ≡ (d', filed d' value c, returned r))
  unfolding get_property return
  get_property-Answers d d' value c (r, got, found, quiet) = (
    r,
    found,
    bind-returned _ _ (get_value-quiet 21 r d d' c got quiet)
        ∙ bind-returned _ _ (apply_now-value 21 value r.value d' c found),
  )

  set_property-Takes :
      (d d' : D) (value : ℕ) (c : Controller)
      → value < 2 ^ 32
      → Takes d value d'
      → (r : MiotResult) × (set_property link 21 value false d c
          ≡ (d', filed d' value c, returned r))
  unfolding set_property return
  set_property-Takes d d' value c small (r, put, done, quiet) = (
    r,
    rw (is_writeable-21 value small) (
        bind-returned _ _ (on_link-returned (link.set 21 value) c put)
        ∙ bind-returned _ _ (process_deferred-quiet r d' c quiet)
        ∙ rw done (bind-returned _ _ (apply_now-value 21 value (some value) d' c refl))),
  )

  write_changed-Takes :
      (d d' : D) (value w : ℕ) (c : Controller)
      → w < 2 ^ 32
      → Takes d w d'
      → protocol_switches c.state ≡ decode_protocol_extend value
      → (d'' : D) × (c' : Controller) × (r : MiotResult) × (write_changed link 21 value w d c
          ≡ (d'', c', returned r))
        × (protocol_switches c'.state ≡ decode_protocol_extend w)
  unfolding write_changed return
  write_changed-Takes d d' value w c small takes shown = elim (Bool-cases (w == value)) [
    | inl unchanged ↦
        let equal : w ≡ value = (==_iff w value).0 unchanged in
        (
          d,
          c,
          record (result_of 2 21 (some w)) { acknowledged = true },
          rw unchanged refl,
          shown ∙ ap decode_protocol_extend (sym equal),
        )
    | inr changed ↦
        let (r, e) = set_property-Takes d d' w c small takes in
        (
          d',
          filed d' w c,
          r,
          rw changed e,
          protocol_switches-apply_setting (link.clock d') w c.state,
        )
  ]

  switch_protocol-made :
      (port protocol : Text) (enabled : Bool) (value w : ℕ) (o : Option ℕ) (d : D) (c : Controller)
      → o ≡ some value
      → set_protocol_switch value port protocol enabled ≡ ok w
      → switch_protocol link port protocol enabled o d c ≡ write_changed link 21 value w d c
  unfolding switch_protocol write_switched
  switch_protocol-made port protocol enabled value w o d c found made =
      rw (found, switch_protocol, made, write_switched) refl

  -- On a charger that answers a read of PIID 21 and takes the write of what `set_protocol_switch` makes of
  -- the value read, while nothing else arrives, `set_protocol` returns, and the state shows the named
  -- switch as it was asked for and every other as the charger had it.
  pub set_protocol-switch_at :
      (d d1 d2 : D) (c : Controller) (port protocol : Text) (enabled : Bool) (value w : ℕ)
      → Answers d value d1
      → set_protocol_switch value port protocol enabled ≡ ok w
      → Takes d1 w d2
      → (d' : D) × (c' : Controller) × (r : MiotResult) × (set_protocol link port protocol enabled d
            c
          ≡ (d', c', returned r))
        × ((port' protocol' : Text)
            → switch_at port' protocol' (protocol_switches c'.state) ≡ (
                if same (lower port) port' && same (lower protocol) protocol'
                then some enabled
                else switch_at port' protocol' (decode_protocol_extend value)))
  unfolding set_protocol
  set_protocol-switch_at d d1 d2 c port protocol enabled value w answers made takes =
      let (bits, known) = known_port value port protocol enabled made in
      let (read, found, e1) = get_property-Answers d d1 value c answers in
      let shown = protocol_switches-apply_setting (link.clock d1) value c.state in
      let (d', c', r, e2, after) =
        write_changed-Takes d1 d2 value w (filed d1 value c)
          (set_protocol_switch-lt value port protocol enabled made) takes shown in
      (
        d',
        c',
        r,
        rw (known, set_protocol)
            (bind-returned _ _ e1
              ∙ switch_protocol-made (lower port) (lower protocol) enabled value w read.value d1 _
                  found (set_protocol_switch-lower value port protocol enabled ∙ made)
              ∙ e2),
        λ port' protocol'.
            ap (switch_at port' protocol') after
            ∙ set_protocol_switch-decode value port protocol enabled made port' protocol',
      )
