-- ===== src/Cuktech/Protocol/Estimate.antt =====
-- protocol.py: the estimate of a port's protocol from its voltage, where no hardware number is known.
use lan_mi_home.Base.{
  ℕ, min, Bool, true, false, not, ◌&&◌, ◌||◌, Option, none, some, List, [], ◌∷◌, ltb, leb, ◌==◌,
  if◌then◌else◌,
}
use lan_mi_home.Base.Dict.{lookup}
use lan_mi_home.Base.Text.{Text, Table, word, find}
use lan_mi_home.Base.Float64.{Float64, of_ratio, distance}
use lan_mi_home.Cuktech.Protocol.{PdoKind, pd_fixed, pd_pps, PdoCap, port_keys}

-- min(abs(voltage - ref) for ref in PD_FIXED_VOLTAGES)
nearest_fixed : Float64 → Float64
unfolding distance
nearest_fixed v =
    min
      (min
        (min (min (distance v (of_ratio 5 1)) (distance v (of_ratio 9 1)))
          (distance v (of_ratio 12 1)))
        (distance v (of_ratio 15 1)))
      (distance v (of_ratio 20 1))

unfoldable pub voltage_match : Float64 → Float64 → Bool
unfolding nearest_fixed
voltage_match v tolerance = leb (nearest_fixed v) tolerance

-- PPS_VOLTAGE_RANGE[0] <= voltage <= PPS_VOLTAGE_RANGE[1]
in_pps_range : Float64 → Bool
unfolding of_ratio
in_pps_range v = leb (of_ratio 3 1) v && leb v (of_ratio 21 1)

unfoldable pub estimate_pd_subtype : Float64 → ℕ
unfolding nearest_fixed in_pps_range
estimate_pd_subtype v =
    let d = nearest_fixed v in
    if ltb v (of_ratio 12 1)
    then if leb d (of_ratio 5 100) then 7 else 8
    else if leb d (of_ratio 30 100)
    then 7
    else if in_pps_range v
    then 8
    else 7

-- The word of a PD contract.
is_pd_code : ℕ → Bool
is_pd_code c =
    c == 0x01
    || c == 0x03
    || c == 0x04
    || c == 0x05
    || c == 0x06
    || c == 0x07
    || c == 0x0A
    || c == 0x0B
    || c == 0x30

-- switches.get(name, True)
switch_on : Text → Table Bool → Bool
unfolding find
switch_on name switches = elim (find name switches) [ none ↦ true | some b ↦ b ]

is_empty {ℓ} : {A : Type ℓ} → List A → Bool
is_empty [] = true
is_empty (_ ∷ _) = false

-- (pdo_data or {}).get("kind")
kind_in : Option PdoCap → Option PdoKind
kind_in none = none
kind_in (some c) = c.kind

-- The branch of a PD code, by the kind of the advertised PDO.
estimate_pd : Float64 → Option PdoKind → Bool → ℕ
unfolding voltage_match estimate_pd_subtype
estimate_pd v (some pd_pps) pps_enabled =
    if not pps_enabled then 7 else if voltage_match v (of_ratio 20 100) then 7 else 8
estimate_pd v (some pd_fixed) pps_enabled =
    if pps_enabled && ltb v (of_ratio 12 1) then estimate_pd_subtype v else 7
estimate_pd v none pps_enabled = if not pps_enabled && ltb 0 v then 7 else estimate_pd_subtype v

-- ports 1 and 2
estimate_c1_c2 : Float64 → ℕ → Option PdoCap → Table Bool → ℕ
unfolding is_pd_code switch_on is_empty kind_in estimate_pd in_pps_range
estimate_c1_c2 v code pdo switches =
    if not (is_empty switches) && not (switch_on (word "pd") switches) && ltb 0 v
    then 1
    else if code == 0x08
    then 8
    else if code == 0x70
    then if voltage_match v (of_ratio 5 100) then 7 else 3
    else if is_pd_code code
    then estimate_pd v (kind_in pdo) (switch_on (word "pps") switches)
    else if voltage_match v (of_ratio 15 100)
    then 7
    else if in_pps_range v
    then 8
    else 0

is_some {ℓ} : {A : Type ℓ} → Option A → Bool
is_some none = false
is_some (some _) = true

estimate_c3 : Float64 → ℕ → Option PdoCap → ℕ
unfolding is_some kind_in of_ratio
estimate_c3 v code pdo =
    if code == 0x70
    then if is_some (kind_in pdo) then 7 else 3
    else if leb (of_ratio 15 1) v
    then 7
    else if leb (of_ratio 85 10) v
    then 3
    else if leb v (of_ratio 55 10)
    then 1
    else if ltb (of_ratio 6 1) v
    then 3
    else 1

estimate_a : Float64 → ℕ → ℕ
unfolding of_ratio
estimate_a v code = if code == 0x70 || ltb (of_ratio 55 10) v then 3 else if ltb 0 v then 1 else 0

-- (protocol_switches or {}).get(port_key, {})
switches_of : Option (Table (Table Bool)) → Option Text → Table Bool
unfolding find
switches_of (some switches) (some key) = elim (find key switches) [ none ↦ [] | some s ↦ s ]
switches_of _ _ = []

unfoldable pub estimate_protocol_number :
    ℕ → Float64 → ℕ → Option PdoCap → Option (Table (Table Bool)) → ℕ
unfolding estimate_c1_c2 estimate_c3 estimate_a switches_of lookup
estimate_protocol_number piid v code pdo switches =
    if piid == 1 || piid == 2
    then estimate_c1_c2 v code pdo (switches_of switches (lookup piid port_keys))
    else if piid == 3
    then estimate_c3 v code pdo
    else if piid == 4
    then estimate_a v code
    else 0
