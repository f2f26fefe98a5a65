-- ===== src/Cuktech/Protocol.antt =====
-- protocol.py: its tables and the two records of decoded frames. The children model its functions.
-- A name, a hint or a key is the text of the source; the hints that an f-string builds are kept as
-- their number.
pub mod Switches
pub mod Pdo
pub mod Estimate
pub mod Push
use lan_mi_home.Base.{ℕ, Bool, Option, none, some, List, [], ◌∷◌}
use lan_mi_home.Base.Dict.{Dict, lookup}
use lan_mi_home.Base.Text.{Text, Table, word}
use lan_mi_home.Base.Bytes.{Bytes}
use lan_mi_home.Base.Float64.{Float64}

abbrev pub port_names : Dict Text
port_names = (1, word "C1") ∷ (2, word "C2") ∷ (3, word "C3") ∷ (4, word "A") ∷ []

abbrev pub port_keys : Dict Text
port_keys = (1, word "c1") ∷ (2, word "c2") ∷ (3, word "c3") ∷ (4, word "a") ∷ []

abbrev pub protocol_switch_bits : Table (Table ℕ)
protocol_switch_bits =
    (word "c1", (word "pd", 0) ∷ (word "pps", 1) ∷ (word "ufcs", 2) ∷ [])
    ∷ (word "c2", (word "pd", 8) ∷ (word "pps", 9) ∷ (word "ufcs", 10) ∷ [])
    ∷ (word "c3", (word "ufcs", 16) ∷ (word "scp", 17) ∷ [])
    ∷ (word "a", (word "ufcs", 24) ∷ (word "scp", 25) ∷ [])
    ∷ []

abbrev pub mijia_protocols : Dict Text
mijia_protocols =
    (0, word "idle")
    ∷ (1, word "5V")
    ∷ (2, word "5V")
    ∷ (3, word "QC")
    ∷ (4, word "AFC")
    ∷ (5, word "FCP")
    ∷ (6, word "SCP")
    ∷ (7, word "PD")
    ∷ (8, word "PPS")
    ∷ (9, word "PPS")
    ∷ (10, word "UFCS")
    ∷ []

-- The texts of PDO_KIND_BY_HIGH_BYTE.
pub data PdoKind : Type 0 where
  pd_fixed pd_pps : PdoKind

abbrev pub pdo_kind_by_high_byte : Dict PdoKind
pdo_kind_by_high_byte = (0x07, pd_fixed) ∷ (0x08, pd_pps) ∷ []

-- One port's entry of `decode_pdo_caps`.
pub record PdoCap : Type 0 where
  pub cap : Option ℕ
  pub kind : Option PdoKind

-- A protocol hint: a text, f"protocol-{n}", or f"code-0x{n:02X}".
pub data Hint : Type 0 where
  named : Text → Hint
  unlisted : ℕ → Hint
  raw_code : ℕ → Hint

pub data ProtocolSource : Type 0 where
  no_load hardware heuristic : ProtocolSource

pub record PortReading : Type 0 where
  pub piid : ℕ
  pub name : Text
  pub voltage : Float64
  pub current : Float64
  pub power : Float64
  pub active : Bool
  pub status_raw : ℕ
  pub code_raw : ℕ
  pub protocol_hint : Hint
  pub plaintext_hex : List ℕ
  pub protocol_number : Option ℕ
  pub protocol_source : ProtocolSource
  pub shared : Bool
  pub shared_group : Option Text

pub record PropertyPush : Type 0 where
  pub siid : ℕ
  pub piid : ℕ
  pub value : Option ℕ
  pub raw_value : Bytes
  pub plaintext : Bytes

hint_or : ℕ → Option Text → Hint
hint_or n none = unlisted n
hint_or n (some t) = named t

unfoldable pub protocol_name : Option ℕ → Hint
unfolding hint_or lookup
protocol_name none = named (word "unknown")
protocol_name (some n) = hint_or n (lookup n mijia_protocols)
