-- ===== src/Cuktech/Protocol/Pdo/Tests.antt =====
-- A run of the decoder of PIID 17.
use lan_mi_home.Base.{◌≡◌, refl, some, [], ◌∷◌}
use lan_mi_home.Cuktech.Protocol.Pdo.{extract_hw_protocols}

numbers : extract_hw_protocols 17 0x07_14_08_21 ≡ some ((1, 7) ∷ (2, 8) ∷ [])
unfolding extract_hw_protocols
numbers = refl
