-- ===== src/Cuktech.antt =====
-- The CUKTECH AD1204 charger (tools/cuktech_ble_probe/src/lanmihome_cuktech).
pub mod Protocol
pub mod State
pub mod Session
pub mod Miot
pub mod Controller
pub mod Manager
