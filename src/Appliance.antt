-- ===== src/Appliance.antt =====
-- router/lanmihome.py: the MIoT appliances, a fan and a desk lamp, and the recovery of the fan's power.
-- Values has the JSON values and the readers `_bool`, `_int` and `_float`; Actions the calls that raise;
-- Miot the `_miot_*` helpers over the library miio, a parameter; Fan, Lamp and Recovery the classes.
pub mod Values
pub mod Actions
pub mod Miot
pub mod Fields
mod Sample
pub mod Fan
pub mod Lamp
pub mod Recovery
