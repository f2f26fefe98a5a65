-- ===== src/Lib.antt =====
-- LanMiHome: the Bluetooth services of a home router. This library models the parts below and states
-- what their code guarantees.
--
-- The program. A router runs Python services that own Bluetooth devices: CUKTECH AD1204 chargers
-- (tools/cuktech_ble_probe), an SP651E light strip (router/sp651e.py, behind the adapter
-- router/light_strip.py), a W96D fan (router/w96d_*.py) and sensors (router/lanmihome.py). HTTP handlers
-- read their cached states and pass commands on. Other tools look after the network.
--
-- The files, with the code that each is about.
--   Base                 shared: bits, bytes, dicts, tables with texts as keys, floats (see below)
--   Cuktech.Protocol     tools/cuktech_ble_probe/src/lanmihome_cuktech/protocol.py: Switches for
--                        decode_protocol_extend and set_protocol_switch, Pdo for decode_pdo_caps and
--                        extract_hw_protocols, Push for parse_property_push, parse_port_push and
--                        parse_port_value, Estimate for estimate_protocol_number and its helpers
--   Cuktech.State        state.py beside it: ChargerState, a record with the same fields, and one function
--                        for each method; Reach is the relation of states that the methods reach
--   Cuktech.Session      session.py: the counters, decrypt; and _encrypt of miot.py
--   Cuktech.Miot         miot.py: the frames, get and set over the plaintexts that arrive
--   Cuktech.Controller   controller.py: operations over an interface of the session; Commands
--                        for sequences of them, Valid and Operations for the invariant
--   Cuktech.Manager      manager.py: _stale_candidate; Desk for the requests of execute, _run_one_operation
--                        and stop, as steps; Worker for a connection of _worker, over the record Site of
--                        the charger and the worker's book, with Guards for what it tests before a turn
--                        and Affected for the ports that a report has it poll; Delay for the pauses
--                        between connections
--   Appliance            router/lanmihome.py: Values for _bool, _int and _float, Miot for the _miot_* helpers,
--                        Fields for what the adapters share, Fan and Lamp for FanAdapter and LampAdapter,
--                        Recovery for RecoveryController
--   Coordinator          router/lanmihome_coordinated.py: the gate of the connection setups and the scan that
--                        it pauses, as steps between the awaits, with the disconnect of stop in manager.py;
--                        Holds for who has the gate
--   Sensor               router/lanmihome.py: decode_mibeacon_sensor; Store for SensorStore
--   Sp651e               router/sp651e.py: frame, decode_status, control_frames; Operate for _operate and
--                        _query, Cache for _save, read_state and what drops the cache
--   LightStrip           router/light_strip.py: _validate_patch, _pending_status, state, patch
--   W96d                 router/w96d_sidecar.py: _as_bool, _as_int and the commands of _patch, in Refresh the
--                        reads of _refresh_unlocked, in Patch both together, and in Asked what a body
--                        asks for; Coordinated for router/w96d_coordinated.py: _coordinated_patch, which
--                        replaces _patch, in Refresh _low_pressure_refresh_unlocked, and in Dfu the
--                        requests for device information
--   WifiSchedule         tools/modem_wifi_schedule/modem_wifi_schedule.py: schedule_slot, needs_reconcile with what run
--                        makes of it, and in Modem set_enabled
--   Recovery             router/recovery_supervisor.py: inside_window, window_key, the turns of main
--
-- How the code is translated. An object is a record that is passed on; a dict is an association list in
-- the order of insertion; an exception is a value (`none`, or `err` with a reason); an await on a device
-- is a step on the device's state, a parameter. Where tasks interleave, in Coordinator, the awaits are
-- the points at which another task may go on, and a run is a list of events; so it is in
-- Appliance.Recovery and Cuktech.Manager.Desk. A worker's connection runs as many turns of its loop as it
-- is given heads of the queue. Times are arguments. A loop that waits for packets is a recursion on the
-- list of what arrives, so no fuel is needed; the end of the list stands for silence up to the deadline.
-- Bytes are numbers below 256. Where floats
-- are computed with, a float is a number of units of 2 ** -60, rounded to 53 binary digits after each
-- operation, which covers the voltages and percentages at hand; Appliance.Values, which only compares
-- them, has all of them.
--
-- Parameters. AES-CCM is a pair of functions that undo each other under the same key and nonce, with a
-- tag of four bytes. A client of a strip is what a write does and what a query finds; a transport of the
-- adapter is what it reads and what a command does; a fan is what a write does to its characteristics,
-- and the link of its information what arrives after the writes. The library of the MIoT
-- appliances is a record of calls, each of which changes the device and returns or raises, and so are the
-- session of a charger's controller and the modem whose Wi-Fi is scheduled. The comparisons of a sensor's 32-bit floats are tests
-- of their four bytes.
--
-- Not modelled. The handshake of the charger's session and the reassembly of fragments, the cancellation
-- of tasks, the HTTP servers, the Android application, and the services that the list above leaves out.
pub mod Base
pub mod Appliance
pub mod Coordinator
pub mod Cuktech
pub mod LightStrip
pub mod Recovery
pub mod Sensor
pub mod Sp651e
pub mod W96d
pub mod WifiSchedule
