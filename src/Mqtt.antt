-- ===== src/Mqtt.antt =====
-- The MQTT client: app/mqtt_client.py.
pub mod Publish
pub mod Receive
pub mod Replays
mod Examples
