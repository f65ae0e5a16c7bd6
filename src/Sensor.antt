-- ===== src/Sensor.antt =====
-- include/sensor: the aggregator, the watches and the threads of the sensor.
pub mod Aggregator
pub mod Watch
pub mod Reader
pub mod System
pub mod Control
pub mod Lifecycle
pub mod Status
pub mod Run
pub mod Single
