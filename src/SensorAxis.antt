-- ===== src/SensorAxis.antt =====
-- drivers/input/sensor-axis: the sensor-axis input driver.
pub mod Sensor
pub mod Channel
pub mod Calibrate
pub mod Device
mod Tests
