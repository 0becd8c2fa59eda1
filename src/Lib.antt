-- ===== src/Lib.antt =====
-- The shared Zephyr modules of the NTU Racing Team's vehicle firmware.
--
-- Parts and how they interact. Sensors of the pedals feed the sensor axis driver, which normalises
-- and checks their values and reports axes and errors through Zephyr's input subsystem; the
-- accelerator driver listens to these reports and checks the accelerator pedal against the brake.
-- Errors of the vehicle are collected by the error module, which calls back the modules that
-- listen. Data go out in messages: an aggregation decides when the data of a message are published,
-- and the telemetry groups publish data with addresses through it. Messages of a channel are also
-- logged to a file by the system's work queue. Commands come in through a queue. On the CAN bus,
-- lost heartbeats become errors of the error module, and its errors go out as emergencies. A GPIO
-- driver for shift registers serves the segment display and lights.
--
-- Files, with the paths of the code from the root of the repository:
--   Base         numbers, Booleans, C arrays, C integers, and the interface of Zephyr's hash map.
--   Err          subsys/err/err.c with include/nturt/err/err.h. Err.Ctx is g_ctx with the map and
--                the linker sections; err_report, err_is_set, init and cb_init have their names.
--                Handlers of callbacks and the lines of the log are a list of events (Err/Events).
--   Input        input_report of Zephyr's input subsystem as its users see it: the calls made, and
--                what they return, which is a parameter. Input/View is what a listener knows.
--   SensorAxis   drivers/input/sensor-axis/sensor_axis.c and .h: Sensor is sensor_get with its
--                checks, Channel is channel_update with its error time, Calibrate the calibration
--                by samples, Device the thread that updates the channels.
--   Accel        drivers/input/accel/accel.c: error_update, update, and the two input callbacks.
--   Msg          subsys/msg/aggregation.c with include/nturt/msg/aggregation.h: Aggregation has the
--                four handlers (agg_update, agg_period_timer_cb, agg_early_timer_cb, agg_work_cb),
--                Typed the aggregations with data, Kernel the interface of the timers and the work.
--   ShiftRegister drivers/gpio/74hc595/gpio_74hc595.c: the operations of the ports and init.
--   Cmd          subsys/cmd/cmd.c: cmd_invoke, init and the turns of cmd_process_thread; Packets is
--                the interface of Zephyr's packet buffer.
--   Telemetry    subsys/telemetry/telemetry.c with include/nturt/telemetry.h: tm_data_get,
--                tm_data_update, tm_data_notify_lock, tm_group_copy and init.
--   Encoder      drivers/sensor/amt21/amt21.c: amt21_read with its check bits, amt21_sample_fetch,
--                amt21_init, amt21_channel_get and amt21_attribute_set.
--   Canopen      subsys/canbus/canopen/hb_consumer.c (Heartbeat) and emcy.c (Emcy), with the nodes
--                of include/nturt/canbus/canopen.h (Nodes). Emcy sends the errors through
--                CANopenNode, whose error codes and status bits are written out.
--   SegDisplay   drivers/auxdisplay/gpio-seg-display/gpio_seg_display.c: Glyphs is its tables,
--                Setup its init, and the operations have their names. Render and Text are the
--                digits of a text, Slots, Lookup and Placed what init builds, Drive, Values and
--                Sent what set_gpios drives.
--   LedStrip     drivers/led_strip/gpio/led_strip_gpio.c: init, update_rgb, and the configuration
--                that the macro makes of the devicetree. Lamps and Last are what the pixels ask of
--                the pins.
--   Logging      subsys/msg/logging.c with include/nturt/msg/logging.h: msg_chan_logging_start and
--                _stop, msg_cb, logging_work and msg_logging_sync_work. Packets is the interface of
--                Zephyr's packet buffer in its overwriting mode, Steps the calls one after the
--                other.
--   Jy901b       drivers/sensor/jy901b/jy901b.c with include/zephyr/drivers/sensor/jy901b.h: init,
--                sample_fetch, channel_get and the conversions. Scaled is what a conversion gives,
--                Fetched the channels by the registers of the chip.
--   HallRpm      drivers/sensor/hall-rpm/hall_rpm.c: every operation; Filter is the speed of
--                hall_rpm_timer_cb.
-- Beside the definitions, each folder has a file for each thing that is proved of them, and Tests
-- with runs and instances.
--
-- How the code is rendered. State is a record that functions take and return; error numbers are
-- integers that are negative, and a failed assertion or a pointer that leads nowhere is a value of
-- its own. A part under a lock is one step, and what tasks and interrupts do is a list of events in
-- the order in which they take the lock. A pointer into an array or a linker section is an index.
-- int32_t and int64_t wrap around where the code computes in them. uint8_t registers and the mask
-- of an aggregation are lists of bits. Loops run over lists or count their tries down, and need no
-- fuel, but for the scan of a byte for its set bits in Canopen.Emcy: it has 256 rounds, which are
-- enough, since each clears a bit and the byte gets smaller.
--
-- Zephyr is not in the repository. What the code uses of it is an interface with its documented
-- behaviour as laws (hash map, packet buffers, timers and delayable work, readings of sensors and
-- their conversion, find_lsb_set), or the results of calls (input_report, spi_write_dt,
-- device_is_ready, the file system, zbus, GPIO ports) are parameters. A mutex is unlocked only by
-- the thread that owns it. Each interface has an implementation that the tests run with.
--
-- Not modelled: output of the log except for the error module's, shells, settings, the file system,
-- clocks, USB, the start, storage and time of CANopen, the drivers of analog, current and distance
-- sensors, the registration of message channels, and what the devicetree
-- generates, but for the LED strip. Handlers that call back into the module that calls them are not
-- modelled either.
pub mod Base
pub mod Err
pub mod Input
pub mod SensorAxis
pub mod Accel
pub mod Msg
pub mod ShiftRegister
pub mod Cmd
pub mod Telemetry
pub mod Encoder
pub mod Canopen
pub mod SegDisplay
pub mod LedStrip
pub mod Logging
pub mod Jy901b
pub mod HallRpm
