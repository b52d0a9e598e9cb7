-- ===== src/Lib.antt =====
-- The firmware of the HiSPEC TIB: a Zephyr program that takes commands from an MQTT broker and drives
-- optical switches, laser controllers and attenuators.
--
-- A message arrives in `mqtt_command_handler` (app/src/main.c), which checks it and puts a command
-- into the inbound queue. The executor thread takes commands from there, runs `dispatch_command`
-- (app/src/command.c) and puts the answer into the outbound queue, from which the loop of `main`
-- publishes. A sampling thread (app/src/photodiode.c) adds its messages by a queue of its own. The
-- handlers of command.c work on the globals of app/src/devices.c by mems_switching.c, attenuator.c and
-- maiman.c.
--
-- The files:
--   Prelude    lists, options and integers over the native numbers, with Boolean tests
--   CString    C strings as lists of bytes, and the functions of string.h that the code calls
--   Grammar    the grammar of JSON, over bytes; Numbers and Notes are about the texts that the code builds
--   Board      what is not in the repository: drivers, JSON parser, arithmetic of double; a parameter
--   FloatOrder the comparisons of double and float, with NaN, as a parameter; ranges and clamping
--   MsgQueue   the kernel's message queues, as a record of operations and what they promise
--   Mems       mems_switching.c; Lookup, Switching, Update, Routes, Check, Keep and Active prove
--   Attenuator attenuator.c; Range proves
--   Maiman     maiman.c: Registers is about the lookup, Readings has the conversions to float
--   Devices    devices.c: Setup is about the tables, Ready about `devices_ready`
--   Command    command.c, the dispatch; Types (command.h), Reply, Keys, Power, Mems, Lasers and Attens
--              have the functions; Table, Reach, Inert, Valid, Sendable and Texts prove about all handlers
--   Photodiode the sampling thread: Sampling is about its store, Pacing about its times
--   Main       main.c: Decode and Reception are about messages that arrive, Publishing is about those that
--              leave, System has the threads as interleaved steps, with Serial, Bounds, Untouched, Drain,
--              Order and Spoken; Watchdog has its set-up and its feeding; Boot is `main` up to its loop,
--              Sessions the loop, with Calls, Connecting and Discipline for the order of its calls, Picked
--              and Turns for what it publishes and feeds, and Run for what it has in common with
--              `coo_mqtt_run`
--   Commons    lib/coo_commons: Pid, Network (Waiting, Sockets, Timeouts, Told), Mqtt (Setup, Due, Events,
--              Connect, Subscriptions) and Json (Parse, Agree)
--   Drivers    drivers: Blink is blink/gpio_led.c, Sensor is sensor/example_sensor/example_sensor.c
--   Custom     lib/custom/custom.c
--   Tests      runs on a concrete board, and each theorem at a concrete input
--
-- State is passed explicitly. The record `Tib` has the globals of devices.c together with the history of
-- driver calls; a driver's answer may depend on all of the history. A pointer to a switch is its index in
-- `mems_switches`. A string buffer is its bytes up to the NUL, a buffer that is read by length is all of
-- its bytes. `double` and `float` are a type with the operations that the code uses.
--
-- Fuel: `put_purging` has fuel for the attempts of the loop that stores a sample. Two are enough on
-- every queue with room for one message, since the loop purges the queue when the first attempt fails.
-- The wait for the network has fuel for its tests, and one test more than the timeout has periods of 100 ms
-- is enough; without a timeout it may wait forever, and so may the sampling thread for its ADC, which has fuel
-- for the tests up to the one that finds it ready. The loops of the MQTT client and of `main` run over a list
-- of what the broker does in each turn, and are not over when the list is; so do the rounds of the sampling
-- thread.
--
-- The threads of System interleave at their calls of the queues. The loop of Sessions is that of `main`
-- alone: what it takes out of the outbound queue in a turn is given with the turn.
--
-- Not modelled: logging, the watchdog's callback and the MAC address, which are only logged; the passing of
-- time but for the watchdog and the sampling thread; what the Zephyr libraries do inside their calls; the
-- test of lib/custom; boards, bindings and build files.
-- No statement is about what the drivers or the broker do.
mod Prelude
pub mod CString
pub mod Grammar
pub mod Board
pub mod FloatOrder
pub mod Mems
pub mod Attenuator
pub mod Maiman
pub mod Devices
pub mod Command
pub mod MsgQueue
pub mod Photodiode
pub mod Main
pub mod Commons
pub mod Drivers
pub mod Custom
pub mod Tests
