-- ===== src/Commons.antt =====
-- lib/coo_commons: the libraries that the firmware shares with other instruments.
pub mod Pid
pub mod Network
pub mod Mqtt
pub mod Json
