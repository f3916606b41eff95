-- ===== src/Lights.antt =====
-- liblight/lights.c: the lights of the device, through files of the kernel's LED class.
pub mod Files
pub mod Device
pub mod Show
pub mod Open
