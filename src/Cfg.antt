-- ===== src/Cfg.antt =====
-- gps/utils/loc_cfg.cpp: configuration files, which give the parameters of a table their values.
pub mod Text
pub mod Table
pub mod Config
pub mod Lines
pub mod Settings
pub mod Fit
pub mod Update
