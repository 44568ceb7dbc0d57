-- ===== src/Sysupgrade.antt =====
-- src/sysupgrade-mecanism/sysupgrade_handler.cpp and sysupgrade_handler.h: class SysupgradeManager.
pub mod State
pub mod Firmware
pub mod Manager
pub mod Worker
