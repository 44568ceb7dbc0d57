-- ===== src/Sysupgrade/Manager/Hangs.antt =====
-- `addLogEntry` locks the mutex that its callers `startUpgrade` and `cancelUpgrade` hold.
use ur_webif.Base.{Bool, true, false, [], Bytes, ◌≡◌, refl, arith}
use ur_webif.Run.{Run, returns, throws, blocked, IsBlocked, state_after}
use ur_webif.Sysupgrade.State.{SysupgradeManager, System}
use ur_webif.Sysupgrade.Firmware.{validate_firmware_file}
use ur_webif.Sysupgrade.Manager.{
  start_upgrade, launch_upgrade, cancel_upgrade, add_log_entry, get_progress,
}

-- A thread waits, and no upgrade has been started.
abbrev pub HangsUnstarted : SysupgradeManager → Run SysupgradeManager Bytes → Type 0
HangsUnstarted s (returns a t) = ⊥
HangsUnstarted s (throws e t) = ⊥
HangsUnstarted s (blocked t) =
    (t.progress_held ≡ true)
    × (t.is_running ≡ s.is_running)
    × (t.worker ≡ s.worker)
    × (t.commands ≡ s.commands)

launch_upgrade-hangs :
    (sys : System) (path : Bytes) (preserve : Bool) (s : SysupgradeManager)
    → s.progress_held ≡ true
    → HangsUnstarted s (launch_upgrade sys path preserve s)
unfolding launch_upgrade add_log_entry
launch_upgrade-hangs sys path preserve s h = ground arith

-- When the mutex is free, no upgrade runs, the firmware file is valid and the sysupgrade command is
-- there, `startUpgrade` never returns: it waits for the mutex that it holds, at its first log
-- entry. The upgrade thread is not started, nothing is marked as running and no command is
-- executed.
pub start_upgrade-hangs :
    (sys : System) (path : Bytes) (preserve : Bool) (s : SysupgradeManager)
    → s.progress_held ≡ false
    → s.is_running ≡ false
    → validate_firmware_file sys path (record s { progress_held = true })
      ≡ returns [] (record s { progress_held = true })
    → sys.is_sysupgrade_available ≡ true
    → HangsUnstarted s (start_upgrade sys path preserve s)
unfolding start_upgrade
start_upgrade-hangs sys path preserve s free idle valid there =
    ground (arith, launch_upgrade-hangs sys path preserve (record s { progress_held = true }) refl)

-- With the mutex free, `cancelUpgrade` of a running upgrade never returns. It leaves the mutex
-- locked, so that the next log entry and the next progress report of the worker, and every
-- `getProgress`, wait for ever too.
pub cancel_upgrade-hangs :
    (sys : System) (s : SysupgradeManager) (entry : Bytes)
    → s.progress_held ≡ false
    → s.is_running ≡ true
    → let t = state_after (cancel_upgrade sys s) in
      IsBlocked (cancel_upgrade sys s)
      × (t.should_cancel ≡ true)
      × IsBlocked (add_log_entry sys entry t)
      × (get_progress t ≡ blocked t)
unfolding cancel_upgrade add_log_entry get_progress
cancel_upgrade-hangs sys s entry free running = ground arith
