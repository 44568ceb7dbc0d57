-- ===== src/Sysupgrade/Manager.antt =====
-- src/sysupgrade-mecanism/sysupgrade_handler.cpp: startUpgrade, cancelUpgrade, getProgress,
-- updateProgress, addLogEntry, saveProgressToFile, initializeStages, completeStage and
-- estimateCompletion.
pub mod Hangs
use ur_webif.Base.{
  ℕ, suc, ◌+◌, ◌*◌, ◌-◌, ◌/◌, Bool, true, false, not, Option, none, some, List, [], ◌∷◌, ◌++◌,
  Bytes, codes, to_string, is_empty, ltb, leb, if◌then◌else◌, insert, ℤ, pos,
}
use ur_webif.Run.{Call, Run, returns, ◌>>=◌, ◌>>◌, pure, gets, modify, with_lock}
use ur_webif.Sysupgrade.State.{
  UpgradeStatus, preparing, UpgradeProgress, SysupgradeManager, System, progress_mutex,
}
use ur_webif.Sysupgrade.Firmware.{validate_firmware_file}

unfoldable pub read_clock : System → Call SysupgradeManager ℕ
read_clock sys s = returns (sys.clock s.readings) (record s { readings = suc s.readings })

abbrev pub change_progress : (UpgradeProgress → UpgradeProgress) → Call SysupgradeManager (Unit {0})
change_progress f = modify λ s. record s { current_progress = f s.current_progress }

unfoldable pub add_log_entry : System → Bytes → Call SysupgradeManager (Unit {0})
unfolding read_clock
add_log_entry sys entry = do
  now ← read_clock sys
  with_lock progress_mutex (
      change_progress λ p. record p {
        upgrade_log =
            p.upgrade_log ++ (codes "[" ++ (sys.log_time now ++ (codes "] " ++ entry))) ∷ [];
        last_updated = now;
      })

unfoldable pub save_progress_to_file : System → Call SysupgradeManager (Unit {0})
save_progress_to_file sys = modify λ s. record s {
  progress_file = if sys.can_write then some (sys.to_json s.current_progress) else s.progress_file;
}

unfoldable pub initialize_stages : Call SysupgradeManager (Unit {0})
initialize_stages = change_progress λ p. record p {
  stages_completed = insert (codes "reboot") false (
      insert (codes "write_flash") false
        (insert (codes "verify") false (insert (codes "prepare") false [])));
}

unfoldable pub complete_stage : Bytes → Call SysupgradeManager (Unit {0})
complete_stage stage_id =
    with_lock progress_mutex
      (change_progress λ p. record p { stages_completed = insert stage_id true p.stages_completed })

-- Five minutes after the start, but at least thirty seconds from now. Times are in milliseconds.
unfoldable pub estimate_completion : System → Call SysupgradeManager Bytes
unfolding read_clock
estimate_completion sys = do
  now ← read_clock sys
  gets λ s.
      let elapsed = (now - s.current_progress.started_at) / 1000 in
      let remaining = if leb 300 elapsed then 30 else 300 - elapsed in
      sys.iso_time (now + remaining * 1000)

unfoldable pub update_progress :
    System → UpgradeStatus → ℤ → Bytes → Bytes → Call SysupgradeManager (Unit {0})
unfolding read_clock estimate_completion save_progress_to_file
update_progress sys status percentage stage description = with_lock progress_mutex do
  now ← read_clock sys
  change_progress λ p. record p {
    status = status;
    progress_percentage = percentage;
    current_stage = stage;
    stage_description = description;
    last_updated = now;
  }
  estimate ← estimate_completion sys
  change_progress λ p. record p { estimated_completion = estimate }
  save_progress_to_file sys
  modify λ s.
      if s.has_progress_callback
      then record s { progress_calls = s.progress_calls ++ s.current_progress ∷ [] }
      else s

unfoldable pub get_progress : Call SysupgradeManager UpgradeProgress
get_progress = with_lock progress_mutex (gets λ s. s.current_progress)

-- The part of `startUpgrade` after the checks.
unfoldable pub launch_upgrade : System → Bytes → Bool → Call SysupgradeManager Bytes
unfolding read_clock initialize_stages add_log_entry save_progress_to_file
launch_upgrade sys firmware_path preserve_config = do
  id_time ← read_clock sys
  started ← read_clock sys
  updated ← read_clock sys
  change_progress λ p. record p {
    upgrade_id = codes "upgrade_" ++ to_string id_time;
    status = preparing;
    progress_percentage = pos 0;
    current_stage = codes "preparing";
    stage_description = codes "Preparing firmware upgrade...";
    started_at = started;
    last_updated = updated;
    error_message = [];
    upgrade_log = [];
  }
  initialize_stages
  add_log_entry sys (codes "Starting firmware upgrade process...")
  add_log_entry sys (codes "Firmware file: " ++ firmware_path)
  add_log_entry sys
      (codes "Preserve configuration: " ++ (if preserve_config then codes "Yes" else codes "No"))
  save_progress_to_file sys
  modify λ s. record s {
    should_cancel = false;
    is_running = true;
    worker = some (firmware_path, preserve_config);
  }
  pure []

-- The empty text means success.
unfoldable pub start_upgrade : System → Bytes → Bool → Call SysupgradeManager Bytes
start_upgrade sys firmware_path preserve_config = with_lock progress_mutex do
  running ← gets λ s. s.is_running
  if running then pure (codes "Upgrade already in progress") else (do
    validation_error ← validate_firmware_file sys firmware_path
    if not (is_empty validation_error)
        then pure validation_error
        else if not sys.is_sysupgrade_available
        then pure (codes "sysupgrade command not available on this system")
        else launch_upgrade sys firmware_path preserve_config)

unfoldable pub cancel_upgrade : System → Call SysupgradeManager Bool
unfolding add_log_entry
cancel_upgrade sys = with_lock progress_mutex do
  running ← gets λ s. s.is_running
  if not running then pure false else (do
    modify λ s. record s { should_cancel = true }
    add_log_entry sys (codes "Upgrade cancellation requested...")
    pure true)
