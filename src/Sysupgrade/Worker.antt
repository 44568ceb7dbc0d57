-- ===== src/Sysupgrade/Worker.antt =====
-- src/sysupgrade-mecanism/sysupgrade_handler.cpp: upgradeWorker, executeSysupgrade and
-- executeCommand. The waits between the stages are left out. No other thread but the destructor acts
-- on the manager while the worker runs: cancelUpgrade, which locks the mutex for ever, does not.
pub mod Steps
pub mod Outcome
pub mod Success
use ur_webif.Base.{
  ℕ, Bool, true, false, not, Option, none, some, [], ◌∷◌, ◌++◌, Bytes, codes, to_string, is_empty,
  ◌==◌, ◌||◌, if◌then◌else◌, pos, negsuc,
}
use ur_webif.Run.{Call, ◌>>=◌, ◌>>◌, pure, raise, modify, gets, try_catch}
use ur_webif.Sysupgrade.State.{
  preparing, verifying, flashing, rebooting, completed, failed, SysupgradeManager, System,
}
use ur_webif.Sysupgrade.Manager.{add_log_entry, update_progress, complete_stage}

-- `if (!result.empty() && result.back() == '\n') result.pop_back()`
abbrev pub without_newline : Bytes → Bytes
without_newline [] = []
without_newline (c ∷ []) = if c == b'\n' then [] else c ∷ []
without_newline (c ∷ d ∷ cs) = c ∷ without_newline (d ∷ cs)

-- The output of a command read through a pipe.
abbrev pub captured : Option (Bytes × ℕ) → Call SysupgradeManager Bytes
captured none = raise (codes "popen() failed")
captured (some (output, status)) =
    if not (status == 0)
    then raise (codes "Command failed with status: " ++ to_string status)
    else pure (without_newline output)

-- `executeCommand(command, true)`
unfoldable pub execute_captured : System → Bytes → Call SysupgradeManager Bytes
execute_captured sys command = captured (sys.capture command)

-- `executeCommand(command, false)`
unfoldable pub execute_system : System → Bytes → Call SysupgradeManager Bytes
execute_system sys command = do
  modify λ s. record s { commands = s.commands ++ command ∷ [] }
  if not (sys.system command == 0)
      then raise (codes "Command failed with status: " ++ to_string (sys.system command))
      else pure []

unfoldable pub sysupgrade_command : Bytes → Bool → Bytes
sysupgrade_command firmware_path preserve_config =
    codes "sysupgrade"
    ++ ((if not preserve_config then codes " -n" else [])
        ++ (codes " -v '" ++ (firmware_path ++ codes "'")))

-- The empty text means success.
unfoldable pub execute_sysupgrade : System → Bytes → Bool → Call SysupgradeManager Bytes
unfolding sysupgrade_command
execute_sysupgrade sys firmware_path preserve_config = do
  let command = sysupgrade_command firmware_path preserve_config
  add_log_entry sys (codes "Executing: " ++ command)
  try_catch (execute_system sys command >> pure [])
      (λ e. pure (codes "Command execution failed: " ++ e))

-- `if (should_cancel_) throw …`, the `k`-th such test of a run, behind what the destructor does.
unfoldable pub check_cancelled : System → ℕ → Call SysupgradeManager (Unit {0})
check_cancelled sys k = do
  modify λ s. record s { should_cancel = s.should_cancel || sys.cancels k }
  should_cancel ← gets λ s. s.should_cancel
  if should_cancel then raise (codes "Upgrade cancelled by user") else pure tt

unfoldable pub report_completion : Bool → Bytes → Call SysupgradeManager (Unit {0})
report_completion success message = modify λ s.
    if s.has_completion_callback
    then record s { completion_calls = s.completion_calls ++ (success, message) ∷ [] }
    else s

-- The stages before the firmware is written.
unfoldable pub prepare_stages : System → Bytes → Bool → Call SysupgradeManager (Unit {0})
prepare_stages sys firmware_path preserve_config = do
  add_log_entry sys (codes "Validating firmware file...")
  update_progress sys preparing (pos 5) (codes "preparing") (codes "Validating firmware file...")
  check_cancelled sys 0
  add_log_entry sys (codes "Checking system requirements...")
  update_progress sys preparing (pos 10) (codes "preparing")
      (codes "Checking system requirements...")
  complete_stage (codes "prepare")
  check_cancelled sys 1
  add_log_entry sys (codes "Performing pre-upgrade system checks...")
  update_progress sys preparing (pos 20) (codes "preparing")
      (codes "Performing pre-upgrade checks...")
  space ← execute_captured sys (codes "df -h /tmp | tail -1 | awk '{print $4}'")
  add_log_entry sys (codes "Available space in /tmp: " ++ space)
  check_cancelled sys 2
  if preserve_config
      then (add_log_entry sys (codes "Backing up current configuration...")
          >> update_progress sys preparing (pos 30) (codes "preparing")
              (codes "Backing up configuration..."))
      else pure tt
  add_log_entry sys (codes "Verifying firmware integrity...")
  update_progress sys verifying (pos 40) (codes "verify") (codes "Verifying firmware checksum...")
  checksum ←
      execute_captured sys (codes "sha256sum '" ++ (firmware_path ++ codes "' | cut -d' ' -f1"))
  add_log_entry sys (codes "Firmware SHA256: " ++ checksum)
  complete_stage (codes "verify")
  check_cancelled sys 3

-- The stages behind the writing.
unfoldable pub finish_stages : System → Call SysupgradeManager (Unit {0})
finish_stages sys = do
  add_log_entry sys (codes "Firmware flash completed successfully")
  update_progress sys rebooting (pos 90) (codes "reboot") (codes "Preparing for system reboot...")
  complete_stage (codes "write_flash")
  add_log_entry sys (codes "Firmware upgrade completed successfully")
  add_log_entry sys (codes "System will reboot shortly...")
  update_progress sys completed (pos 100) (codes "completed")
      (codes "Upgrade completed successfully")
  complete_stage (codes "reboot")
  report_completion true (codes "Firmware upgrade completed successfully")

-- The stages from the writing on.
unfoldable pub flash_stages : System → Bytes → Bool → Call SysupgradeManager (Unit {0})
flash_stages sys firmware_path preserve_config = do
  add_log_entry sys (codes "Starting sysupgrade process...")
  update_progress sys flashing (pos 50) (codes "write_flash")
      (codes "Writing firmware to flash memory...")
  sysupgrade_result ← execute_sysupgrade sys firmware_path preserve_config
  if not (is_empty sysupgrade_result)
      then raise (codes "Sysupgrade failed: " ++ sysupgrade_result)
      else pure tt
  finish_stages sys

-- The handler of the worker's exceptions; -1 is the percentage of a failure.
unfoldable pub fail_upgrade : System → Bytes → Call SysupgradeManager (Unit {0})
fail_upgrade sys e = do
  let error_msg = codes "Upgrade failed: " ++ e
  add_log_entry sys error_msg
  update_progress sys failed (negsuc 0) (codes "failed") error_msg
  report_completion false error_msg

unfoldable pub upgrade_worker : System → Bytes → Bool → Call SysupgradeManager (Unit {0})
upgrade_worker sys firmware_path preserve_config = do
  try_catch
      (prepare_stages sys firmware_path preserve_config
        >> flash_stages sys firmware_path preserve_config)
      (fail_upgrade sys)
  modify λ s. record s { is_running = false }
