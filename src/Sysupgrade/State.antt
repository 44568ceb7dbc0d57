-- ===== src/Sysupgrade/State.antt =====
-- src/sysupgrade-mecanism/sysupgrade_handler.h: UpgradeStatus, UpgradeProgress and the members of
-- SysupgradeManager; statusToString and statusFromString of sysupgrade_handler.cpp.
pub mod Status
use ur_webif.Base.{ℕ, Bool, Option, List, Bytes, codes, Assoc, ℤ, eqb, if◌then◌else◌}
use ur_webif.Run.{Mutex}

pub data UpgradeStatus : Type 0 where
  idle preparing downloading verifying flashing rebooting completed failed : UpgradeStatus

unfoldable pub status_to_string : UpgradeStatus → Bytes
status_to_string idle = codes "idle"
status_to_string preparing = codes "preparing"
status_to_string downloading = codes "downloading"
status_to_string verifying = codes "verifying"
status_to_string flashing = codes "in_progress"
status_to_string rebooting = codes "rebooting"
status_to_string completed = codes "completed"
status_to_string failed = codes "failed"

unfoldable pub status_from_string : Bytes → UpgradeStatus
status_from_string status =
    if eqb status (codes "idle")
    then idle
    else if eqb status (codes "preparing")
    then preparing
    else if eqb status (codes "downloading")
    then downloading
    else if eqb status (codes "verifying")
    then verifying
    else if eqb status (codes "in_progress")
    then flashing
    else if eqb status (codes "rebooting")
    then rebooting
    else if eqb status (codes "completed")
    then completed
    else if eqb status (codes "failed")
    then failed
    else idle

pub record UpgradeProgress : Type 0 where
  pub upgrade_id : Bytes
  pub status : UpgradeStatus
  pub progress_percentage : ℤ
  pub current_stage : Bytes
  pub stage_description : Bytes
  pub upgrade_log : List Bytes
  pub started_at : ℕ
  pub last_updated : ℕ
  pub error_message : Bytes
  pub stages_completed : Assoc Bool
  pub estimated_completion : Bytes

-- `worker` is the argument of the upgrade thread that has been started; the two lists are the calls
-- of the callbacks. `readings` counts the readings of the clock, and `commands` are the commands
-- handed to `system`.
pub record SysupgradeManager : Type 0 where
  pub is_running : Bool
  pub should_cancel : Bool
  pub current_progress : UpgradeProgress
  pub has_progress_callback : Bool
  pub has_completion_callback : Bool
  pub progress_held : Bool
  pub progress_file : Option Bytes
  pub worker : Option (Bytes × Bool)
  pub progress_calls : List UpgradeProgress
  pub completion_calls : List (Bool × Bytes)
  pub readings : ℕ
  pub commands : List Bytes

abbrev pub progress_mutex : Mutex SysupgradeManager
progress_mutex = record {
  is_held = λ s. s.progress_held;
  set_held = λ b s. record s { progress_held = b };
}

-- What the class takes from the file system, the shell, the clock, the formatting of times, the
-- JSON library and the destructor. `clock` gives the milliseconds at each reading; `capture` the
-- output and the exit status of a command read through a pipe, or `none` if `popen` fails; `system`
-- an exit status; `cancels` whether the destructor, in its own thread, sets `should_cancel_` just
-- before each of the worker's tests.
pub record System : Type 0 where
  pub exists : Bytes → Bool
  pub file_size : Bytes → ℕ
  pub is_sysupgrade_available : Bool
  pub clock : ℕ → ℕ
  pub log_time : ℕ → Bytes
  pub iso_time : ℕ → Bytes
  pub to_json : UpgradeProgress → Bytes
  pub can_write : Bool
  pub capture : Bytes → Option (Bytes × ℕ)
  pub system : Bytes → ℕ
  pub cancels : ℕ → Bool
