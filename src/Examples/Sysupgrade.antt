-- ===== src/Examples/Sysupgrade.antt =====
-- An upgrade with a made-up file system, shell and clock.
use ur_webif.Base.{
  ◌∷◌, ◌*◌, Bool, true, false, none, some, [], Bytes, codes, ◌≡◌, refl, arith, pos, eqb, ◌==◌,
  if◌then◌else◌,
}
use ur_webif.Run.{returns}
use ur_webif.Sysupgrade.State.{completed, idle, UpgradeProgress, SysupgradeManager, System}
use ur_webif.Sysupgrade.Firmware.{validate_firmware_file, get_supported_formats, find_last_of}
use ur_webif.Sysupgrade.Firmware.Formats.{IsPlausible}
use ur_webif.Sysupgrade.Manager.{start_upgrade}
use ur_webif.Sysupgrade.Manager.Hangs.{HangsUnstarted, start_upgrade-hangs}
use ur_webif.Sysupgrade.Worker.{upgrade_worker, sysupgrade_command}
use ur_webif.Sysupgrade.Worker.Steps.{Quiet, Shows, success_message}
use ur_webif.Sysupgrade.Worker.Success.{Succeeds, upgrade_worker-completes}
use ur_webif.Sysupgrade.Worker.Outcome.{
  Ended, Failed, upgrade_worker-Ended, upgrade_worker-cancelled,
}

-- Every file has two mebibytes; the third test of the flag finds it set or not.
abbrev toy_system : Bool → System
toy_system cancelled = record {
  exists = λ path. true;
  file_size = λ path. 2097152;
  is_sysupgrade_available = true;
  clock = λ k. 1000 * k;
  log_time = λ t. codes "now";
  iso_time = λ t. codes "later";
  to_json = λ p. codes "{}";
  can_write = true;
  capture = λ command. some (codes "12M\n", 0);
  system = λ command. 0;
  cancels = λ k. if k == 2 then cancelled else false;
}

abbrev no_progress : UpgradeProgress
no_progress = record {
  upgrade_id = [];
  status = idle;
  progress_percentage = pos 0;
  current_stage = [];
  stage_description = [];
  upgrade_log = [];
  started_at = 0;
  last_updated = 0;
  error_message = [];
  stages_completed = [];
  estimated_completion = [];
}

abbrev manager : Bool → SysupgradeManager
manager running = record {
  is_running = running;
  should_cancel = false;
  current_progress = no_progress;
  has_progress_callback = true;
  has_completion_callback = true;
  progress_held = false;
  progress_file = none;
  worker = none;
  progress_calls = [];
  completion_calls = [];
  readings = 0;
  commands = [];
}

abbrev quiet : Quiet [] [] (manager true)
quiet = record { free = refl; listens = refl; ran = refl; told = refl }

abbrev path : Bytes
path = codes "/tmp/firmware.bin"

upgrade_worker-Ended_example :
    (t : SysupgradeManager) × (upgrade_worker (toy_system false) path true (manager true)
      ≡ returns tt t)
    × (Ended [] (sysupgrade_command path true) [] t × (t.is_running ≡ false))
upgrade_worker-Ended_example =
    upgrade_worker-Ended (toy_system false) path true [] [] (manager true) quiet

upgrade_worker-cancelled_example :
    (t : SysupgradeManager) × (upgrade_worker (toy_system true) path true (manager true)
      ≡ returns tt t)
    × (Failed [] [] t × (t.is_running ≡ false))
upgrade_worker-cancelled_example =
    upgrade_worker-cancelled (toy_system true) path true [] [] (manager true) (2, omega arith, refl)
      quiet

start_upgrade-hangs_example :
    HangsUnstarted (manager false) (start_upgrade (toy_system false) path true (manager false))
unfolding validate_firmware_file find_last_of get_supported_formats eqb
start_upgrade-hangs_example =
    start_upgrade-hangs (toy_system false) path true (manager false) refl refl refl refl

abbrev plausible : (path : Bytes) → IsPlausible (toy_system false) path
plausible path = record { there = refl; large_enough = omega arith; small_enough = omega arith }

succeeds : Succeeds (toy_system false) path true
succeeds = record {
  uncancelled = λ k. ground arith;
  captures = λ command. (codes "12M\n", refl);
  flashes = refl;
}

upgrade_worker-completes_example :
    (t : SysupgradeManager) × (upgrade_worker (toy_system false) path true (manager true)
      ≡ returns tt t)
    × (Shows completed
          (pos 100)
          (sysupgrade_command path true ∷ [])
          ((true, success_message) ∷ [])
          t
        × (t.is_running ≡ false))
upgrade_worker-completes_example =
    upgrade_worker-completes (toy_system false) path true [] [] (manager true) succeeds
      (record { quiet = quiet; clear = refl })
