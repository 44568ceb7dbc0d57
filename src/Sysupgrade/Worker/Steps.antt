-- ===== src/Sysupgrade/Worker/Steps.antt =====
-- What the stages of the upgrade thread do, whatever the commands and the clock answer.
use ur_webif.Base.{
  ℕ, Bool, true, false, not, List, [], ◌∷◌, ◌++◌, Bytes, codes, ◌≡◌, ◌⊎◌, inr, arith, is_empty,
  if◌then◌else◌, ℤ, pos,
}
use ur_webif.Run.{Call, ◌>>◌, pure, raise, Triple, Triple-bind, Triple-weaken}
use ur_webif.Sysupgrade.State.{UpgradeStatus, preparing, completed, SysupgradeManager, System}
use ur_webif.Sysupgrade.Manager.{add_log_entry, update_progress, complete_stage}
use ur_webif.Sysupgrade.Worker.{
  execute_captured, execute_system, execute_sysupgrade, sysupgrade_command, check_cancelled,
  finish_stages, report_completion, prepare_stages, flash_stages,
}

-- The mutex is free; the commands handed to `system` and the calls of the completion callback.
pub record Quiet (commands : List Bytes) (calls : List (Bool × Bytes)) (s : SysupgradeManager)
    : Type 0 where
  pub free : s.progress_held ≡ false
  pub listens : s.has_completion_callback ≡ true
  pub ran : s.commands ≡ commands
  pub told : s.completion_calls ≡ calls

-- The same with the state that is reported.
pub record Shows (status : UpgradeStatus) (percentage : ℤ) (commands : List Bytes)
    (calls : List (Bool × Bytes)) (s : SysupgradeManager) : Type 0 where
  pub quiet : Quiet commands calls s
  pub shown : s.current_progress.status ≡ status
  pub percent : s.current_progress.progress_percentage ≡ percentage

-- The flag was not set at any of the four tests.
abbrev pub Uncancelled : System → Type 0
Uncancelled sys =
    (sys.cancels 0 ≡ false)
    × (sys.cancels 1 ≡ false)
    × (sys.cancels 2 ≡ false)
    × (sys.cancels 3 ≡ false)

-- Operations that throw nothing, whatever `E` is.
module _ (sys : System) (E : SysupgradeManager → Type 0) (cs : List Bytes)
    (ks : List (Bool × Bytes)) where
  pub add_log_entry-Quiet :
      (entry : Bytes) → Triple (Quiet cs ks) (add_log_entry sys entry) (Quiet cs ks) E
  unfolding add_log_entry
  add_log_entry-Quiet entry = record { run = λ s q. ground arith }

  pub update_progress-Shows :
      (status : UpgradeStatus) (percentage : ℤ) (stage description : Bytes)
      → Triple
          (Quiet cs ks)
          (update_progress sys status percentage stage description)
          (Shows status percentage cs ks)
          E
  unfolding update_progress
  update_progress-Shows status percentage stage description = record { run = λ s q. ground arith }

  pub update_progress-Quiet :
      (status : UpgradeStatus) (percentage : ℤ) (stage description : Bytes)
      → Triple
          (Quiet cs ks)
          (update_progress sys status percentage stage description)
          (Quiet cs ks)
          E
  update_progress-Quiet status percentage stage description =
      Triple-weaken (update_progress-Shows status percentage stage description) (λ t q. q.quiet)

  complete_stage-Quiet :
      (stage : Bytes) → Triple (Quiet cs ks) (complete_stage stage) (Quiet cs ks) E
  unfolding complete_stage
  complete_stage-Quiet stage = record { run = λ s q. ground arith }

  complete_stage-Shows :
      (status : UpgradeStatus) (percentage : ℤ) (stage : Bytes)
      → Triple
          (Shows status percentage cs ks)
          (complete_stage stage)
          (Shows status percentage cs ks)
          E
  unfolding complete_stage
  complete_stage-Shows status percentage stage = record {
    run = λ s q. ground (arith, q.quiet.free, q.quiet.listens, q.quiet.ran, q.quiet.told);
  }

  pub report_completion-Shows :
      (status : UpgradeStatus) (percentage : ℤ) (success : Bool) (message : Bytes)
      → Triple
          (Shows status percentage cs ks)
          (report_completion success message)
          (Shows status percentage cs (ks ++ (success, message) ∷ []))
          E
  unfolding report_completion
  report_completion-Shows status percentage success message = record {
    run = λ s q. ground (arith, q.quiet.free, q.quiet.listens, q.quiet.ran, q.quiet.told);
  }

  -- The command is handed to `system` exactly once; a failure is a text, not an exception.
  execute_sysupgrade-Quiet :
      (path : Bytes) (preserve : Bool)
      → Triple
          (Quiet cs ks)
          (execute_sysupgrade sys path preserve)
          (Quiet (cs ++ sysupgrade_command path preserve ∷ []) ks)
          E
  unfolding execute_sysupgrade execute_system
  execute_sysupgrade-Quiet path preserve =
      Triple-bind (add_log_entry-Quiet _) (λ _. record { run = λ s q. ground arith })

-- What the steps of the preparation keep of the manager.
pub record Kept (sys : System) (I E : SysupgradeManager → Type 0) : Type 0 where
  pub log : (entry : Bytes) → Triple I (add_log_entry sys entry) I E
  pub progress :
      (status : UpgradeStatus) (percentage : ℤ) (stage description : Bytes)
      → Triple I (update_progress sys status percentage stage description) I E
  pub complete : (stage : Bytes) → Triple I (complete_stage stage) I E
  pub check : (k : ℕ) → Triple I (check_cancelled sys k) (λ t. I t × (sys.cancels k ≡ false)) E
  pub capture : (command : Bytes) → Triple I (execute_captured sys command) I E

module _ (sys : System) (I E : SysupgradeManager → Type 0) (kept : Kept sys I E) where
  -- What follows a test of the flag may use that it was not set.
  after_check :
      {A : Type 0} {R : SysupgradeManager → Type 0} {m : Call SysupgradeManager A} (k : ℕ)
      → (sys.cancels k ≡ false → Triple I m R E)
      → Triple I (check_cancelled sys k >> m) R E
  after_check k h = Triple-bind (kept.check k) (λ _. record { run = λ s q. (h q.1).run s q.0 })

  backup-by :
      (preserve : Bool)
      → Triple I
          (if preserve
            then (add_log_entry sys (codes "Backing up current configuration...")
                >> update_progress sys preparing
                    (pos 30)
                    (codes "preparing")
                    (codes "Backing up configuration..."))
            else pure tt)
          I
          E
  backup-by true = Triple-bind (kept.log _) (λ _. kept.progress _ _ _ _)
  backup-by false = record { run = λ s q. q }

  pub prepare_stages-by :
      (path : Bytes) (preserve : Bool)
      → Triple I (prepare_stages sys path preserve) (λ t. I t × Uncancelled sys) E
  unfolding prepare_stages
  prepare_stages-by path preserve = Triple-bind (kept.log _) λ _.
      Triple-bind (kept.progress _ _ _ _) λ _. after_check 0 λ c0. Triple-bind (kept.log _) λ _.
        Triple-bind (kept.progress _ _ _ _) λ _. Triple-bind (kept.complete _) λ _.
          after_check 1 λ c1. Triple-bind (kept.log _) λ _. Triple-bind (kept.progress _ _ _ _) λ _.
            Triple-bind (kept.capture _) λ space. Triple-bind (kept.log _) λ _. after_check 2 λ c2.
              Triple-bind (backup-by preserve) λ _. Triple-bind (kept.log _) λ _.
                Triple-bind (kept.progress _ _ _ _) λ _. Triple-bind (kept.capture _) λ checksum.
                  Triple-bind (kept.log _) λ _.
                    Triple-bind (kept.complete _)
                      λ _. Triple-weaken (kept.check 3) (λ t q. (q.0, (c0, c1, c2, q.1)))

module _ (sys : System) (cs : List Bytes) (ks : List (Bool × Bytes)) where
  execute_captured-Quiet :
      (command : Bytes)
      → Triple (Quiet cs ks) (execute_captured sys command) (Quiet cs ks) (Quiet cs ks)
  unfolding execute_captured
  execute_captured-Quiet command = record { run = λ s q. ground arith }

  check_cancelled-Quiet :
      (k : ℕ)
      → Triple
          (Quiet cs ks)
          (check_cancelled sys k)
          (λ t. Quiet cs ks t × (sys.cancels k ≡ false))
          (Quiet cs ks)
  unfolding check_cancelled
  check_cancelled-Quiet k = record { run = λ s q. ground arith }

  pub prepare_stages-Quiet :
      (path : Bytes) (preserve : Bool)
      → Triple
          (Quiet cs ks)
          (prepare_stages sys path preserve)
          (λ t. Quiet cs ks t × Uncancelled sys)
          (Quiet cs ks)
  prepare_stages-Quiet path preserve =
      prepare_stages-by sys (Quiet cs ks) (Quiet cs ks)
        (record {
          log = add_log_entry-Quiet sys (Quiet cs ks) cs ks;
          progress = update_progress-Quiet sys (Quiet cs ks) cs ks;
          complete = complete_stage-Quiet sys (Quiet cs ks) cs ks;
          check = check_cancelled-Quiet;
          capture = execute_captured-Quiet;
        })
        path preserve

-- The text of the last call of the completion callback.
abbrev pub success_message : Bytes
success_message = codes "Firmware upgrade completed successfully"

-- The stages from the writing on have thrown, before the command was handed to `system` or after.
abbrev pub Halted : List Bytes → Bytes → List (Bool × Bytes) → SysupgradeManager → Type 0
Halted cs command ks t = Quiet cs ks t ⊎ Quiet (cs ++ command ∷ []) ks t

pub finish_stages-Shows :
    (sys : System) (E : SysupgradeManager → Type 0) (cs : List Bytes) (ks : List (Bool × Bytes))
    → Triple
        (Quiet cs ks)
        (finish_stages sys)
        (Shows completed (pos 100) cs (ks ++ (true, success_message) ∷ []))
        E
unfolding finish_stages
finish_stages-Shows sys E cs ks = Triple-bind (add_log_entry-Quiet sys E cs ks _) λ _.
    Triple-bind (update_progress-Quiet sys E cs ks _ _ _ _) λ _.
      Triple-bind (complete_stage-Quiet sys E cs ks _) λ _.
        Triple-bind (add_log_entry-Quiet sys E cs ks _) λ _.
          Triple-bind (add_log_entry-Quiet sys E cs ks _) λ _.
            Triple-bind (update_progress-Shows sys E cs ks _ _ _ _) λ _.
              Triple-bind (complete_stage-Shows sys E cs ks _ _ _)
                λ _. report_completion-Shows sys E cs ks _ _ _ _

module _ (sys : System) (cs : List Bytes) (ks : List (Bool × Bytes)) (path : Bytes)
    (preserve : Bool) where
  check_result :
      (result : Bytes)
      → let command = sysupgrade_command path preserve in
        Triple
          (Quiet (cs ++ command ∷ []) ks)
          (if not (is_empty result) then raise (codes "Sysupgrade failed: " ++ result) else pure tt)
          (Quiet (cs ++ command ∷ []) ks)
          (Halted cs command ks)
  check_result [] = record { run = λ s q. q }
  check_result (c ∷ rest) = record { run = λ s q. inr q }

  pub flash_stages-Shows :
      let command = sysupgrade_command path preserve in
      Triple
        (Quiet cs ks)
        (flash_stages sys path preserve)
        (Shows completed (pos 100) (cs ++ command ∷ []) (ks ++ (true, success_message) ∷ []))
        (Halted cs command ks)
  unfolding flash_stages
  flash_stages-Shows =
      let command = sysupgrade_command path preserve in
      let E = Halted cs command ks in
      let ran = cs ++ command ∷ [] in
      Triple-bind (add_log_entry-Quiet sys E cs ks _) λ _.
        Triple-bind (update_progress-Quiet sys E cs ks _ _ _ _) λ _.
          Triple-bind (execute_sysupgrade-Quiet sys E cs ks path preserve)
            λ result. Triple-bind (check_result result) λ _. finish_stages-Shows sys E ran ks
