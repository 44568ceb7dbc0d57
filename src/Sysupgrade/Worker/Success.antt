-- ===== src/Sysupgrade/Worker/Success.antt =====
-- An upgrade on a system where each command succeeds and nobody cancels.
use ur_webif.Base.{ℤ, ℕ, Bool, true, false, some, List, [], ◌∷◌, ◌++◌, Bytes, ◌≡◌, refl, arith, pos}
use ur_webif.Run.{
  Run, Call, returns, throws, blocked, ◌>>=◌, Ends, Triple, Triple-bind, Triple-weaken,
  try_catch-Triple,
}
use ur_webif.Sysupgrade.State.{UpgradeStatus, completed, SysupgradeManager, System}
use ur_webif.Sysupgrade.Manager.{read_clock, add_log_entry, update_progress, complete_stage}
use ur_webif.Sysupgrade.Worker.{
  execute_captured, execute_system, execute_sysupgrade, sysupgrade_command, check_cancelled,
  flash_stages, upgrade_worker,
}
use ur_webif.Sysupgrade.Worker.Steps.{
  Quiet, Shows, add_log_entry-Quiet, update_progress-Quiet, prepare_stages-by, finish_stages-Shows,
  success_message,
}
use ur_webif.Sysupgrade.Worker.Outcome.{Never, Shows-stopped, Ends-returns}

-- The flag is never set by the destructor, the commands that are read through a pipe end with status 0, and so does
-- the sysupgrade command.
pub record Succeeds (sys : System) (path : Bytes) (preserve : Bool) : Type 0 where
  pub uncancelled : (k : ℕ) → sys.cancels k ≡ false
  pub captures : (command : Bytes) → (output : Bytes) × (sys.capture command ≡ some (output, 0))
  pub flashes : sys.system (sysupgrade_command path preserve) ≡ 0

-- Quiet, and nobody has asked for the end of the upgrade.
pub record Calm (commands : List Bytes) (calls : List (Bool × Bytes)) (s : SysupgradeManager)
    : Type 0 where
  pub quiet : Quiet commands calls s
  pub clear : s.should_cancel ≡ false

-- A call that throws nothing, and what follows it for each result.
Triple-result :
    {A B : Type 0} {P R : SysupgradeManager → Type 0} (m : Call SysupgradeManager A)
    (f : A → Call SysupgradeManager B) (Q : A → SysupgradeManager → Type 0)
    → ((s : SysupgradeManager) → P s → Ends (m s) Q (λ _ _. ⊥))
    → ((a : A) (t : SysupgradeManager) → Q a t → Ends (f a t) (λ _ u. R u) (λ _ u. Never u))
    → Triple P (m >>= f) R Never
Triple-result {A} {B} {P} {R} m f Q h k = record { run = λ s p. after (m s) (h s p) }
  where
    after :
        (r : Run SysupgradeManager A)
        → Ends r Q (λ _ _. ⊥)
        → Ends
            (elim r [ returns a t ↦ f a t | throws e t ↦ throws e t | blocked t ↦ blocked t ])
            (λ _ u. R u)
            (λ _ u. Never u)
    after (returns a t) q = k a t q
    after (throws e t) q = absurd q
    after (blocked t) q = absurd q

module _ (sys : System) (cs : List Bytes) (ks : List (Bool × Bytes)) (path : Bytes)
    (preserve : Bool) (ok : Succeeds sys path preserve) where
  log-Calm : (entry : Bytes) → Triple (Calm cs ks) (add_log_entry sys entry) (Calm cs ks) Never
  unfolding add_log_entry
  log-Calm entry = record { run = λ s q. ground arith }

  progress-Calm :
      (status : UpgradeStatus) (percentage : ℤ) (stage description : Bytes)
      → Triple
          (Calm cs ks)
          (update_progress sys status percentage stage description)
          (Calm cs ks)
          Never
  unfolding update_progress
  progress-Calm status percentage stage description = record { run = λ s q. ground arith }

  complete-Calm : (stage : Bytes) → Triple (Calm cs ks) (complete_stage stage) (Calm cs ks) Never
  unfolding complete_stage
  complete-Calm stage = record { run = λ s q. ground arith }

  check-Calm :
      (k : ℕ)
      → Triple
          (Calm cs ks)
          (check_cancelled sys k)
          (λ t. Calm cs ks t × (sys.cancels k ≡ false))
          Never
  unfolding check_cancelled
  check-Calm k = record { run = λ s q. ground (arith, ok.uncancelled k) }

  captured-Calm :
      (command : Bytes) → Triple (Calm cs ks) (execute_captured sys command) (Calm cs ks) Never
  unfolding execute_captured
  captured-Calm command =
      let (output, e) = ok.captures command in record { run = λ s q. ground (arith, e) }

  -- The sysupgrade command is executed, and the text that is given back is empty.
  execute_sysupgrade-succeeds :
      (s : SysupgradeManager)
      → Quiet cs ks s
      → Ends
          (execute_sysupgrade sys path preserve s)
          (λ result t. (result ≡ []) × Quiet (cs ++ sysupgrade_command path preserve ∷ []) ks t)
          (λ _ t. ⊥)
  unfolding execute_sysupgrade execute_system add_log_entry read_clock
  execute_sysupgrade-succeeds s q = ground (arith, ok.flashes)

  flash_stages-succeeds :
      Triple
        (Quiet cs ks)
        (flash_stages sys path preserve)
        (Shows completed
          (pos 100)
          (cs ++ sysupgrade_command path preserve ∷ [])
          (ks ++ (true, success_message) ∷ []))
        Never
  unfolding flash_stages
  flash_stages-succeeds =
      let ran = cs ++ sysupgrade_command path preserve ∷ [] in
      Triple-bind (add_log_entry-Quiet sys Never cs ks _) λ _.
        Triple-bind (update_progress-Quiet sys Never cs ks _ _ _ _) λ _.
          Triple-result (execute_sysupgrade sys path preserve) _
            (λ result t. (result ≡ []) × Quiet ran ks t) execute_sysupgrade-succeeds
            (λ result t q. rw q.0 ((finish_stages-Shows sys Never ran ks).run t q.1))

  worker-completes :
      Triple
        (Calm cs ks)
        (upgrade_worker sys path preserve)
        (λ t.
          Shows completed
            (pos 100)
            (cs ++ sysupgrade_command path preserve ∷ [])
            (ks ++ (true, success_message) ∷ [])
            t
          × (t.is_running ≡ false))
        Never
  unfolding upgrade_worker
  worker-completes =
      Triple-bind
        (try_catch-Triple
          (Triple-bind
            (Triple-weaken
              (prepare_stages-by sys (Calm cs ks) Never
                (record {
                  log = log-Calm;
                  progress = progress-Calm;
                  complete = complete-Calm;
                  check = check-Calm;
                  capture = captured-Calm;
                })
                path preserve)
              (λ t q. q.0.quiet))
            (λ _. flash_stages-succeeds))
          (λ e. record { run = λ s q. absurd q }))
        (λ _. record { run = λ s q. (Shows-stopped _ _ _ _ s q, refl) })

-- With the mutex free, the flag clear and a completion callback, when the destructor does not set the
-- flag and each command succeeds, the
-- upgrade thread completes the upgrade: it returns with the state completed at a hundred percent,
-- the sysupgrade command has been run once, success has been reported once, and nothing is marked
-- as running.
pub upgrade_worker-completes :
    (sys : System) (path : Bytes) (preserve : Bool) (cs : List Bytes) (ks : List (Bool × Bytes))
    (s : SysupgradeManager)
    → Succeeds sys path preserve
    → Calm cs ks s
    → (t : SysupgradeManager) × (upgrade_worker sys path preserve s ≡ returns tt t)
      × (Shows completed
            (pos 100)
            (cs ++ sysupgrade_command path preserve ∷ [])
            (ks ++ (true, success_message) ∷ [])
            t
          × (t.is_running ≡ false))
upgrade_worker-completes sys path preserve cs ks s ok q =
    Ends-returns (upgrade_worker sys path preserve s) _
      ((worker-completes sys cs ks path preserve ok).run s q)
