-- ===== src/Sysupgrade/Worker/Outcome.antt =====
-- How a run of the upgrade thread ends, whatever the commands and the clock answer.
use ur_webif.Base.{
  ℕ, ◌<◌, Bool, true, false, List, [], ◌∷◌, ◌++◌, Bytes, ◌≡◌, ◌⊎◌, inl, inr, refl, arith, ℤ, pos,
  negsuc,
}
use ur_webif.Run.{
  Run, returns, throws, blocked, Ends, Triple, Triple-bind, Triple-weaken, Triple-weaken_throw,
  try_catch-Triple,
}
use ur_webif.Sysupgrade.State.{UpgradeStatus, failed, completed, SysupgradeManager, System}
use ur_webif.Sysupgrade.Worker.Steps.{
  Quiet, Shows, Uncancelled, add_log_entry-Quiet, update_progress-Shows, report_completion-Shows,
  prepare_stages-Quiet, flash_stages-Shows, success_message, Halted,
}
use ur_webif.Sysupgrade.Worker.{sysupgrade_command, fail_upgrade, upgrade_worker}

-- The upgrade is shown as failed, with percentage -1, and reported as a failure.
abbrev pub Failed : List Bytes → List (Bool × Bytes) → SysupgradeManager → Type 0
Failed cs ks t = (message : Bytes) × Shows failed (negsuc 0) cs (ks ++ (false, message) ∷ []) t

fail_upgrade-Failed :
    (sys : System) (E : SysupgradeManager → Type 0) (cs : List Bytes) (ks : List (Bool × Bytes))
    (e : Bytes)
    → Triple (Quiet cs ks) (fail_upgrade sys e) (Failed cs ks) E
unfolding fail_upgrade
fail_upgrade-Failed sys E cs ks e = Triple-bind (add_log_entry-Quiet sys E cs ks _) λ _.
    Triple-bind (update_progress-Shows sys E cs ks _ _ _ _)
      λ _. Triple-weaken (report_completion-Shows sys E cs ks _ _ _ _) (λ t q. (_, q))

-- The ends of a run: complete, with the command handed to `system` once, or failed, with the
-- command handed over once or not at all.
abbrev pub Ended : List Bytes → Bytes → List (Bool × Bytes) → SysupgradeManager → Type 0
Ended cs command ks t =
    Shows completed (pos 100) (cs ++ command ∷ []) (ks ++ (true, success_message) ∷ []) t
    ⊎ (Failed cs ks t ⊎ Failed (cs ++ command ∷ []) ks t)

Halted-Ended :
    (sys : System) (E : SysupgradeManager → Type 0) (cs : List Bytes) (command : Bytes)
    (ks : List (Bool × Bytes)) (e : Bytes)
    → Triple (Halted cs command ks) (fail_upgrade sys e) (Ended cs command ks) E
Halted-Ended sys E cs command ks e = record { run = λ s q. cases s q }
  where
    cases :
        (s : SysupgradeManager)
        → Halted cs command ks s
        → Ends (fail_upgrade sys e s) (λ _ t. Ended cs command ks t) (λ _ t. E t)
    cases s (inl q) =
        (Triple-weaken (fail_upgrade-Failed sys E cs ks e) (λ t f. inr (inl f))).run s q
    cases s (inr q) =
        (Triple-weaken (fail_upgrade-Failed sys E (cs ++ command ∷ []) ks e)
            (λ t f. inr (inr f))).run
          s q

-- Nothing.
abbrev pub Never : SysupgradeManager → Type 0
Never t = ⊥

-- `is_running_ = false` touches nothing that is shown or reported.
pub Shows-stopped :
    (status : UpgradeStatus) (percentage : ℤ) (cs : List Bytes) (ks : List (Bool × Bytes))
    (s : SysupgradeManager)
    → Shows status percentage cs ks s
    → Shows status percentage cs ks (record s { is_running = false })
Shows-stopped status percentage cs ks s q = record {
  quiet = record {
    free = q.quiet.free;
    listens = q.quiet.listens;
    ran = q.quiet.ran;
    told = q.quiet.told;
  };
  shown = q.shown;
  percent = q.percent;
}

Ended-stopped :
    (cs : List Bytes) (command : Bytes) (ks : List (Bool × Bytes)) (s : SysupgradeManager)
    → Ended cs command ks s
    → Ended cs command ks (record s { is_running = false })
Ended-stopped cs command ks s (inl q) = inl (Shows-stopped _ _ _ _ s q)
Ended-stopped cs command ks s (inr (inl (m, q))) = inr (inl (m, Shows-stopped _ _ _ _ s q))
Ended-stopped cs command ks s (inr (inr (m, q))) = inr (inr (m, Shows-stopped _ _ _ _ s q))

pub Ends-returns :
    {S : Type 0} (r : Run S (Unit {0})) (Q : S → Type 0)
    → Ends r (λ _ t. Q t) (λ _ t. ⊥)
    → (t : S) × (r ≡ returns tt t) × Q t
Ends-returns (returns a t) Q q = (t, refl, q)
Ends-returns (throws e t) Q q = absurd q
Ends-returns (blocked t) Q q = absurd q

worker-Ended :
    (sys : System) (path : Bytes) (preserve : Bool) (cs : List Bytes) (ks : List (Bool × Bytes))
    → Triple
        (Quiet cs ks)
        (upgrade_worker sys path preserve)
        (λ t. Ended cs (sysupgrade_command path preserve) ks t × (t.is_running ≡ false))
        Never
unfolding upgrade_worker
worker-Ended sys path preserve cs ks =
    let command = sysupgrade_command path preserve in
    Triple-bind
      (try_catch-Triple
        (Triple-bind
          (Triple-weaken_throw
            (Triple-weaken (prepare_stages-Quiet sys cs ks path preserve) (λ t q. q.0))
            (λ t q. inl q))
          (λ _. Triple-weaken (flash_stages-Shows sys cs ks path preserve) (λ t q. inl q)))
        (λ e. Halted-Ended sys Never cs command ks e))
      (λ _. record { run = λ s q. (Ended-stopped cs command ks s q, refl) })

-- The destructor sets the flag before one of the four tests.
abbrev pub IsCancelled : System → Type 0
IsCancelled sys = (k : ℕ) × (k < 4) × (sys.cancels k ≡ true)

not_both : (sys : System) → IsCancelled sys → Uncancelled sys → ⊥
not_both sys (k, lt, e) u = ground (arith, u.0, u.1, u.2, u.3, e, lt)

worker-cancelled :
    (sys : System) (path : Bytes) (preserve : Bool) (cs : List Bytes) (ks : List (Bool × Bytes))
    → IsCancelled sys
    → Triple
        (Quiet cs ks)
        (upgrade_worker sys path preserve)
        (λ t. Failed cs ks t × (t.is_running ≡ false))
        Never
unfolding upgrade_worker
worker-cancelled sys path preserve cs ks cancelled =
    Triple-bind
      (try_catch-Triple
        (Triple-bind {Q = Never}
          (Triple-weaken (prepare_stages-Quiet sys cs ks path preserve)
            (λ t q. not_both sys cancelled q.1))
          (λ _. record { run = λ s q. absurd q }))
        (λ e. fail_upgrade-Failed sys Never cs ks e))
      (λ _. record { run = λ s q. ((q.0, Shows-stopped _ _ _ _ s q.1), refl) })

-- With the mutex free, a completion callback, and no call of cancelUpgrade meanwhile (which keeps the
-- mutex for ever), the upgrade thread returns, whatever the commands answer and whenever the
-- destructor sets the flag: the upgrade is
-- shown as complete and reported once as a success, with the sysupgrade command run once, or shown
-- as failed and reported once as a failure, with the command run at most once. The mutex is free
-- again and nothing is marked as running.
pub upgrade_worker-Ended :
    (sys : System) (path : Bytes) (preserve : Bool) (cs : List Bytes) (ks : List (Bool × Bytes))
    (s : SysupgradeManager)
    → Quiet cs ks s
    → (t : SysupgradeManager) × (upgrade_worker sys path preserve s ≡ returns tt t)
      × (Ended cs (sysupgrade_command path preserve) ks t × (t.is_running ≡ false))
upgrade_worker-Ended sys path preserve cs ks s q =
    Ends-returns (upgrade_worker sys path preserve s) _
      ((worker-Ended sys path preserve cs ks).run s q)

-- With the mutex free, a completion callback, and no call of cancelUpgrade meanwhile (which keeps the
-- mutex for ever), an upgrade of which the destructor sets the flag before one of the four tests
-- never runs the sysupgrade command: the thread returns, the upgrade is shown as failed and
-- reported once as a failure, and nothing is marked as running.
pub upgrade_worker-cancelled :
    (sys : System) (path : Bytes) (preserve : Bool) (cs : List Bytes) (ks : List (Bool × Bytes))
    (s : SysupgradeManager)
    → IsCancelled sys
    → Quiet cs ks s
    → (t : SysupgradeManager) × (upgrade_worker sys path preserve s ≡ returns tt t)
      × (Failed cs ks t × (t.is_running ≡ false))
upgrade_worker-cancelled sys path preserve cs ks s cancelled q =
    Ends-returns (upgrade_worker sys path preserve s) _
      ((worker-cancelled sys path preserve cs ks cancelled).run s q)
