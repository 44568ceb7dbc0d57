-- ===== src/Sysupgrade/State/Status.antt =====
-- The names of the states in the progress file.
use ur_webif.Base.{◌≡◌, refl, eqb}
use ur_webif.Sysupgrade.State.{UpgradeStatus, idle, status_to_string, status_from_string}

-- Each state is read back from its name.
status_from_string-to_string :
    (status : UpgradeStatus) → status_from_string (status_to_string status) ≡ status
unfolding status_from_string status_to_string eqb
status_from_string-to_string idle = refl
status_from_string-to_string _ = refl
