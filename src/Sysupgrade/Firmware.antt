-- ===== src/Sysupgrade/Firmware.antt =====
-- src/sysupgrade-mecanism/sysupgrade_handler.cpp: validateFirmwareFile and getSupportedFormats.
pub mod Formats
use mathlib.Core.List.{reverse}
use ur_webif.Base.{
  ℕ, suc, ◌+◌, ◌*◌, ◌<◌, Bool, true, false, not, Option, none, some, List, [], ◌∷◌, ◌++◌, Bytes,
  codes, to_string, eqb, ltb, ◌==◌, if◌then◌else◌, any_of, drop,
}
use ur_webif.Run.{Call, Run, returns, throws, pure, raise}
use ur_webif.Sysupgrade.State.{SysupgradeManager, System}

unfoldable pub get_supported_formats : List Bytes
get_supported_formats = codes ".bin" ∷ codes ".img" ∷ codes ".trx" ∷ codes ".tar.gz" ∷ []

-- The extensions that `validateFirmwareFile` compares with.
abbrev pub valid_extensions : List Bytes
valid_extensions = codes ".bin" ∷ codes ".img" ∷ codes ".trx" ∷ codes ".tar.gz" ∷ []

-- `find_last_of(c)`; `none` is `npos`.
unfoldable pub find_last_of : ℕ → Bytes → Option ℕ
find_last_of c [] = none
find_last_of c (x ∷ xs) = elim (find_last_of c xs) [
  | some i ↦ some (suc i)
  | none ↦ if x == c then some 0 else none
]

-- The extension and what is said of it; `substr(npos)` throws.
check_extension : Bytes → Option ℕ → Call SysupgradeManager Bytes
check_extension path none = raise (codes "basic_string::substr")
check_extension path (some dot) =
    let extension = drop dot path in
    pure (
      if any_of (λ ext. eqb extension ext) valid_extensions
      then []
      else codes "Unsupported firmware file format: " ++ extension)

-- The empty text means that the file is valid.
unfoldable pub validate_firmware_file : System → Bytes → Call SysupgradeManager Bytes
unfolding check_extension
validate_firmware_file sys firmware_path =
    if not (sys.exists firmware_path)
    then pure (codes "Firmware file does not exist: " ++ firmware_path)
    else if ltb (sys.file_size firmware_path) (1024 * 1024)
    then pure (
        codes "Firmware file too small (< 1MB): "
        ++ (to_string (sys.file_size firmware_path) ++ codes " bytes"))
    else if ltb (100 * 1024 * 1024) (sys.file_size firmware_path)
    then pure (
        codes "Firmware file too large (> 100MB): "
        ++ (to_string (sys.file_size firmware_path) ++ codes " bytes"))
    else check_extension firmware_path (find_last_of b'.' firmware_path)
