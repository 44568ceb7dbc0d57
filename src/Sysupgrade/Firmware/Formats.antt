-- ===== src/Sysupgrade/Firmware/Formats.antt =====
-- Which paths the check of the format accepts.
use mathlib.Core.List.{append_assoc}
use ur_webif.Base.{
  any_of, ℕ, suc, ◌≤◌, Bool, true, Option, none, some, [], ◌∷◌, ◌++◌, Bytes, codes, ◌≡◌, refl,
  arith, eqb, drop, all_of, not, ◌==◌,
}
use ur_webif.Run.{returns, throws}
use ur_webif.Sysupgrade.State.{SysupgradeManager, System}
use ur_webif.Sysupgrade.Firmware.{validate_firmware_file, find_last_of, get_supported_formats}

-- The size of the file is within the limits.
pub record IsPlausible (sys : System) (path : Bytes) : Type 0 where
  pub there : sys.exists path ≡ true
  pub large_enough : 1048576 ≤ sys.file_size path
  pub small_enough : sys.file_size path ≤ 104857600

abbrev gz : Bytes
gz = codes ".gz"

find_last_of-gz :
    (stem : Bytes)
    → (dot : ℕ) × (find_last_of b'.' (stem ++ gz) ≡ some dot) × (drop dot (stem ++ gz) ≡ gz)
unfolding find_last_of
find_last_of-gz [] = (0, refl, refl)
find_last_of-gz (c ∷ cs) = let (dot, found, rest) = find_last_of-gz cs in (suc dot, rw found, rest)

validate_firmware_file-gz :
    (sys : System) (path : Bytes) (dot : ℕ) (s : SysupgradeManager)
    → IsPlausible sys path
    → find_last_of b'.' path ≡ some dot
    → drop dot path ≡ gz
    → validate_firmware_file sys path s ≡ returns (codes "Unsupported firmware file format: .gz") s
unfolding validate_firmware_file eqb
validate_firmware_file-gz sys path dot s ok found rest = ground arith

-- A file of a plausible size whose name ends in ".tar.gz" is refused, although ".tar.gz" is one of
-- the supported formats: only the text from the last dot on is compared.
pub validate_firmware_file-tar_gz :
    (sys : System) (stem : Bytes) (s : SysupgradeManager)
    → IsPlausible sys (stem ++ codes ".tar.gz")
    → (any_of (eqb (codes ".tar.gz")) get_supported_formats ≡ true)
      × (validate_firmware_file sys (stem ++ codes ".tar.gz") s
          ≡ returns (codes "Unsupported firmware file format: .gz") s)
unfolding get_supported_formats eqb
validate_firmware_file-tar_gz sys stem s ok =
    let (dot, found, rest) = find_last_of-gz (stem ++ codes ".tar") in
    (
      refl,
      validate_firmware_file-gz sys (stem ++ codes ".tar.gz") dot s ok
          (rw (append_assoc stem (codes ".tar") gz) at found)
          (rw (append_assoc stem (codes ".tar") gz) at rest),
    )

-- The text from the last dot on, or nothing.
abbrev pub extension_of : Bytes → Option ℕ → Bytes
extension_of path none = []
extension_of path (some dot) = drop dot path

-- A path that the check accepts is that of a file of one to a hundred mebibytes, whose name has a
-- last dot with a supported format from there on.
validate_firmware_file-valid :
    (sys : System) (path : Bytes) (s : SysupgradeManager)
    → validate_firmware_file sys path s ≡ returns [] s
    → IsPlausible sys path
      × (any_of (eqb (extension_of path (find_last_of b'.' path))) get_supported_formats ≡ true)
unfolding validate_firmware_file get_supported_formats
validate_firmware_file-valid sys path s h = ground arith

abbrev no_dot : Bytes → Bool
no_dot path = all_of (λ c. not (c == b'.')) path

find_last_of_absent : (path : Bytes) → no_dot path ≡ true → find_last_of b'.' path ≡ none
unfolding find_last_of
find_last_of_absent [] h = refl
find_last_of_absent (c ∷ cs) h = ground (arith, find_last_of_absent cs)

-- For a file of a plausible size whose path has no dot, the check throws instead of giving a text.
pub validate_firmware_file-no_dot :
    (sys : System) (path : Bytes) (s : SysupgradeManager)
    → IsPlausible sys path
    → no_dot path ≡ true
    → validate_firmware_file sys path s ≡ throws (codes "basic_string::substr") s
unfolding validate_firmware_file
validate_firmware_file-no_dot sys path s ok h = ground (arith, find_last_of_absent path h)
