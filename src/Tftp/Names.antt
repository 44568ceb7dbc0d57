-- ===== src/Tftp/Names.antt =====
-- src/firmware-update/tftp_client.cpp: is_valid_tftp_filename and tftp_error_to_string.
pub mod Requests
use ur_webif.Base.{
  ℕ, Bool, false, ◌||◌, ◌&&◌, not, Bytes, codes, ltb, leb, ◌==◌, if◌then◌else◌, length, is_empty,
  any_of,
}
use ur_webif.Tftp.Network.{
  TftpError, no_error, timeout, network_error, file_not_found, access_violation, disk_full,
  illegal_operation, unknown_tid, file_exists, no_such_user, invalid_response, connection_failed,
}

unfoldable pub tftp_error_to_string : TftpError → Bytes
tftp_error_to_string no_error = codes "No error"
tftp_error_to_string timeout = codes "Timeout"
tftp_error_to_string network_error = codes "Network error"
tftp_error_to_string file_not_found = codes "File not found"
tftp_error_to_string access_violation = codes "Access violation"
tftp_error_to_string disk_full = codes "Disk full"
tftp_error_to_string illegal_operation = codes "Illegal operation"
tftp_error_to_string unknown_tid = codes "Unknown transfer ID"
tftp_error_to_string file_exists = codes "File already exists"
tftp_error_to_string no_such_user = codes "No such user"
tftp_error_to_string invalid_response = codes "Invalid response"
tftp_error_to_string connection_failed = codes "Connection failed"

abbrev invalid_chars : Bytes
invalid_chars = codes "<>:\"|?*"

-- `c < 32`; where `char` is signed, the bytes from 128 on are negative numbers.
abbrev is_control : Bool → ℕ → Bool
is_control char_is_signed c = ltb c 32 || (char_is_signed && leb 128 c)

-- The test that the loop makes of a character.
abbrev pub is_bad : Bool → ℕ → Bool
is_bad char_is_signed c = is_control char_is_signed c || any_of (λ bad. bad == c) invalid_chars

unfoldable pub is_valid_tftp_filename : Bool → Bytes → Bool
is_valid_tftp_filename char_is_signed filename =
    if is_empty filename || ltb 255 (length filename)
    then false
    else not (any_of (is_bad char_is_signed) filename)
