-- ===== src/Tftp/Names/Requests.antt =====
-- What a read request names.
use ur_webif.Base.{
  Bool, true, false, [], ◌∷◌, ◌++◌, Bytes, ◌≡◌, refl, arith, any_of, ◌==◌, if◌then◌else◌, drop,
}
use ur_webif.Tftp.Packet.{serialize, create_read_request}
use ur_webif.Tftp.Names.{is_valid_tftp_filename, is_bad}

-- The text up to the first NUL byte, as a server reads it.
abbrev pub until_nul : Bytes → Bytes
until_nul [] = []
until_nul (c ∷ cs) = if c == 0 then [] else c ∷ until_nul cs

until_nul-append :
    (signed : Bool) (name rest : Bytes)
    → any_of (is_bad signed) name ≡ false
    → until_nul (name ++ (0 ∷ rest)) ≡ name
until_nul-append signed [] rest h = refl
until_nul-append signed (c ∷ cs) rest h = ground (arith, until_nul-append signed cs rest)

-- The read request for a valid filename names exactly that file: after the two bytes of the opcode,
-- the text up to the first NUL byte is the filename, whether `char` is signed or not.
until_nul-create_read_request :
    (signed : Bool) (filename : Bytes)
    → is_valid_tftp_filename signed filename ≡ true
    → until_nul (drop 2 (serialize (create_read_request filename))) ≡ filename
unfolding is_valid_tftp_filename serialize create_read_request
until_nul-create_read_request signed filename h = until_nul-append signed filename _ (ground arith)
