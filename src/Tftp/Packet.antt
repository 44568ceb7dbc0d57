-- ===== src/Tftp/Packet.antt =====
-- src/firmware-update/tftp_client.cpp: the protocol constants and struct TftpPacket. A `uint16_t`
-- is a number below 65536, a `uint8_t` one below 256.
pub mod RoundTrip
use ur_webif.Base.{
  ℕ, ◌+◌, ◌*◌, ◌/◌, ◌%◌, Bool, true, false, ◌||◌, List, [], ◌∷◌, ◌++◌, Bytes, ◌==◌, if◌then◌else◌,
  codes,
}

abbrev pub opcode_rrq : ℕ
opcode_rrq = 1

abbrev pub opcode_wrq : ℕ
opcode_wrq = 2

abbrev pub opcode_data : ℕ
opcode_data = 3

abbrev pub opcode_ack : ℕ
opcode_ack = 4

abbrev pub opcode_error : ℕ
opcode_error = 5

-- TFTP_MAX_BLOCK_SIZE + TFTP_HEADER_SIZE
abbrev pub max_packet_size : ℕ
max_packet_size = 65464 + 4

pub record TftpPacket : Type 0 where
  pub opcode : ℕ
  pub block_number : ℕ
  pub payload : Bytes

abbrev pub empty_packet : TftpPacket
empty_packet = record { opcode = 0; block_number = 0; payload = [] }

-- Two bytes, the higher first, in front of what follows.
abbrev pub big_endian : ℕ → Bytes → Bytes
big_endian w rest = (w / 256) % 256 ∷ w % 256 ∷ rest

unfoldable pub serialize : TftpPacket → Bytes
serialize p =
    if p.opcode == opcode_rrq || p.opcode == opcode_wrq
    then big_endian p.opcode p.payload
    else if p.opcode == opcode_data || p.opcode == opcode_ack
    then big_endian p.opcode
        (big_endian p.block_number (if p.opcode == opcode_data then p.payload else []))
    else if p.opcode == opcode_error
    then big_endian p.opcode (big_endian p.block_number p.payload)
    else big_endian p.opcode []

-- The block number, or the error code, and the data if the packet has them.
read_block : Bool → TftpPacket → Bytes → TftpPacket × Bool
read_block with_data p (hi ∷ lo ∷ rest) = (
  record p { block_number = hi * 256 + lo; payload = if with_data then rest else p.payload },
  true,
)
read_block with_data p _ = (p, false)

read_body : TftpPacket → Bytes → TftpPacket × Bool
unfolding read_block
read_body p rest =
    if p.opcode == opcode_data
    then read_block true p rest
    else if p.opcode == opcode_ack
    then read_block false p rest
    else if p.opcode == opcode_error
    then read_block true p rest
    else (p, true)

-- `deserialize` on an existing packet: the packet that it leaves, and its result.
unfoldable pub deserialize : TftpPacket → Bytes → TftpPacket × Bool
unfolding read_body
deserialize p (hi ∷ lo ∷ rest) = read_body (record p { opcode = hi * 256 + lo }) rest
deserialize p _ = (p, false)

unfoldable pub create_read_request : Bytes → TftpPacket
create_read_request filename = record {
  opcode = opcode_rrq;
  block_number = 0;
  payload = filename ++ (0 ∷ (codes "octet" ++ (0 ∷ [])));
}

unfoldable pub create_ack_packet : ℕ → TftpPacket
create_ack_packet block_num = record { opcode = opcode_ack; block_number = block_num; payload = [] }
