-- ===== src/Tftp/Packet/RoundTrip.antt =====
-- Reading a packet back.
use ur_webif.Base.{◌≤◌, ◌<◌, true, [], ◌∷◌, Bytes, ◌≡◌, ◌⊎◌, arith, length}
use ur_webif.Tftp.Packet.{
  TftpPacket, empty_packet, serialize, deserialize, opcode_data, opcode_ack, opcode_error,
}

-- A packet that goes over the wire after the request: data, an acknowledgment without data, or an
-- error.
pub record IsReply (p : TftpPacket) : Type 0 where
  pub kind :
      (p.opcode ≡ opcode_data)
      ⊎ ((p.opcode ≡ opcode_error) ⊎ ((p.opcode ≡ opcode_ack) × (p.payload ≡ [])))
  pub is_word : p.block_number < 65536

-- A data, acknowledgment or error packet, with a 16-bit block number, is read back unchanged from
-- its bytes.
pub deserialize-serialize :
    (p : TftpPacket) → IsReply p → deserialize empty_packet (serialize p) ≡ (p, true)
unfolding deserialize serialize
deserialize-serialize p h = ground arith

-- What `deserialize` accepts is a packet of at least two bytes, and of at least four if it is data,
-- an acknowledgment or an error; of these it takes the data of two kinds only.
pub deserialize-length :
    (q p : TftpPacket) (bytes : Bytes)
    → deserialize q bytes ≡ (p, true)
    → (2 ≤ length bytes)
      × ((4 ≤ length bytes) ⊎ ((p.block_number ≡ q.block_number) × (p.payload ≡ q.payload)))
unfolding deserialize
deserialize-length q p [] h = ground arith
deserialize-length q p (a ∷ []) h = ground arith
deserialize-length q p (a ∷ b ∷ []) h = ground arith
deserialize-length q p (a ∷ b ∷ c ∷ []) h = ground arith
deserialize-length q p (a ∷ b ∷ c ∷ d ∷ rest) h = ground arith
