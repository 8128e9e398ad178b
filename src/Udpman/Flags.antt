-- ===== src/Udpman/Flags.antt =====
-- src/protocol/udpman/proto.rs: `MessageType` and `MessageFlags`, the first byte of a message.
use Prim.Native.Nat.{bit_or}
use cpxy.Base.{
  ℕ, ◌/◌, ◌*◌, ◌%◌, ◌^◌, ◌≡◌, Bool, not, ◌==◌, if◌then◌else◌, Result, ok, err, message, arith,
}

pub data Flags : Type 0 where
  connect : Bool → Bool → Flags
  establish : Bool → Bool → Flags
  datagram : Bool → Bool → Bool → Bool → Flags

-- `(value >> k) & 0x1 != 0`
abbrev bit : ℕ → ℕ → Bool
bit value k = not (value / 2 ^ k % 2 == 0)

-- `MessageFlags::try_from`; the type is the top three bits.
unfoldable pub flags_of_byte : ℕ → Result Flags
flags_of_byte value =
    let kind = value / 2 ^ 5 in
    if kind == 0
    then ok (connect (bit value 0) (bit value 1))
    else if kind == 1
    then ok (establish (bit value 0) (bit value 1))
    else if kind == 2
    then ok (datagram (bit value 0) (bit value 1) (bit value 2) (bit value 3))
    else err (message "Parsing message type")

-- `if b { flags |= 1 << k; }`
abbrev set_bit : Bool → ℕ → ℕ → ℕ
set_bit b k flags = if b then bit_or flags (2 ^ k) else flags

-- `Into<u8>`: `(type << 5) | flags`.
unfoldable pub byte_of_flags : Flags → ℕ
byte_of_flags (connect is_ipv6 has_nonce) =
    bit_or (0 * 2 ^ 5) (set_bit has_nonce 1 (set_bit is_ipv6 0 0))
byte_of_flags (establish has_reply reply_in_ipv6) =
    bit_or (1 * 2 ^ 5) (set_bit reply_in_ipv6 1 (set_bit has_reply 0 0))
byte_of_flags (datagram has_conn_id has_addr addr_in_ipv6 has_nonce) =
    bit_or (2 * 2 ^ 5)
      (set_bit has_nonce 3 (set_bit addr_in_ipv6 2 (set_bit has_addr 1 (set_bit has_conn_id 0 0))))

-- The flags survive the byte, and the byte is one.
pub flags_of_byte-byte_of_flags : (f : Flags) → flags_of_byte (byte_of_flags f) ≡ ok f
unfolding flags_of_byte byte_of_flags
flags_of_byte-byte_of_flags (connect a b) = ground arith
flags_of_byte-byte_of_flags (establish a b) = ground arith
flags_of_byte-byte_of_flags (datagram a b c d) = ground arith
