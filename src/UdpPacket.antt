-- ===== src/UdpPacket.antt =====
-- src/socks5/udp.rs: the packet of a SOCKS5 UDP association, as a checked view of a buffer.
pub mod Packets
use cpxy.Base.{
  ℕ, ◌+◌, ◌≡◌, Bool, not, Option, none, some, [], ◌∷◌, ◌++◌, Bytes, length, take, drop, ltb, ◌==◌,
  get_or, if◌then◌else◌, Result, ok, err, ◌>>=◌, message, within, context, some_or, be_value,
  be_bytes,
}
use cpxy.Net.{Text}
use cpxy.Address.{Address, parse, write_to, write_len}

pub record UdpPacket : Type 0 where
  pub buf : Bytes
  pub data_offset : ℕ

-- `new_checked` behind the reserved bytes and the fragment number.
unfoldable pub checked : Bytes → Option (ℕ × Address) → Result UdpPacket
checked buf none = err (message "Parsing address")
checked buf (some (n, addr)) = ok (record { buf = buf; data_offset = 2 + 1 + n })

unfoldable pub new_checked : Text → Bytes → Result UdpPacket
unfolding checked
new_checked text buf =
    if ltb (length buf) 2
    then err (within "Reading RSV" (message "failed to fill whole buffer"))
    else if not (be_value (take 2 buf) == 0)
    then err (message "RSV is not 0")
    else if ltb (length buf) 3
    then err (within "Reading frag_no" (message "failed to fill whole buffer"))
    else do found ← context "Parsing address" (parse text (drop 3 buf)); checked buf found

-- `self.buf.as_ref()[2]`; the default is not reached in a checked packet.
unfoldable pub frag_no : UdpPacket → ℕ
frag_no p = get_or p.buf 2 0

-- `addr` unwraps twice: `none` is a panic.
unwrap_addr : Result (Option (ℕ × Address)) → Option Address
unwrap_addr (err e) = none
unwrap_addr (ok none) = none
unwrap_addr (ok (some (n, a))) = some a

unfoldable pub addr_of : Text → UdpPacket → Option Address
unfolding unwrap_addr
addr_of text p = unwrap_addr (parse text (drop 3 (take p.data_offset p.buf)))

unfoldable pub payload_of : UdpPacket → Bytes
payload_of p = drop p.data_offset p.buf

pub record UdpRepr : Type 0 where
  pub addr : Address
  pub payload : Bytes
  pub frag_no : ℕ

unfoldable pub repr_len : UdpRepr → ℕ
repr_len r = (3 + write_len r.addr) + length r.payload

unfoldable pub to_packet : Text → UdpRepr → Result UdpPacket
to_packet text r = do
  out ← write_to r.addr (be_bytes 2 0 ++ (r.frag_no ∷ []))
  new_checked text (out ++ r.payload)
