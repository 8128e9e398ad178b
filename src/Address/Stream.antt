-- ===== src/Address/Stream.antt =====
-- `Address::parse_async`, which reads an address from a connection.
pub mod Agreement
pub mod RoundTrip
use cpxy.Base.{
  ℕ, ◌==◌, if◌then◌else◌, Bytes, Option, none, some, take, drop, be_value, get_or, Result, ok, err,
  Error, message, within,
}
use cpxy.Base.Reader.{Reader, ◌>>=◌, pure, fail, from_result, context, read_exact}
use cpxy.Net.{SocketAddr, Text}
use cpxy.Address.{Address, ip, name}

read_v4 : Reader Address
read_v4 = do
  buf ← context "Reading IPv4 addr" (read_exact 6)
  pure (ip (SocketAddr.v4 (be_value (take 4 buf)) (be_value (take 2 (drop 4 buf)))))

read_v6 : Reader Address
read_v6 = do
  buf ← context "Reading IPv6 addr" (read_exact 18)
  pure (ip (SocketAddr.v6 (be_value (take 16 buf)) (be_value (take 2 (drop 16 buf))) 0 0))

unfoldable pub utf8_or_error : Option Bytes → Result Bytes
utf8_or_error (some s) = ok s
utf8_or_error none = err (within "Parsing address string" (message "invalid utf-8"))

-- A name is kept as a name, also where it reads as an IP address.
unfoldable pub read_name : Text → Reader Address
unfolding utf8_or_error
read_name text = do
  buf ← context "Reading address len" (read_exact 1)
  addr_buf ← context "Reading address" (read_exact (get_or buf 0 0))
  port ← context "Reading port" (read_exact 2)
  addr ← from_result (utf8_or_error (text.from_utf8 addr_buf))
  pure (name addr (be_value port))

unfoldable pub read_body : Text → ℕ → Reader Address
unfolding read_v4 read_v6 read_name
read_body text b =
    if b == 0x1
    then read_v4
    else if b == 0x4
    then read_v6
    else if b == 0x3
    then read_name text
    else fail (message "Unknown address type")

unfoldable pub parse_async : Text → Reader Address
unfolding read_body
parse_async text = do
  buf ← context "Reading address type" (read_exact 1)
  read_body text (get_or buf 0 0)
