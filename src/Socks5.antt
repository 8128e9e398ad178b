-- ===== src/Socks5.antt =====
-- src/socks5/req.rs and src/socks5/greeting.rs: the messages of the SOCKS5 handshake.
pub mod Messages
pub mod Replies
pub mod Upstream
use cpxy.Base.{
  ℕ, ◌+◌, ◌≡◌, Bool, not, ◌||◌, Option, none, some, [], ◌∷◌, ◌++◌, Bytes, length, take, drop, ltb,
  ◌==◌, get_or, if◌then◌else◌, Result, ok, err, ◌>>=◌, unexpected, u8_try_from,
}
use cpxy.Net.{Text}
use cpxy.Address.{Address, parse, write}

-- `ConnStatusCode` and `Command` wrap one byte.
abbrev pub granted : ℕ
granted = 0

abbrev pub failed : ℕ
failed = 0x1

abbrev pub unsupported_command : ℕ
unsupported_command = 0x7

abbrev pub connect_tcp : ℕ
connect_tcp = 1

abbrev pub bind_udp : ℕ
bind_udp = 3

abbrev pub auth_no_password : ℕ
auth_no_password = 0x0

abbrev pub auth_not_accepted : ℕ
auth_not_accepted = 0xff

pub record ClientConnRequest : Type 0 where
  pub cmd : ℕ
  pub address : Address

-- `Ok(None)` of the address makes `Ok(None)` of the request.
unfoldable pub after_address : ℕ → Option (ℕ × Address) → Option (ℕ × ClientConnRequest)
after_address cmd none = none
after_address cmd (some (offset, address)) =
    some (3 + offset, record { cmd = cmd; address = address })

unfoldable pub parse_request : Text → Bytes → Result (Option (ℕ × ClientConnRequest))
unfolding after_address
parse_request text buf =
    if ltb (length buf) 3
    then ok none
    else if not (get_or buf 0 0 == 0x5)
    then err (unexpected "protocol" (get_or buf 0 0) "0x5")
    else if not (get_or buf 2 0 == 0)
    then err (unexpected "rsv" (get_or buf 2 0) "0x00")
    else do found ← parse text (drop 3 buf); ok (after_address (get_or buf 1 0) found)

unfoldable pub write_request : ClientConnRequest → Bytes → Result Bytes
write_request r w = write r.address (w ++ (0x5 ∷ r.cmd ∷ 0 ∷ []))

-- `ClientConnRequest::respond`.
unfoldable pub respond : ℕ → Address → Bytes → Result Bytes
respond code bound_addr w = write bound_addr (w ++ (0x5 ∷ code ∷ 0x00 ∷ []))

-- `ClientGreeting`: the methods that the client offers.
unfoldable pub parse_greeting : Bytes → Result (Option (ℕ × Bytes))
parse_greeting buf =
    if ltb (length buf) 2
    then ok none
    else if not (get_or buf 0 0 == 0x5)
    then err (unexpected "protocol" (get_or buf 0 0) "0x5")
    else if ltb (length (drop 2 buf)) (get_or buf 1 0)
    then ok none
    else ok (some (1 + (get_or buf 1 0 + 1), take (get_or buf 1 0) (drop 2 buf)))

unfoldable pub write_greeting : Bytes → Bytes → Result Bytes
write_greeting auths w = do len ← u8_try_from (length auths); ok ((w ++ (0x5 ∷ len ∷ [])) ++ auths)

-- `ClientGreeting::respond`.
unfoldable pub respond_auth : ℕ → Bytes → Bytes
respond_auth auth t = t ++ (0x5 ∷ auth ∷ [])
