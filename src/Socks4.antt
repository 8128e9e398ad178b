-- ===== src/Socks4.antt =====
-- src/socks4.rs: the SOCKS4 and SOCKS4a request and the reply.
pub mod Requests
use cpxy.Base.{
  ℕ, suc, ◌+◌, Bool, not, ◌&&◌, Option, none, some, [], ◌∷◌, ◌++◌, Bytes, length, take, drop, ltb,
  ◌==◌, get_or, if◌then◌else◌, Result, ok, err, Error, message, be_value, be_bytes,
}
use cpxy.Net.{SocketAddr, Text}
use cpxy.Address.{Address, ip, name}

abbrev pub request_tcp : ℕ
request_tcp = 1

abbrev pub reply_granted : ℕ
reply_granted = 0x5a

abbrev pub reply_failed : ℕ
reply_failed = 0x5b

pub record Request : Type 0 where
  pub cmd : ℕ
  pub addr : Address

-- `buf.iter().position(|x| *x == 0)`.
unfoldable pub position_zero : Bytes → Option ℕ
position_zero [] = none
position_zero (x ∷ xs) =
    if x == 0 then some 0 else elim (position_zero xs) [ none ↦ none | some i ↦ some (suc i) ]

-- `&ip[..3] == [0, 0, 0] && ip[3] != 0`: SOCKS4a, where the host follows as text.
abbrev pub names_host : Bytes → Bool
names_host b =
    (get_or b 0 0 == 0 && get_or b 1 0 == 0 && get_or b 2 0 == 0) && not (get_or b 3 0 == 0)

-- The host text behind the user ID; `buf` starts at `offset`.
unfoldable pub read_host : Text → ℕ → ℕ → ℕ → Bytes → Option (ℕ × Request)
read_host text cmd port offset buf = elim (position_zero buf) [
  | none ↦ none
  | some v ↦
      some (
        offset + (v + 1),
        record { cmd = cmd; addr = name (text.from_utf8_lossy (take v buf)) port },
      )
]

-- Behind the user ID; an empty buffer has no zero byte either.
unfoldable pub after_user : Text → ℕ → ℕ → Bytes → ℕ → Bytes → Option (ℕ × Request)
after_user text cmd port addr offset buf =
    if names_host addr
    then read_host text cmd port offset buf
    else some (offset, record { cmd = cmd; addr = ip (SocketAddr.v4 (be_value addr) port) })

-- `buf` is what follows the eight bytes of the header.
unfoldable pub skip_user : Text → ℕ → ℕ → Bytes → Bytes → Option (ℕ × Request)
skip_user text cmd port addr buf = elim (position_zero buf) [
  | none ↦ none
  | some v ↦ after_user text cmd port addr (8 + (v + 1)) (drop (v + 1) buf)
]

unfoldable pub parse_socks4_request : Text → Bytes → Result (Option (ℕ × Request))
unfolding skip_user after_user read_host
parse_socks4_request text buf =
    if ltb (length buf) 9
    then ok none
    else if not (get_or buf 0 0 == 0x4)
    then err (message "Invalid protocol")
    else ok (
        skip_user text (get_or buf 1 0) (be_value (take 2 (drop 2 buf))) (take 4 (drop 4 buf))
          (drop 8 buf))

unfoldable pub respond_socks4 : ℕ → ℕ → ℕ → Bytes → Bytes
respond_socks4 bound_ip bound_port reply w =
    w ++ (0 ∷ reply ∷ (be_bytes 2 bound_port ++ be_bytes 4 bound_ip))
