-- ===== src/Url.antt =====
-- src/url.rs, and `TryFrom<&str>` of src/socks5/addr.rs. Text is the bytes of a `str`.
pub mod Parts
use cpxy.Base.{
  ℕ, suc, ◌+◌, ◌-◌, ltb, ◌==◌, Bool, true, false, ◌&&◌, Option, none, some, [], ◌∷◌, Bytes, length,
  take, drop, if◌then◌else◌, codes, eq_ignore_ascii_case, Result, ok, err, message, ◌>>=◌, context,
  some_or,
}
use cpxy.Net.{Text, SocketAddr}
use cpxy.Address.{Address, name, ip, from_host}

-- `FromStr` of `u16` and of `SocketAddr`, of the standard library.
pub record Numbers : Type 0 where
  pub parse_u16 : Bytes → Option ℕ
  pub parse_socket : Bytes → Option SocketAddr

abbrev pub next_position : Option ℕ → Option ℕ
next_position none = none
next_position (some i) = some (suc i)

-- `str::find` and `str::rfind` of a character, and `find("://")`.
unfoldable pub find : ℕ → Bytes → Option ℕ
find c [] = none
find c (x ∷ xs) = if x == c then some 0 else next_position (find c xs)

unfoldable pub or_here : Bool → Option ℕ → Option ℕ
or_here here (some i) = some (suc i)
or_here here none = if here then some 0 else none

unfoldable pub rfind : ℕ → Bytes → Option ℕ
rfind c [] = none
rfind c (x ∷ xs) = or_here (x == c) (rfind c xs)

unfoldable pub starts_mark : Bytes → Bool
starts_mark (a ∷ b ∷ c ∷ xs) = a == b':' && (b == b'/' && c == b'/')
starts_mark _ = false

unfoldable pub find_mark : Bytes → Option ℕ
find_mark [] = none
find_mark (x ∷ xs) = if starts_mark (x ∷ xs) then some 0 else next_position (find_mark xs)

pub record Url : Type 0 where
  pub scheme : Bytes
  pub host : Bytes
  pub port : Option ℕ
  pub path : Bytes

pub record HttpUrl : Type 0 where
  pub is_https : Bool
  pub address : Address
  pub path : Bytes

unfoldable pub split_scheme : Bytes → Option ℕ → Bytes × Bytes
split_scheme url none = ([], url)
split_scheme url (some v) = (take v url, drop (v + 3) url)

unfoldable pub split_path : Bytes → Option ℕ → Bytes × Bytes
split_path url none = (url, [])
split_path url (some v) = (take v url, drop v url)

-- A colon at neither end.
abbrev pub inside : ℕ → Bytes → Bool
inside v s = ltb 0 v && ltb v (length s - 1)

unfoldable pub split_port : Numbers → Bytes → Option ℕ → Result (Bytes × Option ℕ)
split_port n host_and_port none = ok (host_and_port, none)
split_port n host_and_port (some v) =
    if inside v host_and_port
    then (do
      port ← some_or "invalid port" (n.parse_u16 (drop (v + 1) host_and_port))
      ok (take v host_and_port, some port))
    else err (message "Invalid host or port")

-- `Url::try_from`.
unfoldable pub url_from_str : Numbers → Bytes → Result Url
url_from_str n text =
    let (scheme, url) = split_scheme text (find_mark text) in
    let (host_and_port, path) = split_path url (find b'/' url) in
    do
      parts ← split_port n host_and_port (rfind b':' host_and_port)
      ok (record { scheme = scheme; host = parts.0; port = parts.1; path = path })

unfoldable pub known_scheme : Bytes → Result (Bool × ℕ)
known_scheme s =
    if eq_ignore_ascii_case s (codes "http")
    then ok (false, 80)
    else if eq_ignore_ascii_case s (codes "https")
    then ok (true, 443)
    else err (message "Unknown http scheme")

unfoldable pub or_root : Bytes → Bytes
or_root [] = codes "/"
or_root (x ∷ xs) = x ∷ xs

abbrev pub unwrap_port : Option ℕ → ℕ → ℕ
unwrap_port none d = d
unwrap_port (some p) d = p

-- `HttpUrl::try_from`.
unfoldable pub http_url_from_str : Text → Numbers → Bytes → Result HttpUrl
http_url_from_str text n url = do
  u ← url_from_str n url
  s ← known_scheme u.scheme
  ok (record {
    is_https = s.0;
    address = from_host text u.host (unwrap_port u.port s.1);
    path = or_root u.path;
  })

unfoldable pub name_from_str : Numbers → Bytes → Option ℕ → Result Address
name_from_str n s none = err (message "Invalid URL")
name_from_str n s (some v) =
    if inside v s
    then (do
      port ← context "Parsing URL" (some_or "invalid port" (n.parse_u16 (drop (v + 1) s)))
      ok (name (take v s) port))
    else err (message "Invalid URL")

-- `Address::try_from`.
unfoldable pub address_from_str : Numbers → Bytes → Result Address
address_from_str n s = elim (n.parse_socket s) [
  | some v ↦ ok (ip v)
  | none ↦ name_from_str n s (rfind b':' s)
]
