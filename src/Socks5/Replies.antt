-- ===== src/Socks5/Replies.antt =====
-- The client's side of the SOCKS5 handshake: `ClientGreeting::read_response` and
-- `ClientConnRequest::parse_response`, which read the server's answers from a connection.
use cpxy.Base.{ℕ, ◌||◌, not, ◌==◌, if◌then◌else◌, get_or, message}
use cpxy.Base.Reader.{Reader, ◌>>=◌, pure, fail, read_exact}
use cpxy.Net.{Text}
use cpxy.Address.{Address}
use cpxy.Address.Stream.{parse_async}

unfoldable pub read_auth : Reader ℕ
read_auth = do
  bufs ← read_exact 2
  if not (get_or bufs 0 0 == 0x5)
      then fail (message "Unknown protocol version")
      else pure (get_or bufs 1 0)

unfoldable pub read_response : Text → Reader (ℕ × Address)
read_response text = do
  hdrs ← read_exact 3
  if not (get_or hdrs 0 0 == 5) || not (get_or hdrs 2 0 == 0)
      then fail (message "Invalid Response")
      else do bounded ← parse_async text; pure (get_or hdrs 1 0, bounded)
