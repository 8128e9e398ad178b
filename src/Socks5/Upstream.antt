-- ===== src/Socks5/Upstream.antt =====
-- src/protocol/socks5/mod.rs, `request_socks5`: the dialogue of a client with a SOCKS5 server. What
-- the server will send is the input; writing does not fail.
use cpxy.Base.{ℕ, not, ◌==◌, [], ◌∷◌, ◌++◌, Bytes, if◌then◌else◌, Result, ok, err, message, within}
use cpxy.Net.{Text}
use cpxy.Address.{Address}
use cpxy.Socks5.{ClientConnRequest, auth_no_password, granted, write_greeting, write_request}
use cpxy.Socks5.Replies.{read_auth, read_response}

-- The bytes written, and the address with what is left to read, or an error.
pub record Asked : Type 0 where
  pub written : Bytes
  pub answer : Result (Address × Bytes)

unfoldable pub response_read : Bytes → Result ((ℕ × Address) × Bytes) → Asked
response_read w (err e) = record { written = w; answer = err (within "Receiving conn response" e) }
response_read w (ok ((code, addr), rest)) = record {
  written = w;
  answer =
      if not (code == granted) then err (message "Invalid socks5 status code") else ok (addr, rest);
}

-- The start of the request is written before its address, which may have no wire form.
unfoldable pub request_written : Text → ClientConnRequest → Bytes → Bytes → Result Bytes → Asked
unfolding response_read
request_written text req g rest (err e) = record {
  written = g ++ (0x5 ∷ req.cmd ∷ 0 ∷ []);
  answer = err (within "Sending conn req" e);
}
request_written text req g rest (ok w) = response_read w (read_response text rest)

unfoldable pub auth_read : Text → ClientConnRequest → Bytes → Result (ℕ × Bytes) → Asked
unfolding request_written
auth_read text req g (err e) = record {
  written = g;
  answer = err (within "Receiving greeting response" e);
}
auth_read text req g (ok (auth, rest)) =
    if not (auth == auth_no_password)
    then record { written = g; answer = err (message "Expecting NO_PASSWORD AUTH") }
    else request_written text req g rest (write_request req g)

unfoldable pub greeting_written : Text → ClientConnRequest → Bytes → Result Bytes → Asked
unfolding auth_read
greeting_written text req input (err e) = record {
  written = [];
  answer = err (within "Sending greeting message" e);
}
greeting_written text req input (ok g) = auth_read text req g (read_auth input)

unfoldable pub request_socks5 : Text → ClientConnRequest → Bytes → Asked
unfolding greeting_written
request_socks5 text req input =
    greeting_written text req input (write_greeting (auth_no_password ∷ []) [])
