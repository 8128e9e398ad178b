-- ===== src/Socks5/Messages.antt =====
-- The SOCKS5 messages of src/socks5, written by one side and read by the other.
use cpxy.Base.{
  ℕ, ◌+◌, ◌<◌, ◌≤◌, ◌≡◌, refl, Bytes, Option, none, some, [], ◌∷◌, ◌++◌, length, Result, ok, err,
  arith, take-append, length-append, lt→ltb, take-append_le,
}
use cpxy.Base.Reader.{read_exact_ok}
use cpxy.Net.{Text, TextLaws}
use cpxy.Address.{Address, parse, write_len}
use cpxy.Address.Encoding.{encode, IsWire, wire-Fits, parse-encode, write-encode, length-encode}
use cpxy.Address.Incremental.{parse-append}
use cpxy.Address.Stream.RoundTrip.{IsSent, sent-Fits, parse_async-encode}
use cpxy.Socks5.{
  ClientConnRequest, parse_request, write_request, respond, parse_greeting, write_greeting,
  respond_auth,
}
use cpxy.Socks5.Replies.{read_auth, read_response}

module _ (text : Text) where
  module _ (laws : TextLaws text) where
    -- A request whose address has a wire form is written in three bytes and its address, and
    -- whatever follows, the parser returns the request and the position where it ends.
    pub parse_request-write_request :
        (r : ClientConnRequest) (rest : Bytes)
        → IsWire text r.address
        → (out : Bytes) × (write_request r [] ≡ ok out)
          × (length out ≡ 3 + write_len r.address)
          × (parse_request text (out ++ rest) ≡ ok (some (length out, r)))
    unfolding write_request parse_request
    parse_request-write_request r rest h = (
      0x5 ∷ r.cmd ∷ 0 ∷ encode r.address,
      write-encode r.address _ (wire-Fits text laws r.address h),
      omega (arith, length-encode r.address),
      ground (arith, parse-encode text laws r.address rest h, length-encode r.address),
    )

  -- A request that the parser finds lies within the buffer and stays the same when bytes follow.
  pub parse_request-append :
      (buf more : Bytes) (n : ℕ) (r : ClientConnRequest)
      → parse_request text buf ≡ ok (some (n, r))
      → (n ≤ length buf) × (parse_request text (buf ++ more) ≡ ok (some (n, r)))
  unfolding parse_request
  parse_request-append [] more n r e = cc
  parse_request-append (v ∷ []) more n r e = cc
  parse_request-append (v ∷ c ∷ []) more n r e = cc
  parse_request-append (v ∷ c ∷ z ∷ buf) more n r e = go (parse text buf) refl
    where
      go :
          (found : Result (Option (ℕ × Address)))
          → parse text buf ≡ found
          → (n ≤ length (v ∷ c ∷ z ∷ buf))
            × (parse_request text ((v ∷ c ∷ z ∷ buf) ++ more) ≡ ok (some (n, r)))
      go (ok (some (k, a))) p = ground (arith, parse-append text buf more k a p)
      go (ok none) p = ground arith
      go (err x) p = ground arith

-- A greeting of at most 255 methods is written, and whatever follows it, it is read back with
-- the position where it ends.
pub parse_greeting-write_greeting :
    (auths rest : Bytes)
    → length auths < 256
    → (out : Bytes) × (write_greeting auths [] ≡ ok out)
      × (parse_greeting (out ++ rest) ≡ ok (some (length out, auths)))
unfolding write_greeting parse_greeting
parse_greeting-write_greeting auths rest h = (
  0x5 ∷ length auths ∷ auths,
  rw (lt→ltb _ _ h),
  ground (arith, length-append auths rest, take-append (length auths) auths rest refl),
)

-- The greeting parser on a buffer that grows.
pub parse_greeting-append :
    (buf more : Bytes) (n : ℕ) (auths : Bytes)
    → parse_greeting buf ≡ ok (some (n, auths))
    → (n ≤ length buf) × (parse_greeting (buf ++ more) ≡ ok (some (n, auths)))
unfolding parse_greeting
parse_greeting-append [] more n auths e = cc
parse_greeting-append (v ∷ []) more n auths e = cc
parse_greeting-append (v ∷ k ∷ buf) more n auths e =
    ground (arith, length-append buf more, take-append_le k buf more)

-- The answer to a greeting is read back by the client.
pub read_auth-respond_auth :
    (auth : ℕ) (rest : Bytes) → read_auth (respond_auth auth [] ++ rest) ≡ ok (auth, rest)
unfolding read_auth respond_auth
read_auth-respond_auth auth rest = ground (arith, read_exact_ok 2 (0x5 ∷ auth ∷ rest))

-- The server's answer to a request is read back by the client, for every address that can be
-- sent.
pub read_response-respond :
    (text : Text) (code : ℕ) (a : Address) (rest : Bytes)
    → IsSent text a
    → (out : Bytes) × (respond code a [] ≡ ok out)
      × (read_response text (out ++ rest) ≡ ok ((code, a), rest))
unfolding respond read_response
read_response-respond text code a rest h = (
  0x5 ∷ code ∷ 0 ∷ encode a,
  write-encode a _ (sent-Fits text a h),
  ground (
    arith,
    read_exact_ok 3 (0x5 ∷ code ∷ 0 ∷ (encode a ++ rest)),
    parse_async-encode text a rest h,
  ),
)
