-- ===== src/HttpStream.antt =====
-- src/http.rs, `parse_request` and `AsyncHttpStream`: a request that is read from a connection, and
-- the bytes behind it, some of which came with it. The reads go on as in the handshake, whose loop
-- is used; `sizes` are how many bytes they return at most.
pub mod Requests
pub mod Bodies
pub mod Body
pub mod Chunks
use cpxy.Base.{
  ℕ, zero, suc, ◌+◌, ◌-◌, min, Bool, true, false, ◌==◌, ltb, Option, none, some, List, [], ◌∷◌,
  ◌++◌, Bytes, length, take, drop, if◌then◌else◌, codes, Result, ok, err, Error, message,
}
use cpxy.Net.{Text}
use cpxy.Http.{HttpRequest, Httparse, Status, complete, partial, Parsed}
use cpxy.Http.Builder.{Headers, get_header_text}
use cpxy.RwBuffer.{RwBuffer, read_buf, remaining_read, advance_read}
use cpxy.Handshake.{Turn, done, fail, again, Outcome, success, failure, Link, read_until}

pub record AsyncHttpStream : Type 0 where
  pub init : HttpRequest
  pub body_buf : Option RwBuffer
  pub body : Bytes

-- `unwrap_or_default`.
unfoldable pub or_default : Option Bytes → Bytes
or_default none = []
or_default (some s) = s

unfoldable pub owned : Parsed → HttpRequest
unfolding or_default
owned req = record {
  headers = req.headers;
  method = or_default req.method;
  path = or_default req.path;
}

unfoldable pub request_status : Result Status → Turn Bool HttpRequest
unfolding owned
request_status (err e) = fail [] e
request_status (ok partial) = again true
request_status (ok (complete offset req)) = done offset (owned req)

-- The loop of `parse_request` reads before it parses: `false` is the state before the first read.
unfoldable pub request_turn : Httparse → Bool → Bytes → Turn Bool HttpRequest
unfolding request_status
request_turn httparse false buf = again true
request_turn httparse true buf = request_status (httparse buf)

-- The buffer is kept if it holds more than the request.
unfoldable pub streamed : Option (Outcome HttpRequest) → Option (Result AsyncHttpStream)
streamed none = none
streamed (some (failure reply e)) = some (err e)
streamed (some (success init link)) = some (
    ok (record {
      init = init;
      body_buf = if ltb 0 (remaining_read link.buf) then some link.buf else none;
      body = link.input;
    }))

unfoldable pub parse_request :
    Httparse → List ℕ → RwBuffer → Bytes → Option (Result AsyncHttpStream)
unfolding request_turn streamed
parse_request httparse sizes buf stream =
    streamed (read_until (request_turn httparse) sizes false buf stream)

-- `poll_read` into `n` bytes, from what came with the request and then from the connection, which
-- has at most `size` bytes ready; `none` is a panic.
unfoldable pub read_existing :
    Option RwBuffer → Bytes → AsyncHttpStream → Option (Bytes × AsyncHttpStream)
read_existing none out s = none
read_existing (some existing) out s =
    some (out, record s { body_buf = if remaining_read existing == 0 then none else some existing })

unfoldable pub poll_read_from :
    ℕ → ℕ → Option RwBuffer → AsyncHttpStream → Option (Bytes × AsyncHttpStream)
unfolding read_existing
poll_read_from n size (some existing) s =
    let copy_len = min n (remaining_read existing) in
    read_existing (advance_read copy_len existing) (take copy_len (read_buf existing)) s
poll_read_from n size none s =
    some (take (min n size) s.body, record s { body = drop (min n size) s.body })

unfoldable pub poll_read : ℕ → ℕ → AsyncHttpStream → Option (Bytes × AsyncHttpStream)
unfolding poll_read_from
poll_read n size s = poll_read_from n size s.body_buf s

-- `AsyncReadExt::read_exact` over it.
unfoldable pub keep_reading :
    Option (Bytes × AsyncHttpStream)
    → (ℕ → AsyncHttpStream → Option (Result Bytes × AsyncHttpStream))
    → ℕ
    → Option (Result Bytes × AsyncHttpStream)
keep_reading none rest n = none
keep_reading (some (out, s)) rest n =
    if length out == 0
    then some (err (message "unexpected end of file"), s)
    else elim (rest (n - length out) s) [
      | none ↦ none
      | some (err e, t) ↦ some (err e, t)
      | some (ok more, t) ↦ some (ok (out ++ more), t)
    ]

unfoldable pub read_exact : List ℕ → ℕ → AsyncHttpStream → Option (Result Bytes × AsyncHttpStream)
unfolding keep_reading poll_read
read_exact sizes zero s = some (ok [], s)
read_exact [] (suc n) s = some (err (message "unexpected end of file"), s)
read_exact (size ∷ sizes) (suc n) s =
    keep_reading (poll_read (suc n) size s) (read_exact sizes) (suc n)
