-- ===== src/Http.antt =====
-- src/http.rs: the request and its parser. `Httparse` stands for `httparse::Request::parse`.
pub mod Builder
use cpxy.Base.{ℕ, Option, none, some, List, Bytes, Result, ok, ◌>>=◌, context, some_or}

pub record HttpRequest : Type 0 where
  pub headers : List (Bytes × Bytes)
  pub method : Bytes
  pub path : Bytes

-- `httparse::Request`, and `httparse::Status`.
pub record Parsed : Type 0 where
  pub method : Option Bytes
  pub path : Option Bytes
  pub headers : List (Bytes × Bytes)

pub data Status : Type 0 where
  complete : ℕ → Parsed → Status
  partial : Status

abbrev pub Httparse : Type 0
Httparse = Bytes → Result Status

unfoldable pub request_of_status : Status → Result (Option (ℕ × HttpRequest))
request_of_status partial = ok none
request_of_status (complete offset req) = do
  method ← some_or "No method" req.method
  path ← some_or "No path" req.path
  ok (some (offset, record { headers = req.headers; method = method; path = path }))

-- `HttpRequest::parse`.
unfoldable pub parse_http : Httparse → Bytes → Result (Option (ℕ × HttpRequest))
parse_http httparse buf = do
  status ← context "Pasring HTTP request" (httparse buf)
  request_of_status status
