-- ===== src/Http/Builder.antt =====
-- src/http.rs: `HttpRequestBuilder`, which is the text written so far, and the look-up of headers.
use cpxy.Base.{
  Option, none, some, List, [], ◌∷◌, ◌++◌, Bytes, if◌then◌else◌, codes, eq_ignore_ascii_case,
}
use cpxy.Net.{Text}
use cpxy.Http.{HttpRequest}

abbrev pub Headers : Type 0
Headers = List (Bytes × Bytes)

-- `HttpRequestBuilder::new`.
unfoldable pub new : Bytes → Bytes → Bytes
new method path = method ++ (codes " " ++ (path ++ codes " HTTP/1.1\r\n"))

unfoldable pub put_header : Bytes → Bytes → Bytes → Bytes
put_header buf name value = buf ++ (name ++ (codes ": " ++ (value ++ codes "\r\n")))

-- A header's text is written as its bytes are.
unfoldable pub put_header_text : Bytes → Bytes → Bytes → Bytes
put_header_text buf name value = buf ++ (name ++ (codes ": " ++ (value ++ codes "\r\n")))

unfoldable pub finalise : Bytes → Bytes
finalise buf = buf ++ codes "\r\n"

put_headers : Bytes → Headers → Bytes
put_headers buf [] = buf
put_headers buf ((k, v) ∷ headers) = put_headers (put_header buf k v) headers

-- `HttpRequest::to_builder`.
unfoldable pub to_builder : HttpRequest → Bytes
unfolding put_headers
to_builder req = put_headers (new req.method req.path) req.headers

-- `WithHeaders::get_header` and `get_header_text`: the first header of the name, in any case.
unfoldable pub get_header : Headers → Bytes → Option Bytes
get_header [] n = none
get_header ((k, v) ∷ headers) n = if eq_ignore_ascii_case k n then some v else get_header headers n

unfoldable pub header_text : Text → Option Bytes → Option Bytes
header_text text none = none
header_text text (some v) = text.from_utf8 v

unfoldable pub get_header_text : Text → Headers → Bytes → Option Bytes
unfolding header_text
get_header_text text headers n = header_text text (get_header headers n)
