-- ===== src/Tests/Bodies.antt =====
-- Bodies of a given length and in chunks.
use cpxy.Base.{
  ℕ, ◌≤◌, length, ◌≡◌, refl, true, Option, none, some, [], ◌∷◌, Bytes, take, drop, arith, codes, ok,
  if◌then◌else◌, eq_bytes, eq_ignore_ascii_case,
}
use cpxy.Http.Builder.{get_header_text, get_header, header_text}
use cpxy.HttpStream.{AsyncHttpStream, poll_read, poll_read_from}
use cpxy.HttpStream.Requests.{held, kept}
use cpxy.HttpStream.Body.{ParseChunkSize, complete, body}
use cpxy.HttpStream.Chunks.{body-content_length, body-short_chunk}
use cpxy.Tests.{plain, is_ascii}

abbrev two_bytes : AsyncHttpStream
two_bytes = record {
  init = record {
    headers = (codes "Content-Length", codes "2") ∷ [];
    method = codes "POST";
    path = codes "/";
  };
  body_buf = none;
  body = 7 ∷ 8 ∷ 9 ∷ [];
}

abbrev only_two : Bytes → Option ℕ
only_two v = if eq_bytes v (codes "2") then some 2 else none

-- Every size is three, in a line of three bytes.
abbrev threes : ParseChunkSize
threes b = ok (complete 3 3)

length_given :
    get_header_text plain two_bytes.init.headers (codes "content-length") ≡ some (codes "2")
unfolding get_header_text get_header header_text eq_ignore_ascii_case is_ascii
length_given = refl

two_read : only_two (codes "2") ≡ some 2
unfolding eq_bytes
two_read = refl

two_held : 2 ≤ length (held two_bytes)
unfolding kept
two_held = omega arith

body-content_length_example :
    (t : AsyncHttpStream) × (body plain only_two threes (1 ∷ 1 ∷ []) [] two_bytes
      ≡ some (ok (take 2 (held two_bytes)), t))
    × (held t ≡ drop 2 (held two_bytes))
body-content_length_example =
    body-content_length plain only_two threes (1 ∷ 1 ∷ []) [] two_bytes (codes "2") 2 tt
      length_given two_read (omega arith) (omega arith, (omega arith, tt)) (omega arith) two_held

abbrev in_chunks : AsyncHttpStream
in_chunks = record {
  init = record {
    headers = (codes "Transfer-Encoding", codes "chunked") ∷ [];
    method = codes "POST";
    path = codes "/";
  };
  body_buf = none;
  body = codes "3\r\nabc\r\n0\r\n\r\n";
}

abbrev behind_chunk : AsyncHttpStream
behind_chunk = record in_chunks { body = codes "0\r\n\r\n" }

no_length : get_header_text plain in_chunks.init.headers (codes "content-length") ≡ none
unfolding get_header_text get_header header_text eq_ignore_ascii_case
no_length = refl

is_chunked :
    get_header_text plain in_chunks.init.headers (codes "transfer-encoding")
    ≡ some (codes "chunked")
unfolding get_header_text get_header header_text eq_ignore_ascii_case is_ascii
is_chunked = refl

chunked_name : eq_ignore_ascii_case (codes "chunked") (codes "chunked") ≡ true
unfolding eq_ignore_ascii_case
chunked_name = refl

first_read : poll_read 8 8 in_chunks ≡ some (codes "3\r\nabc\r\n", behind_chunk)
unfolding poll_read poll_read_from
first_read = refl

body-short_chunk_example : body plain only_two threes [] ((8, []) ∷ []) in_chunks ≡ none
body-short_chunk_example =
    body-short_chunk plain only_two threes [] [] [] 8 in_chunks behind_chunk (codes "chunked")
      (codes "3\r\nabc\r\n") 3 3 no_length is_chunked chunked_name first_read (omega arith) refl
      (omega arith) (omega arith)
