-- ===== src/HttpStream/Body.antt =====
-- src/http.rs, `AsyncHttpStream::body`: a body of a given length, or in chunks. The texts of numbers
-- and `httparse::parse_chunk_size` are parameters; `none` is a panic.
use cpxy.Base.{
  ℕ, ◌-◌, ltb, ◌==◌, Option, none, some, List, [], ◌∷◌, ◌++◌, Bytes, length, if◌then◌else◌, codes,
  Result, ok, err, message, replicate, eq_ignore_ascii_case,
}
use cpxy.Net.{Text}
use cpxy.Http.Builder.{get_header_text}
use cpxy.RwBuffer.{
  RwBuffer, new, read_buf, write_buf, remaining_read, remaining_write, advance_read,
}
use cpxy.Handshake.{filled}
use cpxy.HttpStream.{AsyncHttpStream, poll_read, read_exact}

-- `httparse::Status<(usize, u64)>`: where the line of the size ends, and the size.
pub data ChunkStatus : Type 0 where
  complete : ℕ → ℕ → ChunkStatus
  partial : ChunkStatus

abbrev pub ParseChunkSize : Type 0
ParseChunkSize = Bytes → Result ChunkStatus

abbrev pub Read : Type 0
Read = Option (Result Bytes × AsyncHttpStream)

-- One turn of the loop: how much its first read returns at most, and the later reads of its chunk.
abbrev pub Turns : Type 0
Turns = List (ℕ × List ℕ)

abbrev pub Rest : Type 0
Rest = Bytes → RwBuffer → AsyncHttpStream → Read

-- `advance_read(remaining_read())` and the next turn.
unfoldable pub chunk_done : Rest → Bytes → Option RwBuffer → AsyncHttpStream → Read
chunk_done rest final_buf none s = none
chunk_done rest final_buf (some buf) s = rest final_buf buf s

unfoldable pub chunk_filled : Rest → Bytes → RwBuffer → Read → Read
unfolding chunk_done
chunk_filled rest final_buf buf none = none
chunk_filled rest final_buf buf (some (err e, s)) = some (err e, s)
chunk_filled rest final_buf buf (some (ok more, s)) =
    chunk_done rest (final_buf ++ more) (advance_read (remaining_read buf) buf) s

-- The rest of a chunk of `len` bytes: the subtraction of what is in the buffer underflows.
unfoldable pub chunk_rest : Rest → List ℕ → ℕ → Bytes → Option RwBuffer → AsyncHttpStream → Read
unfolding chunk_filled
chunk_rest rest sizes len final_buf none s = none
chunk_rest rest sizes len final_buf (some buf) s =
    if ltb len (remaining_read buf)
    then none
    else chunk_filled rest (final_buf ++ read_buf buf) buf
        (read_exact sizes (len - remaining_read buf) s)

unfoldable pub chunk_sized :
    Rest → List ℕ → Bytes → RwBuffer → AsyncHttpStream → Result ChunkStatus → Read
unfolding chunk_rest
chunk_sized rest sizes final_buf buf s (err e) = some (err (message "Invalid chunk size on buf"), s)
chunk_sized rest sizes final_buf buf s (ok partial) = rest final_buf buf s
chunk_sized rest sizes final_buf buf s (ok (complete offset len)) =
    if ltb 0 len
    then chunk_rest rest sizes len final_buf (advance_read offset buf) s
    else some (ok final_buf, s)

unfoldable pub chunk_read :
    ParseChunkSize → Rest → List ℕ → Bytes → Option RwBuffer → AsyncHttpStream → Read
unfolding chunk_sized
chunk_read parse rest sizes final_buf none s = none
chunk_read parse rest sizes final_buf (some buf) s =
    chunk_sized rest sizes final_buf buf s (parse (read_buf buf))

-- The first read of a turn, of which no bytes are the end of the body.
unfoldable pub chunk_turn :
    ParseChunkSize → Rest → List ℕ → Bytes → RwBuffer → Option (Bytes × AsyncHttpStream) → Read
unfolding chunk_read
chunk_turn parse rest sizes final_buf buf none = none
chunk_turn parse rest sizes final_buf buf (some (d, s)) =
    if length d == 0
    then some (ok final_buf, s)
    else chunk_read parse rest sizes final_buf (filled d buf) s

-- The connection ends where there are no more turns.
unfoldable pub chunks : ParseChunkSize → Turns → Rest
unfolding chunk_turn
chunks parse [] final_buf buf s = some (ok final_buf, s)
chunks parse ((size, sizes) ∷ turns) final_buf buf s =
    let room = write_buf buf in
    chunk_turn parse (chunks parse turns) sizes final_buf room
      (poll_read (remaining_write room) size s)

unfoldable pub chunked_body : ParseChunkSize → Turns → AsyncHttpStream → Option Bytes → Read
unfolding chunks
chunked_body parse turns s none = some (ok [], s)
chunked_body parse turns s (some e) =
    if eq_ignore_ascii_case e (codes "chunked")
    then chunks parse turns [] (new (replicate 8 0)) s
    else some (ok [], s)

unfoldable pub sized_body :
    ParseChunkSize → List ℕ → Turns → AsyncHttpStream → Option ℕ → Option Bytes → Read
unfolding chunked_body
sized_body parse sizes turns s none e = chunked_body parse turns s e
sized_body parse sizes turns s (some len) e =
    if ltb 0 len then read_exact sizes len s else chunked_body parse turns s e

unfoldable pub content_length : (Bytes → Option ℕ) → Option Bytes → Option ℕ
content_length parse_usize none = none
content_length parse_usize (some v) = parse_usize v

-- `body`; `sizes` are the reads of a body of a given length, `turns` those of one in chunks.
unfoldable pub body :
    Text → (Bytes → Option ℕ) → ParseChunkSize → List ℕ → Turns → AsyncHttpStream → Read
unfolding sized_body content_length
body text parse_usize parse sizes turns s =
    sized_body parse sizes turns s
      (content_length parse_usize (get_header_text text s.init.headers (codes "content-length")))
      (get_header_text text s.init.headers (codes "transfer-encoding"))
