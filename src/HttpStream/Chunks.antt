-- ===== src/HttpStream/Chunks.antt =====
-- What `AsyncHttpStream::body` returns for a body of a given length, and what it does to short chunks.
use cpxy.Base.{
  ℕ, ◌+◌, ◌≤◌, ◌<◌, ◌≡◌, refl, ap, ◌∙◌, true, false, ltb, lt→ltb, ◌==◌, Option, none, some, List,
  [], ◌∷◌, Bytes, length, take, drop, All, arith, ok, codes, replicate, eq_ignore_ascii_case,
  length-drop,
}
use cpxy.Net.{Text}
use cpxy.Http.Builder.{get_header_text}
use cpxy.RwBuffer.{RwBuffer, new, read_buf, write_buf, remaining_read, advance_read}
use cpxy.RwBuffer.Moves.{IsValid, length-read_buf, advance_read_lem, put_slice-advance_write}
use cpxy.Handshake.{filled}
use cpxy.HttpStream.{AsyncHttpStream, poll_read}
use cpxy.HttpStream.Requests.{held, IsKept}
use cpxy.HttpStream.Bodies.{read_exact-held}
use cpxy.HttpStream.Body.{
  ParseChunkSize, complete, Turns, Rest, chunk_rest, chunk_sized, chunk_read, chunk_turn, chunks,
  chunked_body, sized_body, content_length, body,
}

abbrev fresh : RwBuffer
fresh = new (replicate 8 0)

fresh-IsValid : IsValid fresh
unfolding new
fresh-IsValid = record { ordered = omega arith; within = omega arith }

-- A read of some bytes into a fresh buffer.
filled-fresh :
    (d : Bytes)
    → length d ≤ 8
    → (buf : RwBuffer) × (filled d (write_buf fresh) ≡ some buf) × IsValid buf × (read_buf buf ≡ d)
unfolding filled write_buf new read_buf
filled-fresh d h =
    let (buf, f, v, b, c) = put_slice-advance_write d fresh fresh-IsValid (omega arith) in
    (buf, f, v, b)

module _ (rest : Rest) (sizes : List ℕ) (s : AsyncHttpStream) (len : ℕ) where
  chunk_rest-short :
      (offset : ℕ) (buf : RwBuffer)
      → IsValid buf
      → offset + len < length (read_buf buf)
      → chunk_rest rest sizes len [] (advance_read offset buf) s ≡ none
  unfolding chunk_rest
  chunk_rest-short offset buf v h =
      let size = length-read_buf buf v in
      let (next, a, v', b, c) = advance_read_lem offset buf v (omega (arith, size)) in
      let short : ltb len (remaining_read next) ≡ true = lt→ltb _ _ (
        omega
          (arith, size, length-read_buf next v', ap length b, length-drop offset (read_buf buf))) in
      ap (λ (o : Option RwBuffer). chunk_rest rest sizes len [] o s) a ∙ rw short refl

  chunk_read-short :
      (parse : ParseChunkSize) (d : Bytes) (offset : ℕ) (buf : RwBuffer)
      → IsValid buf
      → read_buf buf ≡ d
      → parse d ≡ ok (complete offset len)
      → 0 < len
      → offset + len < length d
      → chunk_read parse rest sizes [] (some buf) s ≡ none
  unfolding chunk_read chunk_sized
  chunk_read-short parse d offset buf v b p pos h =
      let some_size : ltb 0 len ≡ true = lt→ltb 0 len pos in
      ap (chunk_sized rest sizes [] buf s) (ap parse b ∙ p)
      ∙ rw some_size (chunk_rest-short offset buf v (omega (arith, ap length b)))

chunk_turn-short :
    (parse : ParseChunkSize) (rest : Rest) (sizes : List ℕ) (s : AsyncHttpStream) (len offset : ℕ)
    (d : Bytes)
    → length d ≤ 8
    → parse d ≡ ok (complete offset len)
    → 0 < len
    → offset + len < length d
    → chunk_turn parse rest sizes [] (write_buf fresh) (some (d, s)) ≡ none
unfolding chunk_turn
chunk_turn-short parse rest sizes s len offset d l p pos h =
    let (buf, f, v, b) = filled-fresh d l in
    let some_read : (length d == 0) ≡ false = ground arith in
    rw (some_read, f) (chunk_read-short rest sizes s len parse d offset buf v b p pos h)

module _ (text : Text) (parse_usize : Bytes → Option ℕ) (parse : ParseChunkSize) where
  -- Where the header Content-Length is a number above 0, the buffer that came with the request
  -- is in order and not empty if there is one, and at least that many bytes are there or arrive,
  -- in at most that many reads of at least one byte, body returns exactly that many bytes, those
  -- that came with the request first, and leaves the others, whatever Transfer-Encoding says.
  pub body-content_length :
      (sizes : List ℕ) (turns : Turns) (s : AsyncHttpStream) (v : Bytes) (len : ℕ)
      → IsKept s.body_buf
      → get_header_text text s.init.headers (codes "content-length") ≡ some v
      → parse_usize v ≡ some len
      → 0 < len
      → All (λ (k : ℕ). 0 < k) sizes
      → len ≤ length sizes
      → len ≤ length (held s)
      → (t : AsyncHttpStream) × (body text parse_usize parse sizes turns s
          ≡ some (ok (take len (held s)), t))
        × (held t ≡ drop len (held s))
  unfolding body content_length sized_body
  body-content_length sizes turns s v len k h p pos all e f =
      let (t, r, left, kt) = read_exact-held sizes len s k all e f in
      let some_bytes : ltb 0 len ≡ true = lt→ltb 0 len pos in
      let encoding = get_header_text text s.init.headers (codes "transfer-encoding") in
      (
        t,
        ap (λ (o : Option ℕ). sized_body parse sizes turns s o encoding)
              (ap (content_length parse_usize) h ∙ p)
            ∙ rw some_bytes r,
        left,
      )

  -- Without a Content-Length and with a Transfer-Encoding of chunked in any case, body panics if
  -- its first read, of at most eight bytes, brings the line of a size above 0 with more bytes
  -- behind it than the size says.
  pub body-short_chunk :
      (sizes later : List ℕ) (turns : Turns) (size : ℕ) (s t : AsyncHttpStream) (e d : Bytes)
      (offset len : ℕ)
      → get_header_text text s.init.headers (codes "content-length") ≡ none
      → get_header_text text s.init.headers (codes "transfer-encoding") ≡ some e
      → eq_ignore_ascii_case e (codes "chunked") ≡ true
      → poll_read 8 size s ≡ some (d, t)
      → length d ≤ 8
      → parse d ≡ ok (complete offset len)
      → 0 < len
      → offset + len < length d
      → body text parse_usize parse sizes ((size, later) ∷ turns) s ≡ none
  unfolding body content_length sized_body chunked_body chunks write_buf new
  body-short_chunk sizes later turns size s t e d offset len none_given encoded chunked read l p pos
        h =
      let all : Turns = (size, later) ∷ turns in
      (λ i. sized_body parse sizes all s (content_length parse_usize (none_given i)) (encoded i))
      ∙ rw chunked refl
      ∙ ap (chunk_turn parse (chunks parse turns) later [] (write_buf fresh)) read
      ∙ chunk_turn-short parse (chunks parse turns) later t len offset d l p pos h
