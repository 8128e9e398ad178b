-- ===== src/Tests/Openings.antt =====
-- A connection under a cipher that is opened. Base64 is a shift of the bytes here, and the text of
-- a number is one byte.
use cpxy.Base.{
  ℕ, ◌+◌, ◌-◌, ◌<◌, ◌≡◌, refl, ap, true, false, ◌==◌, leb, Option, none, some, [], ◌∷◌, Bytes, All,
  if◌then◌else◌, arith, codes, ok,
}
use cpxy.Url.Parts.{Lacks}
use cpxy.Http.{Httparse, HttpRequest, complete, parse_http}
use cpxy.Cipher.{Mask}
use cpxy.Cipher.Strategy.{first_n, always}
use cpxy.Cipher.Strategy.Position.{encrypted}
use cpxy.Cipher.Opening.{Codec, ChaCha20, CipherParams}
use cpxy.Cipher.Opening.Params.{CodecLaws}
use cpxy.Cipher.Opening.Connect.{Opened, accepted, connect, accept_client}
use cpxy.Cipher.Opening.Asked.{KeepsAscii, asked}
use cpxy.Cipher.Opening.Accept.{accept_client-connect}
use cpxy.Tests.{plain, is_ascii}

unfoldable shift : Bytes → Bytes
shift [] = []
shift (b ∷ bs) = (b + 48) ∷ shift bs

unfoldable unshift : Bytes → Bytes
unshift [] = []
unshift (b ∷ bs) = (b - 48) ∷ unshift bs

unfoldable digit : Bytes → Option ℕ
digit (m ∷ []) = if leb 128 m then some (m - 128) else none
digit _ = none

abbrev toy : Codec
toy = record {
  base64 = shift;
  decode_engine = λ bs. ok (unshift bs);
  number_text = λ n. (n + 128) ∷ [];
  parse_usize = digit;
  parse_u8 = digit;
}

unshift-shift : (bs : Bytes) → unshift (shift bs) ≡ bs
unfolding shift unshift
unshift-shift [] = refl
unshift-shift (b ∷ bs) = ground (arith, unshift-shift bs)

shift-Lacks : (bs : Bytes) → Lacks b'/' (shift bs)
unfolding shift
shift-Lacks [] = tt
shift-Lacks (b ∷ bs) = (ground arith, shift-Lacks bs)

digit_lem : (n : ℕ) → digit ((n + 128) ∷ []) ≡ some n
unfolding digit
digit_lem n = ground arith

no_letter : (digit (codes "a") ≡ none) × (digit (codes "n") ≡ none)
unfolding digit
no_letter = (refl, refl)

no_slash : (n : ℕ) → ((n + 128) == b'/') ≡ false
no_slash n = ground arith

toy-CodecLaws : CodecLaws toy
toy-CodecLaws = record {
  decode_engine-base64 = λ bs. ap ok (unshift-shift bs);
  base64-Lacks = shift-Lacks;
  number_text-Lacks = λ n. (no_slash n, tt);
  parse_usize-number_text = λ n h. digit_lem n;
  parse_u8-number_text = λ n h. digit_lem n;
  letter_a = no_letter.0;
  letter_n = no_letter.1;
}

ascii_lem : (s : Bytes) → All (λ (b : ℕ). b < 128) s → is_ascii s ≡ true
unfolding is_ascii
ascii_lem [] h = refl
ascii_lem (b ∷ s) (h, t) = ground (arith, ascii_lem s t)

plain-KeepsAscii : KeepsAscii plain
plain-KeepsAscii s h = ground (arith, ascii_lem s h)

-- A keystream that exchanges two bytes.
abbrev exchange : Mask
exchange p b = if b == 1 then 2 else if b == 2 then 1 else b

exchange_twice : (p b : ℕ) → exchange p (exchange p b) ≡ b
exchange_twice p b = ground arith

abbrev one_cipher : ChaCha20
one_cipher key iv = some exchange

abbrev params : CipherParams
params = record {
  key = 1 ∷ 2 ∷ [];
  iv = 3 ∷ [];
  send_strategy = first_n 2;
  recv_strategy = always;
  cipher_type = 1;
}

abbrev first_data : Bytes
first_data = 1 ∷ 2 ∷ 1 ∷ []

abbrev its_request : HttpRequest
its_request = asked toy params (codes "ab") none (encrypted exchange (first_n 2) 0 first_data)

-- A parser that knows this one request.
abbrev knows : Httparse
knows buf = ok (
    complete 9 (record {
      method = some its_request.method;
      path = some its_request.path;
      headers = its_request.headers;
    }))

accept_client-connect_example :
    (opened : Opened) × (req : HttpRequest) × (connect toy one_cipher params
        (codes "ab")
        none
        first_data
      ≡ some opened)
    × (parse_http knows opened.request ≡ ok (some (9, req)))
    × (accept_client toy one_cipher plain req
        ≡ accepted (some first_data) exchange opened.wr_cipher opened.rd_cipher)
accept_client-connect_example =
    accept_client-connect toy toy-CodecLaws plain plain-KeepsAscii knows one_cipher exchange params
      (codes "ab") none first_data 9 exchange_twice (omega arith, omega arith) tt refl refl
      (omega arith) refl
