-- ===== src/Cipher/Opening.antt =====
-- src/protocol/tcpman/cipher/client.rs, server.rs and suite.rs: how a connection under a cipher is
-- opened. `Codec` stands for base64 and for the texts of numbers, `ChaCha20` for the stream cipher.
pub mod Connect
pub mod Params
pub mod Seal
pub mod Asked
pub mod Accept
use cpxy.Base.{
  ℕ, ◌<◌, ◌^◌, ltb, ◌==◌, ◌≡◌, Bool, Option, none, some, [], ◌∷◌, ◌++◌, Bytes, length, List,
  if◌then◌else◌, codes, eq_bytes, Result, ok, err, ◌>>=◌, Error, message, within, context, some_or,
}
use cpxy.Url.Parts.{Lacks}
use cpxy.Http.{HttpRequest}
use cpxy.Http.Builder.{new, put_header_text, get_header}
use cpxy.HttpPath.{split}
use cpxy.WebSocket.{negotiate_request}
use cpxy.Cipher.{Mask}
use cpxy.Cipher.Strategy.{
  EncryptionStrategy, first_n, always, never, StrategyCipher, wrap_cipher, apply,
}

pub record Codec : Type 0 where
  -- `Base64Display` and `decode_engine` with the alphabet for URLs
  pub base64 : Bytes → Bytes
  pub decode_engine : Bytes → Result Bytes
  -- `Display` of a number, and `str::parse` to `usize` and to `u8`
  pub number_text : ℕ → Bytes
  pub parse_usize : Bytes → Option ℕ
  pub parse_u8 : Bytes → Option ℕ

-- `ChaCha20::new_from_slices`, of a key and an initial value.
abbrev pub ChaCha20 : Type 0
ChaCha20 = Bytes → Bytes → Option Mask

pub record CipherParams : Type 0 where
  pub key : Bytes
  pub iv : Bytes
  pub send_strategy : EncryptionStrategy
  pub recv_strategy : EncryptionStrategy
  pub cipher_type : ℕ

unfoldable pub create_cipher : ChaCha20 → ℕ → Bytes → Bytes → Result Mask
create_cipher chacha20 cipher_type key iv =
    if cipher_type == 1
    then some_or "Invalid key/iv lengths for Chacha20 cipher" (chacha20 key iv)
    else err (message "Unknown cipher_type")

-- A cipher and its keystream.
abbrev pub Keyed : Type 0
Keyed = Mask × StrategyCipher

module _ (codec : Codec) where
  -- `Display` and `FromStr` of `EncryptionStrategy`.
  unfoldable pub strategy_text : EncryptionStrategy → Bytes
  strategy_text (first_n v) = codec.number_text v
  strategy_text always = codes "a"
  strategy_text never = codes "n"

  unfoldable pub strategy_of : Bytes → Option ℕ → Result EncryptionStrategy
  strategy_of v (some n) = if ltb 0 n then ok (first_n n) else err (message "Invalid enc strategy")
  strategy_of v none =
      if eq_bytes v (codes "n")
      then ok never
      else if eq_bytes v (codes "a")
      then ok always
      else err (message "Invalid enc strategy")

  unfoldable pub strategy_from_str : Bytes → Result EncryptionStrategy
  unfolding strategy_of
  strategy_from_str v = strategy_of v (codec.parse_usize v)

  -- `Display` and `FromStr` of `CipherParams`.
  unfoldable pub params_text : CipherParams → Bytes
  unfolding strategy_text
  params_text p =
      b'/'
      ∷ (codec.base64 p.key
          ++ (b'/'
              ∷ (codec.base64 p.iv
                  ++ (b'/'
                      ∷ (strategy_text p.send_strategy
                          ++ (b'/'
                              ∷ (strategy_text p.recv_strategy
                                  ++ (b'/' ∷ codec.number_text p.cipher_type))))))))

  unfoldable pub params_of : List Bytes → Result CipherParams
  unfolding strategy_from_str
  params_of (_ ∷ k ∷ v ∷ ss ∷ rs ∷ t ∷ more) = do
    key ← context "Decoding key" (codec.decode_engine k)
    iv ← context "Decoding iv" (codec.decode_engine v)
    send_strategy ← context "parse send_strategy" (strategy_from_str ss)
    recv_strategy ← context "parse recv_strategy" (strategy_from_str rs)
    cipher_type ← context "parse cipher_type" (some_or "invalid digit" (codec.parse_u8 t))
    ok (record {
      key = key;
      iv = iv;
      send_strategy = send_strategy;
      recv_strategy = recv_strategy;
      cipher_type = cipher_type;
    })
  params_of _ = err (message "Invalid URL")

  unfoldable pub params_from_str : Bytes → Result CipherParams
  unfolding params_of
  params_from_str s = params_of (split b'/' s)
