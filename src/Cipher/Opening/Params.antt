-- ===== src/Cipher/Opening/Params.antt =====
-- The parameters of a cipher in the path of a request are read back.
use cpxy.Base.{
  ℕ, ◌<◌, ◌^◌, ◌≡◌, refl, ap, ◌∙◌, none, some, [], ◌∷◌, Bytes, codes, ok, arith, eq_bytes,
}
use cpxy.Url.Parts.{Lacks}
use cpxy.HttpPath.{split}
use cpxy.HttpPath.Queries.{split-here, split-Lacks}
use cpxy.Cipher.Strategy.{EncryptionStrategy, first_n, always, never}
use cpxy.Cipher.Opening.{
  Codec, CipherParams, strategy_text, strategy_from_str, strategy_of, params_text, params_of,
  params_from_str,
}

-- What the documentation of base64 and of numbers promises: what is written is read back, without a
-- slash, and a letter is no number.
pub record CodecLaws (codec : Codec) : Type 0 where
  pub decode_engine-base64 : (bytes : Bytes) → codec.decode_engine (codec.base64 bytes) ≡ ok bytes
  pub base64-Lacks : (bytes : Bytes) → Lacks b'/' (codec.base64 bytes)
  pub number_text-Lacks : (n : ℕ) → Lacks b'/' (codec.number_text n)
  pub parse_usize-number_text :
      (n : ℕ) → n < 2 ^ 64 → codec.parse_usize (codec.number_text n) ≡ some n
  pub parse_u8-number_text : (n : ℕ) → n < 256 → codec.parse_u8 (codec.number_text n) ≡ some n
  pub letter_a : codec.parse_usize (codes "a") ≡ none
  pub letter_n : codec.parse_usize (codes "n") ≡ none

-- The limit of a strategy is a `NonZeroUsize`.
abbrev pub IsNonZero : EncryptionStrategy → Type 0
IsNonZero (first_n n) = (0 < n) × (n < 2 ^ 64)
IsNonZero always = Unit
IsNonZero never = Unit

module _ (codec : Codec) (laws : CodecLaws codec) where
  strategy_text-Lacks : (s : EncryptionStrategy) → Lacks b'/' (strategy_text codec s)
  unfolding strategy_text
  strategy_text-Lacks (first_n n) = laws.number_text-Lacks n
  strategy_text-Lacks always = (refl, tt)
  strategy_text-Lacks never = (refl, tt)

  pub strategy_from_str-strategy_text :
      (s : EncryptionStrategy)
      → IsNonZero s
      → strategy_from_str codec (strategy_text codec s) ≡ ok s
  unfolding strategy_from_str strategy_text strategy_of eq_bytes
  strategy_from_str-strategy_text (first_n n) h =
      ap (strategy_of codec (codec.number_text n)) (laws.parse_usize-number_text n h.1)
      ∙ ground arith
  strategy_from_str-strategy_text always h = ap (strategy_of codec (codes "a")) laws.letter_a
  strategy_from_str-strategy_text never h = ap (strategy_of codec (codes "n")) laws.letter_n

  -- The path is cut at its five slashes.
  params_text-split :
      (p : CipherParams)
      → split b'/' (params_text codec p)
        ≡ []
          ∷ codec.base64 p.key
          ∷ codec.base64 p.iv
          ∷ strategy_text codec p.send_strategy
          ∷ strategy_text codec p.recv_strategy
          ∷ codec.number_text p.cipher_type
          ∷ []
  unfolding params_text
  params_text-split p =
      split-here b'/' [] _ tt
      ∙ ap (◌∷◌ []) (
          split-here b'/' (codec.base64 p.key) _ (laws.base64-Lacks p.key)
          ∙ ap (◌∷◌ (codec.base64 p.key)) (
              split-here b'/' (codec.base64 p.iv) _ (laws.base64-Lacks p.iv)
              ∙ ap (◌∷◌ (codec.base64 p.iv)) (
                  split-here b'/' (strategy_text codec p.send_strategy) _
                    (strategy_text-Lacks p.send_strategy)
                  ∙ ap (◌∷◌ (strategy_text codec p.send_strategy)) (
                      split-here b'/' (strategy_text codec p.recv_strategy) _
                        (strategy_text-Lacks p.recv_strategy)
                      ∙ ap (◌∷◌ (strategy_text codec p.recv_strategy)) (
                          split-Lacks b'/' (codec.number_text p.cipher_type)
                            (laws.number_text-Lacks p.cipher_type))))))

  params_of-texts :
      (key iv : Bytes) (s r : EncryptionStrategy) (t : ℕ)
      → IsNonZero s
      → IsNonZero r
      → t < 256
      → params_of codec (
          []
          ∷ codec.base64 key
          ∷ codec.base64 iv
          ∷ strategy_text codec s
          ∷ strategy_text codec r
          ∷ codec.number_text t
          ∷ [])
        ≡ ok (record { key = key; iv = iv; send_strategy = s; recv_strategy = r; cipher_type = t })
  unfolding params_of
  params_of-texts key iv s r t h k l =
      rw
        (
          laws.decode_engine-base64 key,
          laws.decode_engine-base64 iv,
          strategy_from_str-strategy_text s h,
          strategy_from_str-strategy_text r k,
          laws.parse_u8-number_text t l,
        )
        refl

  -- The parameters are read back.
  pub params_from_str-params_text :
      (p : CipherParams)
      → IsNonZero p.send_strategy
      → IsNonZero p.recv_strategy
      → p.cipher_type < 256
      → params_from_str codec (params_text codec p) ≡ ok p
  unfolding params_from_str
  params_from_str-params_text p h k l =
      ap (params_of codec) (params_text-split p)
      ∙ params_of-texts p.key p.iv p.send_strategy p.recv_strategy p.cipher_type h k l
