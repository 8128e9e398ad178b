-- ===== src/Cipher/Strategy.antt =====
-- src/protocol/tcpman/cipher/partial.rs and strategy.rs: which part of a stream is encrypted.
pub mod Position
use cpxy.Base.{
  ℕ, ◌+◌, ◌-◌, ◌^◌, ◌==◌, ltb, leb, min, Bool, true, false, ◌&&◌, Option, none, some, Bytes, ◌++◌,
  length, take, drop, if◌then◌else◌,
}
use cpxy.Base.Int.{ℤ, pos, is_positive, positive_part, checked_sub, checked_add}
use cpxy.Cipher.{Mask, apply_keystream}

pub data EncryptionStrategy : Type 0 where
  first_n : ℕ → EncryptionStrategy
  always never : EncryptionStrategy

-- `EncryptionStrategy::new_send` and `new_receive`.
unfoldable pub new_send : Bool → ℕ → Bool → EncryptionStrategy
new_send is_tcp dst_port true = never
new_send is_tcp dst_port false = if is_tcp && (dst_port == 443) then first_n 512 else always

unfoldable pub new_receive : Bool → ℕ → EncryptionStrategy
new_receive is_tcp dst_port = if is_tcp && (dst_port == 443) then never else always

-- The inner cipher of a `PartialStreamCipher` is at a position of its keystream.
pub record PartialStreamCipher : Type 0 where
  pub inner : ℕ
  pub n : ℤ

pub data StrategyCipher : Type 0 where
  first : PartialStreamCipher → StrategyCipher
  all_of : ℕ → StrategyCipher
  none_of : StrategyCipher

-- `wrap_cipher` for a cipher at the start of its keystream; `none` is a panic here and below.
unfoldable pub wrap_cipher : EncryptionStrategy → Option StrategyCipher
wrap_cipher (first_n n) =
    if ltb n (2 ^ 63) then some (first (record { inner = 0; n = pos n })) else none
wrap_cipher always = some (all_of 0)
wrap_cipher never = some none_of

-- `rewind` of `ChaCha20`.
unfoldable pub seek_back : ℕ → ℕ → Option ℕ
seek_back p cnt = if leb cnt p then some (p - cnt) else none

unfoldable pub partial_rewound : ℤ → Option ℕ → Option PartialStreamCipher
partial_rewound n none = none
partial_rewound n (some inner) = some (record { inner = inner; n = n })

unfoldable pub partial_rewind_to : PartialStreamCipher → Option ℤ → Option PartialStreamCipher
partial_rewind_to p none = none
partial_rewind_to p (some n) =
    if is_positive n
    then partial_rewound n (seek_back p.inner (positive_part n - positive_part p.n))
    else some (record { inner = p.inner; n = n })

unfoldable pub partial_rewind : PartialStreamCipher → ℕ → Option PartialStreamCipher
partial_rewind p cnt = partial_rewind_to p (checked_add p.n cnt)

unfoldable pub partial_applied : Bytes → ℕ → Option ℤ → Option (Bytes × PartialStreamCipher)
partial_applied out inner none = none
partial_applied out inner (some n) = some (out, record { inner = inner; n = n })

unfoldable pub partial_apply :
    Mask → PartialStreamCipher → Bytes → Option (Bytes × PartialStreamCipher)
partial_apply mask p buf =
    if is_positive p.n
    then (let len = min (positive_part p.n) (length buf) in
        partial_applied (apply_keystream mask p.inner (take len buf) ++ drop len buf)
          (p.inner + len) (checked_sub p.n (length buf)))
    else some (buf, p)

unfoldable pub will_modify_data : StrategyCipher → Bool
will_modify_data (first p) = is_positive p.n
will_modify_data (all_of p) = true
will_modify_data none_of = false

unfoldable pub first_applied :
    Option (Bytes × PartialStreamCipher) → Option (Bytes × StrategyCipher)
first_applied none = none
first_applied (some (out, p)) = some (out, first p)

-- `try_apply_keystream_inout`: the bytes behind it and the next state.
unfoldable pub apply : Mask → StrategyCipher → Bytes → Option (Bytes × StrategyCipher)
apply mask (first p) buf = first_applied (partial_apply mask p buf)
apply mask (all_of p) buf = some (apply_keystream mask p buf, all_of (p + length buf))
apply mask none_of buf = some (buf, none_of)

unfoldable pub first_rewound : Option PartialStreamCipher → Option StrategyCipher
first_rewound none = none
first_rewound (some p) = some (first p)

unfoldable pub all_rewound : Option ℕ → Option StrategyCipher
all_rewound none = none
all_rewound (some p) = some (all_of p)

unfoldable pub rewind : StrategyCipher → ℕ → Option StrategyCipher
rewind (first p) cnt = first_rewound (partial_rewind p cnt)
rewind (all_of p) cnt = all_rewound (seek_back p cnt)
rewind none_of cnt = some none_of
