-- ===== src/Cipher.antt =====
-- src/protocol/tcpman/cipher: the ciphers over a stream. A stream cipher of the `cipher` library is
-- its keystream, `mask`, and the position in it: `mask p b` is the byte `b` at position `p`. The
-- keystream is taken to have no end.
pub mod Keystream
pub mod Strategy
pub mod Stream
pub mod Opening
use cpxy.Base.{ℕ, suc, ◌+◌, Bytes, [], ◌∷◌}

abbrev pub Mask : Type 0
Mask = ℕ → ℕ → ℕ

-- `apply_keystream` from a position.
unfoldable pub apply_keystream : Mask → ℕ → Bytes → Bytes
apply_keystream mask p [] = []
apply_keystream mask p (b ∷ bs) = mask p b ∷ apply_keystream mask (suc p) bs
