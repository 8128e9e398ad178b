-- ===== src/UdpPacket/Packets.antt =====
-- A checked packet never panics when its parts are read, and a packet made from its parts has
-- those parts.
use cpxy.Base.{
  ℕ, suc, ◌+◌, ◌≤◌, ◌≡◌, refl, Bytes, Option, none, some, [], ◌∷◌, ◌++◌, length, Result, ok, err,
  arith, drop-append, length-append, be_bytes, be_value,
}
use cpxy.Net.{Text, TextLaws}
use cpxy.Address.{Address, parse, write_to, write_len}
use cpxy.Address.Encoding.{encode, IsWire, parse-encode, write_to-encode, wire-Fits, length-encode}
use cpxy.Address.Incremental.{parse-append, parse-take}
use cpxy.UdpPacket.{
  UdpPacket, UdpRepr, new_checked, frag_no, addr_of, payload_of, repr_len, to_packet,
}

three : (n : ℕ) → 2 + 1 + n ≡ suc (suc (suc n))
three n = omega arith

module _ (text : Text) where
  -- The header of a packet that was accepted, and the address behind it.
  new_checked_inv :
      (a b f : ℕ) (buf : Bytes) (p : UdpPacket)
      → new_checked text (a ∷ b ∷ f ∷ buf) ≡ ok p
      → (n : ℕ) × (addr : Address) × (parse text buf ≡ ok (some (n, addr)))
        × (p ≡ record { buf = a ∷ b ∷ f ∷ buf; data_offset = 2 + 1 + n })
  unfolding new_checked
  new_checked_inv a b f buf p e = go (parse text buf) refl
    where
      go :
          (found : Result (Option (ℕ × Address)))
          → parse text buf ≡ found
          → (n : ℕ) × (addr : Address) × (parse text buf ≡ ok (some (n, addr)))
            × (p ≡ record { buf = a ∷ b ∷ f ∷ buf; data_offset = 2 + 1 + n })
      go (ok (some (n, addr))) q = (n, addr, q, ground arith)
      go (ok none) q = absurd (ground arith)
      go (err x) q = absurd (ground arith)

  addr_of-parse :
      (a b f : ℕ) (buf : Bytes) (n : ℕ) (addr : Address)
      → parse text buf ≡ ok (some (n, addr))
      → addr_of text (record { buf = a ∷ b ∷ f ∷ buf; data_offset = 2 + 1 + n }) ≡ some addr
  unfolding addr_of
  addr_of-parse a b f buf n addr q = rw (three n, addr_of) (rw (parse-take text buf n addr q))

  -- A packet that new_checked accepts is the buffer itself, its payload starts within it, and
  -- reading its address does not panic.
  pub new_checked_safe :
      (buf : Bytes) (p : UdpPacket)
      → new_checked text buf ≡ ok p
      → (p.buf ≡ buf) × (p.data_offset ≤ length buf) × ((a : Address) × (addr_of text p ≡ some a))
  unfolding new_checked
  new_checked_safe [] p e = absurd (ground arith)
  new_checked_safe (a ∷ []) p e = absurd (ground arith)
  new_checked_safe (a ∷ b ∷ []) p e = absurd (ground arith)
  new_checked_safe (a ∷ b ∷ f ∷ buf) p e =
      let (n, addr, q, r) = new_checked_inv a b f buf p e in
      rw r (
        refl,
        ground (arith, parse-append text buf [] n addr q),
        (addr, addr_of-parse a b f buf n addr q),
      )

  module _ (laws : TextLaws text) where
    -- A packet made from parts whose address has a wire form has `repr_len` bytes, and its
    -- address, payload and fragment number are read back.
    pub to_packet_parts :
        (r : UdpRepr)
        → IsWire text r.addr
        → (p : UdpPacket) × (to_packet text r ≡ ok p)
          × (length p.buf ≡ repr_len r)
          × (addr_of text p ≡ some r.addr)
          × (payload_of p ≡ r.payload)
          × (frag_no p ≡ r.frag_no)
    unfolding to_packet repr_len new_checked frag_no payload_of be_bytes be_value
    to_packet_parts r h = (
      record {
        buf = 0 ∷ 0 ∷ r.frag_no ∷ (encode r.addr ++ r.payload);
        data_offset = 2 + 1 + write_len r.addr;
      },
      ground (arith, written, parsed),
      omega (arith, length-append (encode r.addr) r.payload, length-encode r.addr),
      addr_of-parse 0 0 r.frag_no (encode r.addr ++ r.payload) (write_len r.addr) r.addr parsed,
      rw (three (write_len r.addr))
          (drop-append _ (encode r.addr) r.payload (length-encode r.addr)),
      refl,
    )
      where
        parsed : parse text (encode r.addr ++ r.payload) ≡ ok (some (write_len r.addr, r.addr))
        parsed = parse-encode text laws r.addr r.payload h

        written : write_to r.addr (0 ∷ 0 ∷ r.frag_no ∷ []) ≡ ok (0 ∷ 0 ∷ r.frag_no ∷ encode r.addr)
        written = write_to-encode r.addr _ (wire-Fits text laws r.addr h)
