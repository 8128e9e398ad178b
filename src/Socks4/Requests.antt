-- ===== src/Socks4/Requests.antt =====
-- The SOCKS4 parser on well-formed requests, and on a buffer that grows. The form of a request
-- is that of the SOCKS4 and SOCKS4a protocols; the program only reads it.
use cpxy.Base.{
  ℕ, suc, ◌+◌, ◌<◌, ◌≤◌, ◌^◌, ◌≡◌, ◌≢◌, refl, ◌∙◌, true, false, Bytes, some, [], ◌∷◌, ◌++◌, length,
  drop, All, ok, arith, take-append, drop-append, length-append, length-drop, take-append_le,
  drop-append_le, be_bytes, be_value, length-be_bytes, be_value-be_bytes, ◌⊎◌, Option-cases, inl,
  inr, two_fields,
}
use cpxy.Net.{SocketAddr, Text, TextLaws, IsU16}
use cpxy.Address.{ip, name}
use cpxy.Socks4.{
  Request, position_zero, names_host, read_host, after_user, skip_user, parse_socks4_request,
}

-- Text with no zero byte, as it is sent with a zero behind it.
abbrev pub HasNoZero : Bytes → Type 0
HasNoZero = All (λ x. x ≢ 0)

position_zero-terminated :
    (s rest : Bytes) → HasNoZero s → position_zero (s ++ (0 ∷ rest)) ≡ some (length s)
unfolding position_zero
position_zero-terminated [] rest h = refl
position_zero-terminated (x ∷ s) rest h = ground (arith, position_zero-terminated s rest h.1, h.0)

-- The first zero stays the first when bytes follow, and lies within the buffer.
position_zero-append :
    (buf more : Bytes) (v : ℕ)
    → position_zero buf ≡ some v
    → (v < length buf) × (position_zero (buf ++ more) ≡ some v)
unfolding position_zero
position_zero-append [] more v e = cc
position_zero-append (x ∷ buf) more v e = elim (Option-cases (position_zero buf)) [
  | inl n ↦ ground arith
  | inr (i, p) ↦ ground (arith, position_zero-append buf more i p)
]

drop_terminated : (s rest : Bytes) → drop (length s + 1) (s ++ (0 ∷ rest)) ≡ rest
drop_terminated [] rest = refl
drop_terminated (x ∷ s) rest = rw (suc_add (length s)) (drop_terminated s rest)
  where
    suc_add : (n : ℕ) → suc n + 1 ≡ suc (n + 1)
    suc_add n = omega arith

-- The header of a request.
abbrev pub header : ℕ → ℕ → ℕ → Bytes
header cmd port addr = 0x4 ∷ cmd ∷ (be_bytes 2 port ++ be_bytes 4 addr)

names_host-true : (addr : ℕ) → 0 < addr → addr < 256 → names_host (be_bytes 4 addr) ≡ true
unfolding be_bytes
names_host-true addr h k = ground arith

names_host-false :
    (addr : ℕ) → (addr ≡ 0) ⊎ (256 ≤ addr) → addr < 2 ^ 32 → names_host (be_bytes 4 addr) ≡ false
unfolding be_bytes
names_host-false addr h k = ground arith

module _ (text : Text) (cmd port addr : ℕ) where
  parse_header :
      (rest : Bytes)
      → IsU16 port
      → 0 < length rest
      → parse_socks4_request text (header cmd port addr ++ rest)
        ≡ ok (skip_user text cmd port (be_bytes 4 addr) rest)
  unfolding parse_socks4_request
  parse_header rest hp hr =
      let fields = be_bytes 2 port ++ be_bytes 4 addr in
      let six = length-append (be_bytes 2 port) (be_bytes 4 addr) in
      let (p, a, l) =
        two_fields 2 4 (be_bytes 2 port) (be_bytes 4 addr) rest (length-be_bytes 2 port)
          (length-be_bytes 4 addr) in
      ground (
        arith,
        p,
        a,
        l,
        drop-append 6 fields rest (omega (arith, six, length-be_bytes)),
        be_value-be_bytes 2 port hp,
      )

  -- A plain SOCKS4 request, with any address but 0.0.0.x for x above 0 and a user ID with no
  -- zero byte, is parsed to that address and port, and its position is behind the zero that ends
  -- the user ID.
  pub parse_socks4_plain :
      (user rest : Bytes)
      → IsU16 port
      → addr < 2 ^ 32
      → (addr ≡ 0) ⊎ (256 ≤ addr)
      → HasNoZero user
      → parse_socks4_request text (header cmd port addr ++ (user ++ (0 ∷ rest)))
        ≡ ok (
            some (8 + (length user + 1), record { cmd = cmd; addr = ip (SocketAddr.v4 addr port) }))
  unfolding skip_user after_user
  parse_socks4_plain user rest hp ha range hu =
      parse_header (user ++ (0 ∷ rest)) hp (omega (arith, length-append user (0 ∷ rest)))
      ∙ rw (position_zero-terminated user rest hu, skip_user)
          (rw (names_host-false addr range ha, after_user) (rw (be_value-be_bytes 4 addr ha)))

  -- A SOCKS4a request, whose address is 0.0.0.x for x above 0 and whose user ID and host have no
  -- zero byte, is parsed to the host that follows the user ID, if that is valid UTF-8, also one
  -- that reads as an IP address; its position is behind the zero that ends the host.
  pub parse_socks4_named :
      (user host rest : Bytes)
      → TextLaws text
      → IsU16 port
      → 0 < addr
      → addr < 256
      → HasNoZero user
      → HasNoZero host
      → text.from_utf8 host ≡ some host
      → parse_socks4_request text (header cmd port addr ++ (user ++ (0 ∷ (host ++ (0 ∷ rest)))))
        ≡ ok (
            some (
              (8 + (length user + 1)) + (length host + 1),
              record { cmd = cmd; addr = name host port },
            ))
  unfolding skip_user after_user read_host
  parse_socks4_named user host rest laws hp lo hi hu hh valid =
      let text_field = host ++ (0 ∷ rest) in
      parse_header (user ++ (0 ∷ text_field)) hp
        (omega (arith, length-append user (0 ∷ text_field)))
      ∙ rw (position_zero-terminated user text_field hu, skip_user)
          (rw (names_host-true addr lo hi, after_user)
            (rw (drop_terminated user text_field, position_zero-terminated host rest hh, read_host)
              (rw (
                drop_terminated user text_field,
                take-append (length host) host (0 ∷ rest) refl,
                laws.lossy_valid host valid,
              ))))

  read_host-append :
      (offset : ℕ) (buf more : Bytes) (n : ℕ) (r : Request)
      → read_host text cmd port offset buf ≡ some (n, r)
      → (n ≤ offset + length buf) × (read_host text cmd port offset (buf ++ more) ≡ some (n, r))
  unfolding read_host
  read_host-append offset buf more n r e = elim (Option-cases (position_zero buf)) [
    | inl missing ↦ ground arith
    | inr (v, found) ↦
        let (inside, again) = position_zero-append buf more v found in
        ground (arith, inside, again, take-append_le v buf more)
  ]

  after_user-append :
      (bytes : Bytes) (offset : ℕ) (buf more : Bytes) (n : ℕ) (r : Request)
      → after_user text cmd port bytes offset buf ≡ some (n, r)
      → (n ≤ offset + length buf)
        × (after_user text cmd port bytes offset (buf ++ more) ≡ some (n, r))
  unfolding after_user
  after_user-append bytes offset buf more n r e =
      ground (arith, read_host-append offset buf more n r)

  skip_user-append :
      (bytes buf more : Bytes) (n : ℕ) (r : Request)
      → skip_user text cmd port bytes buf ≡ some (n, r)
      → (n ≤ 8 + length buf) × (skip_user text cmd port bytes (buf ++ more) ≡ some (n, r))
  unfolding skip_user
  skip_user-append bytes buf more n r e = elim (Option-cases (position_zero buf)) [
    | inl missing ↦ ground arith
    | inr (v, found) ↦
        let (inside, again) = position_zero-append buf more v found in
        ground (
          arith,
          inside,
          again,
          after_user-append bytes (8 + (v + 1)) (drop (v + 1) buf) more n r,
          drop-append_le (v + 1) buf more,
          length-drop (v + 1) buf,
        )
  ]

-- A SOCKS4 request that the parser finds lies within the buffer, and stays the same when bytes
-- follow.
pub parse_socks4-append :
    (text : Text) (buf more : Bytes) (n : ℕ) (r : Request)
    → parse_socks4_request text buf ≡ ok (some (n, r))
    → (n ≤ length buf) × (parse_socks4_request text (buf ++ more) ≡ ok (some (n, r)))
unfolding parse_socks4_request
parse_socks4-append text [] more n r e = cc
parse_socks4-append text (a ∷ []) more n r e = cc
parse_socks4-append text (a ∷ b ∷ []) more n r e = cc
parse_socks4-append text (a ∷ b ∷ c ∷ []) more n r e = cc
parse_socks4-append text (a ∷ b ∷ c ∷ d ∷ []) more n r e = cc
parse_socks4-append text (a ∷ b ∷ c ∷ d ∷ f ∷ []) more n r e = cc
parse_socks4-append text (a ∷ b ∷ c ∷ d ∷ f ∷ g ∷ []) more n r e = cc
parse_socks4-append text (a ∷ b ∷ c ∷ d ∷ f ∷ g ∷ h ∷ []) more n r e = cc
parse_socks4-append text (a ∷ b ∷ c ∷ d ∷ f ∷ g ∷ h ∷ i ∷ buf) more n r e = ground (
  arith,
  length-append buf more,
  skip_user-append text b (be_value (c ∷ d ∷ [])) 0 (f ∷ g ∷ h ∷ i ∷ []) buf more n r,
)
