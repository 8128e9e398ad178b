-- ===== src/Tcpman/Request.antt =====
-- src/protocol/tcpman/proto.rs: `Request`.
use cpxy.Base.{
  ℕ, ◌==◌, if◌then◌else◌, ◌≡◌, refl, Bytes, [], ◌∷◌, ◌++◌, drop, Result, ok, err, ◌>>=◌, message,
  context, some_or, arith, drop-append,
}
use cpxy.Net.{Text, TextLaws}
use cpxy.Address.{Address, write_to, write_len, parse}
use cpxy.Address.Encoding.{encode, IsWire, wire-Fits, write_to-encode, length-encode, parse-encode}

pub data RequestType : Type 0 where
  tcp udp : RequestType

pub data Request : Type 0 where
  tcp_to : (dst : Address) (initial_data : Bytes) → Request
  udp_to : (dst : Address) (initial_data : Bytes) → Request

unfoldable request_type : ℕ → Result RequestType
request_type t =
    if t == 0
    then ok RequestType.tcp
    else if t == 1
    then ok RequestType.udp
    else err (message "Reading request_type")

abbrev request_of : RequestType → Address → Bytes → Request
request_of RequestType.tcp dst initial_data = tcp_to dst initial_data
request_of RequestType.udp dst initial_data = udp_to dst initial_data

unfoldable pub parse_request : Text → Bytes → Result Request
unfolding request_type
parse_request text [] = err (message "Invalid buf size")
parse_request text (t ∷ buf) = do
  type ← request_type t
  found ← context "Parsing address" (parse text buf)
  place ← some_or "Expecting complete address" found
  ok (request_of type place.1 (drop place.0 buf))

-- `to_vec`: the writer's `unwrap` panics on a name of more than 255 bytes.
unfoldable pub to_vec : Request → Result Bytes
to_vec (tcp_to dst initial_data) = do buf ← write_to dst (0 ∷ []); ok (buf ++ initial_data)
to_vec (udp_to dst initial_data) = do buf ← write_to dst (1 ∷ []); ok (buf ++ initial_data)

abbrev pub destination : Request → Address
destination (tcp_to dst initial_data) = dst
destination (udp_to dst initial_data) = dst

module _ (text : Text) (laws : TextLaws text) where
  parse_type :
      (t : ℕ) (type : RequestType) (dst : Address) (initial_data : Bytes)
      → request_type t ≡ ok type
      → IsWire text dst
      → parse_request text (t ∷ (encode dst ++ initial_data))
        ≡ ok (request_of type dst initial_data)
  unfolding parse_request
  parse_type t type dst initial_data e h = ground (
    arith,
    e,
    parse-encode text laws dst initial_data h,
    drop-append (write_len dst) (encode dst) initial_data (length-encode dst),
  )

  -- A request whose address has a wire form is written without a panic, and parsed to the same
  -- request with the same initial data.
  pub parse_request-to_vec :
      (r : Request)
      → IsWire text (destination r)
      → (out : Bytes) × (to_vec r ≡ ok out) × (parse_request text out ≡ ok r)
  unfolding to_vec request_type
  parse_request-to_vec (tcp_to dst initial_data) h = (
    0 ∷ (encode dst ++ initial_data),
    rw (write_to-encode dst (0 ∷ []) (wire-Fits text laws dst h)) refl,
    parse_type 0 RequestType.tcp dst initial_data refl h,
  )
  parse_request-to_vec (udp_to dst initial_data) h = (
    1 ∷ (encode dst ++ initial_data),
    rw (write_to-encode dst (1 ∷ []) (wire-Fits text laws dst h)) refl,
    parse_type 1 RequestType.udp dst initial_data refl h,
  )
