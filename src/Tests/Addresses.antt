-- ===== src/Tests/Addresses.antt =====
-- Runs of the address codec.
use cpxy.Base.{
  ℕ, eq_bytes, be_value, ◌≡◌, refl, Bytes, some, [], ◌∷◌, ◌++◌, length, drop, ok, arith,
}
use cpxy.Base.Reader.{read_exact}
use cpxy.Address.{write_len, write_to, parse, parse_name, from_host}
use cpxy.Address.Encoding.{IsWire, parse-write_to}
use cpxy.Address.Stream.{parse_async, read_body, read_name, utf8_or_error}
use cpxy.Address.Stream.Agreement.{with_ip, parse_async-parse}
use cpxy.Tests.{plain, plain-TextLaws, site, is_ascii}

site-IsWire : IsWire plain site
unfolding is_ascii eq_bytes be_value
site-IsWire = ((refl, refl), omega arith, omega arith)

parse-write_to_example :
    (out : Bytes) × (write_to site [] ≡ ok out)
    × (length out ≡ write_len site)
    × (parse plain (out ++ (1 ∷ [])) ≡ ok (some (write_len site, site)))
parse-write_to_example = parse-write_to plain plain-TextLaws site (1 ∷ []) site-IsWire

abbrev wire : Bytes
wire = 3 ∷ 2 ∷ 97 ∷ 98 ∷ 0 ∷ 80 ∷ []

wire-parse : parse plain wire ≡ ok (some (6, site))
unfolding parse parse_name from_host is_ascii eq_bytes be_value
wire-parse = refl

wire-parse_async : parse_async plain wire ≡ ok (site, [])
unfolding parse_async read_body read_name utf8_or_error read_exact is_ascii be_value
wire-parse_async = refl

parse_async-parse_example :
    (n : ℕ) × (parse plain wire ≡ ok (some (n, with_ip plain site))) × ([] ≡ drop n wire)
parse_async-parse_example = parse_async-parse plain plain-TextLaws wire site [] wire-parse_async
