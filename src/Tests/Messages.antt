-- ===== src/Tests/Messages.antt =====
-- Runs of the SOCKS5 and SOCKS4 messages.
use cpxy.Base.{eq_bytes, be_value, ◌+◌, ◌≡◌, refl, Bytes, some, [], ◌∷◌, ◌++◌, length, ok, arith}
use cpxy.Address.{write_len}
use cpxy.Socks5.{ClientConnRequest, parse_request, write_request}
use cpxy.Socks5.Messages.{parse_request-write_request}
use cpxy.Socks4.Requests.{HasNoZero}
use cpxy.Tests.{plain, plain-TextLaws, site, is_ascii}

abbrev connect_site : ClientConnRequest
connect_site = record { cmd = 1; address = site }

parse_request-write_request_example :
    (out : Bytes) × (write_request connect_site [] ≡ ok out)
    × (length out ≡ 3 + write_len site)
    × (parse_request plain (out ++ (1 ∷ [])) ≡ ok (some (length out, connect_site)))
unfolding is_ascii eq_bytes be_value
parse_request-write_request_example =
    parse_request-write_request plain plain-TextLaws connect_site (1 ∷ [])
      ((refl, refl), omega arith, omega arith)

ab-HasNoZero : HasNoZero (97 ∷ 98 ∷ [])
ab-HasNoZero = (λ h. cc, (λ h. cc, tt))
