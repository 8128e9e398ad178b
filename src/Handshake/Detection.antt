-- ===== src/Handshake/Detection.antt =====
-- The detection of the protocol on a SOCKS5 greeting that arrives in pieces.
use cpxy.Base.{
  ℕ, zero, suc, ◌+◌, ◌<◌, ◌≤◌, ◌≡◌, refl, ltb, Bool-cases, ◌⊎◌, inl, inr, none, some, [], ◌∷◌, ◌++◌,
  Bytes, length, take, arith, length-take, length-append, take-append, take-take, ok, err, Error,
  message, within,
}
use cpxy.Net.{Text}
use cpxy.Socks4.{parse_socks4_request}
use cpxy.Socks5.{parse_greeting}
use cpxy.Http.{Httparse, partial, parse_http, request_of_status}
use cpxy.Url.{Numbers}
use cpxy.Handshake.{
  ParseState, start, socks5_partial, socks5_greeted, done, again, detect, detect_all, detect_one,
}
use cpxy.Handshake.Loop.{Decides}

-- `httparse` on no bytes, and on a byte that cannot start a request.
pub record HttparseLaws (httparse : Httparse) : Type 0 where
  pub empty : httparse [] ≡ ok partial
  pub no_token : (c : ℕ) (buf : Bytes) → c < 9 → (e : Error) × (httparse (c ∷ buf) ≡ err e)

-- What a client that offers `auths` sends.
abbrev pub greeting : Bytes → Bytes
greeting auths = 5 ∷ length auths ∷ auths

greeting_before :
    (auths rest : Bytes) (n : ℕ)
    → n < 2 + length auths
    → parse_greeting (take n (greeting auths ++ rest)) ≡ ok none
unfolding parse_greeting
greeting_before auths rest zero h = refl
greeting_before auths rest (suc zero) h = refl
greeting_before auths rest (suc (suc n)) h = ground (arith, length-take n (auths ++ rest))

greeting_behind :
    (auths rest : Bytes) (n : ℕ)
    → 2 + length auths ≤ n
    → parse_greeting (take n (greeting auths ++ rest)) ≡ ok (some (2 + length auths, auths))
unfolding parse_greeting
greeting_behind auths rest zero h = absurd (omega arith)
greeting_behind auths rest (suc zero) h = absurd (omega arith)
greeting_behind auths rest (suc (suc n)) h = ground (
  arith,
  length-take n (auths ++ rest),
  length-append auths rest,
  take-take (length auths) n (auths ++ rest),
  take-append (length auths) auths rest refl,
)

no_socks4 :
    (text : Text) (buf : Bytes)
    → (parse_socks4_request text (5 ∷ buf) ≡ ok none)
      ⊎ ((e : Error) × (parse_socks4_request text (5 ∷ buf) ≡ err e))
unfolding parse_socks4_request
no_socks4 text buf = elim (Bool-cases (ltb (suc (length buf)) 9)) [
  | inl short ↦ inl (rw short refl)
  | inr long ↦ inr (message "Invalid protocol", rw long refl)
]

module _ (text : Text) (numbers : Numbers) (httparse : Httparse)
    (laws : HttparseLaws httparse) where
  no_http : (c : ℕ) (buf : Bytes) → c < 9 → (e : Error) × (parse_http httparse (c ∷ buf) ≡ err e)
  unfolding parse_http
  no_http c buf h =
      let (e, q) = laws.no_token c buf h in (within "Pasring HTTP request" e, rw q refl)

  -- The state in which the greeting may still come.
  abbrev pub Socks5Open : ParseState → Type 0
  Socks5Open p = (p ≡ start) ⊎ (p ≡ socks5_partial)

  waits :
      (p : ParseState) (buf : Bytes)
      → Socks5Open p
      → parse_greeting (5 ∷ buf) ≡ ok none
      → (q : ParseState) × (detect text numbers httparse p (5 ∷ buf) ≡ again q) × Socks5Open q
  unfolding detect detect_all detect_one
  waits p buf (inl e) g =
      let (x, h) = no_http 5 buf (omega arith) in
      elim (no_socks4 text buf) [
        | inl none4 ↦ (start, rw (e, g, none4, h) refl, inl refl)
        | inr (y, err4) ↦ (socks5_partial, rw (e, g, err4, h) refl, inr refl)
      ]
  waits p buf (inr e) g = (socks5_partial, rw (e, g) refl, inr refl)

  waits_empty :
      (p : ParseState)
      → Socks5Open p
      → (q : ParseState) × (detect text numbers httparse p [] ≡ again q) × Socks5Open q
  unfolding detect detect_all detect_one parse_greeting parse_socks4_request parse_http
      request_of_status
  waits_empty p (inl e) = (start, rw (e, laws.empty) refl, inl refl)
  waits_empty p (inr e) = (socks5_partial, rw e refl, inr refl)

  greets :
      (p : ParseState) (buf auths : Bytes) (n : ℕ)
      → Socks5Open p
      → parse_greeting buf ≡ ok (some (n, auths))
      → detect text numbers httparse p buf ≡ done n (socks5_greeted auths)
  unfolding detect detect_all detect_one
  greets p buf auths n (inl e) g = rw (e, g) refl
  greets p buf auths n (inr e) g = rw (e, g) refl

  pub detect-greeting :
      (auths rest : Bytes)
      → Decides
          (detect text numbers httparse)
          Socks5Open
          (greeting auths ++ rest)
          (2 + length auths)
          (socks5_greeted auths)
  detect-greeting auths rest = record {
    before = before;
    behind = λ p n o h. greets p _ auths _ o (greeting_behind auths rest n h);
  }
    where
      before :
          (p : ParseState) (n : ℕ)
          → Socks5Open p
          → n < 2 + length auths
          → (q : ParseState) × (detect text numbers httparse p (take n (greeting auths ++ rest))
              ≡ again q)
            × Socks5Open q
      before p zero o h = waits_empty p o
      before p (suc n) o h = waits p _ o (greeting_before auths rest (suc n) h)
