-- ===== src/Sni/Search.antt =====
-- What `extract_http_host_header` finds, in terms of the text alone.
use cpxy.Base.{
  ℕ, zero, suc, ◌+◌, ◌≡◌, refl, ap, eq_ignore_ascii_case, ◌∙◌, true, false, Option, none, some, [],
  ◌∷◌, ◌++◌, Bytes, length, ◌==◌, Bool-cases, arith, codes, take-append, append_assoc,
  length-append, inl, inr, ◌⊎◌,
}
use cpxy.Net.{Text}
use cpxy.Url.Parts.{Lacks, find-here, drop_behind}
use cpxy.Sni.{
  ParseState, idle, matches, first_new_line, on, same_letter, scan_rest, scan_name, scan_byte,
  value_start, host_value, extract_http_host_header,
}
use cpxy.Sni.Scan.{names_host, blank_line, On, step, scan_over, value_start-on, names_host-here}

-- A byte that is none of the letters of `Host`.
abbrev pub Outside : ℕ → Type 0
Outside c =
    (same_letter c b'h' ≡ false)
    × (same_letter c b'o' ≡ false)
    × (same_letter c b's' ≡ false)
    × (same_letter c b't' ≡ false)

name-rest : (n c : ℕ) → Outside c → scan_name n c ≡ scan_rest c
unfolding scan_name
name-rest zero c o = refl
name-rest (suc zero) c o = rw o.1 refl
name-rest (suc (suc zero)) c o = rw o.2 refl
name-rest (suc (suc (suc zero))) c o = rw o.3 refl
name-rest (suc (suc (suc (suc n)))) c o = refl

Outside-rest : (s t : ParseState) (c : ℕ) → Outside c → scan_byte s c ≡ on t → t ≡ scan_rest c
unfolding scan_byte
Outside-rest idle t c o e = ground arith
Outside-rest first_new_line t c o e = ground arith
Outside-rest (matches n) t c o e = ground (arith, name-rest n c o)

-- Where a name may start: at the first byte, or behind a byte that is no letter of it.
pub data Edge : Bytes → Type 0 where
  first : Edge []
  behind : (front : Bytes) (c : ℕ) → Outside c → Edge (front ++ (c ∷ []))

Rests : ParseState → Type 0
Rests s = (s ≡ idle) ⊎ (s ≡ first_new_line)

Rests-rest : (c : ℕ) → Rests (scan_rest c)
unfolding Rests scan_rest
Rests-rest c = elim (Bool-cases (c == b'\n')) [ inl e ↦ inr (rw e refl) | inr e ↦ inl (rw e refl) ]

-- Behind an edge the scan looks for the first letter.
value_start-Edge :
    (pre more : Bytes)
    → Edge pre
    → names_host pre ≡ false
    → blank_line pre ≡ false
    → (t : ParseState) × (value_start idle 0 (pre ++ more) ≡ value_start t (length pre) more)
      × Rests t
unfolding On Rests
value_start-Edge _ more first h b = (idle, refl, inl refl)
value_start-Edge _ more (behind front c o) h b =
    let (t, e, hc, k) = scan_over idle 0 front (c ∷ []) (c ∷ more) h b in
    let (u, f, g) = step t c [] (names_host-here c [] hc) k in
    (
      u,
      ap (value_start idle 0) (append_assoc front (c ∷ []) more)
          ∙ e
          ∙ value_start-on t u (0 + length front) c more f
          ∙ ap (λ (j : ℕ). value_start u j more) {x = 0 + length front + 1}
              {y = length (front ++ (c ∷ []))} (omega (arith, length-append front (c ∷ []))),
      rw (Outside-rest t u c o f) (Rests-rest c),
    )

scan_name-h :
    (s : ParseState) (a : ℕ) → Rests s → same_letter a b'h' ≡ true → scan_byte s a ≡ on (matches 1)
unfolding Rests scan_byte
scan_name-h s a (inl r) h = rw (r, h) refl
scan_name-h s a (inr r) h = rw (r, h) refl

value_start-name :
    (s : ParseState) (i a b c d : ℕ) (more : Bytes)
    → Rests s
    → eq_ignore_ascii_case (a ∷ b ∷ c ∷ d ∷ []) (codes "Host") ≡ true
    → value_start s i (a ∷ b ∷ c ∷ d ∷ b':' ∷ more) ≡ some (i + 5)
unfolding eq_ignore_ascii_case scan_byte scan_name value_start
value_start-name s i a b c d more r h =
    value_start-on s (matches 1) i a (b ∷ c ∷ d ∷ b':' ∷ more) (scan_name-h s a r (ground arith))
    ∙ value_start-on (matches 1) (matches 2) (i + 1) b (c ∷ d ∷ b':' ∷ more) (ground arith)
    ∙ value_start-on (matches 2) (matches 3) (i + 1 + 1) c (d ∷ b':' ∷ more) (ground arith)
    ∙ value_start-on (matches 3) (matches 4) (i + 1 + 1 + 1) d (b':' ∷ more) (ground arith)
    ∙ (ap some {x = i + 1 + 1 + 1 + 1 + 1} {y = i + 5} (omega arith))

-- What the value is read as.
abbrev pub trimmed : Text → (Bytes → Bytes) → Bytes → Option Bytes
trimmed text trim value = elim (text.from_utf8 value) [ none ↦ none | some s ↦ some (trim s) ]

host_value-line :
    (text : Text) (trim : Bytes → Bytes) (value rest : Bytes)
    → Lacks b'\n' value
    → host_value text trim (value ++ (b'\n' ∷ rest)) ≡ trimmed text trim value
unfolding host_value
host_value-line text trim value rest l =
    rw (find-here b'\n' value rest l, host_value)
      (ap (λ (v : Bytes). trimmed text trim v)
        (take-append (length value) value (b'\n' ∷ rest) refl))

module _ (text : Text) (trim : Bytes → Bytes) where
  -- Behind a text that is empty or ends in a byte that is none of the letters h, o, s and t, and
  -- that holds neither Host: in any case nor two line feeds in a row, the word Host in any case
  -- and a colon make extract_http_host_header return the bytes up to the next line feed,
  -- trimmed, if they are UTF-8, and nothing if not.
  pub extract_http_host_header-name :
      (pre name value rest : Bytes)
      → Edge pre
      → names_host pre ≡ false
      → blank_line pre ≡ false
      → eq_ignore_ascii_case name (codes "Host") ≡ true
      → Lacks b'\n' value
      → extract_http_host_header text trim (pre ++ (name ++ (b':' ∷ (value ++ (b'\n' ∷ rest)))))
        ≡ trimmed text trim value
  unfolding extract_http_host_header eq_ignore_ascii_case
  extract_http_host_header-name pre (a ∷ b ∷ c ∷ d ∷ []) value rest edge h k n l =
      let line = b':' ∷ (value ++ (b'\n' ∷ rest)) in
      let name : Bytes = a ∷ b ∷ c ∷ d ∷ [] in
      let (t, e, r) = value_start-Edge pre (name ++ line) edge h k in
      rw
        (
          e,
          value_start-name t (length pre) a b c d (value ++ (b'\n' ∷ rest)) r n,
          extract_http_host_header,
        )
        (ap (host_value text trim)
            (drop_behind pre (name ++ (b':' ∷ [])) (value ++ (b'\n' ∷ rest)) 5 refl)
          ∙ host_value-line text trim value rest l)
  extract_http_host_header-name pre [] value rest edge h k n l = cc
  extract_http_host_header-name pre (a ∷ []) value rest edge h k n l = ground arith
  extract_http_host_header-name pre (a ∷ b ∷ []) value rest edge h k n l = ground arith
  extract_http_host_header-name pre (a ∷ b ∷ c ∷ []) value rest edge h k n l = ground arith
  extract_http_host_header-name pre (a ∷ b ∷ c ∷ d ∷ e ∷ more) value rest edge h k n l =
      ground arith

  -- Where a text and a line feed behind it hold neither Host: in any case nor two line feeds in
  -- a row, a second line feed behind them ends the search with no host, whatever follows.
  pub extract_http_host_header-blank :
      (pre rest : Bytes)
      → names_host (pre ++ codes "\n") ≡ false
      → blank_line (pre ++ codes "\n") ≡ false
      → extract_http_host_header text trim (pre ++ (codes "\n\n" ++ rest)) ≡ none
  unfolding extract_http_host_header value_start scan_byte On
  extract_http_host_header-blank pre rest h k =
      let (t, e, hc, kc) = scan_over idle 0 pre (codes "\n") (codes "\n\n" ++ rest) h k in
      let (u, f, g) = step t b'\n' [] (names_host-here b'\n' [] hc) kc in
      let last : u ≡ first_new_line = Outside-rest t u b'\n' (refl, refl, refl, refl) f in
      let over = e ∙ value_start-on t u (0 + length pre) b'\n' (codes "\n" ++ rest) f in
      rw (over, last, extract_http_host_header) refl
