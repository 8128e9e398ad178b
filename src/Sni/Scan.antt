-- ===== src/Sni/Scan.antt =====
-- The scan of `extract_http_host_header`: what one byte, and a text without the name, do to it.
use cpxy.Base.{
  ℕ, zero, suc, ◌+◌, ◌≡◌, refl, ap, sym, ◌∙◌, Bool, true, false, ◌&&◌, ◌||◌, [], ◌∷◌, ◌++◌, Bytes,
  length, drop, ◌==◌, if◌then◌else◌, Bool-cases, arith, codes, inl, inr,
}
use cpxy.Sni.{
  ParseState, idle, matches, first_new_line, on, same_letter, scan_rest, scan_name, scan_byte,
  value_start,
}

-- `Host:` in any case, at the start of a text or anywhere in it.
unfoldable pub starts : Bytes → Bytes → Bool
starts [] bs = true
starts (a ∷ word) [] = false
starts (a ∷ word) (b ∷ bs) = same_letter b a && starts word bs

abbrev pub host_colon : Bytes
host_colon = codes "host:"

unfoldable pub names_host : Bytes → Bool
unfolding starts
names_host [] = false
names_host (b ∷ bs) = starts host_colon (b ∷ bs) || names_host bs

-- The rest of `Host:` does not follow what was read of it.
-- A blank line that is ended by bare line feeds.
unfoldable pub blank_line : Bytes → Bool
unfolding starts
blank_line [] = false
blank_line (a ∷ bs) = (a == b'\n' && starts (b'\n' ∷ []) bs) || blank_line bs

-- The rest of `Host:` does not follow what was read of it, and a blank line does not end.
abbrev pub Clear : ParseState → Bytes → Type 0
Clear (matches n) bs = (starts (drop n host_colon) bs ≡ false) × (blank_line bs ≡ false)
Clear idle bs = blank_line bs ≡ false
Clear first_new_line bs = blank_line (b'\n' ∷ bs) ≡ false

unfoldable pub On : ParseState → ℕ → Bytes → Type 0
On s c cs = (t : ParseState) × (scan_byte s c ≡ on t) × Clear t cs

on_rest : (c : ℕ) (cs : Bytes) → blank_line (c ∷ cs) ≡ false → Clear (scan_rest c) cs
unfolding blank_line scan_rest starts
on_rest c cs h = elim (Bool-cases (c == b'\n')) [
  | inl e ↦ rw e (ground arith)
  | inr e ↦ rw e (ground arith)
]

and_behind : (p q : Bool) → (p && q) ≡ false → p ≡ true → q ≡ false
and_behind true q h e = h
and_behind false q h e = cc

starts-behind :
    (a : ℕ) (word : Bytes) (c : ℕ) (cs : Bytes)
    → starts (a ∷ word) (c ∷ cs) ≡ false
    → same_letter c a ≡ true
    → starts word cs ≡ false
unfolding starts
starts-behind a word c cs h e = and_behind (same_letter c a) (starts word cs) h e

starts-colon : (c : ℕ) (cs : Bytes) → starts (b':' ∷ []) (c ∷ cs) ≡ false → (c == b':') ≡ false
unfolding starts
starts-colon c cs h = ground arith

blank_line-behind : (c : ℕ) (cs : Bytes) → blank_line (c ∷ cs) ≡ false → blank_line cs ≡ false
unfolding blank_line
blank_line-behind c cs h = ground arith

not_blank : (c : ℕ) (cs : Bytes) → blank_line (b'\n' ∷ (c ∷ cs)) ≡ false → (c == b'\n') ≡ false
unfolding blank_line starts
not_blank c cs h = ground arith

step_idle :
    (c : ℕ) (cs : Bytes) → starts host_colon (c ∷ cs) ≡ false → Clear idle (c ∷ cs) → On idle c cs
unfolding On scan_byte
step_idle c cs h b = elim (Bool-cases (same_letter c b'h')) [
  | inl e ↦ (matches 1, rw e refl, (starts-behind _ _ c cs h e, blank_line-behind c cs b))
  | inr e ↦ (scan_rest c, rw e refl, on_rest c cs b)
]

step_line :
    (c : ℕ) (cs : Bytes)
    → starts host_colon (c ∷ cs) ≡ false
    → Clear first_new_line (c ∷ cs)
    → On first_new_line c cs
unfolding On scan_byte
step_line c cs h b =
    let d = blank_line-behind b'\n' (c ∷ cs) b in
    let line = not_blank c cs b in
    elim (Bool-cases (same_letter c b'h')) [
      | inl e ↦ (matches 1, rw e refl, (starts-behind _ _ c cs h e, blank_line-behind c cs d))
      | inr e ↦ (scan_rest c, rw (e, line) refl, on_rest c cs d)
    ]

-- One more letter of the name, or none.
step_letter :
    (n a c : ℕ) (cs word : Bytes)
    → drop n host_colon ≡ a ∷ word
    → drop (n + 1) host_colon ≡ word
    → scan_byte (matches n) c ≡ (if same_letter c a then on (matches (n + 1)) else on (scan_rest c))
    → Clear (matches n) (c ∷ cs)
    → On (matches n) c cs
unfolding On
step_letter n a c cs word d f g (h, b) = elim (Bool-cases (same_letter c a)) [
  | inl e ↦ (
    matches (n + 1),
    g ∙ rw e refl,
    (
      rw f (starts-behind a word c cs (ap (λ (w : Bytes). starts w (c ∷ cs)) (sym d) ∙ h) e),
      blank_line-behind c cs b,
    ),
  )
  | inr e ↦ (scan_rest c, g ∙ rw e refl, on_rest c cs b)
]

step_none :
    (s : ParseState) (c : ℕ) (cs : Bytes)
    → scan_byte s c ≡ on (scan_rest c)
    → blank_line (c ∷ cs) ≡ false
    → On s c cs
unfolding On
step_none s c cs g b = (scan_rest c, g, on_rest c cs b)

step_name : (n c : ℕ) (cs : Bytes) → Clear (matches n) (c ∷ cs) → On (matches n) c cs
unfolding scan_byte scan_name starts
step_name zero c cs k = step_none _ c cs refl k.1
step_name (suc zero) c cs k = step_letter 1 b'o' c cs _ refl refl (ground arith) k
step_name (suc (suc zero)) c cs k = step_letter 2 b's' c cs _ refl refl (ground arith) k
step_name (suc (suc (suc zero))) c cs k = step_letter 3 b't' c cs _ refl refl (ground arith) k
step_name (suc (suc (suc (suc zero)))) c cs k =
    step_none _ c cs (rw (starts-colon c cs k.0) refl) k.1
step_name (suc (suc (suc (suc (suc zero))))) c cs k = cc
step_name (suc (suc (suc (suc (suc (suc n)))))) c cs k = cc

pub step :
    (s : ParseState) (c : ℕ) (cs : Bytes)
    → starts host_colon (c ∷ cs) ≡ false
    → Clear s (c ∷ cs)
    → On s c cs
step idle c cs h k = step_idle c cs h k
step first_new_line c cs h k = step_line c cs h k
step (matches n) c cs h k = step_name n c cs k

pub names_host-here :
    (c : ℕ) (cs : Bytes) → names_host (c ∷ cs) ≡ false → starts host_colon (c ∷ cs) ≡ false
unfolding names_host
names_host-here c cs h = ground arith

names_host-behind : (c : ℕ) (cs : Bytes) → names_host (c ∷ cs) ≡ false → names_host cs ≡ false
unfolding names_host
names_host-behind c cs h = ground arith

pub value_start-on :
    (s t : ParseState) (i c : ℕ) (cs : Bytes)
    → scan_byte s c ≡ on t
    → value_start s i (c ∷ cs) ≡ value_start t (i + 1) cs
unfolding value_start
value_start-on s t i c cs e = rw (e, value_start) refl

-- The scan goes over a text in which it neither finds the name nor ends.
pub scan_over :
    (s : ParseState) (i : ℕ) (front tail more : Bytes)
    → names_host (front ++ tail) ≡ false
    → Clear s (front ++ tail)
    → (t : ParseState) × (value_start s i (front ++ more) ≡ value_start t (i + length front) more)
      × (names_host tail ≡ false)
      × Clear t tail
unfolding On
scan_over s i [] tail more h k =
    (s, ap (λ (j : ℕ). value_start s j more) {x = i} {y = i + 0} (omega arith), h, k)
scan_over s i (c ∷ cs) tail more h k =
    let (t, e, g) = step s c (cs ++ tail) (names_host-here c (cs ++ tail) h) k in
    let (u, f, hu, ku) = scan_over t (i + 1) cs tail more (names_host-behind c (cs ++ tail) h) g in
    (
      u,
      value_start-on s t i c (cs ++ more) e
          ∙ (f
              ∙ ap (λ (j : ℕ). value_start u j more) {x = (i + 1) + length cs}
                  {y = i + suc (length cs)} (omega arith)),
      hu,
      ku,
    )
