-- ===== src/Rules/Lines/Tables.antt =====
-- Which rules a text puts into which table.
use cpxy.Base.{
  ◌≡◌, refl, ap, sym, ◌∙◌, Bool, true, false, Bool-cases, inl, inr, Option, none, some, List, [],
  ◌∷◌, ◌++◌, Bytes, if◌then◌else◌, arith, eq_bytes, eq_bytes_iff, append-nil, append_assoc, ok,
  ◌>>=◌, context, some_or,
}
use cpxy.HttpPath.{split}
use cpxy.Rules.{Rule}
use cpxy.Rules.Execute.{RuleMap, table_rules}
use cpxy.Rules.Lines.{
  push_rule, Line, blank, rule_line, name_line, line_of, named, parse_lines, parse_rules,
}

-- The rules of a table, none if there is no such table.
abbrev pub listed : Option (List Rule) → List Rule
listed none = []
listed (some rules) = rules

abbrev pub rules_in : RuleMap → Bytes → List Rule
rules_in m name = listed (table_rules m name)

abbrev pub is_under : Option Bytes → Bytes → Bool
is_under none name = false
is_under (some n) name = eq_bytes n name

abbrev pub if_parsed : Option Rule → List Rule → List Rule
if_parsed none rest = rest
if_parsed (some rule) rest = rule ∷ rest

other_name :
    (k n name : Bytes) → eq_bytes k n ≡ false → eq_bytes k name ≡ true → eq_bytes n name ≡ false
other_name k n name differs on = elim (Bool-cases (eq_bytes n name)) [
  | inr off ↦ off
  | inl also ↦
      let same : k ≡ n = (eq_bytes_iff k name).0 on ∙ sym ((eq_bytes_iff n name).0 also) in
      let equal : eq_bytes k n ≡ true = (eq_bytes_iff k n).1 same in cc (differs, equal)
]

push_rule-found :
    (n name : Bytes) (rule : Rule) (m : RuleMap)
    → rules_in (push_rule n rule m) name
      ≡ (if eq_bytes n name then rules_in m name ++ (rule ∷ []) else rules_in m name)
unfolding push_rule table_rules
push_rule-found n name rule [] = ground arith
push_rule-found n name rule ((k, rules) ∷ rest) = elim (Bool-cases (eq_bytes k n)) [
  | inl same ↦
      let at_n : k ≡ n = (eq_bytes_iff k n).0 same in
      elim (Bool-cases (eq_bytes n name)) [
        | inl on ↦
            let also : eq_bytes k name ≡ true = ap (λ (z : Bytes). eq_bytes z name) at_n ∙ on in
            rw (same, also, on) refl
        | inr off ↦
            let also : eq_bytes k name ≡ false = ap (λ (z : Bytes). eq_bytes z name) at_n ∙ off in
            rw (same, also, off) refl
      ]
  | inr differs ↦ elim (Bool-cases (eq_bytes k name)) [
    | inl on ↦ let other = other_name k n name differs on in rw (differs, on, other) refl
    | inr off ↦ rw (differs, off) (push_rule-found n name rule rest)
  ]
]

module _ (trim : Bytes → Bytes) (parse_rule : Bytes → Option Rule) where
  -- The rules that stand below a line with the name of a table, in the order of the lines.
  unfoldable pub rules_under : Bytes → List Bytes → Option Bytes → List Rule
  rules_under name [] last_name = []
  rules_under name (l ∷ lines) last_name = elim (line_of (trim l)) [
    | blank ↦ rules_under name lines last_name
    | name_line n ↦ rules_under name lines (some n)
    | rule_line ↦
        let rest = rules_under name lines last_name in
        if is_under last_name name then if_parsed (parse_rule (trim l)) rest else rest
  ]

  -- The property, for some lines.
  abbrev Lists : Bytes → List Bytes → Type 0
  Lists name lines =
      (last_name : Option Bytes) (m m' : RuleMap)
      → parse_lines trim parse_rule lines last_name m ≡ ok m'
      → rules_in m' name ≡ rules_in m name ++ rules_under name lines last_name

  rule_line-Lists :
      (name : Bytes) (lines : List Bytes) (m m' : RuleMap) (last : Option Bytes) (r : Option Rule)
      → Lists name lines
      → (some_or "Expecting a table name before rules" last >>= λ n.
          context "Parsing rule" (some_or "invalid rule" r) >>= λ x.
          parse_lines trim parse_rule lines last (push_rule n x m))
        ≡ ok m'
      → rules_in m' name
        ≡ rules_in m name
          ++ (if is_under last name
              then if_parsed r (rules_under name lines last)
              else rules_under name lines last)
  rule_line-Lists name lines m m' none r ih h = cc
  rule_line-Lists name lines m m' (some n) none ih h = cc
  rule_line-Lists name lines m m' (some n) (some x) ih h =
      let rest = ih (some n) (push_rule n x m) m' h in
      let found = push_rule-found n name x m in
      elim (Bool-cases (eq_bytes n name)) [
        | inl on ↦
            rest
            ∙ rw (found, on)
                (append_assoc (rules_in m name) (x ∷ []) (rules_under name lines (some n)))
        | inr off ↦ rest ∙ rw (found, off) refl
      ]

  name_line-Lists :
      (name : Bytes) (lines : List Bytes) (m m' : RuleMap) (n : Bytes)
      → Lists name lines
      → (named n >>= λ k. parse_lines trim parse_rule lines (some k) m) ≡ ok m'
      → rules_in m' name ≡ rules_in m name ++ rules_under name lines (some n)
  unfolding named
  name_line-Lists name lines m m' [] ih h = cc
  name_line-Lists name lines m m' (x ∷ xs) ih h = ih (some (x ∷ xs)) m m' h

  line-Lists :
      (name l : Bytes) (lines : List Bytes) (k : Line)
      → line_of (trim l) ≡ k
      → Lists name lines
      → Lists name (l ∷ lines)
  unfolding parse_lines rules_under
  line-Lists name l lines blank h ih last m m' e =
      rw (h, rules_under) (ih last m m' (rw (h, parse_lines) at e))
  line-Lists name l lines (name_line n) h ih last m m' e =
      rw (h, rules_under) (name_line-Lists name lines m m' n ih (rw (h, parse_lines) at e))
  line-Lists name l lines rule_line h ih last m m' e =
      rw (h, rules_under)
        (rule_line-Lists name lines m m' last (parse_rule (trim l)) ih (rw (h, parse_lines) at e))

  parse_lines-Lists : (name : Bytes) (lines : List Bytes) → Lists name lines
  unfolding parse_lines rules_under
  parse_lines-Lists name [] last_name m m' e =
      let same : m ≡ m' = cc e in rw (← same) (sym (append-nil (rules_in m name)))
  parse_lines-Lists name (l ∷ lines) last_name m m' e =
      line-Lists name l lines (line_of (trim l)) refl (parse_lines-Lists name lines) last_name m m'
        e

  -- Where a text of rules is parsed, each table has exactly the rules that stand below the lines
  -- with its name, in the order of the lines, also when a name stands at several places; a name
  -- with no rules below it has no table with rules.
  pub parse_rules_tables :
      (s name : Bytes) (m : RuleMap)
      → parse_rules trim parse_rule s ≡ ok m
      → rules_in m name ≡ rules_under name (split b'\n' s) none
  unfolding parse_rules table_rules
  parse_rules_tables s name m e = parse_lines-Lists name (split b'\n' s) none [] m e
