-- ===== src/Rules/Lines.antt =====
-- src/rule.rs: `Rule::parse_rules`, from the lines of a text to the tables. `trim` is that of `str`,
-- and `parse_rule` is `Rule::try_parse_from` of the clap library on the words of a line.
pub mod Tables
use cpxy.Base.{
  ℕ, ◌+◌, ◌-◌, ◌==◌, Bool, true, false, Option, none, some, List, [], ◌∷◌, ◌++◌, Bytes, length,
  take, if◌then◌else◌, eq_bytes, Result, ok, err, message, ◌>>=◌, context, some_or,
}
use cpxy.HttpPath.{split}
use cpxy.Rules.{Rule}
use cpxy.Rules.Execute.{RuleMap}

unfoldable pub starts_with : ℕ → Bytes → Bool
starts_with c [] = false
starts_with c (x ∷ xs) = x == c

unfoldable pub ends_with : ℕ → Bytes → Bool
ends_with c [] = false
ends_with c (x ∷ []) = x == c
ends_with c (x ∷ y ∷ xs) = ends_with c (y ∷ xs)

-- `rulemap.get_mut(name)`, and `push` or `insert`.
unfoldable pub push_rule : Bytes → Rule → RuleMap → RuleMap
push_rule name rule [] = (name, rule ∷ []) ∷ []
push_rule name rule ((n, rules) ∷ rest) =
    if eq_bytes n name
    then (n, rules ++ (rule ∷ [])) ∷ rest
    else (n, rules) ∷ push_rule name rule rest

-- What a line is: nothing, the name of a table, or a rule.
pub data Line : Type 0 where
  blank rule_line : Line
  name_line : Bytes → Line

unfoldable pub line_of : Bytes → Line
line_of [] = blank
line_of (x ∷ xs) =
    if starts_with b'#' (x ∷ xs)
    then blank
    else if ends_with b':' (x ∷ xs)
    then name_line (take (length (x ∷ xs) - 1) (x ∷ xs))
    else rule_line

unfoldable pub named : Bytes → Result Bytes
named [] = err (message "Name line must not be empty")
named (x ∷ xs) = ok (x ∷ xs)

module _ (trim : Bytes → Bytes) (parse_rule : Bytes → Option Rule) where
  unfoldable pub parse_lines : List Bytes → Option Bytes → RuleMap → Result RuleMap
  parse_lines [] last_name rulemap = ok rulemap
  parse_lines (l ∷ lines) last_name rulemap = elim (line_of (trim l)) [
    | blank ↦ parse_lines lines last_name rulemap
    | name_line name ↦ (do n ← named name; parse_lines lines (some n) rulemap)
    | rule_line ↦ (do
      name ← some_or "Expecting a table name before rules" last_name
      rule ← context "Parsing rule" (some_or "invalid rule" (parse_rule (trim l)))
      parse_lines lines last_name (push_rule name rule rulemap))
  ]

  unfoldable pub parse_rules : Bytes → Result RuleMap
  parse_rules s = parse_lines (split b'\n' s) none []
