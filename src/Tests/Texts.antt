-- ===== src/Tests/Texts.antt =====
-- Runs of the texts of rules: a line "r" rejects, and no other line is a rule.
use cpxy.Base.{◌≡◌, refl, Option, none, some, [], ◌∷◌, Bytes, if◌then◌else◌, codes, eq_bytes, ok}
use cpxy.HttpPath.{split, onto_first}
use cpxy.Rules.{Rule, reject}
use cpxy.Rules.Execute.{RuleMap}
use cpxy.Rules.Lines.{parse_rules, parse_lines, line_of, named, push_rule, starts_with, ends_with}
use cpxy.Rules.Lines.Tables.{rules_in, rules_under, parse_rules_tables}

abbrev drop_all : Rule
drop_all = record { dest = []; proto = none; action = reject }

abbrev only_r : Bytes → Option Rule
only_r l = if eq_bytes l (codes "r") then some drop_all else none

abbrev as_is : Bytes → Bytes
as_is l = l

-- Two tables, and two more rules for the first one.
abbrev rules_text : Bytes
rules_text = codes "a:\nr\n#x\nb:\nr\na:\nr\nr"

abbrev tables : RuleMap
tables = (codes "a", drop_all ∷ drop_all ∷ drop_all ∷ []) ∷ (codes "b", drop_all ∷ []) ∷ []

rules_text-parse_rules : parse_rules as_is only_r rules_text ≡ ok tables
unfolding parse_rules parse_lines line_of named push_rule starts_with ends_with split onto_first
    eq_bytes
rules_text-parse_rules = refl

parse_rules_tables_example :
    rules_in tables (codes "a") ≡ rules_under as_is only_r (codes "a") (split b'\n' rules_text) none
parse_rules_tables_example =
    parse_rules_tables as_is only_r rules_text (codes "a") tables rules_text-parse_rules
