-- ===== src/Rules/Execute.antt =====
-- src/rule.rs: `RuleString::execute_table` and `execute_rules`.
pub mod Decision
pub mod Refinement
use cpxy.Base.{
  ℕ, zero, suc, Bytes, Bool, Option, none, some, List, [], ◌∷◌, if◌then◌else◌, eq_bytes, codes,
}
use cpxy.Rules.{Rule, RuleAction, RuleProtocol, PacketDestination, Engines}
use cpxy.Rules.Match.{rule_applies}

pub data TableExecuteResult : Type 0 where
  proxy : Bytes → TableExecuteResult
  proxy_group : Bytes → TableExecuteResult
  reject : TableExecuteResult
  return_back : TableExecuteResult

pub data RuleExecutionResult : Type 0 where
  proxy : Bytes → RuleExecutionResult
  proxy_group : Bytes → RuleExecutionResult
  reject : RuleExecutionResult

-- The hash map from table names to rules: a name is looked up once, so the first entry counts.
abbrev pub RuleMap : Type 0
RuleMap = List (Bytes × List Rule)

unfoldable pub table_rules : RuleMap → Bytes → Option (List Rule)
table_rules [] name = none
table_rules ((n, rules) ∷ m) name = if eq_bytes n name then some rules else table_rules m name

-- What a packet is asked with.
pub record Query : Type 0 where
  pub target : PacketDestination
  pub proto : RuleProtocol
  pub initial_data : Option Bytes

abbrev pub Outcome : Type 0
Outcome = Option TableExecuteResult

-- The match of `execute_rules` on what the table "main" gave.
unfoldable pub reported : Outcome → Option RuleExecutionResult
reported (some (TableExecuteResult.proxy name)) = some (RuleExecutionResult.proxy name)
reported (some (TableExecuteResult.proxy_group name)) = some (RuleExecutionResult.proxy_group name)
reported (some TableExecuteResult.reject) = some RuleExecutionResult.reject
reported none = none
reported (some TableExecuteResult.return_back) = none

module _ (e : Engines) (rules : RuleMap) (q : Query) where
  abbrev pub applies : Rule → Bool
  applies rule = rule_applies e rule q.target q.proto q.initial_data

  -- A matched rule: `rest` is the outcome of the rules behind it, which a jump that returns goes
  -- on with. Any other outcome of a jump, `None` too, is the outcome of the table.
  unfoldable pub after_jump : Outcome → Outcome → Outcome
  after_jump (some TableExecuteResult.return_back) rest = rest
  after_jump v rest = v

  unfoldable pub act : (Bytes → Outcome) → RuleAction → Outcome → Outcome
  act call (RuleAction.jump name) rest = after_jump (call name) rest
  act call (RuleAction.proxy name) rest = some (TableExecuteResult.proxy name)
  act call (RuleAction.proxy_group name) rest = some (TableExecuteResult.proxy_group name)
  act call RuleAction.reject rest = some TableExecuteResult.reject
  act call RuleAction.return_back rest = some TableExecuteResult.return_back

  -- The loop over the rules of a table; `call` executes the table of a jump.
  unfoldable pub run_rules : (Bytes → Outcome) → List Rule → Outcome
  run_rules call [] = none
  run_rules call (rule ∷ rest_rules) =
      let rest = run_rules call rest_rules in
      if applies rule then act call rule.action rest else rest

  -- `levels` counts down what `level` counts up: it is 11 - level, and 0 is "too many levels".
  unfoldable pub execute_table : ℕ → Bytes → Outcome
  execute_table zero name = none
  execute_table (suc levels) name = elim (table_rules rules name) [
    | none ↦ none
    | some rs ↦ run_rules (execute_table levels) rs
  ]

  -- `execute_rules`, from level 0 of the table "main". It does not fail.
  pub execute_rules : Option RuleExecutionResult
  execute_rules = reported (execute_table 11 (codes "main"))
