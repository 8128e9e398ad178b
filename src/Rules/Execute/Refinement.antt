-- ===== src/Rules/Execute/Refinement.antt =====
-- `execute_table` and `execute_rules` of src/rule.rs find exactly the results of the runs.
use cpxy.Base.{
  ℕ, zero, suc, ◌≤◌, ◌<◌, ◌≡◌, ◌≢◌, ◌↔◌, refl, sym, ap, ◌∙◌, Bytes, true, none, some, List, [], ◌∷◌,
  codes, arith, Bool-cases, Option-cases, ◌⊎◌, inl, inr,
}
use cpxy.Rules.{Rule, RuleAction, Engines}
use cpxy.Rules.Execute.{
  RuleMap, Query, Outcome, table_rules, applies, act, after_jump, run_rules, execute_table,
  execute_rules, reported, TableExecuteResult, proxy, proxy_group, reject, return_back,
  RuleExecutionResult,
}
use cpxy.Rules.Execute.Decision.{
  verdict, Runs, skip, final, call, resume, depth, execute_table-eq, run_rules-Runs,
}

reported-some :
    (o : Outcome) (r : RuleExecutionResult)
    → reported o ≡ some r
    → (t : TableExecuteResult) × (o ≡ some t) × (reported (some t) ≡ some r)
unfolding reported
reported-some none r h = cc
reported-some (some t) r h = (t, refl, h)

module _ (e : Engines) (rules : RuleMap) (q : Query) where
  after_jump_cases :
      (o rest : Outcome) (t : TableExecuteResult)
      → after_jump e rules q o rest ≡ some t
      → ((o ≡ some t) × (t ≢ return_back)) ⊎ ((o ≡ some return_back) × (rest ≡ some t))
  unfolding after_jump
  after_jump_cases none rest t h = cc
  after_jump_cases (some return_back) rest t h = inr (refl, h)
  after_jump_cases (some (proxy name)) rest t h = inl (h, λ k. cc)
  after_jump_cases (some (proxy_group name)) rest t h = inl (h, λ k. cc)
  after_jump_cases (some reject) rest t h = inl (h, λ k. cc)

  -- What made an action give `t`: the action itself, the table it jumps to, or the rules behind.
  data Why (callee : Bytes → Outcome) (rest : Outcome) (t : TableExecuteResult) (a : RuleAction)
      : Type 0 where
    by_verdict : verdict a ≡ some t → Why callee rest t a
    by_jump :
        (name : Bytes)
        → a ≡ RuleAction.jump name
        → callee name ≡ some t
        → t ≢ return_back
        → Why callee rest t a
    by_rest :
        (name : Bytes)
        → a ≡ RuleAction.jump name
        → callee name ≡ some return_back
        → rest ≡ some t
        → Why callee rest t a

  act-Why :
      (callee : Bytes → Outcome) (a : RuleAction) (rest : Outcome) (t : TableExecuteResult)
      → act e rules q callee a rest ≡ some t
      → Why callee rest t a
  unfolding act
  act-Why callee (RuleAction.jump name) rest t h = elim (after_jump_cases (callee name) rest t h) [
    | inl (c, ne) ↦ by_jump name refl c ne
    | inr (c, r) ↦ by_rest name refl c r
  ]
  act-Why callee (RuleAction.proxy name) rest t h = by_verdict h
  act-Why callee (RuleAction.proxy_group name) rest t h = by_verdict h
  act-Why callee RuleAction.reject rest t h = by_verdict h
  act-Why callee RuleAction.return_back rest t h = by_verdict h

  -- The rules `rs` end in `t` by a run whose jumps nest at most `n` deep.
  abbrev pub RunsWithin : ℕ → List Rule → TableExecuteResult → Type 0
  RunsWithin n rs t = (d : Runs e rules q rs t) × (depth e rules q d ≤ n)

  -- The table `name` has rules that end in `t`, with jumps that nest at most `n - 1` deep.
  abbrev pub Calls : ℕ → Bytes → TableExecuteResult → Type 0
  Calls n name t =
      (callee : List Rule) × (table_rules rules name ≡ some callee)
      × (d : Runs e rules q callee t) × (depth e rules q d < n)

  rule_sound :
      (n : ℕ) (callee : Bytes → Outcome) (r : Rule) (rs : List Rule) (t : TableExecuteResult)
      → ((name : Bytes) (u : TableExecuteResult) → callee name ≡ some u → Calls n name u)
      → (rest : Outcome) → (rest ≡ some t → RunsWithin n rs t)
      → applies e rules q r ≡ true
      → Why callee rest t r.action
      → RunsWithin n (r ∷ rs) t
  rule_sound n callee r rs t ih rest later on (by_verdict v) = (final on v, omega arith)
  rule_sound n callee r rs t ih rest later on (by_jump name a c ne) =
      let (k, l, d, lt) = ih name t c in (call on a l d ne, omega arith)
  rule_sound n callee r rs t ih rest later on (by_rest name a c m) =
      let (k, l, d, lt) = ih name return_back c in
      let (d', le) = later m in (resume on a l d d', omega arith)

  run_rules_sound :
      (n : ℕ) (callee : Bytes → Outcome)
      → ((name : Bytes) (u : TableExecuteResult) → callee name ≡ some u → Calls n name u)
      → (rs : List Rule) (t : TableExecuteResult) → run_rules e rules q callee rs ≡ some t
      → RunsWithin n rs t
  unfolding run_rules
  run_rules_sound n callee ih [] t h = cc
  run_rules_sound n callee ih (r ∷ rs) t h =
      let below = run_rules_sound n callee ih rs t in
      elim (Bool-cases (applies e rules q r)) [
        | inl on ↦
            rule_sound n callee r rs t ih (run_rules e rules q callee rs) below on
              (act-Why callee r.action (run_rules e rules q callee rs) t (grind arith))
        | inr off ↦ let (d, le) = below (grind arith) in (skip off d, le)
      ]

  execute_table_no_levels :
      (name : Bytes) (t : TableExecuteResult) → execute_table e rules q 0 name ≢ some t
  unfolding execute_table
  execute_table_no_levels name t h = cc

  execute_table_no_table :
      (n : ℕ) (name : Bytes) (t : TableExecuteResult)
      → table_rules rules name ≡ none
      → execute_table e rules q (suc n) name ≢ some t
  unfolding execute_table
  execute_table_no_table n name t l h =
      let ended : execute_table e rules q (suc n) name ≡ none = rw (l, execute_table) refl in cc

  execute_table_sound :
      (n : ℕ) (name : Bytes) (t : TableExecuteResult)
      → execute_table e rules q n name ≡ some t
      → Calls n name t
  execute_table_sound zero name t h = absurd (execute_table_no_levels name t h)
  execute_table_sound (suc n) name t h = elim (Option-cases (table_rules rules name)) [
    | inl l ↦ absurd (execute_table_no_table n name t l h)
    | inr (rs, l) ↦
        let ran = sym (execute_table-eq e rules q n name rs l) ∙ h in
        let (d, le) =
          run_rules_sound n (execute_table e rules q n) (execute_table_sound n) rs t ran in
        (rs, l, d, omega arith)
  ]

  -- Executing a table with `n` levels left gives the result `t` exactly when the table exists
  -- and its rules have a run that ends in `t` and whose jumps nest fewer than `n` deep.
  pub execute_table_iff :
      (n : ℕ) (name : Bytes) (t : TableExecuteResult)
      → (execute_table e rules q n name ≡ some t) ↔ Calls n name t
  execute_table_iff zero name t =
      (execute_table_sound zero name t, λ c. let (k, l, d, lt) = c in absurd (omega arith))
  execute_table_iff (suc n) name t = (
    execute_table_sound (suc n) name t,
    λ c.
        let (k, l, d, lt) = c in
        execute_table-eq e rules q n name k l ∙ run_rules-Runs e rules q n d (omega arith),
  )

  -- execute_rules answers r exactly when the rules of the table "main" have a run, with jumps
  -- that nest at most ten deep, whose result is reported as r.
  pub execute_rules_iff :
      (r : RuleExecutionResult)
      → (execute_rules e rules q ≡ some r)
        ↔ ((t : TableExecuteResult) × Calls 11 (codes "main") t × (reported (some t) ≡ some r))
  unfolding execute_rules
  execute_rules_iff r = (
    λ h.
        let (t, o, k) = reported-some (execute_table e rules q 11 (codes "main")) r h in
        (t, (execute_table_iff 11 (codes "main") t).0 o, k),
    λ c. let (t, d, k) = c in ap reported ((execute_table_iff 11 (codes "main") t).1 d) ∙ k,
  )
