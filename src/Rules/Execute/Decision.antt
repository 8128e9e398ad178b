-- ===== src/Rules/Execute/Decision.antt =====
-- The execution of tables against a relation that says what the rules mean, with no levels.
use cpxy.Base.{
  ℕ, zero, suc, max, ◌≤◌, ◌≡◌, ◌≢◌, refl, ◌∙◌, Bytes, true, false, Option, none, some, List, ◌∷◌,
  arith,
}
use cpxy.Rules.{Rule, RuleAction, Engines}
use cpxy.Rules.Execute.{
  RuleMap, Query, Outcome, table_rules, applies, act, after_jump, run_rules, execute_table,
  TableExecuteResult, proxy, proxy_group, reject, return_back,
}

-- The result of an action that is no jump.
abbrev pub verdict : RuleAction → Option TableExecuteResult
verdict (RuleAction.proxy name) = some (proxy name)
verdict (RuleAction.proxy_group name) = some (proxy_group name)
verdict RuleAction.reject = some reject
verdict RuleAction.return_back = some return_back
verdict (RuleAction.jump name) = none

module _ (e : Engines) (rules : RuleMap) (q : Query) where
  -- The rules `rs`, tried from the first, end in the result `t`.
  pub data Runs : List Rule → TableExecuteResult → Type 0 where
    skip :
        {r : Rule} {rs : List Rule} {t : TableExecuteResult}
        → applies e rules q r ≡ false
        → Runs rs t
        → Runs (r ∷ rs) t
    final :
        {r : Rule} {rs : List Rule} {t : TableExecuteResult}
        → applies e rules q r ≡ true
        → verdict r.action ≡ some t
        → Runs (r ∷ rs) t
    call :
        {r : Rule} {rs callee : List Rule} {t : TableExecuteResult} {name : Bytes}
        → applies e rules q r ≡ true
        → r.action ≡ RuleAction.jump name
        → table_rules rules name ≡ some callee
        → Runs callee t
        → t ≢ return_back
        → Runs (r ∷ rs) t
    resume :
        {r : Rule} {rs callee : List Rule} {t : TableExecuteResult} {name : Bytes}
        → applies e rules q r ≡ true
        → r.action ≡ RuleAction.jump name
        → table_rules rules name ≡ some callee
        → Runs callee return_back
        → Runs rs t
        → Runs (r ∷ rs) t

  -- How deep the jumps of a run are nested.
  abbrev pub depth : {rs : List Rule} {t : TableExecuteResult} → Runs rs t → ℕ
  depth (skip h d) = depth d
  depth (final h v) = 0
  depth (call h a l d n) = suc (depth d)
  depth (resume h a l d d') = max (suc (depth d)) (depth d')

  after_jump-keep :
      (t : TableExecuteResult) (rest : Outcome)
      → t ≢ return_back
      → after_jump e rules q (some t) rest ≡ some t
  unfolding after_jump
  after_jump-keep return_back rest h = absurd (h refl)
  after_jump-keep (proxy name) rest h = refl
  after_jump-keep (proxy_group name) rest h = refl
  after_jump-keep reject rest h = refl

  act-verdict :
      (callee : Bytes → Outcome) (a : RuleAction) (rest : Outcome) (t : TableExecuteResult)
      → verdict a ≡ some t
      → act e rules q callee a rest ≡ some t
  unfolding act
  act-verdict callee (RuleAction.jump name) rest t h = cc
  act-verdict callee (RuleAction.proxy name) rest t h = h
  act-verdict callee (RuleAction.proxy_group name) rest t h = h
  act-verdict callee RuleAction.reject rest t h = h
  act-verdict callee RuleAction.return_back rest t h = h

  pub execute_table-eq :
      (n : ℕ) (name : Bytes) (rs : List Rule)
      → table_rules rules name ≡ some rs
      → execute_table e rules q (suc n) name ≡ run_rules e rules q (execute_table e rules q n) rs
  unfolding execute_table
  execute_table-eq n name rs h = rw (h, execute_table)

  act-call :
      (callee : Bytes → Outcome) (name : Bytes) (rest : Outcome) (t : TableExecuteResult)
      → callee name ≡ some t
      → t ≢ return_back
      → act e rules q callee (RuleAction.jump name) rest ≡ some t
  unfolding act
  act-call callee name rest t h ne = rw h (after_jump-keep t rest ne)

  act-resume :
      (callee : Bytes → Outcome) (name : Bytes) (rest : Outcome)
      → callee name ≡ some return_back
      → act e rules q callee (RuleAction.jump name) rest ≡ rest
  unfolding act after_jump
  act-resume callee name rest h = rw h

  -- A run whose jumps nest at most `n` deep is what the execution finds with `n` more levels.
  pub run_rules-Runs :
      (n : ℕ) {rs : List Rule} {t : TableExecuteResult} (d : Runs rs t)
      → depth d ≤ n
      → run_rules e rules q (execute_table e rules q n) rs ≡ some t
  unfolding run_rules
  run_rules-Runs n (skip h d) le = rw h (run_rules-Runs n d le)
  run_rules-Runs n (final {r = r} h v) le = rw h (act-verdict _ r.action _ _ v)
  run_rules-Runs zero (call h a l d ne) le = absurd (omega arith)
  run_rules-Runs (suc n) (call {callee = c} {t = t} {name = name} h a l d ne) le =
      let inner = execute_table-eq n name c l ∙ run_rules-Runs n d (omega arith) in
      rw (h, a) (act-call _ name _ t inner ne)
  run_rules-Runs zero (resume h a l d d') le = absurd (omega arith)
  run_rules-Runs (suc n) (resume {callee = c} {name = name} h a l d d') le =
      let inner = execute_table-eq n name c l ∙ run_rules-Runs n d (omega arith) in
      let later = run_rules-Runs (suc n) d' (omega arith) in
      rw (h, a) (act-resume _ name _ inner ∙ later)
