-- ===== src/Upstreams/Choice.antt =====
-- Which upstreams `find_best_upstream` of src/config.rs gives, and in which order.
use cpxy.Base.{
  ℕ, ◌≡◌, ◌↔◌, ◌⊎◌, inl, inr, refl, sym, ap, ◌∙◌, Bool, true, false, Option, none, some, List, [],
  ◌∷◌, Bytes, if◌then◌else◌, Bool-cases, All,
}
use mathlib.Core.Path.{subst}
use cpxy.Address.{Address}
use cpxy.Rules.{Engines}
use cpxy.Rules.Execute.{RuleExecutionResult, execute_rules}
use cpxy.Upstreams.{
  TrafficType, UpstreamConfig, ClientConfig, ClientStatistics, Known, get, supports, in_group,
  Candidate, insert_by_key, sort_by_key, unscored, select, named, candidates, find_best_upstream,
  last_visit_scores, packet_destination, rule_protocol,
}
use cpxy.Upstreams.Order.{In, In-sort_by_key, In-unscored, IsOrdered, sorted-IsOrdered}

module _ {P : Type 0} where
  -- What the two loops over all upstreams ask of one.
  abbrev pub Serves : TrafficType → (Option (List Bytes) → Bool) → UpstreamConfig P → Type 0
  Serves t among c = (supports c.protocol t ≡ true) × (c.enabled ≡ true) × (among c.groups ≡ true)

  module _ (t : TrafficType) (score : Bytes → ℕ) (among : Option (List Bytes) → Bool) where
    select-here :
        (n : Bytes) (c : UpstreamConfig P) (xs : List (Bytes × UpstreamConfig P))
        → Serves t among c
        → select t score among ((n, c) ∷ xs) ≡ (n, c, score n) ∷ select t score among xs
    unfolding select
    select-here n c xs (h, k, l) = rw (h, k, l) refl

    select-cases :
        (n : Bytes) (c : UpstreamConfig P) (xs : List (Bytes × UpstreamConfig P))
        → Serves t among c ⊎ (select t score among ((n, c) ∷ xs) ≡ select t score among xs)
    unfolding select
    select-cases n c xs = elim (Bool-cases (supports c.protocol t)) [
      | inr h ↦ inr (rw h refl)
      | inl h ↦ elim (Bool-cases c.enabled) [
        | inr k ↦ inr (rw (h, k) refl)
        | inl k ↦ elim (Bool-cases (among c.groups)) [
          | inr l ↦ inr (rw (h, k, l) refl)
          | inl l ↦ inl (h, k, l)
        ]
      ]
    ]

    In-select-from :
        (n : Bytes) (c : UpstreamConfig P) (s : ℕ) (xs : List (Bytes × UpstreamConfig P))
        → In (n, c, s) (select t score among xs)
        → In (n, c) xs × Serves t among c
    unfolding select
    In-select-from n c s [] h = absurd h
    In-select-from n c s ((m, d) ∷ xs) h = elim (select-cases m d xs) [
      | inr e ↦ let (i, k) = In-select-from n c s xs (subst (In (n, c, s)) e h) in (inr i, k)
      | inl k ↦ elim (subst (In (n, c, s)) (select-here m d xs k) h) [
        | inl e ↦ (
          inl (ap (λ (p : Candidate P). (p.0, p.1)) e),
          subst (Serves t among) (sym (ap (λ (p : Candidate P). p.1) e)) k,
        )
        | inr i ↦ let (j, l) = In-select-from n c s xs i in (inr j, l)
      ]
    ]

    In-select-to :
        (n : Bytes) (c : UpstreamConfig P) (xs : List (Bytes × UpstreamConfig P))
        → In (n, c) xs
        → Serves t among c
        → In (n, c, score n) (select t score among xs)
    In-select-to n c [] i k = absurd i
    In-select-to n c ((m, d) ∷ xs) (inl e) k =
        let k' = subst (Serves t among) (ap (λ (p : Bytes × UpstreamConfig P). p.1) e) k in
        subst (In (n, c, score n)) (sym (select-here m d xs k'))
          (inl (ap (λ (p : Bytes × UpstreamConfig P). (p.0, p.1, score (p.0))) e))
    In-select-to n c ((m, d) ∷ xs) (inr i) k = elim (select-cases m d xs) [
      | inr e ↦ subst (In (n, c, score n)) (sym e) (In-select-to n c xs i k)
      | inl l ↦
          subst (In (n, c, score n)) (sym (select-here m d xs l)) (inr (In-select-to n c xs i k))
    ]

    select-score :
        (xs : List (Bytes × UpstreamConfig P))
        → All (λ (x : Candidate P). x.2 ≡ score (x.0)) (select t score among xs)
    unfolding select
    select-score [] = tt
    select-score ((m, d) ∷ xs) = elim (select-cases m d xs) [
      | inr e ↦ subst (All (λ (x : Candidate P). x.2 ≡ score (x.0))) (sym e) (select-score xs)
      | inl k ↦
          subst (All (λ (x : Candidate P). x.2 ≡ score (x.0))) (sym (select-here m d xs k))
            (refl, select-score xs)
    ]

  -- What is chosen, for each action of the rules.
  abbrev pub Chosen :
      TrafficType
      → List (Bytes × UpstreamConfig P)
      → Option RuleExecutionResult
      → Bytes
      → UpstreamConfig P
      → Type 0
  Chosen t upstreams none n c = In (n, c) upstreams × Serves t (λ groups. true) c
  Chosen t upstreams (some (RuleExecutionResult.proxy name)) n c =
      (n ≡ name) × (get upstreams name ≡ some c) × (c.enabled ≡ true)
  Chosen t upstreams (some (RuleExecutionResult.proxy_group name)) n c =
      In (n, c) upstreams × Serves t (λ groups. in_group groups name) c
  Chosen t upstreams (some RuleExecutionResult.reject) n c = ⊥

  select-Chosen :
      (t : TrafficType) (score : Bytes → ℕ) (among : Option (List Bytes) → Bool) (n : Bytes)
      (c : UpstreamConfig P) (xs : List (Bytes × UpstreamConfig P))
      → ((s : ℕ) × In (n, c, s) (select t score among xs)) ↔ (In (n, c) xs × Serves t among c)
  select-Chosen t score among n c xs = (
    λ h. In-select-from t score among n c (h.0) xs (h.1),
    λ h. (score n, In-select-to t score among n c xs (h.0) (h.1)),
  )

  some_inj : (d c : UpstreamConfig P) → Path (Option (UpstreamConfig P)) (some d) (some c) → d ≡ c
  some_inj d c h = cc

  In-only :
      (b : Bool) (z x : Candidate P) → In z (if b then x ∷ [] else []) ↔ ((b ≡ true) × (z ≡ x))
  In-only true z x = (λ h. elim h [ inl e ↦ (refl, e) | inr i ↦ absurd i ], λ h. inl (h.1))
  In-only false z x = (λ h. absurd h, λ h. cc)

  named-Chosen :
      (t : TrafficType) (score : Bytes → ℕ) (name n : Bytes) (c : UpstreamConfig P)
      (o : Option (UpstreamConfig P))
      → ((s : ℕ) × In (n, c, s) (named t score name o))
        ↔ ((n ≡ name) × (o ≡ some c) × (c.enabled ≡ true))
  unfolding named
  named-Chosen t score name n c none = (λ h. absurd (h.1), λ h. cc)
  named-Chosen t score name n c (some d) = (
    λ h.
        let (on, e) = (In-only d.enabled (n, c, h.0) (name, d, 0)).0 (h.1) in
        let same : d ≡ c = sym (ap (λ (p : Candidate P). p.1) e) in
        (
          ap (λ (p : Candidate P). p.0) e,
          ap some same,
          ap (λ (d : UpstreamConfig P). d.enabled) (sym same) ∙ on,
        ),
    λ h.
        let same : d ≡ c = some_inj d c (h.1) in
        (
          0,
          (In-only d.enabled (n, c, 0) (name, d, 0)).1
              (ap (λ (d : UpstreamConfig P). d.enabled) same ∙ h.2, λ i. ((h.0) i, sym same i, 0)),
        ),
  )

  candidates-Chosen :
      (t : TrafficType) (score : Bytes → ℕ) (xs : List (Bytes × UpstreamConfig P))
      (action : Option RuleExecutionResult) (n : Bytes) (c : UpstreamConfig P)
      → ((s : ℕ) × In (n, c, s) (candidates t score xs action)) ↔ Chosen t xs action n c
  unfolding candidates
  candidates-Chosen t score xs none n c = select-Chosen t score _ n c xs
  candidates-Chosen t score xs (some (RuleExecutionResult.proxy name)) n c =
      named-Chosen t score name n c (get xs name)
  candidates-Chosen t score xs (some (RuleExecutionResult.proxy_group name)) n c =
      select-Chosen t score _ n c xs
  candidates-Chosen t score xs (some RuleExecutionResult.reject) n c =
      (λ h. absurd (h.1), λ h. absurd h)

  named-IsOrdered :
      (t : TrafficType) (score : Bytes → ℕ) (name : Bytes) (o : Option (UpstreamConfig P))
      → IsOrdered score (unscored (sort_by_key (named t score name o)))
  unfolding named sort_by_key insert_by_key unscored
  named-IsOrdered t score name none = tt
  named-IsOrdered t score name (some d) = elim (Bool-cases d.enabled) [
    | inl e ↦ rw e (tt, tt)
    | inr e ↦ rw e tt
  ]

  pub candidates-IsOrdered :
      (t : TrafficType) (score : Bytes → ℕ) (xs : List (Bytes × UpstreamConfig P))
      (action : Option RuleExecutionResult)
      → IsOrdered score (unscored (sort_by_key (candidates t score xs action)))
  unfolding candidates unscored sort_by_key
  candidates-IsOrdered t score xs none =
      sorted-IsOrdered score _ (select-score t score (λ groups. true) xs)
  candidates-IsOrdered t score xs (some (RuleExecutionResult.proxy name)) =
      named-IsOrdered t score name (get xs name)
  candidates-IsOrdered t score xs (some (RuleExecutionResult.proxy_group name)) =
      sorted-IsOrdered score _ (select-score t score (λ groups. in_group groups name) xs)
  candidates-IsOrdered t score xs (some RuleExecutionResult.reject) = tt

  module _ (e : Engines) (k : Known) (now : Bytes → ℕ) (config : ClientConfig P) (t : TrafficType)
      (stats : ClientStatistics) (target : Address) (initial_data : Option Bytes) where
    -- What the rules of the configuration say of the connection.
    abbrev pub decided : Option RuleExecutionResult
    decided = execute_rules e config.traffic_rules (record {
      target = packet_destination k target;
      proto = rule_protocol t;
      initial_data = initial_data;
    })

    -- find_best_upstream gives a name with a configuration exactly when the rules allow it:
    -- without a decision any upstream that supports the traffic and is enabled, for a proxy the
    -- upstream of that name if it is enabled, for a group the upstreams that support the
    -- traffic, are enabled and are in the group or in no group at all, and none for a rejection.
    pub find_best_upstream_iff :
        (n : Bytes) (c : UpstreamConfig P)
        → In (n, c) (find_best_upstream e k now config t stats target initial_data)
          ↔ Chosen t config.upstreams decided n c
    unfolding find_best_upstream
    find_best_upstream_iff n c =
        let score = last_visit_scores now stats in
        let xs = candidates t score config.upstreams decided in
        let all = candidates-Chosen t score config.upstreams decided n c in
        let names = In-unscored n c (sort_by_key xs) in
        (
          λ h. let (s, i) = names.0 h in all.0 (s, (In-sort_by_key (n, c, s) xs).0 i),
          λ h. let (s, i) = all.1 h in names.1 (s, (In-sort_by_key (n, c, s) xs).1 i),
        )
