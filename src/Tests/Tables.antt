-- ===== src/Tests/Tables.antt =====
-- Runs of the rule tables.
use cpxy.Base.{◌≡◌, ◌↔◌, false, none, some, [], ◌∷◌, codes}
use cpxy.Net.{SocketAddr}
use cpxy.Rules.{Rule, RuleAction, tcp, udp, Engines, ip_packet, port}
use cpxy.Rules.Execute.{RuleMap, Query, execute_table, TableExecuteResult}
use cpxy.Rules.Execute.Refinement.{Calls, execute_table_iff}

-- No pattern, list or network matches, and nothing is found in the first bytes.
abbrev blind : Engines
blind = record {
  regex_matches = λ p s. false;
  list_matches = λ l s. false;
  network_contains = λ n a. false;
  http_host = λ b. none;
  sni_host = λ b. none;
  dns_names = λ b. none;
}

abbrev to_web : Rule
to_web = record { dest = port 80 ∷ []; proto = none; action = RuleAction.jump (codes "web") }

abbrev to_udp : Rule
to_udp = record { dest = []; proto = some udp; action = RuleAction.reject }

abbrev by_default : Rule
by_default = record { dest = []; proto = none; action = RuleAction.proxy (codes "p") }

abbrev tables : RuleMap
tables = (codes "main", to_udp ∷ to_web ∷ []) ∷ (codes "web", by_default ∷ []) ∷ []

abbrev question : Query
question = record {
  target = ip_packet (SocketAddr.v4 16909060 80) none [];
  proto = tcp;
  initial_data = none;
}

execute_table_iff_example :
    (execute_table blind tables question 11 (codes "main")
      ≡ some (TableExecuteResult.proxy (codes "p")))
    ↔ Calls blind tables question 11 (codes "main") (TableExecuteResult.proxy (codes "p"))
execute_table_iff_example =
    execute_table_iff blind tables question 11 (codes "main") (TableExecuteResult.proxy (codes "p"))
