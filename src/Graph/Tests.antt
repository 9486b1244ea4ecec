-- ===== src/Graph/Tests.antt =====
-- Instances of the theorems about the graph: a case with an item and a report.
use forge_x.Shared.{length, find, exists, select, ◌≡◌, refl, true, none, some, [], ◌∷◌, arith}
use forge_x.Shared.Text.{codes, text_eq, decimal_digits, decimal, render}
use forge_x.Access.{investigator, role_eq, holds, Scope, scope_of, visible}
use forge_x.Graph.{
  Graph, empty_graph, has_id, node, same_edge, put_edge, edge, joined, draw, connect, each,
  GraphCase, UrlFor, node_of_case, node_of_item,
}
use forge_x.Graph.Build.{
  GraphTables, sorted_set, add_hash_links, add_yara, member_of, contained, report_of, visible_case,
  draw_case, case_graph,
}
use forge_x.Graph.Capped.{IsGraph}
use forge_x.Graph.Drawn.{case_graph-IsGraph}

abbrev no_urls : UrlFor
no_urls endpoint args = []

abbrev reader : Scope
reader = scope_of (record { user_id = 7; roles = investigator ∷ [] })

abbrev small_case : GraphCase
small_case = record { case_id = 3; case_reference = codes "FX"; title = []; status = [] }

abbrev small_tables : GraphTables
small_tables = record {
  cases = small_case ∷ [];
  members = record { case_id = 3; user_id = 7; full_name = []; is_lead = true } ∷ [];
  items =
      record {
        evidence_id = 5;
        evidence_code = [];
        description = [];
        case_id = 3;
        case_reference = codes "FX";
        integrity_status = [];
        current_hash_value = none;
      }
      ∷ [];
  exams = [];
  examined = [];
  reports = record { case_id = 3; report_id = 8; report_code = []; title = []; status = [] } ∷ [];
  cited = [];
  artifacts = [];
  matches = [];
}

empty_graph-IsGraph : IsGraph empty_graph
empty_graph-IsGraph = record {
  within = omega arith;
  full = λ h. ground (arith, h);
  distinct = tt;
  drawn = tt;
}

abbrev drawn_case : Graph
drawn_case = draw_case no_urls ((3, 7) ∷ []) reader small_tables true empty_graph small_case

small_is_drawn :
    case_graph no_urls ((3, 7) ∷ []) reader small_tables true empty_graph (codes "FX")
    ≡ some drawn_case
unfolding case_graph visible_case visible find exists text_eq codes scope_of holds role_eq
small_is_drawn = refl

case_graph-IsGraph_example :
    IsGraph drawn_case
    × ((c : GraphCase) × (visible_case no_urls ((3, 7) ∷ []) reader small_tables (codes "FX")
          ≡ some c)
        × (visible reader ((3, 7) ∷ []) c.case_id ≡ true))
case_graph-IsGraph_example =
    case_graph-IsGraph no_urls ((3, 7) ∷ []) reader small_tables true empty_graph (codes "FX")
      drawn_case empty_graph-IsGraph small_is_drawn

-- The four nodes and three edges of the case
drawn_case_size : (length drawn_case.nodes ≡ 4) × (length drawn_case.edges ≡ 3)
unfolding draw_case node edge joined draw connect each node_of_case node_of_item member_of contained
    report_of add_hash_links add_yara sorted_set select put_edge has_id exists text_eq codes render
    decimal decimal_digits same_edge
drawn_case_size = (refl, refl)
