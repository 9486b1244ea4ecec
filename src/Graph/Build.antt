-- ===== src/Graph/Build.antt =====
-- `case_graph` of app/graph/services.py. Tables holds what its queries read, each list in the
-- order of its query, with the case of a row.
use forge_x.Shared.{
  ltb, ◌==◌, if◌then◌else◌, length, find, exists, select, ℕ, ◌+◌, String, Bool, true, false, ◌&&◌,
  ◌||◌, Option, none, some, List, [], ◌∷◌, ◌++◌, map,
}
use forge_x.Shared.Text.{Text, codes, text_eq, decimal, lit, num, val, render}
use forge_x.Access.{Scope, visible}
use forge_x.Graph.{
  exam_node, report_node, user_node, rule_node, EdgeKind, recorded, result, identity, Node, Edge,
  Graph, node, edge, draw, connect, each, GraphCase, GraphItem, GraphArtifact, UrlFor, id_of,
  node_of_case, node_of_item, hash_id, hash_of, artifact_of,
}

pub record GraphMember : Type 0 where
  pub case_id : ℕ
  pub user_id : ℕ
  pub full_name : Text
  pub is_lead : Bool

pub record GraphExam : Type 0 where
  pub case_id : ℕ
  pub examination_id : ℕ
  pub examination_code : Text
  pub type_name : Text
  pub status : Text

pub record GraphReport : Type 0 where
  pub case_id : ℕ
  pub report_id : ℕ
  pub report_code : Text
  pub title : Text
  pub status : Text

-- A row of a link table: its case, and the two ids it joins
pub record GraphLink : Type 0 where
  pub case_id : ℕ
  pub from_id : ℕ
  pub to_id : ℕ

-- A row of _LATEST_MATCHES
pub record GraphMatch : Type 0 where
  pub evidence_id : ℕ
  pub scan_id : ℕ
  pub rule_id : ℕ
  pub name : Text
  pub rule_identifier : Text

pub record GraphTables : Type 0 where
  pub cases : List GraphCase
  pub members : List GraphMember
  pub items : List GraphItem
  pub exams : List GraphExam
  pub examined : List GraphLink
  pub reports : List GraphReport
  pub cited : List GraphLink
  pub artifacts : List GraphArtifact
  pub matches : List GraphMatch

unfoldable pub text_lt : Text → Text → Bool
text_lt t [] = false
text_lt [] (d ∷ u) = true
text_lt (c ∷ t) (d ∷ u) = let rest = text_lt t u in ltb c d || (c == d && rest)

-- `sorted` of a set
unfoldable pub insert_text : Text → List Text → List Text
unfolding text_lt
insert_text t [] = t ∷ []
insert_text t (u ∷ us) =
    let rest = insert_text t us in
    if text_eq t u then u ∷ us else if text_lt t u then t ∷ u ∷ us else u ∷ rest

unfoldable pub sorted_set : List (Option Text) → List Text
unfolding insert_text
sorted_set [] = []
sorted_set (none ∷ ts) = sorted_set ts
sorted_set (some [] ∷ ts) = sorted_set ts
sorted_set (some (c ∷ t) ∷ ts) = insert_text (c ∷ t) (sorted_set ts)

-- `node_id` and an edge's ends, kind and label
abbrev pub link_of : Text → Text → EdgeKind → String → Edge
link_of a b kind label = record { source = a; target = b; kind = kind; label = codes label }

module _ (url_for : UrlFor) (assignments : List (ℕ × ℕ)) (scope : Scope)
    (tables : GraphTables) where
  abbrev holds_hash : Option Text → Text → Bool
  holds_hash none value = false
  holds_hash (some t) value = text_eq t value

  abbrev is_excluded : Option ℕ → ℕ → Bool
  is_excluded none case_id = false
  is_excluded (some c) case_id = case_id == c

  -- What a visible holder of a hash adds
  unfoldable pub holder_item : Option ℕ → Text → GraphItem → Node × Edge
  unfolding node_of_item
  holder_item exclude value e =
      let outside = if is_excluded exclude e.case_id then none else some e.case_reference in
      (
        node_of_item url_for e outside,
        link_of (id_of "evidence:" e.evidence_id) (hash_id value) identity "has SHA-256",
      )

  unfoldable pub holder_artifact : Text → GraphArtifact → Node × Edge
  unfolding artifact_of
  holder_artifact value a = (
    artifact_of url_for a,
    link_of (id_of "artifact:" a.artifact_id) (hash_id value) identity "has SHA-256",
  )

  unfoldable pub holder_items : Text → List GraphItem
  holder_items value =
      select (λ e. holds_hash e.current_hash_value value && visible scope assignments e.case_id)
        tables.items

  unfoldable pub holder_artifacts : Text → List GraphArtifact
  holder_artifacts value =
      select (λ a. holds_hash a.sha256 value && visible scope assignments a.case_id)
        tables.artifacts

  -- One value of the loop, and whether the loop goes on
  unfoldable pub add_hash : (shared : Bool) → Option ℕ → Graph → Text → Graph × Bool
  unfolding node hash_of holder_item holder_artifact holder_items holder_artifacts draw
  add_hash shared exclude g value =
      let items = holder_items value in
      let artifacts = holder_artifacts value in
      let r = node g (hash_of value) in
      if shared && ltb (length items + length artifacts) 2
      then (g, true)
      else if r.1
      then (
        draw (holder_artifact value) (draw (holder_item exclude value) r.0 items) artifacts,
        true,
      )
      else (r.0, false)

  -- `_add_hash_links`
  unfoldable pub add_hash_links : (shared : Bool) → Option ℕ → Graph → List Text → Graph
  unfolding add_hash
  add_hash_links shared exclude g [] = g
  add_hash_links shared exclude g (v ∷ vs) =
      let r = add_hash shared exclude g v in
      let rest = add_hash_links shared exclude r.0 vs in if r.1 then rest else r.0

  unfoldable pub match_of : GraphMatch → Node × Edge
  match_of m = (
    record {
      id = id_of "rule:" m.rule_id;
      kind = rule_node;
      label = m.name;
      sub = codes "YARA rule";
      url = some (url_for (codes "yara.rule_detail") ((codes "rule_id", decimal m.rule_id) ∷ []));
      extra = [];
    },
    record {
      source = id_of "evidence:" m.evidence_id;
      target = id_of "rule:" m.rule_id;
      kind = result;
      label =
          render (
            lit "matched " ∷ val m.rule_identifier ∷ lit " (scan #" ∷ num m.scan_id ∷ lit ")" ∷ []);
    },
  )

  -- `_add_yara`
  unfoldable pub add_yara : Graph → List GraphItem → Graph
  unfolding match_of draw
  add_yara g items =
      draw match_of g
        (select (λ m. exists (λ e. e.evidence_id == m.evidence_id) items) tables.matches)

  unfoldable pub member_of : Text → GraphMember → Node × Edge
  member_of cnode u = (
    record {
      id = id_of "user:" u.user_id;
      kind = user_node;
      label = u.full_name;
      sub = if u.is_lead then codes "Lead investigator" else codes "Investigator";
      url = none;
      extra = [];
    },
    link_of (id_of "user:" u.user_id) cnode recorded
        (if u.is_lead then "lead investigator" else "assigned to"),
  )

  unfoldable pub contained : Text → GraphItem → Node × Edge
  unfolding node_of_item
  contained cnode e = (
    node_of_item url_for e none,
    link_of cnode (id_of "evidence:" e.evidence_id) recorded "contains",
  )

  unfoldable pub exam_of : Text → GraphExam → Node × Edge
  exam_of cnode x = (
    record {
      id = id_of "exam:" x.examination_id;
      kind = exam_node;
      label = x.examination_code;
      sub = render (val x.type_name ∷ lit " · " ∷ val x.status ∷ []);
      url = some (url_for (codes "examinations.detail") ((codes "code", x.examination_code) ∷ []));
      extra = [];
    },
    link_of cnode (id_of "exam:" x.examination_id) recorded "examination",
  )

  unfoldable pub examined_of : GraphLink → Edge
  examined_of l = link_of (id_of "exam:" l.from_id) (id_of "evidence:" l.to_id) recorded "examined"

  unfoldable pub report_of : Text → GraphReport → Node × Edge
  report_of cnode r = (
    record {
      id = id_of "report:" r.report_id;
      kind = report_node;
      label = r.report_code;
      sub = render (val r.title ∷ lit " · " ∷ val r.status ∷ []);
      url = some (url_for (codes "reports.detail") ((codes "code", r.report_code) ∷ []));
      extra = [];
    },
    link_of cnode (id_of "report:" r.report_id) recorded "report",
  )

  unfoldable pub cited_of : GraphLink → Edge
  cited_of l = link_of (id_of "report:" l.from_id) (id_of "exam:" l.to_id) recorded "cites"

  unfoldable pub found_in : ℕ → Option ℕ → Graph → Graph
  unfolding edge
  found_in artifact_id none g = g
  found_in artifact_id (some e) g =
      if e == 0
      then g
      else edge g
          (link_of (id_of "artifact:" artifact_id) (id_of "evidence:" e) recorded "found in")

  unfoldable pub add_artifact : Graph → GraphArtifact → Graph
  unfolding node edge artifact_of found_in
  add_artifact g a =
      let r = node g (artifact_of url_for a) in
      let linked = edge r.0 (
        link_of (id_of "exam:" a.examination_id) (id_of "artifact:" a.artifact_id) recorded
          "found artifact") in
      if r.1 then found_in a.artifact_id a.evidence_id linked else r.0

  -- `visible_case`
  unfoldable pub visible_case : Text → Option GraphCase
  visible_case reference =
      find (λ c. text_eq c.case_reference reference && visible scope assignments c.case_id)
        tables.cases

  -- What `case_graph` adds for a visible case
  unfoldable pub draw_case : (shared : Bool) → Graph → GraphCase → Graph
  unfolding node node_of_case each draw connect member_of contained exam_of examined_of report_of
      cited_of add_artifact add_yara add_hash_links sorted_set
  draw_case shared g c =
      let cid = c.case_id in
      let cnode = id_of "case:" cid in
      let items = select (λ e. e.case_id == cid) tables.items in
      let artifacts = select (λ a. a.case_id == cid) tables.artifacts in
      let g1 =
        draw (member_of cnode) (node g (node_of_case url_for c)).0
          (select (λ u. u.case_id == cid) tables.members) in
      let g2 =
        draw (exam_of cnode) (draw (contained cnode) g1 items)
          (select (λ x. x.case_id == cid) tables.exams) in
      let g3 = connect examined_of g2 (select (λ l. l.case_id == cid) tables.examined) in
      let g4 = draw (report_of cnode) g3 (select (λ r. r.case_id == cid) tables.reports) in
      let g5 = connect cited_of g4 (select (λ l. l.case_id == cid) tables.cited) in
      let g6 = add_yara (each add_artifact g5 artifacts) items in
      add_hash_links shared (some cid) g6
        (sorted_set (map (λ e. e.current_hash_value) items ++ map (λ a. a.sha256) artifacts))

  unfoldable pub case_graph : (shared : Bool) → Graph → Text → Option Graph
  unfolding visible_case draw_case
  case_graph shared g reference = elim (visible_case reference) [
    | none ↦ none
    | some c ↦ some (draw_case shared g c)
  ]
