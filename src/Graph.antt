-- ===== src/Graph.antt =====
-- The graph of app/graph/services.py: the class Graph, its capped nodes and its edges, and the node
-- helpers. url_for is a parameter.
pub mod Build
pub mod Capped
pub mod Drawn
pub mod Tests
use forge_x.Shared.{
  leb, if◌then◌else◌, length, take, exists, update_where, ℕ, String, Bool, true, false, not, ◌&&◌,
  Option, none, some, List, [], ◌∷◌, ◌++◌,
}
use forge_x.Shared.Text.{Text, codes, text_eq, lit, num, val, render}

pub data NodeKind : Type 0 where
  case_node evidence_node exam_node report_node user_node artifact_node hash_node rule_node :
      NodeKind

pub data EdgeKind : Type 0 where
  recorded result identity : EdgeKind

unfoldable pub edge_kind_eq : EdgeKind → EdgeKind → Bool
edge_kind_eq recorded recorded = true
edge_kind_eq result result = true
edge_kind_eq identity identity = true
edge_kind_eq a b = false

pub record Node : Type 0 where
  pub id : Text
  pub kind : NodeKind
  pub label : Text
  pub sub : Text
  pub url : Option Text
  pub extra : List (Text × Option Text)

pub record Edge : Type 0 where
  pub source : Text
  pub target : Text
  pub kind : EdgeKind
  pub label : Text

pub record Graph : Type 0 where
  pub nodes : List Node
  pub edges : List Edge
  pub truncated : Bool

abbrev pub max_nodes : ℕ
max_nodes = 250

abbrev pub empty_graph : Graph
empty_graph = record { nodes = []; edges = []; truncated = false }

unfoldable pub has_id : Text → List Node → Bool
has_id t nodes = exists (λ n. text_eq n.id t) nodes

-- `Graph.node`, with what it returns
unfoldable pub node : Graph → Node → Graph × Bool
unfolding has_id
node g n =
    if has_id n.id g.nodes
    then (g, true)
    else if leb max_nodes (length g.nodes)
    then (record g { truncated = true }, false)
    else (record g { nodes = g.nodes ++ n ∷ [] }, true)

unfoldable pub same_edge : Edge → Edge → Bool
unfolding edge_kind_eq
same_edge a b = text_eq a.source b.source && text_eq a.target b.target && edge_kind_eq a.kind b.kind

-- Assignment to a key of the edges
unfoldable pub put_edge : Edge → List Edge → List Edge
unfolding same_edge
put_edge e edges =
    if exists (same_edge e) edges
    then update_where (same_edge e) (λ old. e) edges
    else edges ++ e ∷ []

unfoldable pub edge : Graph → Edge → Graph
unfolding has_id put_edge
edge g e =
    if has_id e.source g.nodes && has_id e.target g.nodes && not (text_eq e.source e.target)
    then record g { edges = put_edge e g.edges }
    else g

-- `if g.node(...): g.edge(...)`
unfoldable pub joined : Graph → Node × Edge → Graph
unfolding node edge
joined g p = let r = node g p.0 in if r.1 then edge r.0 p.1 else r.0

-- The loops over rows: a node and its edge for each, an edge for each, and any other step
unfoldable pub draw : {A : Type 0} → (A → Node × Edge) → Graph → List A → Graph
unfolding joined
draw f g [] = g
draw f g (x ∷ xs) = draw f (joined g (f x)) xs

unfoldable pub connect : {A : Type 0} → (A → Edge) → Graph → List A → Graph
unfolding edge
connect f g [] = g
connect f g (x ∷ xs) = connect f (edge g (f x)) xs

unfoldable pub each : {A : Type 0} → (Graph → A → Graph) → Graph → List A → Graph
each f g [] = g
each f g (x ∷ xs) = each f (f g x) xs

-- The rows that the queries return
pub record GraphCase : Type 0 where
  pub case_id : ℕ
  pub case_reference : Text
  pub title : Text
  pub status : Text

pub record GraphItem : Type 0 where
  pub evidence_id : ℕ
  pub evidence_code : Text
  pub description : Text
  pub case_id : ℕ
  pub case_reference : Text
  pub integrity_status : Text
  pub current_hash_value : Option Text

pub record GraphArtifact : Type 0 where
  pub artifact_id : ℕ
  pub examination_id : ℕ
  pub evidence_id : Option ℕ
  pub artifact_type : Text
  pub description : Text
  pub sha256 : Option Text
  pub examination_code : Text
  pub case_id : ℕ

abbrev pub UrlFor : Type 0
UrlFor = Text → List (Text × Text) → Text

abbrev pub id_of : String → ℕ → Text
id_of prefix n = render (lit prefix ∷ num n ∷ [])

unfoldable pub node_of_case : UrlFor → GraphCase → Node
node_of_case url_for c = record {
  id = id_of "case:" c.case_id;
  kind = case_node;
  label = c.case_reference;
  sub = c.title;
  url = some (url_for (codes "cases.detail") ((codes "reference", c.case_reference) ∷ []));
  extra = (codes "status", some c.status) ∷ [];
}

abbrev with_reference : Text → Option Text → Text
with_reference sub none = sub
with_reference [] (some r) = r
with_reference (c ∷ t) (some []) = c ∷ t
with_reference (c ∷ t) (some (d ∷ r)) = render (val (c ∷ t) ∷ lit " · " ∷ val (d ∷ r) ∷ [])

unfoldable pub node_of_item : UrlFor → GraphItem → Option Text → Node
node_of_item url_for e case_reference = record {
  id = id_of "evidence:" e.evidence_id;
  kind = evidence_node;
  label = e.evidence_code;
  sub = with_reference e.description case_reference;
  url = some (url_for (codes "evidence.detail") ((codes "code", e.evidence_code) ∷ []));
  extra = (codes "integrity", some e.integrity_status) ∷ [];
}

abbrev pub hash_id : Text → Text
hash_id value = render (lit "hash:" ∷ val value ∷ [])

unfoldable pub hash_of : Text → Node
hash_of value = record {
  id = hash_id value;
  kind = hash_node;
  label = render (val (take 12 value) ∷ lit "…" ∷ []);
  sub = render (lit "SHA-256 " ∷ val value ∷ []);
  url = none;
  extra = (codes "value", some value) ∷ [];
}

unfoldable pub artifact_of : UrlFor → GraphArtifact → Node
artifact_of url_for a = record {
  id = id_of "artifact:" a.artifact_id;
  kind = artifact_node;
  label = render (lit "Artifact #" ∷ num a.artifact_id ∷ []);
  sub = render (val a.artifact_type ∷ lit ": " ∷ val a.description ∷ []);
  url = some (
      render (
        val (
          url_for (codes "examinations.detail")
            ((codes "code", a.examination_code) ∷ (codes "tab", codes "artifacts") ∷ []))
        ∷ lit "#artifact-"
        ∷ num a.artifact_id
        ∷ []));
  extra = [];
}
