-- ===== src/Graph/Drawn.antt =====
-- The graph of a case in app/graph/services.py satisfies what every graph does.
use mathlib.Core.Path.{subst}
use forge_x.Shared.{
  ltb, ◌==◌, Bool-cases, Option-cases, length, exists, select, ℕ, ◌+◌, ◌≡◌, inl, inr, Bool, true,
  ◌&&◌, Option, none, some, List, [], ◌∷◌, ◌++◌, map, arith,
}
use forge_x.Shared.Text.{Text, text_eq}
use forge_x.Shared.Tables.{find_fits}
use forge_x.Access.{Scope, visible}
use forge_x.Graph.{
  recorded, Graph, node, edge, draw, connect, each, GraphCase, GraphArtifact, UrlFor, id_of,
  node_of_case, hash_of, artifact_of,
}
use forge_x.Graph.Build.{
  GraphTables, sorted_set, link_of, holder_item, holder_artifact, holder_items, holder_artifacts,
  add_hash, add_hash_links, match_of, add_yara, member_of, contained, exam_of, examined_of,
  report_of, cited_of, found_in, add_artifact, visible_case, draw_case, case_graph,
}
use forge_x.Graph.Capped.{
  IsGraph, node-IsGraph, edge-IsGraph, draw-IsGraph, connect-IsGraph, each-IsGraph,
}

module _ (url_for : UrlFor) (assignments : List (ℕ × ℕ)) (scope : Scope)
    (tables : GraphTables) where
  add_hash-IsGraph :
      (shared : Bool) (exclude : Option ℕ) (g : Graph) (value : Text)
      → IsGraph g
      → IsGraph (add_hash url_for assignments scope tables shared exclude g value).0
  unfolding add_hash
  add_hash-IsGraph shared exclude g value v =
      let items = holder_items url_for assignments scope tables value in
      let artifacts = holder_artifacts url_for assignments scope tables value in
      let item = holder_item url_for assignments scope tables exclude value in
      let artifact = holder_artifact url_for assignments scope tables value in
      let r = node g (hash_of value) in
      let one = node-IsGraph g (hash_of value) v in
      elim (Bool-cases (shared && ltb (length items + length artifacts) 2)) [
        | inl t ↦ rw t v
        | inr t ↦ elim (Bool-cases r.1) [
          | inl k ↦
              rw (t, k)
                (draw-IsGraph artifact (draw item r.0 items) artifacts
                  (draw-IsGraph item r.0 items one))
          | inr k ↦ rw (t, k) one
        ]
      ]

  add_hash_links-IsGraph :
      (shared : Bool) (exclude : Option ℕ) (g : Graph) (values : List Text)
      → IsGraph g
      → IsGraph (add_hash_links url_for assignments scope tables shared exclude g values)
  unfolding add_hash_links
  add_hash_links-IsGraph shared exclude g [] v = v
  add_hash_links-IsGraph shared exclude g (t ∷ ts) v =
      let r = add_hash url_for assignments scope tables shared exclude g t in
      let one = add_hash-IsGraph shared exclude g t v in
      elim (Bool-cases r.1) [
        | inl k ↦ rw k (add_hash_links-IsGraph shared exclude r.0 ts one)
        | inr k ↦ rw k one
      ]

  found_in-IsGraph :
      (a : ℕ) (o : Option ℕ) (g : Graph)
      → IsGraph g
      → IsGraph (found_in url_for assignments scope tables a o g)
  unfolding found_in
  found_in-IsGraph a none g v = v
  found_in-IsGraph a (some e) g v = elim (Bool-cases (e == 0)) [
    | inl z ↦ rw z v
    | inr z ↦
        rw z (
          edge-IsGraph g (link_of (id_of "artifact:" a) (id_of "evidence:" e) recorded "found in")
            v)
  ]

  add_artifact-IsGraph :
      (g : Graph) (a : GraphArtifact)
      → IsGraph g
      → IsGraph (add_artifact url_for assignments scope tables g a)
  unfolding add_artifact
  add_artifact-IsGraph g a v =
      let one = node-IsGraph g (artifact_of url_for a) v in
      let e =
        link_of (id_of "exam:" a.examination_id) (id_of "artifact:" a.artifact_id) recorded
          "found artifact" in
      elim (Bool-cases (node g (artifact_of url_for a)).1) [
        | inr t ↦ rw t one
        | inl t ↦ rw t (
            found_in-IsGraph a.artifact_id a.evidence_id (edge (node g (artifact_of url_for a)).0 e)
              (edge-IsGraph (node g (artifact_of url_for a)).0 e one))
      ]

  draw_case-IsGraph :
      (shared : Bool) (g : Graph) (c : GraphCase)
      → IsGraph g
      → IsGraph (draw_case url_for assignments scope tables shared g c)
  unfolding draw_case add_yara
  draw_case-IsGraph shared g c v =
      let cid = c.case_id in
      let cnode = id_of "case:" cid in
      let items = select (λ e. e.case_id == cid) tables.items in
      let artifacts = select (λ a. a.case_id == cid) tables.artifacts in
      let members = select (λ u. u.case_id == cid) tables.members in
      let exams = select (λ x. x.case_id == cid) tables.exams in
      let examined = select (λ l. l.case_id == cid) tables.examined in
      let reports = select (λ r. r.case_id == cid) tables.reports in
      let cited = select (λ l. l.case_id == cid) tables.cited in
      let member = member_of url_for assignments scope tables cnode in
      let item = contained url_for assignments scope tables cnode in
      let exam = exam_of url_for assignments scope tables cnode in
      let report = report_of url_for assignments scope tables cnode in
      let g0 = (node g (node_of_case url_for c)).0 in
      let g1 = draw member g0 members in
      let g2 = draw item g1 items in
      let g3 = draw exam g2 exams in
      let g4 = connect (examined_of url_for assignments scope tables) g3 examined in
      let g5 = draw report g4 reports in
      let g6 = connect (cited_of url_for assignments scope tables) g5 cited in
      let g7 = each (add_artifact url_for assignments scope tables) g6 artifacts in
      let v1 = draw-IsGraph member g0 members (node-IsGraph g (node_of_case url_for c) v) in
      let v3 = draw-IsGraph exam g2 exams (draw-IsGraph item g1 items v1) in
      let v5 =
        draw-IsGraph report g4 reports
          (connect-IsGraph (examined_of url_for assignments scope tables) g3 examined v3) in
      let v6 = connect-IsGraph (cited_of url_for assignments scope tables) g5 cited v5 in
      let v7 =
        each-IsGraph (add_artifact url_for assignments scope tables) add_artifact-IsGraph g6
          artifacts v6 in
      add_hash_links-IsGraph shared (some cid) (add_yara url_for assignments scope tables g7 items)
        (sorted_set (map (λ e. e.current_hash_value) items ++ map (λ a. a.sha256) artifacts))
        (draw-IsGraph (match_of url_for assignments scope tables) g7
          (select (λ m. exists (λ e. e.evidence_id == m.evidence_id) items) tables.matches) v7)

  -- A graph is drawn only of a case that the user may see. Drawn into a graph of at most 250 nodes
  -- with distinct ids, which has exactly 250 if it is truncated and whose edges are between two
  -- different nodes of it, it is such a graph again.
  pub case_graph-IsGraph :
      (shared : Bool) (g : Graph) (reference : Text) (h : Graph)
      → IsGraph g
      → case_graph url_for assignments scope tables shared g reference ≡ some h
      → IsGraph h
        × ((c : GraphCase) × (visible_case url_for assignments scope tables reference ≡ some c)
            × (visible scope assignments c.case_id ≡ true))
  unfolding case_graph visible_case
  case_graph-IsGraph shared g reference h v e =
      elim (Option-cases (visible_case url_for assignments scope tables reference)) [
        | inl n ↦ absurd (ground (arith, e, n))
        | inr (c, f) ↦
            let same : draw_case url_for assignments scope tables shared g c ≡ h =
              ground (arith, e, f) in
            let seen =
              find_fits
                (λ c. text_eq c.case_reference reference && visible scope assignments c.case_id)
                tables.cases {a = c} f in
            (subst IsGraph same (draw_case-IsGraph shared g c v), (c, f, ground (arith, seen)))
      ]
