-- ===== src/Graph/Capped.antt =====
-- What every graph of app/graph/services.py satisfies, whatever rows it is built from.
use forge_x.Shared.{
  leb, Bool-cases, length, length-append, exists, update_where, ◌≤◌, ◌<◌, ◌≡◌, refl, sym, ◌∙◌, inl,
  inr, Bool, true, false, not, ◌&&◌, ◌||◌, List, [], ◌∷◌, ◌++◌, arith,
}
use forge_x.Shared.Text.{Text, text_eq, text_eq_iff}
use forge_x.Shared.Tables.{All, All-append}
use forge_x.Graph.{
  Node, Edge, Graph, max_nodes, has_id, node, same_edge, put_edge, edge, joined, draw, connect,
  each,
}

abbrev pub DistinctIds : List Node → Type 0
DistinctIds [] = Unit
DistinctIds (n ∷ ns) = (has_id n.id ns ≡ false) × DistinctIds ns

abbrev pub EdgeDrawn : List Node → Edge → Type 0
EdgeDrawn nodes e =
    (has_id e.source nodes ≡ true)
    × (has_id e.target nodes ≡ true)
    × (text_eq e.source e.target ≡ false)

-- At most 250 nodes with distinct ids, and 250 if some were left out; each edge is between two
-- different nodes of the graph.
pub record IsGraph (g : Graph) : Type 0 where
  pub within : length g.nodes ≤ max_nodes
  pub full : g.truncated ≡ true → length g.nodes ≡ max_nodes
  pub distinct : DistinctIds g.nodes
  pub drawn : All (EdgeDrawn g.nodes) g.edges

text_eq_sym : (t u : Text) → text_eq t u ≡ false → text_eq u t ≡ false
text_eq_sym t u h = elim (Bool-cases (text_eq u t)) [
  | inl e ↦ let same = (text_eq_iff t u).1 (sym ((text_eq_iff u t).0 e)) in ground (arith, h, same)
  | inr e ↦ e
]

has_id-append :
    (t : Text) (ns : List Node) (n : Node)
    → has_id t (ns ++ n ∷ []) ≡ (has_id t ns || text_eq n.id t)
unfolding has_id exists
has_id-append t [] n = ground arith
has_id-append t (x ∷ ns) n = let ih = has_id-append t ns n in ground (arith, ih)

DistinctIds-append :
    (ns : List Node) (n : Node)
    → DistinctIds ns
    → has_id n.id ns ≡ false
    → DistinctIds (ns ++ n ∷ [])
unfolding has_id exists
DistinctIds-append [] n d h = (refl, tt)
DistinctIds-append (x ∷ ns) n d h =
    let other : text_eq x.id n.id ≡ false = ground (arith, h) in
    let rest : has_id n.id ns ≡ false = ground (arith, h) in
    let apart = text_eq_sym x.id n.id other in
    (has_id-append x.id ns n ∙ ground (arith, apart, d.0), DistinctIds-append ns n d.1 rest)

drawn-append :
    (ns : List Node) (n : Node) (es : List Edge)
    → All (EdgeDrawn ns) es
    → All (EdgeDrawn (ns ++ n ∷ [])) es
drawn-append ns n [] v = tt
drawn-append ns n (e ∷ es) v =
    let h : has_id e.source ns ≡ true = v.0.0 in
    let k : has_id e.target ns ≡ true = v.0.1 in
    (
      (
        has_id-append e.source ns n ∙ ground (arith, h),
        has_id-append e.target ns n ∙ ground (arith, k),
        v.0.2,
      ),
      drawn-append ns n es v.1,
    )

drawn-update_where :
    (ns : List Node) (p : Edge → Bool) (e : Edge) (es : List Edge)
    → All (EdgeDrawn ns) es
    → EdgeDrawn ns e
    → All (EdgeDrawn ns) (update_where p (λ old. e) es)
unfolding update_where
drawn-update_where ns p e [] v d = tt
drawn-update_where ns p e (x ∷ es) v d = elim (Bool-cases (p x)) [
  | inl t ↦ rw t (d, drawn-update_where ns p e es v.1 d)
  | inr t ↦ rw t (v.0, drawn-update_where ns p e es v.1 d)
]

drawn-put_edge :
    (ns : List Node) (e : Edge) (es : List Edge)
    → All (EdgeDrawn ns) es
    → EdgeDrawn ns e
    → All (EdgeDrawn ns) (put_edge e es)
unfolding put_edge
drawn-put_edge ns e es v d = elim (Bool-cases (exists (same_edge e) es)) [
  | inl t ↦ rw t (drawn-update_where ns (same_edge e) e es v d)
  | inr t ↦ rw t (All-append (EdgeDrawn ns) es e v d)
]

pub node-IsGraph : (g : Graph) (n : Node) → IsGraph g → IsGraph (node g n).0
unfolding node
node-IsGraph g n v = elim (Bool-cases (has_id n.id g.nodes)) [
  | inl e ↦ rw e v
  | inr e ↦ elim (Bool-cases (leb max_nodes (length g.nodes))) [
    | inl m ↦
        let w = v.within in
        rw (e, m)
          (record {
            within = v.within;
            full = λ h. ground (arith, m, w);
            distinct = v.distinct;
            drawn = v.drawn;
          })
    | inr m ↦
        let small : length g.nodes < max_nodes = ground (arith, m) in
        let more = length-append g.nodes (n ∷ []) in
        rw (e, m)
          (record {
            within = omega (arith, small, more);
            full = λ h. let f = v.full h in absurd (omega (arith, small, f));
            distinct = DistinctIds-append g.nodes n v.distinct e;
            drawn = drawn-append g.nodes n g.edges v.drawn;
          })
  ]
]

pub edge-IsGraph : (g : Graph) (e : Edge) → IsGraph g → IsGraph (edge g e)
unfolding edge
edge-IsGraph g e v =
    elim (Bool-cases
      (has_id e.source g.nodes && has_id e.target g.nodes && not (text_eq e.source e.target))) [
        | inl t ↦ rw t (record {
          within = v.within;
          full = v.full;
          distinct = v.distinct;
          drawn =
              drawn-put_edge g.nodes e g.edges v.drawn
                (ground (arith, t), ground (arith, t), ground (arith, t));
        })
        | inr t ↦ rw t v
      ]

joined-IsGraph : (g : Graph) (p : Node × Edge) → IsGraph g → IsGraph (joined g p)
unfolding joined
joined-IsGraph g p v =
    let one = node-IsGraph g p.0 v in
    elim (Bool-cases (node g p.0).1) [
      | inl t ↦ rw t (edge-IsGraph (node g p.0).0 p.1 one)
      | inr t ↦ rw t one
    ]

module _ {A : Type 0} where
  pub draw-IsGraph :
      (f : A → Node × Edge) (g : Graph) (xs : List A) → IsGraph g → IsGraph (draw f g xs)
  unfolding draw
  draw-IsGraph f g [] v = v
  draw-IsGraph f g (x ∷ xs) v = draw-IsGraph f (joined g (f x)) xs (joined-IsGraph g (f x) v)

  pub connect-IsGraph :
      (f : A → Edge) (g : Graph) (xs : List A) → IsGraph g → IsGraph (connect f g xs)
  unfolding connect
  connect-IsGraph f g [] v = v
  connect-IsGraph f g (x ∷ xs) v = connect-IsGraph f (edge g (f x)) xs (edge-IsGraph g (f x) v)

  pub each-IsGraph :
      (f : Graph → A → Graph)
      → ((g : Graph) (x : A) → IsGraph g → IsGraph (f g x))
      → (g : Graph) (xs : List A) → IsGraph g
      → IsGraph (each f g xs)
  unfolding each
  each-IsGraph f keeps g [] v = v
  each-IsGraph f keeps g (x ∷ xs) v = each-IsGraph f keeps (f g x) xs (keeps g x v)
