-- ===== src/Stateful/Cycle/Visit.antt =====
-- What a visit of `has_cycle` (apiverity/stateful/graph.py) does to the colors.
use api_verity_lab.Common.{
  ℕ, zero, suc, ◌<◌, String, true, false, some, List, [], ◌∷◌, ◌==◌, ◌≡◌, ◌⊎◌, refl, sym, ◌∙◌,
  subst, arith, text_ord, ==_iff, ==_refl, contains, put, Bool-cases, inl, inr,
}
use api_verity_lab.Stateful.Cycle.{
  white, gray, black, Colors, Edges, color_of, next_of, Visited, visit_all, blackened, visit,
}
use api_verity_lab.Stateful.Cycle.Walk.{Walk, edge, onward, IsCyclic}
use api_verity_lab.Stateful.Cycle.Colors.{
  whites, whites-gray, Color-cases, Ordered, Later, Later-refl, Later-trans, not_outside, put-same,
  put-other, gray-Ordered, black-Later,
}

module _ (steps : List String) (edges : Edges) where
  -- A cycle is found, or the nodes are black.
  abbrev pub Outcome : Colors → List String → Visited → Type 0
  Outcome c nodes out =
      ((after : Colors) × (out ≡ some (true, after)) × IsCyclic steps edges)
      ⊎ ((after : Colors) × (out ≡ some (false, after))
          × Later steps edges c after
          × ((n : String) → contains n nodes ≡ true → color_of after n ≡ black))

  -- every gray node has a path to this one
  abbrev pub Trail : Colors → String → Type 0
  Trail c node =
      contains node steps ≡ true → (g : String) → color_of c g ≡ gray → Walk steps edges g node

  -- for a node that is visited: what it takes to be right
  abbrev pub IsRight : (String → Colors → Visited) → ℕ → Type 0
  IsRight step fuel =
      (node : String) (c : Colors)
      → whites c < fuel
      → Ordered steps edges c
      → Trail c node
      → Outcome c (node ∷ []) (step node c)

  -- the loop over the next nodes of a node, to which every gray node has a path
  visit_all_lem :
      (step : String → Colors → Visited) (fuel : ℕ) (nodes : List String) (c : Colors)
      → IsRight step fuel
      → whites c < fuel
      → Ordered steps edges c
      → ((node : String) → contains node nodes ≡ true → Trail c node)
      → Outcome c nodes (visit_all step nodes c)
  unfolding visit_all contains
  visit_all_lem step fuel [] c right enough o trail =
      inr (c, refl, Later-refl steps edges c o, λ n h. absurd (cc h))
  visit_all_lem step fuel (node ∷ rest) c right enough o trail =
      elim (right node c enough o (trail node (ground (arith, ==_refl node)))) [
        | inl (after, e, cycle) ↦ rw (e, visit_all) (inl (after, refl, cycle))
        | inr (after, e, later, here) ↦
            let trail' : (n : String) → contains n rest ≡ true → Trail after n =
              λ n h inside g grey. trail n (ground (arith, h)) inside g (later.grays g grey) in
            elim (visit_all_lem step fuel rest after right (omega (arith, enough, later.fewer))
              later.ordered trail') [
                | inl (last, e', cycle) ↦ rw (e, visit_all) (inl (last, e', cycle))
                | inr (last, e', later', there) ↦
                    rw (e, visit_all)
                      (inr (
                        last,
                        e',
                        Later-trans steps edges c after last later later',
                        λ n h. elim (Bool-cases (n == node)) [
                          | inl same ↦ later'.blacks n (here n (ground (arith, same)))
                          | inr other ↦ there n (ground (arith, h, other))
                        ],
                      ))
              ]
      ]

  gray-Trail :
      (node : String) (c : Colors)
      → contains node steps ≡ true
      → Trail c node
      → (n : String) → contains n (next_of edges node) ≡ true
      → Trail (put node gray c) n
  gray-Trail node c inside trail n next into g grey = elim (Bool-cases (node == g)) [
    | inl same ↦ subst (λ x. Walk steps edges x n) ((==_iff node g).0 same) (edge (next, into))
    | inr other ↦ onward (trail inside g (sym (put-other node g gray c other) ∙ grey)) (next, into)
  ]

  -- a visit with more fuel than there are white nodes
  pub visit-IsRight : (fuel : ℕ) → IsRight (visit edges fuel) fuel
  unfolding visit blackened contains
  visit-IsRight zero node c enough o trail = elim enough [ ]
  visit-IsRight (suc fuel) node c enough o trail = elim (Color-cases (color_of c node)) [
    | inl h ↦
        let inside = not_outside steps edges c node white o h (λ e. cc e) in
        elim (visit_all_lem (visit edges fuel) fuel (next_of edges node) (put node gray c)
          (visit-IsRight fuel) (omega (arith, enough, whites-gray node c h))
          (gray-Ordered steps edges node c h o) (gray-Trail node c inside trail)) [
            | inl (after, e, cycle) ↦ rw (h, visit) (rw (e, blackened) (inl (after, refl, cycle)))
            | inr (after, e, later, next) ↦
                rw (h, visit)
                  (rw (e, blackened)
                    (inr (
                      put node black after,
                      refl,
                      black-Later steps edges node c after h inside later next,
                      λ n at.
                          put-same node n black after
                            (ground (arith, at, ==_iff n node, ==_iff node n)),
                    )))
          ]
    | inr (inl h) ↦
        let inside = not_outside steps edges c node gray o h (λ e. cc e) in
        rw (h, visit) (inl (c, refl, (node, trail inside node h)))
    | inr (inr h) ↦
        rw (h, visit)
          (inr (
            c,
            refl,
            Later-refl steps edges c o,
            λ n at.
                subst (λ x. color_of c x ≡ black) (sym ((==_iff n node).0 (ground (arith, at)))) h,
          ))
  ]
