-- ===== src/Stateful/Cycle/Walk.antt =====
-- Paths of the graph that `has_cycle` (apiverity/stateful/graph.py) looks at.
use api_verity_lab.Common.{
  String, true, List, [], ◌∷◌, ◌==◌, ◌≡◌, subst, arith, text_ord, ==_iff, contains, Bool-cases, inl,
  inr,
}
use api_verity_lab.Stateful.Cycle.{Edges, next_of}

module _ (steps : List String) (edges : Edges) where
  -- an edge to one of the steps
  abbrev pub Edge : String → String → Type 0
  Edge a b = (contains b (next_of edges a) ≡ true) × (contains b steps ≡ true)

  -- one edge or more
  pub data Walk : String → String → Type 0 where
    edge : {a b : String} → Edge a b → Walk a b
    onward : {a b c : String} → Walk a b → Edge b c → Walk a c

  -- there is a path from a node to itself
  abbrev pub IsCyclic : Type 0
  IsCyclic = (n : String) × Walk n n

  -- each node of the list has edges only to nodes that follow it there
  abbrev pub Done : List String → Type 0
  Done [] = Unit
  Done (n ∷ rest) = ((x : String) → Edge n x → contains x rest ≡ true) × Done rest

  Done-Edge :
      (l : List String) (a b : String)
      → Done l
      → contains a l ≡ true
      → Edge a b
      → contains b l ≡ true
  unfolding contains
  Done-Edge [] a b d h e = absurd (ground (arith, h))
  Done-Edge (n ∷ l) a b d h e = elim (Bool-cases (a == n)) [
    | inl same ↦ ground (arith, d.0 b (subst (λ x. Edge x b) ((==_iff a n).0 same) e))
    | inr other ↦ ground (arith, Done-Edge l a b d.1 (ground (arith, h, other)) e)
  ]

  Done-Walk :
      (l : List String) (a b : String)
      → Done l
      → contains a l ≡ true
      → Walk a b
      → contains b l ≡ true
  Done-Walk l a b d h (edge e) = Done-Edge l a b d h e
  Done-Walk l a b d h (onward {b = m} p e) = Done-Edge l m b d (Done-Walk l a m d h p) e

  -- a path from a node goes to what its edges go to, or on from there
  Walk-within :
      (l : List String) (a b : String)
      → Done l
      → ((x : String) → Edge a x → contains x l ≡ true)
      → Walk a b
      → contains b l ≡ true
  Walk-within l a b d h (edge e) = h b e
  Walk-within l a b d h (onward {b = m} p e) = Done-Edge l m b d (Walk-within l a m d h p) e

  pub Done-acyclic : (l : List String) (n : String) → Done l → contains n l ≡ true → ¬ Walk n n
  unfolding contains
  Done-acyclic [] n d h p = absurd (ground (arith, h))
  Done-acyclic (m ∷ l) n d h p = elim (Bool-cases (contains n l)) [
    | inl inside ↦ Done-acyclic l n d.1 inside p
    | inr outside ↦
        let same = (==_iff n m).0 (ground (arith, h, outside)) in
        absurd (
          ground
            (arith, outside, Walk-within l n n d.1 (λ x e. d.0 x (subst (λ y. Edge y x) same e)) p))
  ]
