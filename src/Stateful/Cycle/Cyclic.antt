-- ===== src/Stateful/Cycle/Cyclic.antt =====
-- `has_cycle` of apiverity/stateful/graph.py ends, and finds a cycle where there is one.
use api_verity_lab.Common.{
  ℕ, suc, ◌+◌, ◌≤◌, ◌<◌, String, Bool, true, false, Option, some, List, [], ◌∷◌, ◌==◌, ◌≡◌, ◌⊎◌,
  ◌↔◌, refl, sym, subst, arith, text_ord, ==_iff, contains, get, put, put_all, map, length,
  if◌then◌else◌, Bool-cases, inl, inr,
}
use api_verity_lab.Stateful.Cycle.{
  Color, white, gray, black, Colors, Edges, color_in, color_of, all_white, visit_steps, has_cycle,
}
use api_verity_lab.Stateful.Cycle.Walk.{Walk, edge, onward, IsCyclic, Done-acyclic}
use api_verity_lab.Stateful.Cycle.Colors.{color_of-put, whites, Color-cases, Ordered}
use api_verity_lab.Stateful.Cycle.Visit.{visit-IsRight}

whites-put : (n : String) (k : Color) (c : Colors) → whites (put n k c) ≤ 1 + whites c
unfolding whites put
whites-put n white [] = omega arith
whites-put n gray [] = omega arith
whites-put n black [] = omega arith
whites-put n white ((m, j) ∷ c) = ground (arith, whites-put n white c)
whites-put n gray ((m, j) ∷ c) = ground (arith, whites-put n gray c)
whites-put n black ((m, j) ∷ c) = ground (arith, whites-put n black c)

whites-put_all :
    (ns : List String) (c : Colors)
    → whites (put_all c (map (λ n. (n, white)) ns)) ≤ length ns + whites c
unfolding put_all
whites-put_all [] c = omega arith
whites-put_all (n ∷ ns) c = omega (arith, whites-put_all ns (put n white c), whites-put n white c)

color_of-put_all :
    (ns : List String) (c : Colors) (m : String)
    → color_of (put_all c (map (λ n. (n, white)) ns)) m
      ≡ (if contains m ns then white else color_of c m)
unfolding put_all contains
color_of-put_all [] c m = refl
color_of-put_all (n ∷ ns) c m =
    ground (
      arith,
      color_of-put_all ns (put n white c) m,
      color_of-put n m white c,
      ==_iff n m,
      ==_iff m n,
    )

all_white-color :
    (steps : List String) (n : String)
    → color_of (all_white steps) n ≡ (if contains n steps then white else black)
unfolding all_white color_of color_in get
all_white-color steps n = color_of-put_all steps [] n

module _ (steps : List String) (edges : Edges) where
  all_white-Ordered : Ordered steps edges (all_white steps)
  unfolding contains
  all_white-Ordered = record {
    outside = λ n out. ground (arith, all_white-color steps n, out);
    order = [];
    done = tt;
    listed = λ n h. absurd (cc h);
    reached = λ n inside dark. absurd (ground (arith, all_white-color steps n, inside, dark));
  }

  AllDone : List String → Colors → Option Bool → Type 0
  AllDone nodes c out =
      (after : Colors) × (out ≡ some false)
      × Ordered steps edges after
      × ((n : String) → color_of c n ≡ black → color_of after n ≡ black)
      × ((n : String) → contains n nodes ≡ true → color_of after n ≡ black)

  visit_steps_lem :
      (fuel : ℕ) (nodes : List String) (c : Colors)
      → whites c < fuel
      → Ordered steps edges c
      → ((g : String) → ¬ color_of c g ≡ gray)
      → ((visit_steps edges fuel nodes c ≡ some true) × IsCyclic steps edges)
        ⊎ AllDone nodes c (visit_steps edges fuel nodes c)
  unfolding visit_steps contains AllDone
  visit_steps_lem fuel [] c enough o clear = inr (c, refl, o, λ n h. h, λ n h. absurd (cc h))
  visit_steps_lem fuel (node ∷ rest) c enough o clear = elim (Color-cases (color_of c node)) [
    | inl h ↦
        elim (visit-IsRight steps edges fuel node c enough o
          (λ inside g grey. absurd (clear g grey))) [
            | inl (after, e, cycle) ↦ rw (h, visit_steps) (rw (e, visit_steps) (inl (refl, cycle)))
            | inr (after, e, later, here) ↦
                elim (visit_steps_lem fuel rest after (omega (arith, enough, later.fewer))
                  later.ordered (λ g grey. clear g (later.grays g grey))) [
                    | inl (e', cycle) ↦ rw (h, visit_steps) (rw (e, visit_steps) (inl (e', cycle)))
                    | inr (last, e', o', blacks, there) ↦
                        rw (h, visit_steps)
                          (rw (e, visit_steps)
                            (inr (
                              last,
                              e',
                              o',
                              λ n dark. blacks n (later.blacks n dark),
                              λ n at. elim (Bool-cases (n == node)) [
                                | inl same ↦ blacks n (here n (ground (arith, same)))
                                | inr other ↦ there n (ground (arith, at, other))
                              ],
                            )))
                  ]
          ]
    | inr (inl h) ↦ absurd (clear node h)
    | inr (inr h) ↦ elim (visit_steps_lem fuel rest c enough o clear) [
      | inl (e', cycle) ↦ rw (h, visit_steps) (inl (e', cycle))
      | inr (last, e', o', blacks, there) ↦
          rw (h, visit_steps)
            (inr (
              last,
              e',
              o',
              blacks,
              λ n at. elim (Bool-cases (n == node)) [
                | inl same ↦
                    blacks n (subst (λ x. color_of c x ≡ black) (sym ((==_iff n node).0 same)) h)
                | inr other ↦ there n (ground (arith, at, other))
              ],
            ))
    ]
  ]

  ends-inside : (a b : String) → Walk steps edges a b → contains b steps ≡ true
  ends-inside a b (edge e) = e.1
  ends-inside a b (onward p e) = e.1

  -- The search ends, no deeper than there are steps and one more, and says that there is a cycle just
  -- when some step has a path to itself along edges between steps.
  pub has_cycle-IsCyclic :
      (b : Bool) × (has_cycle steps edges ≡ some b) × ((b ≡ true) ↔ IsCyclic steps edges)
  unfolding has_cycle AllDone whites all_white
  has_cycle-IsCyclic =
      elim (visit_steps_lem (suc (length steps)) steps (all_white steps)
        (omega (arith, whites-put_all steps [])) all_white-Ordered
        (λ g grey. ground (arith, all_white-color steps g, grey))) [
          | inl (e, cycle) ↦ (true, e, (λ h. cycle, λ h. refl))
          | inr (after, e, o, blacks, there) ↦ (
            false,
            e,
            (
              λ h. absurd (cc h),
              λ c. absurd (
                  Done-acyclic steps edges o.order c.0 o.done
                    (o.reached c.0 (ends-inside c.0 c.0 c.1) (there c.0 (ends-inside c.0 c.0 c.1)))
                    c.1),
            ),
          )
        ]
