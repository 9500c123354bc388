-- ===== src/Stateful/Cycle/Colors.antt =====
-- The colors of `has_cycle` (apiverity/stateful/graph.py), and how a visit may change them.
use api_verity_lab.Common.{
  ℕ, ◌+◌, ◌≤◌, String, true, false, List, [], ◌∷◌, ◌==◌, ◌≡◌, ◌⊎◌, refl, sym, ap, ◌∙◌, arith,
  text_ord, ==_iff, contains, get, put, get-put, if◌then◌else◌, Bool-cases, inl, inr,
}
use api_verity_lab.Stateful.Cycle.{
  Color, white, gray, black, Colors, Edges, color_in, color_of, next_of,
}
use api_verity_lab.Stateful.Cycle.Walk.{Done}

pub color_of-put :
    (n m : String) (k : Color) (c : Colors)
    → color_of (put n k c) m ≡ (if n == m then k else color_of c m)
unfolding color_of color_in
color_of-put n m k c = ap color_in (get-put m n k c) ∙ ground arith

abbrev pub is_white : Color → ℕ
is_white white = 1
is_white gray = 0
is_white black = 0

-- the number of white nodes
unfoldable pub whites : Colors → ℕ
whites [] = 0
whites ((n, k) ∷ rest) = is_white k + whites rest

pub whites-gray :
    (n : String) (c : Colors) → color_of c n ≡ white → 1 + whites (put n gray c) ≡ whites c
unfolding whites color_of color_in get put
whites-gray n [] h = absurd (cc h)
whites-gray n ((m, k) ∷ c) h = ground (arith, h, whites-gray n c)

pub whites-black : (n : String) (c : Colors) → whites (put n black c) ≤ whites c
unfolding whites put
whites-black n [] = omega arith
whites-black n ((m, k) ∷ c) = ground (arith, whites-black n c)

pub Color-cases : (k : Color) → (k ≡ white) ⊎ ((k ≡ gray) ⊎ (k ≡ black))
Color-cases white = inl refl
Color-cases gray = inr (inl refl)
Color-cases black = inr (inr refl)

pub put-same :
    (n m : String) (k : Color) (c : Colors) → (n == m) ≡ true → color_of (put n k c) m ≡ k
put-same n m k c h = ground (arith, color_of-put n m k c, h)

pub put-other :
    (n m : String) (k : Color) (c : Colors)
    → (n == m) ≡ false
    → color_of (put n k c) m ≡ color_of c m
put-other n m k c h = ground (arith, color_of-put n m k c, h)

-- a black node is another one than a white one
pub apart :
    (c : Colors) (n m : String) → color_of c n ≡ white → color_of c m ≡ black → (n == m) ≡ false
apart c n m h k = elim (Bool-cases (n == m)) [
  | inl same ↦ absurd (cc (sym h ∙ ap (color_of c) ((==_iff n m).0 same) ∙ k))
  | inr other ↦ other
]

module _ (steps : List String) (edges : Edges) where
  -- The steps that are black can be put in an order in which edges go on.
  pub record Ordered (c : Colors) : Type 0 where
    pub outside : (n : String) → contains n steps ≡ false → color_of c n ≡ black
    pub order : List String
    pub done : Done steps edges order
    pub listed : (n : String) → contains n order ≡ true → color_of c n ≡ black
    pub reached :
        (n : String) → contains n steps ≡ true → color_of c n ≡ black → contains n order ≡ true

  -- what a visit that finds nothing makes of the colors
  pub record Later (c after : Colors) : Type 0 where
    pub grays : (n : String) → color_of after n ≡ gray → color_of c n ≡ gray
    pub blacks : (n : String) → color_of c n ≡ black → color_of after n ≡ black
    pub fewer : whites after ≤ whites c
    pub ordered : Ordered after

  pub Later-refl : (c : Colors) → Ordered c → Later c c
  Later-refl c o = record { grays = λ n h. h; blacks = λ n h. h; fewer = omega arith; ordered = o }

  pub Later-trans : (c d e : Colors) → Later c d → Later d e → Later c e
  Later-trans c d e p q = record {
    grays = λ n h. p.grays n (q.grays n h);
    blacks = λ n h. q.blacks n (p.blacks n h);
    fewer = omega (arith, p.fewer, q.fewer);
    ordered = q.ordered;
  }

  pub not_outside :
      (c : Colors) (n : String) (k : Color)
      → Ordered c
      → color_of c n ≡ k
      → ¬ k ≡ black
      → contains n steps ≡ true
  not_outside c n k o h other = elim (Bool-cases (contains n steps)) [
    | inl inside ↦ inside
    | inr outside ↦ absurd (other (sym h ∙ o.outside n outside))
  ]

  pub gray-Ordered :
      (node : String) (c : Colors) → color_of c node ≡ white → Ordered c → Ordered (put node gray c)
  gray-Ordered node c h o = record {
    outside =
        λ n out. put-other node n gray c (apart c node n h (o.outside n out)) ∙ o.outside n out;
    order = o.order;
    done = o.done;
    listed = λ n inside.
        put-other node n gray c (apart c node n h (o.listed n inside)) ∙ o.listed n inside;
    reached = λ n inside dark. elim (Bool-cases (node == n)) [
      | inl same ↦ absurd (cc (sym (put-same node n gray c same) ∙ dark))
      | inr other ↦ o.reached n inside (sym (put-other node n gray c other) ∙ dark)
    ];
  }

  pub black-Ordered :
      (node : String) (c : Colors)
      → contains node steps ≡ true
      → Ordered c
      → ((n : String) → contains n (next_of edges node) ≡ true → color_of c n ≡ black)
      → Ordered (put node black c)
  unfolding contains
  black-Ordered node c inside o next = record {
    outside = λ n out. elim (Bool-cases (node == n)) [
      | inl same ↦ put-same node n black c same
      | inr other ↦ put-other node n black c other ∙ o.outside n out
    ];
    order = node ∷ o.order;
    done = (λ x e. o.reached x e.1 (next x e.0), o.done);
    listed = λ n at. elim (Bool-cases (node == n)) [
      | inl same ↦ put-same node n black c same
      | inr other ↦
          put-other node n black c other
          ∙ o.listed n (ground (arith, at, other, ==_iff n node, ==_iff node n))
    ];
    reached = λ n into dark. elim (Bool-cases (node == n)) [
      | inl same ↦ ground (arith, same, ==_iff n node, ==_iff node n)
      | inr other ↦ ground (arith, o.reached n into (sym (put-other node n black c other) ∙ dark))
    ];
  }

  pub black-Later :
      (node : String) (c after : Colors)
      → color_of c node ≡ white
      → contains node steps ≡ true
      → Later (put node gray c) after
      → ((n : String) → contains n (next_of edges node) ≡ true → color_of after n ≡ black)
      → Later c (put node black after)
  black-Later node c after h inside later next = record {
    grays = λ n grey. elim (Bool-cases (node == n)) [
      | inl same ↦ absurd (cc (sym (put-same node n black after same) ∙ grey))
      | inr other ↦
          sym (put-other node n gray c other)
          ∙ later.grays n (sym (put-other node n black after other) ∙ grey)
    ];
    blacks = λ n dark.
        let other = apart c node n h dark in
        put-other node n black after other ∙ later.blacks n (put-other node n gray c other ∙ dark);
    fewer = omega (arith, whites-black node after, later.fewer, whites-gray node c h);
    ordered = black-Ordered node after inside later.ordered next;
  }
