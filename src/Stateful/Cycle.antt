-- ===== src/Stateful/Cycle.antt =====
-- `has_cycle` of apiverity/stateful/graph.py, without Python's limit on the depth of a recursion.
pub mod Walk
pub mod Colors
pub mod Visit
pub mod Cyclic
use api_verity_lab.Common.{
  ℕ, zero, suc, String, Bool, true, false, Option, none, some, List, [], ◌∷◌, text_ord, get, put,
  put_all, map, length,
}

pub data Color : Type 0 where
  white gray black : Color

abbrev pub Colors : Type 0
Colors = List (String × Color)

abbrev pub Edges : Type 0
Edges = List (String × List String)

-- color.get(node, BLACK)
unfoldable pub color_in : Option Color → Color
color_in none = black
color_in (some k) = k

unfoldable pub color_of : Colors → String → Color
unfolding color_in
color_of color node = color_in (get node color)

-- edges.get(node, [])
abbrev listed : Option (List String) → List String
listed none = []
listed (some nodes) = nodes

unfoldable pub next_of : Edges → String → List String
next_of edges node = listed (get node edges)

-- dict.fromkeys(steps, WHITE)
unfoldable pub all_white : List String → Colors
all_white steps = put_all [] (map (λ n. (n, white)) steps)

-- What a visit returns, and the colors then; nothing where the fuel runs out.
abbrev pub Visited : Type 0
Visited = Option (Bool × Colors)

-- the loop of a visit over the next nodes
unfoldable pub visit_all : (String → Colors → Visited) → List String → Colors → Visited
visit_all visit [] color = some (false, color)
visit_all visit (node ∷ rest) color = elim (visit node color) [
  | none ↦ none
  | some (true, after) ↦ some (true, after)
  | some (false, after) ↦ visit_all visit rest after
]

-- color[node] = BLACK behind a loop that found nothing
unfoldable pub blackened : String → Visited → Visited
blackened node none = none
blackened node (some (true, after)) = some (true, after)
blackened node (some (false, after)) = some (false, put node black after)

unfoldable pub visit : Edges → ℕ → String → Colors → Visited
unfolding visit_all blackened color_of next_of
visit edges zero node color = none
visit edges (suc fuel) node color = elim (color_of color node) [
  | gray ↦ some (true, color)
  | black ↦ some (false, color)
  | white ↦ blackened node (visit_all (visit edges fuel) (next_of edges node) (put node gray color))
]

-- any(visit(n) for n in steps if color[n] == WHITE)
unfoldable pub visit_steps : Edges → ℕ → List String → Colors → Option Bool
visit_steps edges fuel [] color = some false
visit_steps edges fuel (node ∷ rest) color = elim (color_of color node) [
  | gray ↦ visit_steps edges fuel rest color
  | black ↦ visit_steps edges fuel rest color
  | white ↦ elim (visit edges fuel node color) [
    | none ↦ none
    | some (true, after) ↦ some true
    | some (false, after) ↦ visit_steps edges fuel rest after
  ]
]

-- The recursion is no deeper than the steps and one more.
unfoldable pub has_cycle : List String → Edges → Option Bool
unfolding visit_steps all_white
has_cycle steps edges = visit_steps edges (suc (length steps)) steps (all_white steps)
