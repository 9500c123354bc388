-- ===== src/Model/Value.antt =====
-- The values that `Any` fields of apiverity/core/model.py hold: what JSON and YAML give.
-- A number is an exact decimal, and a dict lists its members in the order of their keys, so that
-- Python's `==` of two dicts is that of the two lists.
use api_verity_lab.Common.{
  ℕ, ◌*◌, ◌^◌, String, Bool, true, false, ◌&&◌, not, Option, none, some, ◌≡◌, refl, arith, ◌==◌,
  ==_refl, nat_ord, text_ord, if◌then◌else◌,
}

-- (-1)^negative * mantissa / 10^scale; an `int` has scale 0
pub record Number : Type 0 where
  pub negative : Bool
  pub mantissa : ℕ
  pub scale : ℕ

mutual
  pub data Value : Type 0 where
    null : Value
    bool : Bool → Value
    number : Number → Value
    text : String → Value
    list : Values → Value
    dict : Members → Value

  pub data Values : Type 0 where
    nil : Values
    cons : Value → Values → Values

  pub data Members : Type 0 where
    end : Members
    member : String → Value → Members → Members

abbrev pub bool_eq : Bool → Bool → Bool
bool_eq true b = b
bool_eq false b = not b

-- `==` of two numbers: the same sign (0 has none) and the same size, over a common scale
same_number : Number → Number → Bool
same_number a b =
    let size_a = a.mantissa * 10 ^ b.scale in
    let size_b = b.mantissa * 10 ^ a.scale in
    size_a == size_b && (if size_a == 0 then true else bool_eq a.negative b.negative)

-- In Python a `bool` is an `int`.
abbrev pub of_bool : Bool → Number
of_bool true = record { negative = false; mantissa = 1; scale = 0 }
of_bool false = record { negative = false; mantissa = 0; scale = 0 }

-- Python's `==`
unfoldable mutual
  unfolding same_number

  pub same : Value → Value → Bool
  same null null = true
  same (bool a) (bool b) = bool_eq a b
  same (bool a) (number n) = same_number (of_bool a) n
  same (number m) (bool b) = same_number m (of_bool b)
  same (number m) (number n) = same_number m n
  same (text s) (text t) = s == t
  same (list xs) (list ys) = same_items xs ys
  same (dict xs) (dict ys) = same_members xs ys
  same _ _ = false

  pub same_items : Values → Values → Bool
  same_items nil nil = true
  same_items (cons x xs) (cons y ys) = same x y && same_items xs ys
  same_items _ _ = false

  pub same_members : Members → Members → Bool
  same_members end end = true
  same_members (member j x xs) (member k y ys) = j == k && same x y && same_members xs ys
  same_members _ _ = false

same_number_refl : (n : Number) → same_number n n ≡ true
unfolding same_number
same_number_refl n = ground arith

mutual
  unfolding same

  same_self : (v : Value) → same v v ≡ true
  same_self null = refl
  same_self (bool true) = refl
  same_self (bool false) = refl
  same_self (number n) = same_number_refl n
  same_self (text s) = ==_refl s
  same_self (list xs) = same_self_items xs
  same_self (dict xs) = same_self_members xs

  same_self_items : (xs : Values) → same_items xs xs ≡ true
  same_self_items nil = refl
  same_self_items (cons x xs) = ground (arith, same_self x, same_self_items xs)

  same_self_members : (xs : Members) → same_members xs xs ≡ true
  same_self_members end = refl
  same_self_members (member k x xs) = ground (arith, ==_refl k, same_self x, same_self_members xs)

pub same_refl : (v : Value) → same v v ≡ true
same_refl v = same_self v

-- bool(v)
abbrev pub truthy : Value → Bool
truthy null = false
truthy (bool b) = b
truthy (number n) = not (n.mantissa == 0)
truthy (text s) = not (s == "")
truthy (list nil) = false
truthy (list (cons x xs)) = true
truthy (dict end) = false
truthy (dict (member k x xs)) = true

-- d.get(k)
unfoldable pub get_member : String → Members → Value
get_member k end = null
get_member k (member j v rest) = if j == k then v else get_member k rest

-- `v or {}`, if that is a dict
unfoldable pub dict_or_empty : Value → Option Members
dict_or_empty (dict d) = some d
dict_or_empty v = if truthy v then none else some end
