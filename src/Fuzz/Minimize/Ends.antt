-- ===== src/Fuzz/Minimize/Ends.antt =====
-- The loops of apiverity/fuzz/minimize.py end, and how many requests they send.
use api_verity_lab.Common.{
  ℕ, zero, suc, ◌+◌, ◌*◌, ◌≤◌, ◌<◌, String, true, false, none, some, List, [], ◌∷◌, ◌==◌, ◌≡◌, refl,
  sym, ap, ◌∙◌, arith, nat_ord, text_ord, ==_iff, ==_refl, get, keys, contains, contains-sorted_set,
  sorted_set, length-sorted_set, length, if◌then◌else◌, Bool-cases, Option-cases, inl, inr,
}
use api_verity_lab.Fuzz.Minimize.{Body, Server, without, fails, try_fields, shrink}

without-shorter :
    (k : String) (body : Body)
    → contains k (keys body) ≡ true
    → length (without k body) < length body
unfolding contains keys without
without-shorter k [] h = ground (arith, h)
without-shorter k ((j, v) ∷ rest) h =
    ground (arith, h, ==_iff k j, ==_iff j k, without-shorter k rest, without-le k rest)
  where
    without-le : (k : String) (body : Body) → length (without k body) ≤ length body
    without-le k [] = omega arith
    without-le k ((j, v) ∷ rest) = ground (arith, without-le k rest)

pub without-get :
    (k f : String) (body : Body) → get k (without f body) ≡ (if f == k then none else get k body)
unfolding get without
without-get k f [] = ground arith
without-get k f ((j, v) ∷ rest) =
    ground (arith, without-get k f rest, ==_iff j k, ==_iff j f, ==_iff f k)

squares : (m k : ℕ) → m < k → 2 * k + m * (m + 1) ≤ k * (k + 1)
squares m k h = grind (arith, h)

doubles : (m : ℕ) → 2 * m ≤ m * (m + 1)
doubles zero = omega arith
doubles (suc m) = grind arith

length-keys : (body : Body) → length (keys body) ≡ length body
unfolding keys
length-keys [] = refl
length-keys ((k, v) ∷ rest) = ap suc (length-keys rest)

fields-le : (body : Body) → length (sorted_set (keys body)) ≤ length body
fields-le body = omega (arith, length-sorted_set (keys body), length-keys body)

-- what one round of the loop over the fields found
pub record Dropped (server : Server) (required fields : List String) (body candidate : Body)
    : Type 0 where
  pub field : String
  pub listed : contains field fields ≡ true
  pub optional : contains field required ≡ false
  pub left : candidate ≡ without field body
  pub before : ℕ
  pub failing : fails (server before candidate) ≡ true

module _ (server : Server) (required : List String) where
  pub try_fields-le :
      (fields : List String) (body : Body) (sent : ℕ)
      → (try_fields server required fields body sent).0 ≤ sent + length fields
  unfolding try_fields
  try_fields-le [] body sent = omega arith
  try_fields-le (f ∷ rest) body sent =
      ground (arith, try_fields-le rest body sent, try_fields-le rest body (sent + 1))

  pub try_fields-Dropped :
      (fields : List String) (body candidate : Body) (sent : ℕ)
      → (try_fields server required fields body sent).1 ≡ some candidate
      → Dropped server required fields body candidate
  unfolding try_fields contains
  try_fields-Dropped [] body candidate sent h = absurd (cc h)
  try_fields-Dropped (f ∷ rest) body candidate sent h = elim (Bool-cases (contains f required)) [
    | inl needed ↦
        later (try_fields-Dropped rest body candidate sent (rw (needed, try_fields) at h))
    | inr free ↦
        let h2 = rw (free, try_fields) at h in
        elim (Bool-cases (fails (server sent (without f body)))) [
          | inl bad ↦
              let same : without f body ≡ candidate = ground (arith, rw bad at h2) in
              record {
                field = f;
                listed = ground (arith, ==_refl f);
                optional = free;
                left = sym same;
                before = sent;
                failing = ap (λ c. fails (server sent c)) (sym same) ∙ bad;
              }
          | inr good ↦ later (try_fields-Dropped rest body candidate (sent + 1) (rw good at h2))
        ]
  ]
    where
      later :
          Dropped server required rest body candidate
          → Dropped server required (f ∷ rest) body candidate
      later d = record {
        field = d.field;
        listed = ground (arith, d.listed);
        optional = d.optional;
        left = d.left;
        before = d.before;
        failing = d.failing;
      }

  drops :
      (body candidate : Body)
      → Dropped server required (sorted_set (keys body)) body candidate
      → length candidate < length body
  drops body candidate d =
      rw d.left
        (without-shorter d.field body (sym (contains-sorted_set d.field (keys body)) ∙ d.listed))

  -- The loop ends with the fuel that minimize_case gives it.
  pub shrink-some :
      (fuel : ℕ) (body : Body) (sent : ℕ)
      → length body < fuel
      → (n : ℕ) × (left : Body) × (shrink server required fuel body sent ≡ some (n, left))
        × (2 * n ≤ 2 * sent + length body * (length body + 1))
  unfolding shrink
  shrink-some zero body sent h = elim h [ ]
  shrink-some (suc fuel) body sent h =
      let fields = sorted_set (keys body) in
      let round = try_fields server required fields body sent in
      let few : round.0 ≤ sent + length body =
        omega (arith, try_fields-le fields body sent, fields-le body) in
      elim (Option-cases round.1) [
        | inl e ↦ (round.0, body, rw (e, shrink) refl, omega (arith, few, doubles (length body)))
        | inr (candidate, e) ↦
            let d = try_fields-Dropped fields body candidate sent e in
            let smaller : length candidate < length body = drops body candidate d in
            let (n, left, same, le) =
              shrink-some fuel candidate round.0 (omega (arith, smaller, h)) in
            (
              n,
              left,
              rw (e, shrink) same,
              omega (arith, le, few, squares (length candidate) (length body) smaller),
            )
      ]
