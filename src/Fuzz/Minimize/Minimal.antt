-- ===== src/Fuzz/Minimize/Minimal.antt =====
-- What is left of the body of a failing case (apiverity/fuzz/minimize.py).
use api_verity_lab.Common.{
  ℕ, zero, suc, ◌+◌, ◌*◌, ◌≤◌, String, true, false, none, some, List, [], ◌∷◌, ◌==◌, ◌≡◌, refl, sym,
  ap, ◌∙◌, subst, arith, ◌⊎◌, nat_ord, text_ord, ==_iff, get, keys, contains, contains-sorted_set,
  sorted_set, length, Bool-cases, Option-cases, inl, inr,
}
use api_verity_lab.Fuzz.Minimize.{Body, Probe, Server, without, fails, try_fields, shrink}
use api_verity_lab.Fuzz.Minimize.Ends.{without-get, try_fields-Dropped, shrink-some}

-- Each field of the second body stands in the first with its value, and a field that is gone is not
-- required.
abbrev pub IsPart : List String → Body → Body → Type 0
IsPart required body left =
    (k : String) → (get k left ≡ get k body) ⊎ ((get k left ≡ none) × (contains k required ≡ false))

-- The server answers a body always alike.
module _ (answer : Body → Probe) (required : List String) where
  abbrev pub steady : Server
  steady sent body = answer body

  -- the loop over the fields finds nothing only where no field can go
  try_fields-none :
      (fields : List String) (body : Body) (sent : ℕ)
      → (try_fields steady required fields body sent).1 ≡ none
      → (k : String) → contains k fields ≡ true
      → contains k required ≡ false
      → fails (answer (without k body)) ≡ false
  unfolding try_fields contains
  try_fields-none [] body sent h k c r = ground (arith, c)
  try_fields-none (f ∷ rest) body sent h k c r = elim (Bool-cases (k == f)) [
    | inl same ↦
        let k≡f = (==_iff k f).0 same in
        let free = ap (λ x. contains x required) (sym k≡f) ∙ r in
        let h2 = rw (free, try_fields) at h in
        elim (Bool-cases (fails (answer (without f body)))) [
          | inl bad ↦ absurd (ground (arith, rw bad at h2))
          | inr good ↦ ap (λ x. fails (answer (without x body))) k≡f ∙ good
        ]
    | inr other ↦
        let c' : contains k rest ≡ true = ground (arith, c, other) in
        elim (Bool-cases (contains f required)) [
          | inl needed ↦ try_fields-none rest body sent (rw (needed, try_fields) at h) k c' r
          | inr free ↦
              let h2 = rw (free, try_fields) at h in
              elim (Bool-cases (fails (answer (without f body)))) [
                | inl bad ↦ absurd (ground (arith, rw bad at h2))
                | inr good ↦ try_fields-none rest body (sent + 1) (rw good at h2) k c' r
              ]
        ]
  ]

  -- A part of the body with its required fields, which fails if it is not the body itself, and with
  -- no field that could go as well.
  pub record IsMinimal (body left : Body) : Type 0 where
    pub part : IsPart required body left
    pub failing : (left ≡ body) ⊎ (fails (answer left) ≡ true)
    pub minimal :
        (k : String)
        → contains k (keys left) ≡ true
        → contains k required ≡ false
        → fails (answer (without k left)) ≡ false

  IsPart-without :
      (body left : Body) (f : String)
      → contains f required ≡ false
      → IsPart required (without f body) left
      → IsPart required body left
  IsPart-without body left f free h k = elim (h k) [
    | inl e ↦ elim (Bool-cases (f == k)) [
      | inl same ↦ inr (
        e ∙ without-get k f body ∙ rw same refl,
        ap (λ x. contains x required) (sym ((==_iff f k).0 same)) ∙ free,
      )
      | inr other ↦ inl (e ∙ without-get k f body ∙ rw other refl)
    ]
    | inr gone ↦ inr gone
  ]

  steady-IsMinimal :
      (fuel : ℕ) (body left : Body) (sent n : ℕ)
      → shrink steady required fuel body sent ≡ some (n, left)
      → IsMinimal body left
  unfolding shrink
  steady-IsMinimal zero body left sent n h = absurd (cc h)
  steady-IsMinimal (suc fuel) body left sent n h =
      let fields = sorted_set (keys body) in
      let round = try_fields steady required fields body sent in
      elim (Option-cases round.1) [
        | inl e ↦
            let same : body ≡ left = ground (arith, rw (e, shrink) at h) in
            subst (IsMinimal body) same (record {
              part = λ k. inl refl;
              failing = inl refl;
              minimal = λ k c r.
                  try_fields-none fields body sent e k (contains-sorted_set k (keys body) ∙ c) r;
            })
        | inr (candidate, e) ↦
            let d = try_fields-Dropped steady required fields body candidate sent e in
            let ih = steady-IsMinimal fuel candidate left round.0 n (rw (e, shrink) at h) in
            record {
              part =
                  IsPart-without body left d.field d.optional
                    (subst (λ c. IsPart required c left) d.left ih.part);
              failing = inr (elim ih.failing [
                | inl same ↦ ap (λ b. fails (answer b)) same ∙ d.failing
                | inr bad ↦ bad
              ]);
              minimal = ih.minimal;
            }
      ]

-- The loops of minimize_case end, and send at most n (n + 1) / 2 requests for a body of n fields, also
-- if the server answers the same body in different ways. If it answers a body always alike, the body
-- that is left has the required fields of the first and no field that this had not, fails unless it
-- is the first body, and passes without any one of its fields that are not required.
pub shrink-IsMinimal :
    (server : Server) (answer : Body → Probe) (required : List String) (body : Body)
    → ((n : ℕ) × (left : Body) × (shrink server required (suc (length body)) body 0
          ≡ some (n, left))
        × (2 * n ≤ length body * (length body + 1)))
      × ((n : ℕ) × (left : Body) × (shrink (λ sent b. answer b) required (suc (length body)) body 0
            ≡ some (n, left))
          × IsMinimal answer required body left)
shrink-IsMinimal server answer required body =
    let (n, left, e, le) = shrink-some server required (suc (length body)) body 0 (omega arith) in
    let (m, rest, f, _) =
      shrink-some (λ sent b. answer b) required (suc (length body)) body 0 (omega arith) in
    (
      (n, left, e, omega (arith, le)),
      (m, rest, f, steady-IsMinimal answer required (suc (length body)) body rest 0 m f),
    )
