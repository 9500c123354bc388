-- ===== src/Lsp/Serve/Ends.antt =====
-- Every message that is read shortens the stream, so that the loop ends.
use api_verity_lab.Common.{
  ℕ, zero, suc, ◌≤◌, ◌<◌, Bool, Option, none, some, [], ◌∷◌, ◌≢◌, arith, length, if◌then◌else◌,
  Bool-cases, inl, inr,
}
use api_verity_lab.Lsp.Protocol.{
  Bytes, Header, found, ended, read_header, ends_header, is_blank, onto, ended_mid_header,
  read_body, Length, unstated, unparseable, bytes, Loaded, invalid, other, object, find_length,
  split_lines, strip_left, Read, message, end_of_stream, error, ended_in_body, not_json,
  not_an_object, read_object, read_length, read_message,
}
use api_verity_lab.Lsp.Serve.{Served, before, serve}

-- what is left is no longer than `n`
unfoldable IsShorter : {M : Type 0} → ℕ → Read M → Type 0
IsShorter n (message m rest) = length rest ≤ n
IsShorter n _ = Unit

unfoldable Leaves : ℕ → Header → Type 0
Leaves n (found header rest) = length rest ≤ n
Leaves n (ended header) = Unit

Leaves-suc : (n : ℕ) (h : Header) → Leaves n h → Leaves (suc n) h
unfolding Leaves
Leaves-suc n (found header rest) h = omega (arith, h)
Leaves-suc n (ended header) h = tt

read_header-Leaves : (header stream : Bytes) → Leaves (length stream) (read_header header stream)
unfolding read_header Leaves
read_header-Leaves header [] = elim (Bool-cases (ends_header header)) [
  | inl whole ↦ rw whole (omega arith)
  | inr part ↦ rw part tt
]
read_header-Leaves header (b ∷ stream) = elim (Bool-cases (ends_header header)) [
  | inl whole ↦ rw whole (omega arith)
  | inr part ↦ rw part (
      Leaves-suc (length stream) (read_header (b ∷ header) stream)
        (read_header-Leaves (b ∷ header) stream))
]

unfoldable Remains : ℕ → Option (Bytes × Bytes) → Type 0
Remains n none = Unit
Remains n (some (body, rest)) = length rest ≤ n

Remains-cons :
    (b n : ℕ) (r : Option (Bytes × Bytes))
    → Remains n r
    → Remains (suc n) (elim r [ none ↦ none | some (body, rest) ↦ some (b ∷ body, rest) ])
unfolding Remains
Remains-cons b n none h = tt
Remains-cons b n (some (body, rest)) h = omega (arith, h)

read_body-Remains :
    (size n : ℕ) (stream : Bytes) → length stream ≤ n → Remains n (read_body size stream)
unfolding read_body Remains
read_body-Remains zero n stream h = h
read_body-Remains (suc size) n [] h = tt
read_body-Remains (suc size) zero (b ∷ stream) h = elim h [ ]
read_body-Remains (suc size) (suc n) (b ∷ stream) h =
    Remains-cons b n (read_body size stream) (read_body-Remains size n stream (omega (arith, h)))

module _ {M : Type 0} (loads : Bytes → Loaded M) (dumps : M → Bytes) (is_exit : M → Bool) where
  read_object-IsShorter :
      (n : ℕ) (body rest : Bytes)
      → length rest ≤ n
      → IsShorter n (read_object loads dumps body rest)
  unfolding read_object IsShorter
  read_object-IsShorter n body rest h =
      elim (loads body)
        as (λ l. IsShorter n (elim l [
          | invalid ↦ error not_json
          | other ↦ error not_an_object
          | object m ↦ message m rest
        ])) [ invalid ↦ tt | other ↦ tt | object m ↦ h ]

  after_body-IsShorter :
      (n : ℕ) (r : Option (Bytes × Bytes))
      → Remains n r
      → IsShorter n (elim r [
        | none ↦ error ended_in_body
        | some (body, rest) ↦ read_object loads dumps body rest
      ])
  unfolding IsShorter Remains
  after_body-IsShorter n none h = tt
  after_body-IsShorter n (some (body, rest)) h = read_object-IsShorter n body rest h

  read_length-IsShorter :
      (l : Length) (n : ℕ) (stream : Bytes)
      → length stream ≤ n
      → IsShorter n (read_length loads dumps l stream)
  unfolding read_length IsShorter
  read_length-IsShorter unstated n stream h = tt
  read_length-IsShorter unparseable n stream h = tt
  read_length-IsShorter (bytes size) n stream h =
      after_body-IsShorter n (read_body size stream) (read_body-Remains size n stream h)

  after_header-IsShorter :
      (n : ℕ) (h : Header)
      → Leaves n h
      → IsShorter n (elim h [
        | ended header ↦ if is_blank header then end_of_stream else error ended_mid_header
        | found header rest ↦
            read_length loads dumps (find_length unstated (split_lines header)) rest
      ])
  unfolding IsShorter Leaves
  after_header-IsShorter n (ended header) h = elim (Bool-cases (is_blank header)) [
    | inl blank ↦ rw blank tt
    | inr content ↦ rw content tt
  ]
  after_header-IsShorter n (found header rest) h =
      read_length-IsShorter (find_length unstated (split_lines header)) n rest h

  read_message-IsShorter :
      (b : ℕ) (stream : Bytes) → IsShorter (length stream) (read_message loads dumps (b ∷ stream))
  unfolding read_message read_header ends_header
  read_message-IsShorter b stream =
      after_header-IsShorter (length stream) (read_header (b ∷ []) stream)
        (read_header-Leaves (b ∷ []) stream)

  before-some : (m : M) (on : Option (Served M)) → on ≢ none → before m on ≢ none
  unfolding before
  before-some m none h e = h e
  before-some m (some (ms, status)) h e = cc

  serve-after :
      (fuel n : ℕ) (r : Read M)
      → IsShorter n r
      → ((rest : Bytes) → length rest ≤ n → serve loads dumps is_exit fuel rest ≢ none)
      → (elim r [
        | error e ↦ some ([], 1)
        | end_of_stream ↦ some ([], 0)
        | message m rest ↦
            let on = serve loads dumps is_exit fuel rest in
            if is_exit m then some (m ∷ [], 0) else before m on
      ])
        ≢ none
  unfolding IsShorter
  serve-after fuel n (error e) h k = λ p. cc
  serve-after fuel n end_of_stream h k = λ p. cc
  serve-after fuel n (message m rest) h k = elim (Bool-cases (is_exit m)) [
    | inl last ↦ rw last (λ p. cc)
    | inr more ↦ rw more (before-some m (serve loads dumps is_exit fuel rest) (k rest h))
  ]

  serve-some :
      (fuel : ℕ) (stream : Bytes)
      → length stream < fuel
      → serve loads dumps is_exit fuel stream ≢ none
  unfolding serve read_message read_header ends_header onto strip_left
  serve-some zero stream h = λ p. elim h [ ]
  serve-some (suc fuel) [] h = λ p. cc
  serve-some (suc fuel) (b ∷ stream) h =
      serve-after fuel (length stream) (read_message loads dumps (b ∷ stream))
        (read_message-IsShorter b stream) (λ rest k. serve-some fuel rest (omega (arith, h, k)))

  -- The loop of the server ends on every input, within one turn more than the input has bytes:
  -- with any decoder of JSON and any test for the message that ends it.
  pub serve-total : (stream : Bytes) → serve loads dumps is_exit (suc (length stream)) stream ≢ none
  serve-total stream = serve-some (suc (length stream)) stream (omega arith)
