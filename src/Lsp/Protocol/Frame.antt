-- ===== src/Lsp/Protocol/Frame.antt =====
-- The header of a frame is found again, and the body after it (apiverity/lsp/protocol.py).
use mathlib.Core.List.{append-nil}
use api_verity_lab.Common.{
  ℕ, true, false, some, [], ◌∷◌, ◌++◌, ◌≡◌, refl, ap, ◌∙◌, arith, All, ◌==◌, nat_ord, length,
}
use api_verity_lab.Lsp.Protocol.{
  Bytes, header_separator, content_length, length_prefix, onto, ends_header, found, read_header,
  strip_left, strip, split_lines, lower, starts_with, after_colon, parse_length, decimal, unstated,
  bytes, find_length, read_body,
}
use api_verity_lab.Lsp.Protocol.Decimal.{AllDigits, decimal-AllDigits, parse_length-decimal}

-- no line feed and no carriage return
abbrev IsPlain : ℕ → Type 0
IsPlain b = ((b == 10) ≡ false) × ((b == 13) ≡ false)

abbrev pub AllPlain : Bytes → Type 0
AllPlain = All IsPlain

ends_header-other : (b : ℕ) (rest : Bytes) → (b == 10) ≡ false → ends_header (b ∷ rest) ≡ false
unfolding ends_header
ends_header-other b [] h = refl
ends_header-other b (c ∷ []) h = refl
ends_header-other b (c ∷ d ∷ []) h = refl
ends_header-other b (c ∷ d ∷ e ∷ rest) h = ground (arith, h)

ends_header-plain : (rest : Bytes) → AllPlain rest → ends_header rest ≡ false
unfolding ends_header
ends_header-plain [] h = refl
ends_header-plain (b ∷ rest) h = ends_header-other b rest h.0.0

ends_header-once : (rest : Bytes) → AllPlain rest → ends_header (10 ∷ 13 ∷ rest) ≡ false
unfolding ends_header
ends_header-once [] h = refl
ends_header-once (b ∷ []) h = refl
ends_header-once (b ∷ c ∷ rest) h = ground (arith, h.0.0)

read_header-found :
    (header stream : Bytes)
    → ends_header header ≡ true
    → read_header header stream ≡ found (onto header []) stream
unfolding read_header
read_header-found header [] h = rw h refl
read_header-found header (b ∷ stream) h = rw h refl

read_header-step :
    (header : Bytes) (b : ℕ) (stream : Bytes)
    → ends_header header ≡ false
    → read_header header (b ∷ stream) ≡ read_header (b ∷ header) stream
unfolding read_header
read_header-step header b stream h = rw h refl

onto-AllPlain : (xs ys : Bytes) → AllPlain xs → AllPlain ys → AllPlain (onto xs ys)
unfolding onto
onto-AllPlain [] ys h k = k
onto-AllPlain (x ∷ xs) ys h k = onto-AllPlain xs (x ∷ ys) h.1 (h.0, k)

onto-onto : (xs ys zs : Bytes) → onto (onto xs ys) zs ≡ onto ys (xs ++ zs)
unfolding onto
onto-onto [] ys zs = refl
onto-onto (x ∷ xs) ys zs = onto-onto xs (x ∷ ys) zs

read_header-text :
    (xs header stream : Bytes)
    → AllPlain xs
    → AllPlain header
    → read_header header (xs ++ stream) ≡ read_header (onto xs header) stream
unfolding onto
read_header-text [] header stream h k = refl
read_header-text (x ∷ xs) header stream h k =
    read_header-step header x (xs ++ stream) (ends_header-plain header k)
    ∙ read_header-text xs (x ∷ header) stream h.1 (h.0, k)

read_header-separator :
    (header stream : Bytes)
    → AllPlain header
    → read_header header (header_separator ++ stream) ≡ found (onto header header_separator) stream
unfolding onto ends_header
read_header-separator header stream h =
    read_header-step header 13 (10 ∷ 13 ∷ 10 ∷ stream) (ends_header-plain header h)
    ∙ read_header-step (13 ∷ header) 10 (13 ∷ 10 ∷ stream) (ends_header-other 13 header refl)
    ∙ read_header-step (10 ∷ 13 ∷ header) 13 (10 ∷ stream) (ends_header-once header h)
    ∙ read_header-step (13 ∷ 10 ∷ 13 ∷ header) 10 stream
        (ends_header-other 13 (10 ∷ 13 ∷ header) refl)
    ∙ read_header-found (10 ∷ 13 ∷ 10 ∷ 13 ∷ header) stream refl

pub read_header-frame :
    (xs stream : Bytes)
    → AllPlain xs
    → read_header [] (xs ++ (header_separator ++ stream)) ≡ found (xs ++ header_separator) stream
unfolding onto
read_header-frame xs stream h =
    read_header-text xs [] (header_separator ++ stream) h tt
    ∙ read_header-separator (onto xs []) stream (onto-AllPlain xs [] h tt)
    ∙ ap (λ t. found t stream) (onto-onto xs [] header_separator)

pub split_lines-header :
    (xs : Bytes) → AllPlain xs → split_lines (xs ++ header_separator) ≡ xs ∷ [] ∷ [] ∷ []
unfolding split_lines
split_lines-header [] h = refl
split_lines-header (x ∷ []) h = ground (arith, h.0.1)
split_lines-header (x ∷ y ∷ xs) h = ground (arith, h.0.1, split_lines-header (y ∷ xs) h.1)

digits-AllPlain : (bs : Bytes) → AllDigits bs → AllPlain bs
digits-AllPlain [] h = tt
digits-AllPlain (b ∷ bs) h = (ground (arith, h.0), digits-AllPlain bs h.1)

pub length_line-AllPlain : (n : ℕ) → AllPlain (length_prefix ++ decimal n)
length_line-AllPlain n =
    let rest = digits-AllPlain (decimal n) (decimal-AllDigits n) in
    (
      (refl, refl),
      (
        (refl, refl),
        (
          (refl, refl),
          (
            (refl, refl),
            (
              (refl, refl),
              (
                (refl, refl),
                (
                  (refl, refl),
                  (
                    (refl, refl),
                    (
                      (refl, refl),
                      (
                        (refl, refl),
                        (
                          (refl, refl),
                          (
                            (refl, refl),
                            ((refl, refl), ((refl, refl), ((refl, refl), ((refl, refl), rest)))),
                          ),
                        ),
                      ),
                    ),
                  ),
                ),
              ),
            ),
          ),
        ),
      ),
    )

strip_left-digits : (bs : Bytes) → AllDigits bs → strip_left bs ≡ bs
unfolding strip_left
strip_left-digits [] h = refl
strip_left-digits (b ∷ bs) h = ground (arith, h.0)

onto-AllDigits : (xs ys : Bytes) → AllDigits xs → AllDigits ys → AllDigits (onto xs ys)
unfolding onto
onto-AllDigits [] ys h k = k
onto-AllDigits (x ∷ xs) ys h k = onto-AllDigits xs (x ∷ ys) h.1 (h.0, k)

strip-digits : (bs : Bytes) → AllDigits bs → strip (32 ∷ bs) ≡ bs
unfolding strip strip_left onto
strip-digits bs h = rw (strip_left-digits bs h) (
    rw (strip_left-digits (onto bs []) (onto-AllDigits bs [] h tt))
      (onto-onto bs [] [] ∙ append-nil bs))

find_length-header :
    (line : Bytes) (n : ℕ)
    → starts_with (lower line) content_length ≡ true
    → parse_length (strip (after_colon line)) ≡ some n
    → find_length unstated (line ∷ [] ∷ [] ∷ []) ≡ bytes n
unfolding find_length starts_with lower
find_length-header line n is_length h = rw (is_length, find_length) (rw (h, find_length) refl)

pub find_length-line :
    (n : ℕ) → find_length unstated ((length_prefix ++ decimal n) ∷ [] ∷ [] ∷ []) ≡ bytes n
unfolding lower starts_with after_colon
find_length-line n =
    find_length-header (length_prefix ++ decimal n) n refl
      (ap parse_length (strip-digits (decimal n) (decimal-AllDigits n)) ∙ parse_length-decimal n)

pub read_body-append :
    (body rest : Bytes) → read_body (length body) (body ++ rest) ≡ some (body, rest)
unfolding read_body
read_body-append [] rest = refl
read_body-append (b ∷ body) rest = rw (read_body-append body rest) refl
