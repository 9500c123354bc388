-- ===== src/Lsp/Protocol.antt =====
-- The wire format of apiverity/lsp/protocol.py. A stream is the bytes that it has left, of which
-- read(n) gives n, or all if there are fewer.
pub mod Decimal
pub mod Frame
pub mod RoundTrip
use api_verity_lab.Common.{
  ℕ, zero, suc, ◌+◌, ◌-◌, ◌*◌, ◌/◌, ◌%◌, Bool, true, false, not, ◌&&◌, ◌||◌, Option, none, some,
  List, [], ◌∷◌, ◌++◌, ◌==◌, nat_ord, ltb, leb, length, if◌then◌else◌,
}

abbrev pub Bytes : Type 0
Bytes = List ℕ

-- b"\r\n\r\n"
abbrev pub header_separator : Bytes
header_separator = 13 ∷ 10 ∷ 13 ∷ 10 ∷ []

-- b"content-length:"
abbrev pub content_length : Bytes
content_length =
    99 ∷ 111 ∷ 110 ∷ 116 ∷ 101 ∷ 110 ∷ 116 ∷ 45 ∷ 108 ∷ 101 ∷ 110 ∷ 103 ∷ 116 ∷ 104 ∷ 58 ∷ []

-- b"Content-Length: "
abbrev pub length_prefix : Bytes
length_prefix =
    67 ∷ 111 ∷ 110 ∷ 116 ∷ 101 ∷ 110 ∷ 116 ∷ 45 ∷ 76 ∷ 101 ∷ 110 ∷ 103 ∷ 116 ∷ 104 ∷ 58 ∷ 32 ∷ []

-- reversed, before the second list
unfoldable pub onto : Bytes → Bytes → Bytes
onto [] ys = ys
onto (x ∷ xs) ys = onto xs (x ∷ ys)

-- header.endswith(HEADER_SEPARATOR), for a header that is held with its last byte first
unfoldable pub ends_header : Bytes → Bool
ends_header (d ∷ c ∷ b ∷ a ∷ rest) = d == 10 && c == 13 && b == 10 && a == 13
ends_header _ = false

-- The header and what is left of the stream, or the bytes before its end.
pub data Header : Type 0 where
  found : Bytes → Bytes → Header
  ended : Bytes → Header

-- the first loop, with the header so far, last byte first
unfoldable pub read_header : Bytes → Bytes → Header
read_header header [] =
    if ends_header header then found (onto header []) [] else ended (onto header [])
read_header header (byte ∷ stream) =
    let on = read_header (byte ∷ header) stream in
    if ends_header header then found (onto header []) (byte ∷ stream) else on

-- the white space of bytes.strip
abbrev pub is_space : ℕ → Bool
is_space b = b == 32 || (leb 9 b && leb b 13)

unfoldable pub strip_left : Bytes → Bytes
strip_left [] = []
strip_left (b ∷ bs) = let rest = strip_left bs in if is_space b then rest else b ∷ bs

unfoldable pub strip : Bytes → Bytes
unfolding strip_left onto
strip bs = onto (strip_left (onto (strip_left bs) [])) []

-- header.split(b"\r\n")
unfoldable pub to_first : ℕ → List Bytes → List Bytes
to_first b [] = (b ∷ []) ∷ []
to_first b (line ∷ lines) = (b ∷ line) ∷ lines

unfoldable pub split_lines : Bytes → List Bytes
unfolding to_first
split_lines [] = [] ∷ []
split_lines (b ∷ []) = (b ∷ []) ∷ []
split_lines (b ∷ c ∷ rest) =
    let broken = split_lines rest in
    let whole = split_lines (c ∷ rest) in
    if b == 13 && c == 10 then [] ∷ broken else to_first b whole

-- line.lower()
abbrev pub lower_byte : ℕ → ℕ
lower_byte b = if leb 65 b && leb b 90 then b + 32 else b

unfoldable pub lower : Bytes → Bytes
lower [] = []
lower (b ∷ bs) = lower_byte b ∷ lower bs

unfoldable pub starts_with : Bytes → Bytes → Bool
starts_with bs [] = true
starts_with [] (c ∷ cs) = false
starts_with (b ∷ bs) (c ∷ cs) = b == c && starts_with bs cs

-- line.split(b":", 1)[1]
unfoldable pub after_colon : Bytes → Bytes
after_colon [] = []
after_colon (b ∷ bs) = let rest = after_colon bs in if b == 58 then bs else rest

abbrev pub is_digit : ℕ → Bool
is_digit b = leb 48 b && leb b 57

-- The digits of int(), of which single ones may be joined by `_`; the flag says that a digit came last.
unfoldable pub digits : ℕ → Bool → Bytes → Option ℕ
digits n after_digit [] = if after_digit then some n else none
digits n after_digit (b ∷ bs) =
    let on = digits (n * 10 + (b - 48)) true bs in
    let joined = digits n false bs in
    if is_digit b then on else if b == 95 && after_digit then joined else none

-- int() of a stripped text of at most 4300 digits, as the number of bytes that is read for it: none for a negative number
unfoldable pub parse_length : Bytes → Option ℕ
parse_length [] = none
parse_length (b ∷ bs) =
    if b == 43
    then digits 0 false bs
    else if b == 45
    then elim (digits 0 false bs) [ none ↦ none | some n ↦ some 0 ]
    else digits 0 false (b ∷ bs)

-- What a header says of the length.
pub data Length : Type 0 where
  unstated : Length
  unparseable : Length
  bytes : ℕ → Length

-- the loop over the lines: the last length counts
unfoldable pub find_length : Length → List Bytes → Length
find_length length [] = length
find_length length (line ∷ lines) = elim (starts_with (lower line) content_length) [
  | false ↦ find_length length lines
  | true ↦ elim (parse_length (strip (after_colon line))) [
    | none ↦ unparseable
    | some n ↦ find_length (bytes n) lines
  ]
]

-- the second loop: the body and what is left of the stream, if there are as many bytes
unfoldable pub read_body : ℕ → Bytes → Option (Bytes × Bytes)
read_body zero stream = some ([], stream)
read_body (suc n) [] = none
read_body (suc n) (b ∷ stream) = elim (read_body n stream) [
  | none ↦ none
  | some (body, rest) ↦ some (b ∷ body, rest)
]

-- `n` has fewer digits than `fuel`
unfoldable pub decimal_digits : ℕ → ℕ → Bytes
decimal_digits zero n = []
decimal_digits (suc fuel) n =
    let rest = decimal_digits fuel (n / 10) in
    if ltb n 10 then (48 + n) ∷ [] else rest ++ (48 + n % 10) ∷ []

-- str(n).encode("ascii")
unfoldable pub decimal : ℕ → Bytes
unfolding decimal_digits
decimal n = decimal_digits (suc n) n

-- the ways in which a frame cannot be read
pub data ProtocolError : Type 0 where
  ended_mid_header unparseable_length no_length ended_in_body not_json not_an_object : ProtocolError

pub data Loaded (M : Type 0) : Type 0 where
  invalid : Loaded M
  other : Loaded M
  object : M → Loaded M

pub data Read (M : Type 0) : Type 0 where
  message : M → Bytes → Read M
  end_of_stream : Read M
  error : ProtocolError → Read M

abbrev pub is_blank : Bytes → Bool
is_blank bs = elim (strip_left bs) [ [] ↦ true | b ∷ rest ↦ false ]

-- `loads` is json.loads of the body as UTF-8, and `dumps` is json.dumps as UTF-8.
module _ {M : Type 0} (loads : Bytes → Loaded M) (dumps : M → Bytes) where
  unfoldable pub read_object : Bytes → Bytes → Read M
  read_object body rest = elim (loads body) [
    | invalid ↦ error not_json
    | other ↦ error not_an_object
    | object m ↦ message m rest
  ]

  unfoldable pub read_length : Length → Bytes → Read M
  unfolding read_object
  read_length unstated stream = error no_length
  read_length unparseable stream = error unparseable_length
  read_length (bytes n) stream = elim (read_body n stream) [
    | none ↦ error ended_in_body
    | some (body, rest) ↦ read_object body rest
  ]

  unfoldable pub read_message : Bytes → Read M
  unfolding read_length strip_left
  read_message stream = elim (read_header [] stream) [
    | ended header ↦ if is_blank header then end_of_stream else error ended_mid_header
    | found header rest ↦ read_length (find_length unstated (split_lines header)) rest
  ]

  unfoldable pub write_message : M → Bytes
  unfolding decimal
  write_message m =
      let body = dumps m in length_prefix ++ (decimal (length body) ++ (header_separator ++ body))
