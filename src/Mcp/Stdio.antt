-- ===== src/Mcp/Stdio.antt =====
-- The messages on the standard streams: `read_message` and `write_message` of
-- crates/lmux-mcp/src/lib.rs. The input is the bytes that are still to come, the output those that are
-- written, and it takes them all. JSON is serde_json's, and the decoding of UTF-8 the standard
-- library's: parameters. The loop over the header lines has fuel: one round more than there are bytes.
use lmux.Prelude.{
  ℕ, zero, suc, ◌+◌, ◌-◌, ◌*◌, ◌/◌, ◌%◌, ◌^◌, Bool, true, false, not, ◌&&◌, ◌||◌, Option, none,
  some, List, [], ◌∷◌, ◌++◌, ◌==◌, nat_eq, Text, if◌then◌else◌, ltb, leb, is_empty, length, take,
  drop, Result, ok, err,
}
use lmux.Anchors.{trim}

abbrev pub max_message_bytes : ℕ
max_message_bytes = 4 * 1024 * 1024

-- The errors of `str::parse::<usize>`.
pub data IntError : Type 0 where
  empty invalid_digit pos_overflow : IntError

pub data StdioError : Type 0 where
  invalid_utf8 missing_content_length unexpected_eof out_of_fuel : StdioError
  invalid_content_length : IntError → StdioError
  exceeds_maximum : ℕ → StdioError
  json : Text → StdioError

abbrev pub is_digit : ℕ → Bool
is_digit c = leb b'0' c && leb c b'9'

-- The digits of a `usize`, in front of `later`; it has 20 at most.
unfoldable pub digits : ℕ → ℕ → Text → Text
digits zero n later = later
digits (suc fuel) n later =
    let more = digits fuel (n / 10) ((b'0' + n % 10) ∷ later) in
    if ltb n 10 then (b'0' + n) ∷ later else more

unfoldable pub to_decimal : ℕ → Text
to_decimal n = digits 20 n []

unfoldable pub parse_digits : ℕ → Text → Result IntError ℕ
parse_digits value [] = ok value
parse_digits value (c ∷ cs) =
    let next = value * 10 + (c - b'0') in
    let rest = parse_digits next cs in
    if not (is_digit c)
    then err invalid_digit
    else if leb (2 ^ 64) next
    then err pos_overflow
    else rest

-- `parse::<usize>`: a plus sign may stand in front.
unfoldable pub parse_usize : Text → Result IntError ℕ
parse_usize [] = err empty
parse_usize (c ∷ []) = parse_digits 0 (c ∷ [])
parse_usize (c ∷ d ∷ cs) =
    if c == b'+' then parse_digits 0 (d ∷ cs) else parse_digits 0 (c ∷ d ∷ cs)

-- `BufRead::read_line`: the line with its newline, and what follows it.
unfoldable pub read_line : List ℕ → List ℕ × List ℕ
read_line [] = ([], [])
read_line (c ∷ cs) =
    let (line, rest) = read_line cs in if c == b'\n' then (c ∷ [], cs) else (c ∷ line, rest)

-- `trim_end_matches(['\r', '\n'])`.
unfoldable pub trim_line_end : Text → Text
trim_line_end [] = []
trim_line_end (c ∷ cs) =
    let rest = trim_line_end cs in
    if (c == b'\r' || c == b'\n') && is_empty rest then [] else c ∷ rest

unfoldable pub strip_prefix : Text → Text → Option Text
strip_prefix [] text = some text
strip_prefix (p ∷ prefix) [] = none
strip_prefix (p ∷ prefix) (c ∷ text) =
    let rest = strip_prefix prefix text in if p == c then rest else none

-- `Content-Length:`.
abbrev pub content_length_name : Text
content_length_name =
    b'C' ∷ b'o' ∷ b'n' ∷ b't' ∷ b'e' ∷ b'n' ∷ b't' ∷ b'-' ∷ b'L' ∷ b'e' ∷ b'n' ∷ b'g' ∷ b't' ∷ b'h'
    ∷ b':' ∷ []

abbrev pub crlf : Text
crlf = b'\r' ∷ b'\n' ∷ []

-- What a header line says of the length.
abbrev pub length_in : Text → Option (Result IntError ℕ)
length_in trimmed = elim (strip_prefix content_length_name trimmed) [
  | none ↦ none
  | some value ↦ some (parse_usize (trim value))
]

-- The loop over the header lines: the length and what follows the empty line, `none` at the end of
-- the input.
unfoldable pub read_headers :
    (List ℕ → Option Text) → ℕ → Option ℕ → List ℕ → Result StdioError (Option (Option ℕ × List ℕ))
read_headers from_utf8 zero content_length input = err out_of_fuel
read_headers from_utf8 (suc fuel) content_length input =
    let (line, rest) = read_line input in
    elim (is_empty line) [
      | true ↦ ok none
      | false ↦ elim (from_utf8 line) [
        | none ↦ err invalid_utf8
        | some text ↦
            let trimmed = trim_line_end text in
            elim (is_empty trimmed) [
              | true ↦ ok (some (content_length, rest))
              | false ↦ elim (length_in trimmed) [
                | none ↦ read_headers from_utf8 fuel content_length rest
                | some (err e) ↦ err (invalid_content_length e)
                | some (ok len) ↦ read_headers from_utf8 fuel (some len) rest
              ]
            ]
      ]
    ]

-- `serde_json` at the values `V`, and `String`'s decoder.
pub record Json (V : Type 0) : Type 0 where
  pub is_null : V → Bool
  pub to_vec : V → Result Text (List ℕ)
  pub from_slice : List ℕ → Result Text V
  pub from_utf8 : List ℕ → Option Text

module _ {V : Type 0} (j : Json V) where
  -- `from_slice` at an `Option`: `null` is `None`.
  abbrev pub parsed : List ℕ → Result Text V → Result StdioError (Option V × List ℕ)
  parsed rest (ok value) = ok (if j.is_null value then none else some value, rest)
  parsed rest (err e) = err (json e)

  -- The body behind the headers.
  abbrev pub read_body : ℕ → List ℕ → Result StdioError (Option V × List ℕ)
  read_body len rest =
      if ltb max_message_bytes len
      then err (exceeds_maximum len)
      else if ltb (length rest) len
      then err unexpected_eof
      else parsed (drop len rest) (j.from_slice (take len rest))

  abbrev pub after_headers :
      Result StdioError (Option (Option ℕ × List ℕ)) → Result StdioError (Option V × List ℕ)
  after_headers (err e) = err e
  after_headers (ok none) = ok (none, [])
  after_headers (ok (some (none, rest))) = err missing_content_length
  after_headers (ok (some (some len, rest))) = read_body len rest

  unfoldable pub read_message : List ℕ → Result StdioError (Option V × List ℕ)
  read_message input = after_headers (read_headers j.from_utf8 (suc (length input)) none input)

  -- `write!` with the header, and the body behind it.
  abbrev pub framed : List ℕ → List ℕ
  framed body = content_length_name ++ b' ' ∷ (to_decimal (length body) ++ (crlf ++ (crlf ++ body)))

  unfoldable pub write_message : List ℕ → V → Result StdioError (List ℕ)
  write_message output value =
      if j.is_null value
      then ok output
      else elim (j.to_vec value) [ err e ↦ err (json e) | ok body ↦ ok (output ++ framed body) ]
