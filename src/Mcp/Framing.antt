-- ===== src/Mcp/Framing.antt =====
-- Messages on the standard streams through `write_message` and `read_message` of
-- crates/lmux-mcp/src/lib.rs.
use mathlib.Core.List.{append_assoc}
use lmux.Prelude.{
  ℕ, zero, suc, ◌+◌, ◌-◌, ◌*◌, ◌/◌, ◌%◌, ◌^◌, ◌<◌, ◌≤◌, Bool, true, false, not, ◌&&◌, Option, none,
  some, List, [], ◌∷◌, ◌++◌, ◌==◌, nat_eq, Text, ltb, is_empty, length, take, drop, All, All-append,
  length-append, ok, ◌≡◌, refl, arith, Bool-cases, inl, inr, ap, ◌∙◌, sym,
}
use lmux.Anchors.{trim, trim_start, trim_end, is_whitespace}
use lmux.Mcp.Stdio.{
  max_message_bytes, is_digit, digits, to_decimal, parse_digits, parse_usize, read_line,
  trim_line_end, strip_prefix, content_length_name, crlf, length_in, read_headers, Json, read_body,
  after_headers, read_message, framed, write_message,
}

abbrev pub Digits : Text → Type 0
Digits xs = All (λ c. is_digit c ≡ true) xs

-- ASCII, and no end of a line.
abbrev pub is_plain : ℕ → Bool
is_plain c = ltb c 128 && (not (c == b'\r') && not (c == b'\n'))

abbrev Plain : Text → Type 0
Plain xs = All (λ c. is_plain c ≡ true) xs

parse_digits-digit :
    (value d : ℕ) (later : Text)
    → d < 10
    → value * 10 + d < 2 ^ 64
    → parse_digits value ((b'0' + d) ∷ later) ≡ parse_digits (value * 10 + d) later
unfolding parse_digits
parse_digits-digit value d later h small = ground arith

parse-digits :
    (fuel n : ℕ) (later : Text)
    → n < 10 ^ fuel
    → n < 2 ^ 64
    → parse_digits 0 (digits fuel n later) ≡ parse_digits n later
unfolding digits
parse-digits zero n later h small = ap (λ v. parse_digits v later) (omega arith)
parse-digits (suc fuel) n later h small = elim (Bool-cases (ltb n 10)) [
  | inl e ↦ rw e (
      parse_digits-digit 0 n later (ground arith) (omega arith)
      ∙ ap (λ v. parse_digits v later) (omega arith))
  | inr e ↦ rw e (
      parse-digits fuel (n / 10) ((b'0' + n % 10) ∷ later) (omega arith) (omega arith)
      ∙ parse_digits-digit (n / 10) (n % 10) later (omega arith) (omega arith)
      ∙ ap (λ v. parse_digits v later) (omega arith))
]

digits-Digits : (fuel n : ℕ) (later : Text) → Digits later → Digits (digits fuel n later)
unfolding digits
digits-Digits zero n later h = h
digits-Digits (suc fuel) n later h = elim (Bool-cases (ltb n 10)) [
  | inl e ↦ rw e (ground arith, h)
  | inr e ↦ rw e (digits-Digits fuel (n / 10) ((b'0' + n % 10) ∷ later) (ground arith, h))
]

digits-filled : (fuel n : ℕ) (c : ℕ) (later : Text) → is_empty (digits fuel n (c ∷ later)) ≡ false
unfolding digits
digits-filled zero n c later = refl
digits-filled (suc fuel) n c later =
    ground (arith, digits-filled fuel (n / 10) (b'0' + n % 10) (c ∷ later))

digits-filled_first : (fuel n : ℕ) → is_empty (digits (suc fuel) n []) ≡ false
unfolding digits
digits-filled_first fuel n = ground (arith, digits-filled fuel (n / 10) (b'0' + n % 10) [])

parse_usize-Digits :
    (xs : Text) → Digits xs → is_empty xs ≡ false → parse_usize xs ≡ parse_digits 0 xs
unfolding parse_usize
parse_usize-Digits [] h e = cc
parse_usize-Digits (c ∷ []) h e = refl
parse_usize-Digits (c ∷ d ∷ cs) h e = let first = h.0 in ground arith

-- The decimal digits of a number below 2^64 are parsed as that number.
parse_usize-to_decimal : (n : ℕ) → n < 2 ^ 64 → parse_usize (to_decimal n) ≡ ok n
unfolding to_decimal
parse_usize-to_decimal n small =
    parse_usize-Digits (digits 20 n []) (digits-Digits 20 n [] tt) (digits-filled_first 19 n)
    ∙ parse-digits 20 n [] (omega arith) small
    ∙ unfold parse_digits in refl

to_decimal-Digits : (n : ℕ) → Digits (to_decimal n)
unfolding to_decimal
to_decimal-Digits n = digits-Digits 20 n [] tt

trim_start-Digits : (xs : Text) → Digits xs → trim_start (b' ' ∷ xs) ≡ xs
unfolding trim_start is_whitespace
trim_start-Digits [] h = refl
trim_start-Digits (x ∷ xs) h = let first = h.0 in ground arith

trim_end-Digits : (xs : Text) → Digits xs → trim_end xs ≡ xs
unfolding trim_end is_whitespace
trim_end-Digits [] h = refl
trim_end-Digits (x ∷ xs) h = let first = h.0 in ground (arith, trim_end-Digits xs h.1)

trim-Digits : (xs : Text) → Digits xs → trim (b' ' ∷ xs) ≡ xs
unfolding trim
trim-Digits xs h = ap trim_end (trim_start-Digits xs h) ∙ trim_end-Digits xs h

strip_prefix-append : (prefix text : Text) → strip_prefix prefix (prefix ++ text) ≡ some text
unfolding strip_prefix
strip_prefix-append [] text = refl
strip_prefix-append (p ∷ prefix) text =
    ground (arith, nat_eq.beq_iff p p, strip_prefix-append prefix text)

trim_line_end-Plain : (xs : Text) → Plain xs → trim_line_end (xs ++ crlf) ≡ xs
unfolding trim_line_end
trim_line_end-Plain [] h = refl
trim_line_end-Plain (x ∷ xs) h = let first = h.0 in ground (arith, trim_line_end-Plain xs h.1)

read_line-Plain :
    (xs later : Text) → Plain xs → read_line (xs ++ crlf ++ later) ≡ (xs ++ crlf, later)
unfolding read_line
read_line-Plain [] later h = refl
read_line-Plain (x ∷ xs) later h = let first = h.0 in ground (arith, read_line-Plain xs later h.1)

Digits-Plain : (xs : Text) → Digits xs → Plain xs
Digits-Plain [] h = tt
Digits-Plain (x ∷ xs) h = let first = h.0 in (ground arith, Digits-Plain xs h.1)

-- What a decoder of UTF-8 does with ASCII.
abbrev pub KeepsAscii : (List ℕ → Option Text) → Type 0
KeepsAscii from_utf8 = (xs : List ℕ) → All (λ c. ltb c 128 ≡ true) xs → from_utf8 xs ≡ some xs

Plain-ascii : (xs : Text) → Plain xs → All (λ c. ltb c 128 ≡ true) xs
Plain-ascii [] h = tt
Plain-ascii (x ∷ xs) h = let first = h.0 in (ground arith, Plain-ascii xs h.1)

abbrev header_line : Text → Text
header_line ds = content_length_name ++ b' ' ∷ ds

header_line-Plain : (ds : Text) → Digits ds → Plain (header_line ds)
header_line-Plain ds h =
    All-append (λ c. is_plain c ≡ true) (content_length_name ++ b' ' ∷ []) ds
      (
        refl,
        (
          refl,
          (
            refl,
            (
              refl,
              (
                refl,
                (
                  refl,
                  (
                    refl,
                    (refl, (refl, (refl, (refl, (refl, (refl, (refl, (refl, (refl, tt))))))))),
                  ),
                ),
              ),
            ),
          ),
        ),
      )
      (Digits-Plain ds h)

length_in-header_line : (n : ℕ) → n < 2 ^ 64 → length_in (header_line (to_decimal n)) ≡ some (ok n)
length_in-header_line n small =
    let ds = to_decimal n in
    let found = strip_prefix-append content_length_name (b' ' ∷ ds) in
    let trimmed = trim-Digits ds (to_decimal-Digits n) in
    ground (arith, found, trimmed, parse_usize-to_decimal n small)

module _ (from_utf8 : List ℕ → Option Text) (keeps : KeepsAscii from_utf8) where
  read_headers-blank :
      (fuel : ℕ) (len : Option ℕ) (rest : List ℕ)
      → read_headers from_utf8 (suc fuel) len (crlf ++ rest) ≡ ok (some (len, rest))
  unfolding read_headers read_line trim_line_end
  read_headers-blank fuel len rest = rw (keeps crlf (refl, (refl, tt))) refl

  read_headers-step :
      (fuel n : ℕ) (len : Option ℕ) (input line rest : List ℕ) (text trimmed : Text)
      → read_line input ≡ (line, rest)
      → is_empty line ≡ false
      → from_utf8 line ≡ some text
      → trim_line_end text ≡ trimmed
      → is_empty trimmed ≡ false
      → length_in trimmed ≡ some (ok n)
      → read_headers from_utf8 (suc fuel) len input ≡ read_headers from_utf8 fuel (some n) rest
  unfolding read_headers
  read_headers-step fuel n len input line rest text trimmed cut filled decoded ends shown found =
      ground arith

  read_headers-length :
      (fuel n : ℕ) (len : Option ℕ) (later : List ℕ)
      → n < 2 ^ 64
      → read_headers from_utf8 (suc fuel) len (header_line (to_decimal n) ++ crlf ++ later)
        ≡ read_headers from_utf8 fuel (some n) later
  read_headers-length fuel n len later small =
      let xs = header_line (to_decimal n) in
      let plain = header_line-Plain (to_decimal n) (to_decimal-Digits n) in
      let decoded : from_utf8 (xs ++ crlf) ≡ some (xs ++ crlf) =
        keeps (xs ++ crlf)
          (All-append (λ c. ltb c 128 ≡ true) xs crlf (Plain-ascii xs plain) (refl, (refl, tt))) in
      read_headers-step fuel n len (xs ++ crlf ++ later) (xs ++ crlf) later (xs ++ crlf) xs
        (read_line-Plain xs later plain) refl decoded (trim_line_end-Plain xs plain) refl
        (length_in-header_line n small)

  headers-framed :
      (fuel : ℕ) (body rest : List ℕ)
      → length body < 2 ^ 64
      → read_headers from_utf8
          (suc (suc fuel))
          none
          (header_line (to_decimal (length body)) ++ crlf ++ (crlf ++ (body ++ rest)))
        ≡ ok (some (some (length body), body ++ rest))
  headers-framed fuel body rest small =
      read_headers-length (suc fuel) (length body) none (crlf ++ (body ++ rest)) small
      ∙ read_headers-blank fuel (some (length body)) (body ++ rest)

take-front : (xs ys : List ℕ) → take (length xs) (xs ++ ys) ≡ xs
take-front [] ys = refl
take-front (x ∷ xs) ys = ap (λ t. x ∷ t) (take-front xs ys)

drop-front : (xs ys : List ℕ) → drop (length xs) (xs ++ ys) ≡ ys
drop-front [] ys = refl
drop-front (x ∷ xs) ys = drop-front xs ys

module _ {V : Type 0} (j : Json V) where
  framed-append :
      (body rest : List ℕ)
      → framed j body ++ rest
        ≡ header_line (to_decimal (length body)) ++ crlf ++ (crlf ++ (body ++ rest))
  framed-append body rest =
      ap (λ t. header_line t)
        (append_assoc (to_decimal (length body)) (crlf ++ (crlf ++ body)) rest
          ∙ sym (append_assoc (to_decimal (length body)) crlf (crlf ++ (body ++ rest))))

  read_body-front :
      (value : V) (body rest : List ℕ)
      → j.is_null value ≡ false
      → j.from_slice body ≡ ok value
      → length body ≤ max_message_bytes
      → read_body j (length body) (body ++ rest) ≡ ok (some value, rest)
  read_body-front value body rest filled parsed_back small =
      let short : ltb max_message_bytes (length body) ≡ false = ground arith in
      let there : ltb (length (body ++ rest)) (length body) ≡ false =
        ground (arith, length-append body rest) in
      rw (short, there, take-front body rest, drop-front body rest, parsed_back, filled) refl

  -- A message that is not null and whose text is at most 4 MiB long is written, and what was written is
  -- read back as the message, with the bytes that follow it still to come; of the decoders this asks
  -- that the text of the message is parsed as the message and that ASCII is decoded as itself.
  pub read-write_message :
      (value : V) (body rest : List ℕ)
      → j.is_null value ≡ false
      → j.to_vec value ≡ ok body
      → j.from_slice body ≡ ok value
      → length body ≤ max_message_bytes
      → KeepsAscii j.from_utf8
      → (written : List ℕ) × (write_message j [] value ≡ ok written)
        × (read_message j (written ++ rest) ≡ ok (some value, rest))
  unfolding write_message read_message
  read-write_message value body rest real printed parsed_back small keeps =
      let input = header_line (to_decimal (length body)) ++ crlf ++ (crlf ++ (body ++ rest)) in
      let fuel = length input - 1 in
      let enough : suc (length input) ≡ suc (suc fuel) = omega arith in
      let headers =
        ap (λ n. read_headers j.from_utf8 n none input) enough
        ∙ headers-framed j.from_utf8 keeps fuel body rest (omega arith) in
      (
        framed j body,
        ground arith,
        ap (λ t. after_headers j (read_headers j.from_utf8 (suc (length t)) none t))
              (framed-append body rest)
            ∙ ap (after_headers j) headers
            ∙ read_body-front value body rest real parsed_back small,
      )
