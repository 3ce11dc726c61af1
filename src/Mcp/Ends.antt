-- ===== src/Mcp/Ends.antt =====
-- The loop over the header lines of `read_message`, crates/lmux-mcp/src/lib.rs, and its fuel.
use lmux.Prelude.{
  ℕ, zero, suc, ◌<◌, false, Option, none, some, List, [], ◌∷◌, nat_eq, Text, is_empty, length, take,
  drop, Result, ok, err, Result-cases, ◌≡◌, ◌≢◌, arith, Bool-cases, Option-cases, inl, inr,
}
use lmux.Mcp.Stdio.{
  StdioError, read_line, trim_line_end, length_in, read_headers, Json, parsed, read_body,
  after_headers, read_message,
}

read_line-shorter :
    (input : List ℕ)
    → is_empty (read_line input).0 ≡ false
    → length (read_line input).1 < length input
unfolding read_line
read_line-shorter [] h = cc
read_line-shorter (c ∷ []) h = ground arith
read_line-shorter (c ∷ d ∷ input) h =
    ground (arith, read_line-shorter (d ∷ input), read_line-filled d input)
  where
    read_line-filled : (d : ℕ) (input : List ℕ) → is_empty (read_line (d ∷ input)).0 ≡ false
    read_line-filled d input = ground arith

module _ (from_utf8 : List ℕ → Option Text) where
  read_headers-ends :
      (fuel : ℕ) (len : Option ℕ) (input : List ℕ)
      → length input < fuel
      → read_headers from_utf8 fuel len input ≢ err StdioError.out_of_fuel
  unfolding read_headers
  read_headers-ends zero len input small h = omega arith
  read_headers-ends (suc fuel) len input small h =
      let rest = (read_line input).1 in
      elim (Bool-cases (is_empty (read_line input).0)) [
        | inl e ↦ ground arith
        | inr e ↦
            let fewer : length rest < fuel = let less = read_line-shorter input e in omega arith in
            elim (Option-cases (from_utf8 (read_line input).0)) [
              | inl f ↦ ground arith
              | inr (text, f) ↦ elim (Bool-cases (is_empty (trim_line_end text))) [
                | inl g ↦ ground arith
                | inr g ↦ elim (Option-cases (length_in (trim_line_end text))) [
                  | inl k ↦ ground (arith, read_headers-ends fuel len rest fewer)
                  | inr (r, k) ↦ elim (Result-cases r) [
                    | inl (n, q) ↦ ground (arith, read_headers-ends fuel (some n) rest fewer)
                    | inr (bad, q) ↦ ground arith
                  ]
                ]
              ]
            ]
      ]

module _ {V : Type 0} (j : Json V) where
  parsed-ends : (rest : List ℕ) (r : Result Text V) → parsed j rest r ≢ err StdioError.out_of_fuel
  parsed-ends rest (ok v) h = cc
  parsed-ends rest (err e) h = cc

  read_body-ends : (len : ℕ) (rest : List ℕ) → read_body j len rest ≢ err StdioError.out_of_fuel
  read_body-ends len rest h =
      ground (arith, parsed-ends (drop len rest) (j.from_slice (take len rest)))

  after_headers-ends :
      (r : Result StdioError (Option (Option ℕ × List ℕ)))
      → r ≢ err StdioError.out_of_fuel
      → after_headers j r ≢ err StdioError.out_of_fuel
  after_headers-ends (err e) ends h = ends (ground arith)
  after_headers-ends (ok none) ends h = cc
  after_headers-ends (ok (some (none, rest))) ends h = cc
  after_headers-ends (ok (some (some len, rest))) ends h = read_body-ends len rest h

  -- On every input, the loop over the header lines ends before its fuel is used up: a message, the end
  -- of the input or another error is what reading gives.
  pub read_message-ends : (input : List ℕ) → read_message j input ≢ err StdioError.out_of_fuel
  unfolding read_message
  read_message-ends input h =
      after_headers-ends (read_headers j.from_utf8 (suc (length input)) none input)
        (read_headers-ends j.from_utf8 (suc (length input)) none input (omega arith)) h
