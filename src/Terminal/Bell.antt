-- ===== src/Terminal/Bell.antt =====
-- `BellScanner` of crates/lmux/src/pane.rs: which BEL bytes of the output ring the bell. Bytes are
-- numbers below 256. The `u32` count is at most the number of bytes of one read, and is unbounded here.
use lmux.Prelude.{
  ℕ, ◌+◌, Bool, true, false, ◌&&◌, ◌||◌, List, [], ◌∷◌, ◌++◌, ◌==◌, nat_eq, ◌≡◌, refl, arith,
  if◌then◌else◌, All, count,
}

pub record BellScanner : Type 0 where
  pub in_osc : Bool
  pub prev_esc : Bool

-- One round of the loop over the bytes: the new state, and whether the count goes up.
unfoldable pub step : BellScanner → ℕ → BellScanner × Bool
step s b =
    if s.in_osc
    then if b == 0x07
      then (record { in_osc = false; prev_esc = false }, false)
      else if b == 0x1b
      then (record s { prev_esc = true }, false)
      else if b == 0x5c && s.prev_esc
      then (record { in_osc = false; prev_esc = false }, false)
      else (record s { prev_esc = false }, false)
    else if s.prev_esc
    then (record { in_osc = s.in_osc || b == b']'; prev_esc = false }, false)
    else if b == 0x1b
    then (record s { prev_esc = true }, false)
    else (s, b == 0x07)

abbrev tick : Bool → ℕ → ℕ
tick true n = n + 1
tick false n = n

unfoldable pub scan_from : BellScanner → ℕ → List ℕ → BellScanner × ℕ
scan_from s n [] = (s, n)
scan_from s n (b ∷ bytes) = let (s', rings) = step s b in scan_from s' (tick rings n) bytes

unfoldable pub scan : BellScanner → List ℕ → BellScanner × ℕ
unfolding scan_from
scan s bytes = scan_from s 0 bytes

-- `Default`.
abbrev pub at_rest : BellScanner
at_rest = record { in_osc = false; prev_esc = false }

scan_from_lem :
    (s : BellScanner) (n : ℕ) (bytes : List ℕ)
    → scan_from s n bytes ≡ ((scan_from s 0 bytes).0, n + (scan_from s 0 bytes).1)
unfolding scan_from
scan_from_lem s n [] = ground arith
scan_from_lem s n (b ∷ bytes) =
    let t = (step s b).0 in
    ground (arith, scan_from_lem t n bytes, scan_from_lem t (n + 1) bytes, scan_from_lem t 1 bytes)

-- How the reads are cut into chunks does not matter: scanning two chunks one after the other leaves
-- the scanner where one scan of both leaves it, and rings as many bells.
pub scan-append :
    (s : BellScanner) (xs ys : List ℕ)
    → scan s (xs ++ ys) ≡ ((scan (scan s xs).0 ys).0, (scan s xs).1 + (scan (scan s xs).0 ys).1)
unfolding scan scan_from
scan-append s [] ys = ground (arith)
scan-append s (b ∷ xs) ys =
    let t = (step s b).0 in
    ground (arith, scan_from_lem t 1 (xs ++ ys), scan_from_lem t 1 xs, scan-append t xs ys)

-- A byte that neither rings, nor starts an escape, nor ends a string after one.
abbrev pub Quiet : ℕ → Type 0
Quiet b = ((b == 0x07) ≡ false) × ((b == 0x1b) ≡ false)

in_string : BellScanner
in_string = record { in_osc = true; prev_esc = false }

osc_body :
    (body rest : List ℕ)
    → All Quiet body
    → scan_from in_string 0 (body ++ rest) ≡ scan_from in_string 0 rest
unfolding scan_from step in_string
osc_body [] rest h = refl
osc_body (b ∷ body) rest h = ground (arith, osc_body body rest)

-- A title that the shell sets rings no bell: after `ESC ]` and a body with no BEL and no ESC, both
-- the terminator BEL and the terminator `ESC \` leave the scanner at rest with no bell counted.
pub scan_title :
    (body rest : List ℕ)
    → All Quiet body
    → (scan at_rest (0x1b ∷ b']' ∷ (body ++ 0x07 ∷ rest)) ≡ scan at_rest rest)
      × (scan at_rest (0x1b ∷ b']' ∷ (body ++ 0x1b ∷ 0x5c ∷ rest)) ≡ scan at_rest rest)
unfolding scan scan_from step in_string
scan_title body rest h =
    ground (arith, osc_body body (0x07 ∷ rest), osc_body body (0x1b ∷ 0x5c ∷ rest))

-- Output with no escape rings once for each BEL.
pub scan_plain :
    (bytes : List ℕ)
    → All (λ b. (b == 0x1b) ≡ false) bytes
    → scan at_rest bytes ≡ (at_rest, count 0x07 bytes)
unfolding scan scan_from step
scan_plain [] h = refl
scan_plain (b ∷ bytes) h = ground (arith, scan_plain bytes, scan_from_lem at_rest 1 bytes)
