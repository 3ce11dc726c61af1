-- ===== src/Bus/Frames.antt =====
-- A frame that is written is the frame that is read.
use lmux.Prelude.{
  ℕ, ◌%◌, ◌^◌, ◌≤◌, ◌<◌, false, List, [], ◌∷◌, ◌++◌, if◌then◌else◌, ltb, length, take, drop, ok,
  err, ◌≡◌, refl, arith, length-append, ap, subst, sym, ◌∙◌,
}
use lmux.Bus.Errors.{ErrorCode, BusError, code}
use lmux.Bus.Codec.{
  max_frame_bytes, unexpected_eof, to_be_bytes, from_be_bytes, read_exact, too_large, read_body,
  read_frame, write_frame,
}

from-to_be_bytes : (n : ℕ) → n < 2 ^ 32 → from_be_bytes (to_be_bytes n) ≡ n
unfolding from_be_bytes to_be_bytes
from-to_be_bytes n h = omega arith

take-front : (xs ys : List ℕ) → take (length xs) (xs ++ ys) ≡ xs
take-front [] ys = refl
take-front (x ∷ xs) ys = ap (λ t. x ∷ t) (take-front xs ys)

drop-front : (xs ys : List ℕ) → drop (length xs) (xs ++ ys) ≡ ys
drop-front [] ys = refl
drop-front (x ∷ xs) ys = drop-front xs ys

read_exact-front : (xs ys : List ℕ) → read_exact (length xs) (xs ++ ys) ≡ ok (xs, ys)
unfolding read_exact
read_exact-front xs ys = ground (arith, take-front xs ys, drop-front xs ys, length-append xs ys)

read_frame-header :
    (header rest : List ℕ)
    → length header ≡ 4
    → read_frame (header ++ rest) ≡ read_body (from_be_bytes header) rest
unfolding read_frame
read_frame-header header rest four =
    let front : read_exact 4 (header ++ rest) ≡ ok (header, rest) =
      subst (λ n. read_exact n (header ++ rest) ≡ ok (header, rest)) four
        (read_exact-front header rest) in
    ground (arith, front)

read_body-small :
    (body rest : List ℕ) (n : ℕ)
    → n ≡ length body
    → length body ≤ max_frame_bytes
    → read_body n (body ++ rest) ≡ ok (body, rest)
unfolding read_body
read_body-small body rest n e small =
    let here : ltb max_frame_bytes n ≡ false = ground arith in
    rw here (
      subst (λ m. read_exact m (body ++ rest) ≡ ok (body, rest)) (sym e)
        (read_exact-front body rest))

header-length : (n : ℕ) → length (to_be_bytes n) ≡ 4
unfolding to_be_bytes
header-length n = refl

append_assoc : (xs ys zs : List ℕ) → (xs ++ ys) ++ zs ≡ xs ++ (ys ++ zs)
append_assoc [] ys zs = refl
append_assoc (x ∷ xs) ys zs = ap (λ t. x ∷ t) (append_assoc xs ys zs)

-- A body of at most 4 MiB is written, and what was written is read back as the body, with the bytes
-- after the frame still to come.
pub read-write_frame :
    (body rest : List ℕ)
    → length body ≤ max_frame_bytes
    → (frame : List ℕ) × (write_frame [] body ≡ ok frame)
      × (read_frame (frame ++ rest) ≡ ok (body, rest))
unfolding write_frame
read-write_frame body rest small =
    let header = to_be_bytes (length body % 2 ^ 32) in
    let low : length body % 2 ^ 32 ≡ length body = omega arith in
    let long = from-to_be_bytes (length body % 2 ^ 32) (omega arith) in
    (
      header ++ body,
      ground arith,
      ap read_frame (append_assoc header body rest)
          ∙ read_frame-header header (body ++ rest) (header-length (length body % 2 ^ 32))
          ∙ read_body-small body rest (from_be_bytes header) (long ∙ low) small,
    )

-- What reading a frame does once it has the four bytes of the header: a header over the limit is refused, whatever follows
-- it, with the wire code `frame_too_large`; a body cut short is an I/O error; otherwise the body is
-- split off the bytes to come.
pub read_frame-branches :
    (header rest : List ℕ)
    → length header ≡ 4
    → let n = from_be_bytes header in
      (read_frame (header ++ rest) ≡ (
        if ltb max_frame_bytes n
        then err (too_large n)
        else if ltb (length rest) n
        then err (BusError.io unexpected_eof)
        else ok (take n rest, drop n rest)))
      × (code (too_large n) ≡ ErrorCode.frame_too_large)
unfolding read_body read_exact code
read_frame-branches header rest four = (read_frame-header header rest four, refl)
