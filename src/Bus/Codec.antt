-- ===== src/Bus/Codec.antt =====
-- Length-prefixed frames: crates/lmux-bus/src/codec.rs. The reader is the list of bytes that are
-- still to come, the end of which is an error to `read_exact`. The writer is the list of the bytes
-- written, and takes them all. The test `len > MAX_FRAME_BYTES` is on the `u32` of the header.
use lmux.Prelude.{
  ℕ, ◌+◌, ◌*◌, ◌/◌, ◌%◌, ◌^◌, List, [], ◌∷◌, ◌++◌, if◌then◌else◌, ltb, length, take, drop, Result,
  ok, err,
}
use lmux.Bus.Errors.{ErrorCode, BusError}

abbrev pub max_frame_bytes : ℕ
max_frame_bytes = 4 * 1024 * 1024

-- What the text of an I/O error tells.
pub data Eof : Type 0 where
  unexpected_eof : Eof

unfoldable pub to_be_bytes : ℕ → List ℕ
to_be_bytes n = (n / 2 ^ 24) % 256 ∷ (n / 2 ^ 16) % 256 ∷ (n / 2 ^ 8) % 256 ∷ n % 256 ∷ []

unfoldable pub from_be_bytes : List ℕ → ℕ
from_be_bytes (a ∷ b ∷ c ∷ d ∷ []) = a * 2 ^ 24 + b * 2 ^ 16 + c * 2 ^ 8 + d
from_be_bytes bytes = 0

unfoldable pub read_exact : ℕ → List ℕ → Result (BusError Eof) (List ℕ × List ℕ)
read_exact n reader =
    if ltb (length reader) n
    then err (BusError.io unexpected_eof)
    else ok (take n reader, drop n reader)

abbrev pub too_large : ℕ → BusError Eof
too_large len = BusError.frame_too_large ErrorCode.frame_too_large len max_frame_bytes

unfoldable pub read_body : ℕ → List ℕ → Result (BusError Eof) (List ℕ × List ℕ)
unfolding read_exact
read_body len reader =
    if ltb max_frame_bytes len then err (too_large len) else read_exact len reader

unfoldable pub read_frame : List ℕ → Result (BusError Eof) (List ℕ × List ℕ)
read_frame reader = elim (read_exact 4 reader) [
  | err e ↦ err e
  | ok (len_buf, rest) ↦ read_body (from_be_bytes len_buf) rest
]

-- `body.len() as u32` keeps the low 32 bits.
unfoldable pub write_frame : List ℕ → List ℕ → Result (BusError Eof) (List ℕ)
unfolding to_be_bytes
write_frame writer body =
    if ltb max_frame_bytes (length body)
    then err (too_large (length body))
    else ok ((writer ++ to_be_bytes (length body % 2 ^ 32)) ++ body)
