-- ===== src/Bus/Examples.antt =====
-- Tests of the frames, after those of crates/lmux-bus/src/codec.rs, and the theorems at concrete
-- bytes.
use lmux.Prelude.{ℕ, List, [], ◌∷◌, ◌++◌, ok, err, ◌≡◌, refl, arith}
use lmux.Bus.Errors.{BusError}
use lmux.Bus.Codec.{
  unexpected_eof, from_be_bytes, to_be_bytes, read_exact, read_body, read_frame, write_frame,
}
use lmux.Bus.Frames.{read-write_frame}

writes_the_length_first : write_frame [] (b'h' ∷ b'i' ∷ []) ≡ ok (0 ∷ 0 ∷ 0 ∷ 2 ∷ b'h' ∷ b'i' ∷ [])
unfolding write_frame to_be_bytes
writes_the_length_first = refl

reports_a_short_body : read_frame (0 ∷ 0 ∷ 0 ∷ 2 ∷ b'h' ∷ []) ≡ err (BusError.io unexpected_eof)
unfolding read_frame read_exact read_body from_be_bytes
reports_a_short_body = refl

read-write_frame_example :
    (frame : List ℕ) × (write_frame [] (b'h' ∷ b'i' ∷ []) ≡ ok frame)
    × (read_frame (frame ++ (7 ∷ [])) ≡ ok (b'h' ∷ b'i' ∷ [], 7 ∷ []))
read-write_frame_example = read-write_frame (b'h' ∷ b'i' ∷ []) (7 ∷ []) (omega arith)
