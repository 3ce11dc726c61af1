-- ===== src/Terminal/Transcript.antt =====
-- `TranscriptBuffer` of crates/lmux/src/pane.rs: the numbered lines of a pane's output, of which the
-- last `max_lines` are kept. The clock is an argument. The `VecDeque` is a list, its front first.
-- `append_bytes` starts from the decoded text, since the decoder is the standard library's.
pub mod Window
pub mod Reads
use lmux.Prelude.{
  ℕ, zero, suc, ◌+◌, ◌-◌, Bool, true, false, not, ◌&&◌, ◌||◌, Option, none, some, List, [], ◌∷◌,
  ◌++◌, ◌==◌, nat_eq, Text, if◌then◌else◌, length, take, drop, retain, ltb, leb, unwrap_or,
  is_empty,
}
use lmux.Bus.Kinds.{TranscriptLine, TranscriptRange}

abbrev pub u64_max : ℕ
u64_max = 18446744073709551615

-- `u64::saturating_add(1)`.
abbrev pub saturating_next : ℕ → ℕ
saturating_next n = if ltb n u64_max then n + 1 else u64_max

pub record TranscriptBuffer : Type 0 where
  pub max_lines : ℕ
  pub next_sequence : ℕ
  pub dropped_before : ℕ
  pub lines : List TranscriptLine

unfoldable pub new : ℕ → TranscriptBuffer
new max_lines = record { max_lines = max_lines; next_sequence = 1; dropped_before = 1; lines = [] }

-- The `while` loop of `append_line`: the new `dropped_before` and the lines that are left.
unfoldable pub pop_excess : ℕ → ℕ → List TranscriptLine → ℕ × List TranscriptLine
pop_excess max_lines dropped_before [] = (dropped_before, [])
pop_excess max_lines dropped_before (dropped ∷ lines) =
    let rest = pop_excess max_lines (saturating_next dropped.sequence) lines in
    if ltb max_lines (suc (length lines)) then rest else (dropped_before, dropped ∷ lines)

unfoldable pub append_line : TranscriptBuffer → Text → ℕ → TranscriptBuffer
unfolding pop_excess
append_line t text unix_millis =
    let line : TranscriptLine = record {
      sequence = t.next_sequence;
      unix_millis = unix_millis;
      text = text;
    } in
    let (dropped_before, lines) = pop_excess t.max_lines t.dropped_before (t.lines ++ line ∷ []) in
    record t {
      next_sequence = saturating_next t.next_sequence;
      dropped_before = dropped_before;
      lines = lines;
    }

-- `split_inclusive('\n')`: each part ends with the newline, but for a last one without.
abbrev cut : Bool → ℕ → List Text → List Text
cut true c parts = (c ∷ []) ∷ parts
cut false c [] = (c ∷ []) ∷ []
cut false c (part ∷ parts) = (c ∷ part) ∷ parts

unfoldable pub split_inclusive : Text → List Text
split_inclusive [] = []
split_inclusive (c ∷ s) = cut (c == 0x0a) c (split_inclusive s)

-- `trim_end_matches(['\r', '\n'])`.
unfoldable pub trim_newline : Text → Text
trim_newline [] = []
trim_newline (c ∷ s) =
    let rest = trim_newline s in if (c == 0x0d || c == 0x0a) && is_empty rest then [] else c ∷ rest

unfoldable pub append_parts : TranscriptBuffer → List Text → ℕ → TranscriptBuffer
append_parts t [] now = t
append_parts t (part ∷ parts) now =
    let line = trim_newline part in
    append_parts (if is_empty line then t else append_line t line now) parts now

unfoldable pub append_text : TranscriptBuffer → Text → ℕ → TranscriptBuffer
unfolding split_inclusive append_parts
append_text t text now = append_parts t (split_inclusive text) now

abbrev first_of : List TranscriptLine → ℕ
first_of [] = 0
first_of (line ∷ lines) = line.sequence

abbrev last_of : List TranscriptLine → ℕ
last_of [] = 0
last_of (line ∷ []) = line.sequence
last_of (line ∷ next ∷ lines) = last_of (next ∷ lines)

unfoldable pub range_from_iter : ℕ → List TranscriptLine → Bool → TranscriptRange
range_from_iter pane_id lines truncated = record {
  pane_id = pane_id;
  first_sequence = first_of lines;
  last_sequence = last_of lines;
  truncated = truncated;
  lines = lines;
}

-- `tail` of pane.rs.
unfoldable pub tail : TranscriptBuffer → ℕ → ℕ → TranscriptRange
unfolding range_from_iter
tail t pane_id max_lines = range_from_iter pane_id (drop (length t.lines - max_lines) t.lines) false

abbrev take_some : Option ℕ → List TranscriptLine → List TranscriptLine
take_some none lines = lines
take_some (some max) lines = take max lines

unfoldable pub capture_since : TranscriptBuffer → ℕ → Option ℕ → Option ℕ → TranscriptRange
unfolding range_from_iter
capture_since t pane_id since_sequence max_lines =
    let since = unwrap_or since_sequence 0 in
    let newer = retain (λ (line : TranscriptLine). ltb since line.sequence) t.lines in
    range_from_iter pane_id (take_some max_lines newer) (ltb 0 since && ltb since t.dropped_before)
