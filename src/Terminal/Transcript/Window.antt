-- ===== src/Terminal/Transcript/Window.antt =====
-- The invariant of the transcript: the kept lines are a gapless window of the sequence numbers.
use lmux.Prelude.{
  ℕ, suc, ◌+◌, ◌≤◌, ◌<◌, min, List, [], ◌∷◌, ◌++◌, ◌≡◌, arith, sym, ◌∙◌, Text, length,
  length-append, ltb, Bool-cases, inl, inr,
}
use lmux.Bus.Kinds.{TranscriptLine}
use lmux.Terminal.Transcript.{
  TranscriptBuffer, new, pop_excess, append_line, u64_max, saturating_next,
}

-- The lines are numbered from `n` on, with no gap.
abbrev pub Run : ℕ → List TranscriptLine → Type 0
Run n [] = Unit
Run n (line ∷ lines) = (line.sequence ≡ n) × Run (suc n) lines

pub record IsWindow (t : TranscriptBuffer) : Type 0 where
  pub gapless : Run t.dropped_before t.lines
  pub counted : t.dropped_before + length t.lines ≡ t.next_sequence
  pub bounded : length t.lines ≤ t.max_lines
  pub started : 0 < t.dropped_before

-- A new transcript is an empty window that starts at 1.
pub new-IsWindow : (max_lines : ℕ) → IsWindow (new max_lines)
unfolding new
new-IsWindow max_lines = record {
  gapless = tt;
  counted = omega arith;
  bounded = omega arith;
  started = omega arith;
}

Run-append :
    (n : ℕ) (lines : List TranscriptLine) (line : TranscriptLine)
    → Run n lines
    → line.sequence ≡ n + length lines
    → Run n (lines ++ line ∷ [])
Run-append n [] line r h = (omega arith, tt)
Run-append n (x ∷ lines) line r h = (r.0, Run-append (suc n) lines line r.1 (omega arith))

record Popped (max_lines total held : ℕ) (p : ℕ × List TranscriptLine) : Type 0 where
  gapless : Run p.0 p.1
  counted : p.0 + length p.1 ≡ total
  bounded : length p.1 ≤ max_lines
  started : 0 < p.0
  full : length p.1 ≡ min max_lines held

widen :
    {max_lines total held : ℕ} {p : ℕ × List TranscriptLine}
    → Popped max_lines total held p
    → max_lines < suc held
    → Popped max_lines total (suc held) p
widen w h = record {
  gapless = w.gapless;
  counted = w.counted;
  bounded = w.bounded;
  started = w.started;
  full = omega (arith, w.full);
}

pop_excess-Popped :
    (max_lines total d : ℕ) (lines : List TranscriptLine)
    → 0 < d
    → Run d lines
    → d + length lines ≡ total
    → total ≤ u64_max
    → Popped max_lines total (length lines) (pop_excess max_lines d lines)
unfolding pop_excess
pop_excess-Popped max_lines total d [] p r c h = record {
  gapless = tt;
  counted = c;
  bounded = omega arith;
  started = p;
  full = omega arith;
}
pop_excess-Popped max_lines total d (x ∷ lines) p r c h =
    let e : saturating_next x.sequence ≡ suc d = ground arith in
    elim (Bool-cases (ltb max_lines (suc (length lines)))) [
      | inl more ↦
          rw (more, e)
            (widen
              (pop_excess-Popped max_lines total (suc d) lines (omega arith) r.1 (omega arith) h)
              (ground arith))
      | inr fits ↦ rw fits (record {
        gapless = r;
        counted = c;
        bounded = ground arith;
        started = p;
        full = ground arith;
      })
    ]

-- Appending a line keeps the window, numbers the line with the next sequence number, and drops no
-- line that there is room for, as long as the `u64` counter has room.
pub append_line-IsWindow :
    (t : TranscriptBuffer) (text : Text) (unix_millis : ℕ)
    → IsWindow t
    → t.next_sequence < u64_max
    → IsWindow (append_line t text unix_millis)
      × ((append_line t text unix_millis).next_sequence ≡ t.next_sequence + 1)
      × (length (append_line t text unix_millis).lines ≡ min t.max_lines (length t.lines + 1))
unfolding append_line
append_line-IsWindow t text unix_millis w room =
    let line : TranscriptLine = record {
      sequence = t.next_sequence;
      unix_millis = unix_millis;
      text = text;
    } in
    let lines = t.lines ++ line ∷ [] in
    let next : saturating_next t.next_sequence ≡ t.next_sequence + 1 = ground arith in
    let p =
      pop_excess-Popped t.max_lines (t.next_sequence + 1) t.dropped_before lines w.started
        (Run-append t.dropped_before t.lines line w.gapless (omega (arith, w.counted)))
        (omega (arith, length-append t.lines (line ∷ []), w.counted)) (omega arith) in
    (
      record {
        gapless = p.gapless;
        counted = p.counted ∙ sym next;
        bounded = p.bounded;
        started = p.started;
      },
      next,
      omega (arith, p.full, length-append t.lines (line ∷ [])),
    )
