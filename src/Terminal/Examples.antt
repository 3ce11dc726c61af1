-- ===== src/Terminal/Examples.antt =====
-- Tests of the terminal's state machines, after those of crates/lmux/src/pane.rs, and the theorems at
-- concrete output.
use lmux.Prelude.{
  ℕ, ◌+◌, ◌-◌, min, true, false, none, some, ◌⊎◌, List, [], ◌∷◌, ◌≡◌, refl, arith, length, nat_eq,
}
use lmux.Bus.Kinds.{TranscriptLine}
use lmux.Terminal.Bell.{at_rest, scan, scan_from, step}
use lmux.Terminal.Transcript.{
  TranscriptBuffer, new, append_line, append_text, trim_newline, capture_since,
}
use lmux.Terminal.Transcript.Window.{IsWindow, Run, append_line-IsWindow}
use lmux.Terminal.Transcript.Reads.{capture_since_complete, limited}

-- `ESC ] 0 ; x BEL`.
abbrev title : List ℕ
title = 0x1b ∷ b']' ∷ b'0' ∷ b';' ∷ b'x' ∷ 0x07 ∷ []

counts_bare_bells : (scan at_rest (b'a' ∷ 0x07 ∷ b'b' ∷ 0x07 ∷ [])).1 ≡ 2
unfolding scan scan_from step
counts_bare_bells = refl

title_is_silent : scan at_rest title ≡ (at_rest, 0)
unfolding scan scan_from step
title_is_silent = refl

-- Three lines were written, and two are kept.
abbrev line : ℕ → TranscriptLine
line n = record { sequence = n; unix_millis = n; text = b'l' ∷ [] }

abbrev kept_two : TranscriptBuffer
kept_two = record {
  max_lines = 2;
  next_sequence = 4;
  dropped_before = 2;
  lines = line 2 ∷ line 3 ∷ [];
}

kept_two-IsWindow : IsWindow kept_two
kept_two-IsWindow = omega arith

written_so :
    append_line (append_line (append_line (new 2) (b'l' ∷ []) 1) (b'l' ∷ []) 2) (b'l' ∷ []) 3
    ≡ kept_two
unfolding append_line new
written_so = refl

-- `"a\r\n\nb"`: the blank line is skipped, and the last one needs no newline.
text_is_split :
    (append_text (new 5) (b'a' ∷ 0x0d ∷ 0x0a ∷ 0x0a ∷ b'b' ∷ []) 9).lines
    ≡ record { sequence = 1; unix_millis = 9; text = b'a' ∷ [] }
      ∷ record { sequence = 2; unix_millis = 9; text = b'b' ∷ [] }
      ∷ []
unfolding append_text append_line trim_newline new
text_is_split = refl

append_line-IsWindow_example :
    IsWindow (append_line kept_two (b'm' ∷ []) 4)
    × ((append_line kept_two (b'm' ∷ []) 4).next_sequence ≡ 4 + 1)
    × (length (append_line kept_two (b'm' ∷ []) 4).lines ≡ min 2 (2 + 1))
append_line-IsWindow_example =
    append_line-IsWindow kept_two (b'm' ∷ []) 4 kept_two-IsWindow (omega arith)

-- Line 1 is no longer kept, and line 2 is: after 1 the mark is set and no line is missed; from the
-- start there is no mark.
capture_since_complete_example :
    Run 2 (capture_since kept_two 9 none (some 1)).lines
    × (length (capture_since kept_two 9 none (some 1)).lines ≡ limited (some 1) (4 - 2))
    × (((capture_since kept_two 9 none (some 1)).truncated ≡ true)
        ⊎ ((◌≡◌ {A = ℕ} 0 0) ⊎ (◌≡◌ {A = ℕ} 2 (0 + 1))))
capture_since_complete_example = capture_since_complete kept_two 9 none (some 1) kept_two-IsWindow

marks_the_first_kept :
    ((capture_since kept_two 9 (some 1) none).truncated ≡ true)
    × ((capture_since kept_two 9 none none).truncated ≡ false)
unfolding capture_since
marks_the_first_kept = (refl, refl)
