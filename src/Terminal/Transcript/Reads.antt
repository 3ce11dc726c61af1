-- ===== src/Terminal/Transcript/Reads.antt =====
-- What a reader of the transcript gets: `capture_since` and `tail`.
use lmux.Prelude.{
  ℕ, zero, suc, ◌+◌, ◌-◌, ◌≤◌, ◌<◌, min, true, false, Option, none, some, List, [], ◌∷◌, ◌≡◌, refl,
  arith, ap, subst, length-drop, ◌∙◌, length, take, drop, retain, ltb, Bool-cases, inl, inr,
  unwrap_or, ◌⊎◌, if◌then◌else◌,
}
use lmux.Bus.Kinds.{TranscriptLine}
use lmux.Terminal.Transcript.{TranscriptBuffer, capture_since, tail, take_some}
use lmux.Terminal.Transcript.Window.{Run, IsWindow}

abbrev newer : ℕ → List TranscriptLine → List TranscriptLine
newer since lines = retain (λ (line : TranscriptLine). ltb since line.sequence) lines

Run-at : (n m : ℕ) (lines : List TranscriptLine) → n ≡ m → Run n lines → Run m lines
Run-at n m lines e r = subst (λ k. Run k lines) e r

-- All lines are newer than what came before the window.
newer_all :
    (since n : ℕ) (lines : List TranscriptLine)
    → Run n lines
    → since < n
    → newer since lines ≡ lines
newer_all since n [] r h = refl
newer_all since n (x ∷ lines) r h =
    let ih = newer_all since (suc n) lines r.1 (omega arith) in
    let e : ltb since x.sequence ≡ true = ground arith in rw (e, ih)

newer-Run :
    (since n : ℕ) (lines : List TranscriptLine)
    → Run n lines
    → n ≤ since + 1
    → Run (since + 1) (newer since lines)
      × (length (newer since lines) ≡ n + length lines - (since + 1))
newer-Run since n [] r h = (tt, omega arith)
newer-Run since n (x ∷ lines) r h = elim (Bool-cases (ltb since x.sequence)) [
  | inl e ↦
      let at : n ≡ since + 1 = ground arith in
      let all = newer_all since (suc n) lines r.1 (omega arith) in
      rw (e, all)
        ((ground arith, Run-at (suc n) (suc (since + 1)) lines (ap suc at) r.1), omega arith)
  | inr e ↦
      let ih = newer-Run since (suc n) lines r.1 (ground arith) in rw e (ih.0, omega (arith, ih.1))
]

take-Run : (k n : ℕ) (lines : List TranscriptLine) → Run n lines → Run n (take k lines)
take-Run zero n lines r = tt
take-Run (suc k) n [] r = tt
take-Run (suc k) n (x ∷ lines) r = (r.0, take-Run k (suc n) lines r.1)

drop-Run : (k n : ℕ) (lines : List TranscriptLine) → Run n lines → Run (n + k) (drop k lines)
drop-Run zero n lines r = Run-at n (n + 0) lines (omega arith) r
drop-Run (suc k) n [] r = tt
drop-Run (suc k) n (x ∷ lines) r =
    Run-at (suc n + k) (n + suc k) (drop k lines) (omega arith) (drop-Run k (suc n) lines r.1)

length-take : (k : ℕ) (lines : List TranscriptLine) → length (take k lines) ≡ min k (length lines)
length-take zero lines = omega arith
length-take (suc k) [] = omega arith
length-take (suc k) (x ∷ lines) = omega (arith, length-take k lines)

-- At most `max_lines` of `n` lines.
abbrev pub limited : Option ℕ → ℕ → ℕ
limited none n = n
limited (some max) n = min max n

take_some-Run :
    (max : Option ℕ) (n : ℕ) (lines : List TranscriptLine)
    → Run n lines
    → Run n (take_some max lines) × (length (take_some max lines) ≡ limited max (length lines))
take_some-Run none n lines r = (r, refl)
take_some-Run (some max) n lines r = (take-Run max n lines r, length-take max lines)

-- The oldest line after `since` that is kept, or the next one to come.
abbrev oldest : ℕ → TranscriptBuffer → ℕ
oldest since t = if ltb since t.dropped_before then t.dropped_before else since + 1

newer-oldest :
    (t : TranscriptBuffer) (since : ℕ)
    → IsWindow t
    → Run (oldest since t) (newer since t.lines)
      × (length (newer since t.lines) ≡ t.next_sequence - oldest since t)
newer-oldest t since w = elim (Bool-cases (ltb since t.dropped_before)) [
  | inl e ↦
      let all = newer_all since t.dropped_before t.lines w.gapless (ground arith) in
      rw (e, all) (w.gapless, omega (arith, w.counted))
  | inr e ↦
      let (run, size) = newer-Run since t.dropped_before t.lines w.gapless (ground arith) in
      rw e (run, omega (arith, size, w.counted))
]

-- A capture of a transcript whose kept lines are a gapless window of the sequence numbers, since a
-- number or since none (which is 0), starts at the oldest kept line after that number and goes on
-- with no gap, for all lines that are kept or as many as it is asked for. That oldest line is the one
-- right after the number, unless the capture is marked truncated or is since 0.
pub capture_since_complete :
    (t : TranscriptBuffer) (pane_id : ℕ) (asked max : Option ℕ)
    → IsWindow t
    → Run (oldest (unwrap_or asked 0) t) (capture_since t pane_id asked max).lines
      × (length (capture_since t pane_id asked max).lines
          ≡ limited max (t.next_sequence - oldest (unwrap_or asked 0) t))
      × (((capture_since t pane_id asked max).truncated ≡ true)
          ⊎ ((unwrap_or asked 0 ≡ 0) ⊎ (oldest (unwrap_or asked 0) t ≡ unwrap_or asked 0 + 1)))
unfolding capture_since
capture_since_complete t pane_id asked max w =
    let since = unwrap_or asked 0 in
    let (run, size) = newer-oldest t since w in
    let (run', size') = take_some-Run max (oldest since t) (newer since t.lines) run in
    (
      run',
      size' ∙ ap (limited max) size,
      elim (Bool-cases (ltb 0 since)) [
        | inr e ↦ inr (inl (ground arith))
        | inl e ↦ elim (Bool-cases (ltb since t.dropped_before)) [
          | inl e' ↦ inl (rw (e, e') refl)
          | inr e' ↦ inr (inr (rw e' refl))
        ]
      ],
    )

-- A reader that has seen every dropped line and no other, `since + 1` being the first kept line, is
-- told that its capture is truncated, and yet gets the lines from `since + 1` on with no gap, all of
-- them.
pub capture_since-false_alarm :
    (t : TranscriptBuffer) (pane_id since : ℕ)
    → IsWindow t
    → 0 < since
    → since + 1 ≡ t.dropped_before
    → ((capture_since t pane_id (some since) none).truncated ≡ true)
      × Run (since + 1) (capture_since t pane_id (some since) none).lines
      × (length (capture_since t pane_id (some since) none).lines ≡ t.next_sequence - (since + 1))
unfolding capture_since
capture_since-false_alarm t pane_id since w pos edge =
    let (run, size) = newer-Run since t.dropped_before t.lines w.gapless (omega arith) in
    (ground arith, run, omega (arith, size, w.counted))

-- `tail` gives the last lines, with no gap up to the newest, as many as asked for or all that are
-- kept, and is never marked truncated.
pub tail-Run :
    (t : TranscriptBuffer) (pane_id max_lines : ℕ)
    → IsWindow t
    → Run (t.next_sequence - min max_lines (length t.lines)) (tail t pane_id max_lines).lines
      × (length (tail t pane_id max_lines).lines ≡ min max_lines (length t.lines))
      × ((tail t pane_id max_lines).truncated ≡ false)
unfolding tail
tail-Run t pane_id max_lines w =
    let start = length t.lines - max_lines in
    (
      Run-at (t.dropped_before + start) _ (drop start t.lines) (omega (arith, w.counted))
          (drop-Run start t.dropped_before t.lines w.gapless),
      omega (arith, length-drop start t.lines),
      refl,
    )
