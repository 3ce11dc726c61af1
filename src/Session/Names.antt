-- ===== src/Session/Names.antt =====
-- The names of the store's files: a session's file is no temporary file of another.
use lmux.Prelude.{
  ℕ, ◌≤◌, false, [], ◌∷◌, ◌++◌, ◌==◌, list_eq, list_beq_iff, nat_eq, Text, ◌≡◌, arith, inl, inr,
  Bool-cases, ap, ◌∙◌,
}
use lmux.State.Disk.{to_string, last_or, last_or-append, last_or-to_string}
use lmux.State.AtomicWrite.{tmp_name}
use lmux.State.Load.{aside_name}
use lmux.State.AtomicWrite.Atomic.{NoTemp}
use lmux.Session.Store.{session_path}

last_or-tmp_name : (path : Text) (pid n : ℕ) → last_or 0 (tmp_name path pid n) ≤ 57
unfolding tmp_name
last_or-tmp_name path pid n =
    rw
      (
        last_or-append 0 b'.' path
            (b't' ∷ b'm' ∷ b'p' ∷ b'.' ∷ (to_string pid ++ b'.' ∷ to_string n)),
        last_or-append b'.' b'.' (to_string pid) (to_string n),
      )
      (last_or-to_string b'.' n (omega arith))

-- The names of the sessions' files end in a letter, those of the temporary files in a digit.
pub session_path-NoTemp : (path name : Text) (pid : ℕ) → NoTemp path pid (session_path name)
session_path-NoTemp path name pid n = elim (Bool-cases (tmp_name path pid n == session_path name)) [
  | inr e ↦ e
  | inl e ↦ absurd (
      let same = (list_beq_iff (tmp_name path pid n) (session_path name)).0 e in
      let letter =
        ap (last_or 0) same ∙ last_or-append 0 b'.' name (b't' ∷ b'o' ∷ b'm' ∷ b'l' ∷ []) in
      omega (arith, last_or-tmp_name path pid n, letter))
]

last_or-aside_name : (path : Text) (ts : ℕ) → last_or 0 (aside_name path ts) ≤ 57
last_or-aside_name path ts =
    rw (last_or-append 0 b'.' path (b'b' ∷ b'a' ∷ b'd' ∷ b'.' ∷ to_string ts))
      (last_or-to_string b'.' ts (omega arith))

-- Nor is it a file set aside.
pub session_path-not_aside :
    (path name : Text) (ts : ℕ) → (aside_name path ts == session_path name) ≡ false
session_path-not_aside path name ts = elim (Bool-cases (aside_name path ts == session_path name)) [
  | inr e ↦ e
  | inl e ↦ absurd (
      let same = (list_beq_iff (aside_name path ts) (session_path name)).0 e in
      let letter =
        ap (last_or 0) same ∙ last_or-append 0 b'.' name (b't' ∷ b'o' ∷ b'm' ∷ b'l' ∷ []) in
      omega (arith, last_or-aside_name path ts, letter))
]
