-- ===== src/State/AtomicWrite.antt =====
-- `write_bytes` of crates/lmux-state/src/atomic_write.rs: temporary file, sync and rename. The path
-- is a name in the directory, so it has a parent, and `NoParent` does not arise. The loop that looks
-- for an unused temporary name has fuel: one round more than there are files.
pub mod Atomic
pub mod Loop
pub mod Calm
use lmux.Prelude.{ℕ, zero, suc, ◌+◌, List, [], ◌∷◌, ◌++◌, Text, Result, ok, err, length}
use lmux.State.Disk.{
  IoError, already_exists, not_found, other, Disk, Io, ◌>>=◌, ◌>>◌, pure, throw, map_err,
  create_new, write_all, rename_file, remove_file, touch_nothing, to_string,
}

pub data WriteError : Type 0 where
  io : IoError → WriteError
  out_of_fuel : WriteError

-- `".tmp."`.
abbrev pub tmp_infix : Text
tmp_infix = b'.' ∷ b't' ∷ b'm' ∷ b'p' ∷ b'.' ∷ []

unfoldable pub tmp_name : Text → ℕ → ℕ → Text
tmp_name path pid n = path ++ (tmp_infix ++ (to_string pid ++ (b'.' ∷ to_string n)))

-- What the loop does with the answer to `create_new`.
abbrev opened : Io WriteError Text → Text → Result IoError (Unit {0}) → Io WriteError Text
opened retry tmp (ok done) d = (ok tmp, d)
opened retry tmp (err already_exists) d = retry d
opened retry tmp (err not_found) d = (err (io not_found), d)
opened retry tmp (err other) d = (err (io other), d)

unfoldable pub open_tmp : ℕ → Text → Io WriteError Text
open_tmp zero path d = (err out_of_fuel, d)
open_tmp (suc fuel) path d =
    let tmp = tmp_name path d.pid d.temp_counter in
    let (r, d') = create_new tmp (record d { temp_counter = d.temp_counter + 1 }) in
    opened (open_tmp fuel path) tmp r d'

-- A failed rename takes the temporary file away, and reports the rename's error.
abbrev renamed : Text → Result IoError (Unit {0}) → Io WriteError (Unit {0})
renamed tmp (ok done) d = map_err io (do touch_nothing; touch_nothing) d
renamed tmp (err e) d = (err (io e), (remove_file tmp d).1)

unfoldable pub replace_by : Text → Text → Io WriteError (Unit {0})
replace_by path tmp d = let (r, d') = rename_file tmp path d in renamed tmp r d'

unfoldable pub fill : Text → Text → Io WriteError (Unit {0})
fill tmp bytes = map_err io (do write_all tmp bytes; touch_nothing)

unfoldable pub write_bytes : Text → Text → Io WriteError (Unit {0})
unfolding open_tmp replace_by fill
write_bytes path bytes d =
    (do
      map_err io touch_nothing
      tmp ← open_tmp (suc (length d.files)) path
      fill tmp bytes
      replace_by path tmp)
      d
