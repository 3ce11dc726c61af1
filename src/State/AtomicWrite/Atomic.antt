-- ===== src/State/AtomicWrite/Atomic.antt =====
-- The writer is atomic: whatever call fails, the file has its old content or all of the new one.
use lmux.Prelude.{
  ℕ, zero, suc, ◌+◌, false, Option, some, [], ◌∷◌, ◌++◌, ◌==◌, nat_eq, list_eq, list_beq_iff,
  beq_self, Text, Result, ok, err, length, lookup, erase, lookup-insert, lookup-erase,
  length-append, ◌≡◌, ◌≢◌, ◌⊎◌, inl, inr, refl, arith, take, Option-cases, Result-cases, ap,
}
use lmux.State.Disk.{
  IoError, other, Disk, Io, ◌>>=◌, ◌>>◌, map_err, create_new, write_all, rename_file, remove_file,
  touch_nothing, next_fault, to_string,
}
use lmux.State.AtomicWrite.{
  WriteError, io, tmp_name, open_tmp, replace_by, fill, write_bytes, tmp_infix,
}

list_eq_ne : (s t : Text) → s ≢ t → (s == t) ≡ false
list_eq_ne s t h = ground (arith, list_beq_iff s t)

-- A file that a call does not name.
module _ (q tmp : Text) (ne : (tmp == q) ≡ false) where
  write_all-frame :
      (bytes : Text) (d : Disk) → lookup q (write_all tmp bytes d).1.files ≡ lookup q d.files
  unfolding write_all
  write_all-frame bytes d = elim (Option-cases (next_fault d.faults)) [
    | inl e ↦ ground (arith, lookup-insert tmp q bytes d.files)
    | inr (k, e) ↦ ground (arith, lookup-insert tmp q (take k bytes) d.files)
  ]

  create_new-frame : (d : Disk) → lookup q (create_new tmp d).1.files ≡ lookup q d.files
  unfolding create_new
  create_new-frame d = ground (arith, lookup-insert tmp q [] d.files)

  remove_file-frame : (d : Disk) → lookup q (remove_file tmp d).1.files ≡ lookup q d.files
  unfolding remove_file
  remove_file-frame d = ground (arith, lookup-erase tmp q d.files)

touch-frame : (d : Disk) → (touch_nothing d).1.files ≡ d.files
unfolding touch_nothing
touch-frame d = ground arith

write_all-content :
    (tmp bytes : Text) (d : Disk)
    → (write_all tmp bytes d).0 ≡ ok tt
    → lookup tmp (write_all tmp bytes d).1.files ≡ some bytes
unfolding write_all
write_all-content tmp bytes d h = ground (arith, lookup-insert tmp tmp bytes d.files, beq_self tmp)

-- A rename: what the target holds afterwards, and that a failed one changes nothing.
rename-target :
    (tmp path bytes : Text) (d : Disk)
    → lookup tmp d.files ≡ some bytes
    → (((rename_file tmp path d).0 ≡ ok tt)
        × (lookup path (rename_file tmp path d).1.files ≡ some bytes))
      ⊎ ((e : IoError) × ((rename_file tmp path d).0 ≡ err e)
          × ((rename_file tmp path d).1.files ≡ d.files))
unfolding rename_file
rename-target tmp path bytes d h = elim (Option-cases (next_fault d.faults)) [
  | inl e ↦ inl (
    ground arith,
    ground (arith, lookup-insert path path bytes (erase tmp d.files), beq_self path),
  )
  | inr (k, e) ↦ inr (other, ground arith, ground arith)
]

rename-frame :
    (q tmp path : Text) (d : Disk)
    → (tmp == q) ≡ false
    → (path == q) ≡ false
    → lookup q (rename_file tmp path d).1.files ≡ lookup q d.files
unfolding rename_file
rename-frame q tmp path d n m = elim (Option-cases (lookup tmp d.files)) [
  | inl e ↦ ground arith
  | inr (bytes, e) ↦
      ground (arith, lookup-insert path q bytes (erase tmp d.files), lookup-erase tmp q d.files)
]

-- A file that is neither the path nor the temporary file, through `fill` and `replace_by`.
fill-frame :
    (q tmp bytes : Text) (d : Disk)
    → (tmp == q) ≡ false
    → lookup q (fill tmp bytes d).1.files ≡ lookup q d.files
unfolding fill
fill-frame q tmp bytes d n =
    ground (arith, write_all-frame q tmp n bytes d, touch-frame (write_all tmp bytes d).1)

pub fill-content :
    (tmp bytes : Text) (d : Disk)
    → (fill tmp bytes d).0 ≡ ok tt
    → lookup tmp (fill tmp bytes d).1.files ≡ some bytes
unfolding fill
fill-content tmp bytes d h =
    ground (arith, write_all-content tmp bytes d, touch-frame (write_all tmp bytes d).1)

replace_by-frame :
    (q tmp path : Text) (d : Disk)
    → (tmp == q) ≡ false
    → (path == q) ≡ false
    → lookup q (replace_by path tmp d).1.files ≡ lookup q d.files
unfolding replace_by
replace_by-frame q tmp path d n m =
    let d' = (rename_file tmp path d).1 in
    ground (
      arith,
      rename-frame q tmp path d n m,
      remove_file-frame q tmp n d',
      touch-frame d',
      touch-frame (touch_nothing d').1,
    )

-- The path after `replace_by`: the new content, or the old one with an error.
replace_by-path :
    (tmp path bytes : Text) (d : Disk)
    → (tmp == path) ≡ false
    → lookup tmp d.files ≡ some bytes
    → (lookup path (replace_by path tmp d).1.files ≡ some bytes)
      ⊎ ((lookup path (replace_by path tmp d).1.files ≡ lookup path d.files)
          × ((e : WriteError) × ((replace_by path tmp d).0 ≡ err e)))
unfolding replace_by
replace_by-path tmp path bytes d n h =
    let d' = (rename_file tmp path d).1 in
    elim (rename-target tmp path bytes d h) [
      | inl (done, at) ↦ inl (ground (arith, touch-frame d', touch-frame (touch_nothing d').1))
      | inr (e, failed, same) ↦
          inr (ground (arith, remove_file-frame path tmp n d'), (io e, ground arith))
    ]

tmp_name-ne : (path : Text) (pid n : ℕ) → (tmp_name path pid n == path) ≡ false
unfolding tmp_name
tmp_name-ne path pid n = list_eq_ne (tmp_name path pid n) path λ e. absurd (
    omega
      (arith, ap length e, length-append path (tmp_infix ++ (to_string pid ++ b'.' ∷ to_string n))))

-- Not the name of a temporary file of the path.
abbrev pub NoTemp : Text → ℕ → Text → Type 0
NoTemp path pid q = (n : ℕ) → (tmp_name path pid n == q) ≡ false

create_new-pid : (tmp : Text) (d : Disk) → (create_new tmp d).1.pid ≡ d.pid
unfolding create_new
create_new-pid tmp d = ground arith

open_tmp-frame :
    (fuel : ℕ) (path q : Text) (d : Disk)
    → NoTemp path d.pid q
    → lookup q (open_tmp fuel path d).1.files ≡ lookup q d.files
unfolding open_tmp
open_tmp-frame zero path q d h = refl
open_tmp-frame (suc fuel) path q d h =
    let d0 : Disk = record d { temp_counter = d.temp_counter + 1 } in
    let tmp = tmp_name path d.pid d.temp_counter in
    let d' = (create_new tmp d0).1 in
    let kept : NoTemp path d'.pid q = λ n. rw (create_new-pid tmp d0) (h n) in
    ground (arith, create_new-frame q tmp (h d.temp_counter) d0, open_tmp-frame fuel path q d' kept)

open_tmp-name :
    (fuel : ℕ) (path q tmp : Text) (d : Disk)
    → NoTemp path d.pid q
    → (open_tmp fuel path d).0 ≡ ok tmp
    → (tmp == q) ≡ false
unfolding open_tmp
open_tmp-name zero path q tmp d h r = cc
open_tmp-name (suc fuel) path q tmp d h r =
    let d0 : Disk = record d { temp_counter = d.temp_counter + 1 } in
    let first = tmp_name path d.pid d.temp_counter in
    let d' = (create_new first d0).1 in
    let kept : NoTemp path d'.pid q = λ n. rw (create_new-pid first d0) (h n) in
    ground (arith, h d.temp_counter, open_tmp-name fuel path q tmp d' kept)

-- The file under a path that had `old`, after a write of `bytes` with the given outcome.
abbrev pub OldOrNew : Text → Text → Option Text → Result WriteError (Unit {0}) × Disk → Type 0
OldOrNew path bytes old r =
    (lookup path r.1.files ≡ some bytes)
    ⊎ ((lookup path r.1.files ≡ old) × ((e : WriteError) × (r.0 ≡ err e)))

write_tmp : Text → Text → Text → Io WriteError (Unit {0})
write_tmp path bytes tmp = do fill tmp bytes; replace_by path tmp

write_tmp-OldOrNew :
    (path bytes tmp : Text) (d : Disk)
    → (tmp == path) ≡ false
    → OldOrNew path bytes (lookup path d.files) (write_tmp path bytes tmp d)
unfolding write_tmp
write_tmp-OldOrNew path bytes tmp d n =
    let d' = (fill tmp bytes d).1 in
    elim (Result-cases (fill tmp bytes d).0) [
      | inl (done, e) ↦
          elim (replace_by-path tmp path bytes d' n (fill-content tmp bytes d (ground arith))) [
            | inl new ↦ inl (ground arith)
            | inr (old, (x, failed)) ↦
                inr (ground (arith, fill-frame path tmp bytes d n), (x, ground arith))
          ]
      | inr (x, e) ↦ inr (ground (arith, fill-frame path tmp bytes d n), (x, ground arith))
    ]

write_tmp-frame :
    (q path bytes tmp : Text) (d : Disk)
    → (tmp == q) ≡ false
    → (path == q) ≡ false
    → lookup q (write_tmp path bytes tmp d).1.files ≡ lookup q d.files
unfolding write_tmp
write_tmp-frame q path bytes tmp d n m =
    ground (arith, fill-frame q tmp bytes d n, replace_by-frame q tmp path (fill tmp bytes d).1 n m)

-- The disk after `create_dir_all`.
touch-pid : (d : Disk) → (touch_nothing d).1.pid ≡ d.pid
unfolding touch_nothing
touch-pid d = ground arith

write_bytes_eq :
    (path bytes : Text) (d : Disk)
    → write_bytes path bytes d
      ≡ (map_err io touch_nothing
            >> (open_tmp (suc (length d.files)) path >>= write_tmp path bytes))
          d
unfolding write_bytes write_tmp
write_bytes_eq path bytes d = refl

-- Whatever call of the write fails, and whatever it fails at, the file then has the new content, or
-- it has its old content (or is absent, as before) and the write reports an error.
pub write_bytes-atomic :
    (path bytes : Text) (d : Disk)
    → OldOrNew path bytes (lookup path d.files) (write_bytes path bytes d)
write_bytes-atomic path bytes d = rw (write_bytes_eq path bytes d) (
    let d1 = (touch_nothing d).1 in
    let fuel = suc (length d.files) in
    let d2 = (open_tmp fuel path d1).1 in
    let other : NoTemp path d1.pid path = λ n. tmp_name-ne path d1.pid n in
    elim (Result-cases (touch_nothing d).0) [
      | inr (x, e) ↦ inr (ground (arith, touch-frame d), (io x, ground arith))
      | inl (done, e) ↦ elim (Result-cases (open_tmp fuel path d1).0) [
        | inr (x, f) ↦ inr (
          ground (arith, touch-frame d, open_tmp-frame fuel path path d1 other),
          (x, ground arith),
        )
        | inl (tmp, f) ↦
            elim (write_tmp-OldOrNew path bytes tmp d2
              (open_tmp-name fuel path path tmp d1 other f)) [
                | inl new ↦ inl (ground arith)
                | inr (old, (x, failed)) ↦ inr (
                  ground (arith, touch-frame d, open_tmp-frame fuel path path d1 other),
                  (x, ground arith),
                )
              ]
      ]
    ])

-- A write touches no other file than the path and its temporary files, whatever call fails.
pub write_bytes-frame :
    (q path bytes : Text) (d : Disk)
    → (path == q) ≡ false
    → NoTemp path d.pid q
    → lookup q (write_bytes path bytes d).1.files ≡ lookup q d.files
write_bytes-frame q path bytes d m h = rw (write_bytes_eq path bytes d) (
    let d1 = (touch_nothing d).1 in
    let fuel = suc (length d.files) in
    let d2 = (open_tmp fuel path d1).1 in
    let other : NoTemp path d1.pid q = λ n. rw (touch-pid d) (h n) in
    elim (Result-cases (touch_nothing d).0) [
      | inr (x, e) ↦ ground (arith, touch-frame d)
      | inl (done, e) ↦ elim (Result-cases (open_tmp fuel path d1).0) [
        | inr (x, f) ↦ ground (arith, touch-frame d, open_tmp-frame fuel path q d1 other)
        | inl (tmp, f) ↦ ground (
          arith,
          touch-frame d,
          open_tmp-frame fuel path q d1 other,
          write_tmp-frame q path bytes tmp d2 (open_tmp-name fuel path q tmp d1 other f) m,
        )
      ]
    ])
