-- ===== src/State/AtomicWrite/Calm.antt =====
-- The writer where no call fails.
use lmux.Prelude.{
  ℕ, zero, suc, ◌+◌, some, [], nat_eq, list_eq, Text, ok, err, length, lookup, ◌≡◌, ◌⊎◌, inl, inr,
  refl, arith, Option-cases,
}
use lmux.State.Disk.{IoError, Disk, create_new, write_all, rename_file, touch_nothing}
use lmux.State.AtomicWrite.{out_of_fuel, tmp_name, open_tmp, replace_by, fill, write_bytes}
use lmux.State.AtomicWrite.Loop.{write_bytes-ends}
use lmux.State.AtomicWrite.Atomic.{fill-content}

-- No call is going to fail.
abbrev pub Calm : Disk → Type 0
Calm d = d.faults ≡ []

touch-Calm : (d : Disk) → Calm d → ((touch_nothing d).0 ≡ ok tt) × Calm (touch_nothing d).1
unfolding touch_nothing
touch-Calm d h = (ground arith, ground arith)

create_new-Calm :
    (tmp : Text) (d : Disk)
    → Calm d
    → (((create_new tmp d).0 ≡ ok tt) ⊎ ((create_new tmp d).0 ≡ err IoError.already_exists))
      × Calm (create_new tmp d).1
unfolding create_new
create_new-Calm tmp d h = elim (Option-cases (lookup tmp d.files)) [
  | inl e ↦ (inl (ground arith), ground arith)
  | inr (b, e) ↦ (inr (ground arith), ground arith)
]

open_tmp-Calm :
    (fuel : ℕ) (path : Text) (d : Disk)
    → Calm d
    → (((open_tmp fuel path d).0 ≡ err out_of_fuel)
        ⊎ ((tmp : Text) × ((open_tmp fuel path d).0 ≡ ok tmp)))
      × Calm (open_tmp fuel path d).1
unfolding open_tmp
open_tmp-Calm zero path d h = (inl refl, h)
open_tmp-Calm (suc fuel) path d h =
    let d0 : Disk = record d { temp_counter = d.temp_counter + 1 } in
    let tmp = tmp_name path d.pid d.temp_counter in
    let d' = (create_new tmp d0).1 in
    let (answer, calm) = create_new-Calm tmp d0 h in
    elim answer [
      | inl e ↦ (inr (tmp, ground arith), ground arith)
      | inr e ↦ rw e (open_tmp-Calm fuel path d' calm)
    ]

fill-Calm :
    (tmp bytes : Text) (d : Disk)
    → Calm d
    → ((fill tmp bytes d).0 ≡ ok tt) × Calm (fill tmp bytes d).1
unfolding fill write_all touch_nothing
fill-Calm tmp bytes d h = (ground arith, ground arith)

replace_by-Calm :
    (path tmp bytes : Text) (d : Disk)
    → Calm d
    → lookup tmp d.files ≡ some bytes
    → ((replace_by path tmp d).0 ≡ ok tt) × Calm (replace_by path tmp d).1
unfolding replace_by rename_file touch_nothing
replace_by-Calm path tmp bytes d h at = (ground arith, ground arith)

-- Where no call fails, a write reports success, and no later call is going to fail.
pub write_bytes-Calm :
    (path bytes : Text) (d : Disk)
    → Calm d
    → ((write_bytes path bytes d).0 ≡ ok tt) × Calm (write_bytes path bytes d).1
unfolding write_bytes
write_bytes-Calm path bytes d h =
    let d1 = (touch_nothing d).1 in
    let fuel = suc (length d.files) in
    let d2 = (open_tmp fuel path d1).1 in
    let (fine, calm) = touch-Calm d h in
    let (found, calm') = open_tmp-Calm fuel path d1 calm in
    elim found [
      | inl stuck ↦ absurd (write_bytes-ends path bytes d (unfold write_bytes in ground arith))
      | inr (tmp, e) ↦
          let (filled, calm'') = fill-Calm tmp bytes d2 calm' in
          let (put, rest) =
            replace_by-Calm path tmp bytes (fill tmp bytes d2).1 calm''
              (fill-content tmp bytes d2 filled) in
          (ground arith, ground arith)
    ]
