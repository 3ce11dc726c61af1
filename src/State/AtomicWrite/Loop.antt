-- ===== src/State/AtomicWrite/Loop.antt =====
-- The loop of the writer ends: a directory with n files has at most n of the names that it tries.
use lmux.Prelude.{
  ℕ, zero, suc, ◌+◌, ◌<◌, ◌≤◌, true, false, List, [], ◌∷◌, ◌++◌, ◌==◌, nat_eq, list_eq,
  list_beq_iff, Text, Result, ok, err, length, lookup, erase, lookup-erase, ◌≡◌, ◌≢◌, inl, inr,
  refl, arith, nat_beq, Result-cases, Bool-cases, is_some,
}
use lmux.State.Disk.{
  IoError, already_exists, not_found, other, Disk, Io, create_new, touch_nothing, to_string,
  to_string-injective,
}
use lmux.State.AtomicWrite.{
  WriteError, out_of_fuel, tmp_name, open_tmp, replace_by, fill, write_bytes, opened, tmp_infix,
}

-- Two lists with the same front.
append_cancel : (s t u : Text) → s ++ t ≡ s ++ u → t ≡ u
append_cancel [] t u h = h
append_cancel (x ∷ s) t u h = append_cancel s t u (cc)

tmp_name-injective : (path : Text) (pid m n : ℕ) → tmp_name path pid m ≡ tmp_name path pid n → m ≡ n
unfolding tmp_name
tmp_name-injective path pid m n h =
    let s =
      append_cancel path (tmp_infix ++ (to_string pid ++ b'.' ∷ to_string m))
        (tmp_infix ++ (to_string pid ++ b'.' ∷ to_string n)) h in
    let t =
      append_cancel tmp_infix (to_string pid ++ b'.' ∷ to_string m)
        (to_string pid ++ b'.' ∷ to_string n) s in
    let u = append_cancel (to_string pid) (b'.' ∷ to_string m) (b'.' ∷ to_string n) t in
    to_string-injective m n cc

tmp_name-apart :
    (path : Text) (pid m n : ℕ) → m < n → (tmp_name path pid m == tmp_name path pid n) ≡ false
tmp_name-apart path pid m n h = elim (Bool-cases (tmp_name path pid m == tmp_name path pid n)) [
  | inl e ↦ absurd (
      let same =
        tmp_name-injective path pid m n
          ((list_beq_iff (tmp_name path pid m) (tmp_name path pid n)).0 e) in
      omega arith)
  | inr e ↦ e
]

length-erase-≤ : (k : Text) (m : List (Text × Text)) → length (erase k m) ≤ length m
length-erase-≤ k [] = omega arith
length-erase-≤ k ((j, w) ∷ m) = ground (arith, length-erase-≤ k m)

length-erase :
    (k : Text) (m : List (Text × Text))
    → is_some (lookup k m) ≡ true
    → length (erase k m) < length m
length-erase k [] h = cc
length-erase k ((j, w) ∷ m) h = ground (arith, length-erase k m, length-erase-≤ k m)

-- The names with the next counters are all taken.
Taken : Text → ℕ → ℕ → ℕ → List (Text × Text) → Type 0
Taken path pid fuel c files =
    (j : ℕ) → c ≤ j → j < c + fuel → is_some (lookup (tmp_name path pid j) files) ≡ true

pigeonhole :
    (path : Text) (pid fuel c : ℕ) (files : List (Text × Text))
    → Taken path pid fuel c files
    → fuel ≤ length files
unfolding Taken
pigeonhole path pid zero c files h = omega arith
pigeonhole path pid (suc fuel) c files h =
    let first = tmp_name path pid c in
    let rest : Taken path pid fuel (suc c) (erase first files) = λ j above below. ground (
      arith,
      lookup-erase first (tmp_name path pid j) files,
      tmp_name-apart path pid c j (omega arith),
      h j (omega arith) (omega arith),
    ) in
    omega (
      arith,
      pigeonhole path pid fuel (suc c) (erase first files) rest,
      length-erase first files (h c (omega arith) (omega arith)),
    )

create_new-taken :
    (tmp : Text) (d : Disk)
    → (create_new tmp d).0 ≡ err already_exists
    → (is_some (lookup tmp d.files) ≡ true)
      × ((create_new tmp d).1.files ≡ d.files)
      × ((create_new tmp d).1.temp_counter ≡ d.temp_counter)
      × ((create_new tmp d).1.pid ≡ d.pid)
unfolding create_new
create_new-taken tmp d h = (ground arith, ground arith, ground arith, ground arith)

opened-out_of_fuel :
    (retry : Io WriteError Text) (tmp : Text) (r : Result IoError (Unit {0})) (d : Disk)
    → (opened retry tmp r d).0 ≡ err out_of_fuel
    → (r ≡ err already_exists) × ((retry d).0 ≡ err out_of_fuel)
opened-out_of_fuel retry tmp (ok done) d h = absurd cc
opened-out_of_fuel retry tmp (err already_exists) d h = (refl, h)
opened-out_of_fuel retry tmp (err not_found) d h = absurd cc
opened-out_of_fuel retry tmp (err other) d h = absurd cc

open_tmp-Taken :
    (fuel : ℕ) (path : Text) (d : Disk)
    → (open_tmp fuel path d).0 ≡ err out_of_fuel
    → Taken path d.pid fuel d.temp_counter d.files
unfolding Taken open_tmp
open_tmp-Taken zero path d h j above below = absurd (omega arith)
open_tmp-Taken (suc fuel) path d h j above below =
    let d0 : Disk = record d { temp_counter = d.temp_counter + 1 } in
    let tmp = tmp_name path d.pid d.temp_counter in
    let d' = (create_new tmp d0).1 in
    let (r, stuck) = opened-out_of_fuel (open_tmp fuel path) tmp (create_new tmp d0).0 d' h in
    let (here, same, counter, process) = create_new-taken tmp d0 r in
    elim (Bool-cases (nat_beq j d.temp_counter)) [
      | inl e ↦ let at : j ≡ d.temp_counter = ground arith in rw at here
      | inr e ↦
          let later = open_tmp-Taken fuel path d' stuck j (ground arith) (ground arith) in
          ground arith
    ]

-- Enough fuel: with one round for each file of the directory and one more, the loop that looks for
-- an unused temporary name never ends for want of fuel.
pub open_tmp-ends :
    (fuel : ℕ) (path : Text) (d : Disk)
    → length d.files < fuel
    → (open_tmp fuel path d).0 ≢ err out_of_fuel
open_tmp-ends fuel path d small stuck =
    omega
      (arith, pigeonhole path d.pid fuel d.temp_counter d.files (open_tmp-Taken fuel path d stuck))

touch_same : (d : Disk) → ((touch_nothing d).1.files ≡ d.files)
unfolding touch_nothing
touch_same d = ground arith

fill-ends : (tmp bytes : Text) (d : Disk) → (fill tmp bytes d).0 ≢ err out_of_fuel
unfolding fill
fill-ends tmp bytes d h = ground arith

replace_by-ends : (path tmp : Text) (d : Disk) → (replace_by path tmp d).0 ≢ err out_of_fuel
unfolding replace_by
replace_by-ends path tmp d h = ground arith

-- The fuel that the writer gives its loop, one round more than there are files, is enough: no write
-- ends for want of it.
pub write_bytes-ends :
    (path bytes : Text) (d : Disk) → (write_bytes path bytes d).0 ≢ err out_of_fuel
unfolding write_bytes
write_bytes-ends path bytes d h =
    let d1 = (touch_nothing d).1 in
    let fuel = suc (length d.files) in
    let d2 = (open_tmp fuel path d1).1 in
    elim (Result-cases (touch_nothing d).0) [
      | inr (x, e) ↦ ground arith
      | inl (done, e) ↦ elim (Result-cases (open_tmp fuel path d1).0) [
        | inr (x, f) ↦ open_tmp-ends fuel path d1 (ground (arith, touch_same d)) (ground arith)
        | inl (tmp, f) ↦
            ground (arith, fill-ends tmp bytes d2, replace_by-ends path tmp (fill tmp bytes d2).1)
      ]
    ]
