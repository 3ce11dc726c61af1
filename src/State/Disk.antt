-- ===== src/State/Disk.antt =====
-- The calls of `std::fs` and the clock that the stores make, on one directory. A file is a name and
-- its bytes. What the environment decides is part of the state: `faults` says for each coming call
-- whether it fails (`some k`: it does, a write after k bytes), and no entry means that it succeeds.
mod Decimal
unfoldable pub use Decimal.*
use lmux.Prelude.{
  ℕ, suc, ◌+◌, Bool, true, false, Option, none, some, List, [], ◌∷◌, ◌++◌, ◌==◌, nat_eq, list_eq,
  Text, if◌then◌else◌, lookup, insert, erase, is_some, take, Result, ok, err, contains, keys,
}

pub data IoError : Type 0 where
  not_found already_exists other : IoError

pub record Disk : Type 0 where
  pub files : List (Text × Text)
  pub faults : List (Option ℕ)
  pub clock : ℕ
  pub temp_counter : ℕ
  pub pid : ℕ

-- A computation that may fail, and keeps what it did to the disk where it does.
abbrev pub Io : Type 0 → Type 0 → Type 0
Io E A = Disk → Result E A × Disk

infixl 5 ◌>>=◌ ◌>>◌
abbrev pub ◌>>=◌ : {E A B : Type 0} → Io E A → (A → Io E B) → Io E B
◌>>=◌ m f d = let (r, d') = m d in elim r [ ok a ↦ f a d' | err e ↦ (err e, d') ]

abbrev pub ◌>>◌ : {E B : Type 0} → Io E (Unit {0}) → Io E B → Io E B
m >> k = m >>= λ _. k

abbrev pub pure : {E A : Type 0} → A → Io E A
pure a d = (ok a, d)

abbrev pub throw : {E A : Type 0} → E → Io E A
throw e d = (err e, d)

abbrev pub map_err : {E F A : Type 0} → (E → F) → Io E A → Io F A
map_err g m d = let (r, d') = m d in elim r [ ok a ↦ (ok a, d') | err e ↦ (err (g e), d') ]

-- Takes the fate of the next call.
abbrev pub next_fault : List (Option ℕ) → Option ℕ
next_fault [] = none
next_fault (f ∷ fs) = f

abbrev pub later_faults : List (Option ℕ) → List (Option ℕ)
later_faults [] = []
later_faults (f ∷ fs) = fs

abbrev pub call : {A : Type 0} → (Disk → Result IoError A × Disk) → Io IoError A
call act d =
    let d' = record d { faults = later_faults d.faults } in
    elim (next_fault d.faults) [ none ↦ act d' | some k ↦ (err other, d') ]

unfoldable pub read : Text → Io IoError Text
read name =
    call λ d. elim (lookup name d.files) [ none ↦ (err not_found, d) | some bytes ↦ (ok bytes, d) ]

-- `Path::exists` is false where the call fails.
unfoldable pub exists : {E : Type 0} → Text → Io E Bool
exists name d =
    let d' = record d { faults = later_faults d.faults } in
    elim (next_fault d.faults) [
      | none ↦ (ok (is_some (lookup name d.files)), d')
      | some k ↦ (ok false, d')
    ]

unfoldable pub remove_file : Text → Io IoError (Unit {0})
remove_file name = call λ d. elim (lookup name d.files) [
  | none ↦ (err not_found, d)
  | some bytes ↦ (ok tt, record d { files = erase name d.files })
]

-- `fs::rename` replaces a file that is there.
unfoldable pub rename_file : Text → Text → Io IoError (Unit {0})
rename_file from to = call λ d. elim (lookup from d.files) [
  | none ↦ (err not_found, d)
  | some bytes ↦ (ok tt, record d { files = insert to bytes (erase from d.files) })
]

-- `OpenOptions::create_new`.
unfoldable pub create_new : Text → Io IoError (Unit {0})
create_new name = call λ d. elim (lookup name d.files) [
  | none ↦ (ok tt, record d { files = insert name [] d.files })
  | some bytes ↦ (err already_exists, d)
]

-- `write_all` to the file just created: where it fails a part may be written.
unfoldable pub write_all : Text → Text → Io IoError (Unit {0})
write_all name bytes d =
    let d' = record d { faults = later_faults d.faults } in
    elim (next_fault d.faults) [
      | none ↦ (ok tt, record d' { files = insert name bytes d.files })
      | some k ↦ (err other, record d' { files = insert name (take k bytes) d.files })
    ]

-- `create_dir_all`, `sync_all` and the opening of the directory leave the files as they are.
unfoldable pub touch_nothing : Io IoError (Unit {0})
touch_nothing = call (pure tt)

unfoldable pub now_unix_seconds : {E : Type 0} → Io E ℕ
now_unix_seconds d = (ok d.clock, d)

abbrev local : List Text → List Text
local [] = []
local (k ∷ ks) = if contains b'/' k then local ks else k ∷ local ks

-- The files of the directory itself: those whose path has no slash.
unfoldable pub read_dir : Io IoError (List Text)
read_dir = call λ d. (ok (local (keys d.files)), d)
