-- ===== src/Session/Collision.antt =====
-- Two runs of the store on which its files get in each other's way: a session called `index`, and
-- the rename of a session whose file is malformed.
use lmux.Prelude.{
  true, false, none, some, nat_eq, list_eq, Text, ok, err, lookup, lookup-erase, beq_self, ◌≡◌,
  refl, arith, ap, ◌∙◌,
}
use lmux.State.Disk.{IoError, Disk, read, exists, remove_file}
use lmux.State.AtomicWrite.Calm.{Calm, write_bytes-Calm}
use lmux.State.RoundTrip.{write_bytes-ok}
use lmux.State.Codec.{Codec}
use lmux.Session.{Session, SessionIndex, no_entries, remove}
use lmux.Session.Store.{
  StoreError, validate_name, index_path, index_name, delete, read_index, write_index,
}

pub exists-there :
    {E : Type 0} (name bytes : Text) (d : Disk)
    → Calm d
    → lookup name d.files ≡ some bytes
    → ((exists {E = E} name d).0 ≡ ok true)
      × Calm (exists {E = E} name d).1
      × ((exists {E = E} name d).1.files ≡ d.files)
unfolding exists
exists-there name bytes d h at = (ground arith, ground arith, ground arith)

pub exists-absent :
    {E : Type 0} (name : Text) (d : Disk)
    → Calm d
    → lookup name d.files ≡ none
    → ((exists {E = E} name d).0 ≡ ok false)
      × Calm (exists {E = E} name d).1
      × ((exists {E = E} name d).1.files ≡ d.files)
unfolding exists
exists-absent name d h at = (ground arith, ground arith, ground arith)

remove_file-there :
    (name bytes : Text) (d : Disk)
    → Calm d
    → lookup name d.files ≡ some bytes
    → ((remove_file name d).0 ≡ ok tt)
      × Calm (remove_file name d).1
      × (lookup name (remove_file name d).1.files ≡ none)
unfolding remove_file
remove_file-there name bytes d h at =
    (ground arith, ground arith, ground (arith, lookup-erase name name d.files, beq_self name))

read-absent :
    (name : Text) (d : Disk)
    → Calm d
    → lookup name d.files ≡ none
    → ((read name d).0 ≡ err IoError.not_found) × Calm (read name d).1
unfolding read
read-absent name d h at = (ground arith, ground arith)

index_name-valid : {E : Type 0} → validate_name {E = E} index_name ≡ ok tt
unfolding validate_name
index_name-valid = refl

module _ {R E : Type 0} (c : Codec (Session R) E) (ci : Codec SessionIndex E) where
  read_index-absent :
      (d : Disk)
      → Calm d
      → lookup index_path d.files ≡ none
      → ((read_index c ci d).0 ≡ ok no_entries) × Calm (read_index c ci d).1
  unfolding read_index
  read_index-absent d h at =
      let (r, calm) = read-absent index_path d h at in (ground arith, ground arith)

  write_index-Calm :
      (index : SessionIndex) (text : Text) (d : Disk)
      → Calm d
      → ci.encode index ≡ ok text
      → ((write_index c ci index d).0 ≡ ok tt)
        × (lookup index_path (write_index c ci index d).1.files ≡ some text)
  unfolding write_index
  write_index-Calm index text d h good =
      let (r, calm) = write_bytes-Calm index_path text d h in
      (ground arith, ground (arith, write_bytes-ok index_path text d))

  -- `index` is a valid name of a session, and its file is the index. Where no call fails and the
  -- index is there, deleting the session of that name succeeds and leaves an index without entries,
  -- whatever sessions it held.
  pub delete-index :
      (bytes text : Text) (d : Disk)
      → Calm d
      → lookup index_path d.files ≡ some bytes
      → ci.encode no_entries ≡ ok text
      → ((delete c ci index_name d).0 ≡ ok tt)
        × (lookup index_path (delete c ci index_name d).1.files ≡ some text)
  unfolding delete remove
  delete-index bytes text d h at good =
      let (there, calm1, same) = exists-there {E = StoreError E} index_path bytes d h at in
      let d1 = (exists {E = StoreError E} index_path d).1 in
      let (gone, calm2, absent) =
        remove_file-there index_path bytes d1 calm1 (ap (lookup index_path) same ∙ at) in
      let d2 = (remove_file index_path d1).1 in
      let (none_left, calm3) = read_index-absent d2 calm2 absent in
      let d3 = (read_index c ci d2).1 in
      let (done, written) = write_index-Calm no_entries text d3 calm3 good in
      let valid = index_name-valid {E = E} in (ground arith, ground arith)
