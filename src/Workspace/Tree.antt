-- ===== src/Workspace/Tree.antt =====
-- The well-formedness of a workspace store (apps/web/src/workspace.js).
pub mod Writes
pub mod Deletes
pub mod Creates
pub mod Directories
pub mod Renames
pub mod Moves
pub mod Rename
pub mod Snapshots
use wasm_host.Prelude.{
  ℕ, suc, Text, Bool, true, false, ◌||◌, not, ◌≡◌, ◌≢◌, refl, List, [], ◌∷◌, text_eq, text_eq_iff,
  is_empty, if◌then◌else◌, arith, Bool-cases, inl, inr,
}
use wasm_host.Prelude.Exec.{
  Exec, Result, ok, err, ◌>>=◌, ◌>>◌, After, After-pure, After-throw, After-lift, After-gets,
  After-modify, After-throw_if, After-if, After-bind, After-modify_last, After-error,
  After-throw_if_last, After-lift_last,
}
use wasm_host.Prelude.Dict.{Dict, get, has, set, delete, has-set, has-delete}
use wasm_host.Workspace.Path.{ErrorKind, NormalPath, normalize_workspace_path, parent_path}
use wasm_host.Workspace.Store.{
  Host, Store, FileRecord, DirectoryRecord, Action, Content, put_file, put_directory,
  require_parent_directory, current_time, to_bytes, write_file, non_negative_time,
}

-- The root is a directory, no path is both a file and a directory, and the parent of every file and
-- directory is a directory.
pub record IsTree (s : Store) : Type 0 where
  pub root : has [] s.directories ≡ true
  pub apart : (k : Text) → has k s.files ≡ true → has k s.directories ≡ false
  pub file_parent : (k : Text) → has k s.files ≡ true → has (parent_path k) s.directories ≡ true
  pub directory_parent :
      (k : Text) → has k s.directories ≡ true → has (parent_path k) s.directories ≡ true

abbrev pub tick : Store → Store
tick s = record s { readings = suc s.readings }

pub tick-IsTree : {s : Store} → IsTree s → IsTree (tick s)
tick-IsTree t = record {
  root = t.root;
  apart = t.apart;
  file_parent = t.file_parent;
  directory_parent = t.directory_parent;
}

-- The clock returns a safe integer at every reading.
abbrev pub Steady : Host → Type 0
Steady host = (k : ℕ) → (time : ℕ) × (non_negative_time (host.now k) ≡ ok time)

pub record SameTree (s t : Store) : Type 0 where
  pub files : t.files ≡ s.files
  pub directories : t.directories ≡ s.directories

pub SameTree-refl : (s : Store) → SameTree s s
SameTree-refl s = record { files = refl; directories = refl }

pub SameTree-IsTree : {s t : Store} → SameTree s t → IsTree s → IsTree t
SameTree-IsTree {s} {t} e v = record {
  root = rw e.directories v.root;
  apart = rw (e.files, e.directories) v.apart;
  file_parent = rw (e.files, e.directories) v.file_parent;
  directory_parent = rw e.directories v.directory_parent;
}

pub unchanged : (C : Type 0) {s : Store} → IsTree s → IsTree s × (C → SameTree s s)
unchanged C {s} t = (t, λ _. SameTree-refl s)

pub only_ticked : (C : Type 0) {s : Store} → IsTree s → IsTree (tick s) × (C → SameTree s (tick s))
only_ticked C t = (tick-IsTree t, λ _. record { files = refl; directories = refl })

-- A call that returns leaves a tree. So does one that throws, and if `C` holds, it changed nothing.
abbrev pub Outcome : {A : Type 0} → Type 0 → Store → Result ErrorKind A → Store → Type 0
Outcome C s (ok a) t = IsTree t
Outcome C s (err e) t = IsTree t × (C → SameTree s t)

module _ {s : Store} (k : Text) where
  pub put_file-IsTree :
      (r : FileRecord)
      → has k s.directories ≡ false
      → has (parent_path k) s.directories ≡ true
      → IsTree s
      → IsTree (put_file k r s)
  put_file-IsTree r free parent t = record {
    root = t.root;
    apart = λ j. ground (arith, has-set k j r s.files, text_eq_iff k j, t.apart j);
    file_parent = λ j. ground (arith, has-set k j r s.files, text_eq_iff k j, t.file_parent j);
    directory_parent = t.directory_parent;
  }

  pub put_directory-IsTree :
      (r : DirectoryRecord)
      → has k s.files ≡ false
      → has (parent_path k) s.directories ≡ true
      → IsTree s
      → IsTree (put_directory k r s)
  put_directory-IsTree r free parent t = record {
    root = ground (arith, has-set k [] r s.directories, t.root);
    apart = λ j. ground (arith, has-set k j r s.directories, text_eq_iff k j, t.apart j);
    file_parent = λ j.
        ground (arith, has-set k (parent_path j) r s.directories, text_eq_iff k j, t.file_parent j);
    directory_parent = λ j. ground (
      arith,
      has-set k (parent_path j) r s.directories,
      has-set k j r s.directories,
      text_eq_iff k j,
      t.directory_parent j,
    );
  }

  pub delete_file-IsTree : IsTree s → IsTree (record s { files = delete k s.files })
  delete_file-IsTree t = record {
    root = t.root;
    apart = λ j. ground (arith, has-delete k j s.files, t.apart j);
    file_parent = λ j. ground (arith, has-delete k j s.files, t.file_parent j);
    directory_parent = t.directory_parent;
  }

Bool_holds : (b : Bool) → not b ≡ false → b ≡ true
Bool_holds b h = ground arith

module _ {A : Type 0} {Q : Result ErrorKind A → Store → Type 0} where
  pub After-require :
      (k : Text) (f : Unit → Action A) (s : Store)
      → ((e : ErrorKind) → Q (err e) s)
      → (has (parent_path k) s.files ≡ false
          → has (parent_path k) s.directories ≡ true
          → After Q (f tt) s)
      → After Q (require_parent_directory k >>= f) s
  unfolding require_parent_directory
  After-require k f s bad next = After-bind _ f s (
      After-gets _ _ s (
        After-throw_if (has (parent_path k) s.files) _ _ s (λ _. After-error _ f s (bad _))
          λ free.
            After-throw_if_last _ _ s (λ _. After-error _ f s (bad _))
              λ d. next free (Bool_holds _ d)))

  pub After-current_time :
      (host : Host) (f : ℕ → Action A) (s : Store)
      → ((e : ErrorKind) → non_negative_time (host.now s.readings) ≡ err e → Q (err e) (tick s))
      → ((time : ℕ) → After Q (f time) (tick s))
      → After Q (current_time host >>= f) s
  unfolding current_time
  After-current_time host f s bad next = After-bind _ f s (
      After-gets _ _ s (
        After-modify _ _ s (
          After-lift_last _ (tick s) (λ e h. After-error e f (tick s) (bad e h))
            λ time _. next time)))
