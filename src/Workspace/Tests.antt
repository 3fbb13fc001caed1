-- ===== src/Workspace/Tests.antt =====
-- Runs of the workspace store (apps/web/src/workspace.js), and its theorems at concrete inputs.
use wasm_host.Prelude.{
  suc, zero, Text, true, false, ◌≡◌, refl, Option, some, none, List, [], ◌∷◌, codes, is_white,
  trim_start, trim, split, join, arith,
}
use wasm_host.Prelude.Exec.{Result, ok, err, ◌>>=◌}
use wasm_host.Prelude.Sort.{sort_by}
use wasm_host.Prelude.Dict.{get, has, set, delete}
use wasm_host.Workspace.Path.{
  ErrorKind, already_exists, invalid_path, invalid_snapshot, NormalPath, normalize_workspace_path,
  collect_parts, below_root, last_slash, parent_path, is_child_path, replace_path_prefix,
}
use wasm_host.Workspace.Path.Normal.{IsNormal, normalize-IsNormal, normalize-public}
use wasm_host.Workspace.Store
use wasm_host.Workspace.Store.{
  Host, Content, DirectoryRecord, FileRecord, non_negative_time, require_parent_directory,
  current_time, to_bytes, ensure_parts, ensure_directory, directory_stat, delete_tree,
  delete_directory_tree, has_children, move_directories, move_files, rename_directory,
}
use wasm_host.Workspace.Store.{Store}
use wasm_host.Workspace.Snapshots
use wasm_host.Workspace.Snapshots.{Snapshot, DirectoryEntry}
use wasm_host.Workspace.Tree.{IsTree, SameTree, Steady}
use wasm_host.Workspace.Commands.{
  Command, execute, run, run-IsTree, created-IsTree, execute-SameTree,
}
use wasm_host.Workspace.Loss.{rename_loses_file}

-- Opens the whole of the program.
program : Unit {0}
unfolding normalize_workspace_path collect_parts below_root trim trim_start is_white split join
    last_slash parent_path is_child_path replace_path_prefix get set delete ◌>>=◌ non_negative_time
    require_parent_directory current_time to_bytes ensure_parts ensure_directory directory_stat
    delete_tree delete_directory_tree has_children move_directories move_files rename_directory
    Store.write_file Store.read_file Store.delete_file Store.create_directory Store.delete_directory
    Store.rename Store.stat Snapshots.is_supported Snapshots.supported_snapshot
    Snapshots.load_directories Snapshots.require_all Snapshots.validate_workspace_graph
    Snapshots.base64_to_bytes Snapshots.load_files Snapshots.load_snapshot execute run
program = tt

abbrev host : Host
host = record {
  now = λ _. some 1000;
  encode_utf8 = λ t. t;
  locale_le = λ _ _. true;
  encode_base64 = λ b. b;
  decode_base64 = λ t. some t;
}

-- A clock that fails at its second reading.
abbrev failing : Host
failing = record {
  now = λ k. elim k [ zero ↦ some 1000 | suc _ ↦ none ];
  encode_utf8 = λ t. t;
  encode_base64 = λ b. b;
  decode_base64 = λ t. some t;
  locale_le = λ _ _. true;
}

abbrev root_record : DirectoryRecord
root_record = record { mtime_ms = 1000; path = codes "/workspace" }

abbrev empty : Store
empty = record { directories = ([], root_record) ∷ []; files = []; readings = 1 }

-- A snapshot with these directories and the file `d/f`
abbrev saved : List (Option DirectoryEntry) → Option Snapshot
saved directories = some (record {
  directories = some directories;
  files = some (
      some (record {
        content_base64 = codes "hi";
        mtime_ms = some 5;
        path = codes "/workspace/d/f";
        size = some 2;
      })
      ∷ []);
  root = some (codes "/workspace");
  version = some 1;
})

abbrev with_parent : Option Snapshot
with_parent = saved (some (record { mtime_ms = some 5; path = codes "/workspace/d" }) ∷ [])

abbrev script : List Command
script =
    Command.import_snapshot with_parent
    ∷ Command.create_directory (codes "/workspace/a/b") true
    ∷ Command.write_file (codes "a/b/f") (Content.text (codes "hi"))
    ∷ Command.rename (codes "a") (codes "/workspace/c")
    ∷ Command.delete_directory (codes "c/b") false
    ∷ []

abbrev after_script : Store
after_script = run host script empty

moved_content : (Store.read_file (codes "c/b/f") after_script).0 ≡ ok (codes "hi")
unfolding program
moved_content = refl

imported_content : (Store.read_file (codes "d/f") after_script).0 ≡ ok (codes "hi")
unfolding program
imported_content = refl

orphan_refused : (execute host (Command.import_snapshot (saved [])) empty).0 ≡ err invalid_snapshot
unfolding program
orphan_refused = refl

traversal : normalize_workspace_path (codes "a/../../etc") ≡ err invalid_path
unfolding program
traversal = refl

only_root :
    (k : Text) → has k empty.directories ≡ true → has (parent_path k) empty.directories ≡ true
unfolding program
only_root [] h = refl
only_root (c ∷ k) h = cc

empty-IsTree : IsTree empty
unfolding program
empty-IsTree = record {
  root = refl;
  apart = λ k h. ground arith;
  file_parent = λ k h. ground arith;
  directory_parent = only_root;
}

host-Steady : Steady host
unfolding program
host-Steady k = (1000, refl)

run-IsTree_example : IsTree (run host script empty)
run-IsTree_example = run-IsTree host script empty empty-IsTree

abbrev nowhere : Store
nowhere = record { directories = []; files = []; readings = 0 }

created_lem : (Snapshots.construct host (some with_parent) nowhere).0 ≡ ok tt
unfolding program Snapshots.construct
created_lem = refl

created-IsTree_example :
    IsTree (run host script (Snapshots.construct host (some with_parent) nowhere).1)
created-IsTree_example = created-IsTree host (some with_parent) script nowhere created_lem

-- A directory whose name ends in a space is exported under a path that is trimmed on import, so that
-- what is below it has no parent.
abbrev spaced : Store
spaced = run host (Command.create_directory (codes "a /x") true ∷ []) empty

abbrev snapshot_of : Result ErrorKind Snapshot → Option Snapshot
snapshot_of (ok s) = some s
snapshot_of (err e) = none

export_refused :
    (Snapshots.load_snapshot host (snapshot_of (Snapshots.export_snapshot host spaced).0) empty).0
    ≡ err invalid_snapshot
unfolding program Snapshots.export_snapshot Snapshots.directory_entry Snapshots.file_entry sort_by
export_refused = refl

abbrev again : Command
again = Command.create_directory (codes "c/b") false

again_fails : (execute host again after_script).0 ≡ err already_exists
unfolding program
again_fails = refl

execute-SameTree_example : SameTree after_script (execute host again after_script).1
execute-SameTree_example =
    execute-SameTree host again after_script already_exists host-Steady
      (run-IsTree host script empty empty-IsTree) again_fails

abbrev padded : NormalPath
padded = record { relative_path = codes "a/b"; workspace_path = codes "/workspace/a/b" }

padded_lem : normalize_workspace_path (codes " /workspace//a/./b/ ") ≡ ok padded
unfolding program
padded_lem = refl

padded_trim : trim padded.workspace_path ≡ padded.workspace_path
unfolding program
padded_trim = refl

normalize-IsNormal_example : IsNormal padded
normalize-IsNormal_example = normalize-IsNormal (codes " /workspace//a/./b/ ") padded padded_lem

normalize-public_example : normalize_workspace_path padded.workspace_path ≡ ok padded
normalize-public_example =
    normalize-public (codes " /workspace//a/./b/ ") padded padded_lem padded_trim

abbrev note : FileRecord
note = record { content = codes "hi"; mtime_ms = 1000; path = codes "/workspace/f" }

abbrev with_note : Store
with_note = record empty { files = (codes "f", note) ∷ [] }

abbrev path_of : Text → Text → NormalPath
path_of r w = record { relative_path = r; workspace_path = w }

note_premises :
    (normalize_workspace_path (codes "f") ≡ ok (path_of (codes "f") (codes "/workspace/f")))
    × (normalize_workspace_path (codes "g") ≡ ok (path_of (codes "g") (codes "/workspace/g")))
    × (has (parent_path (codes "g")) with_note.files ≡ false)
    × (has (parent_path (codes "g")) with_note.directories ≡ true)
    × (has (codes "g") with_note.files ≡ false)
    × (has (codes "g") with_note.directories ≡ false)
    × (get (codes "f") with_note.files ≡ some note)
    × (non_negative_time (failing.now 1) ≡ err invalid_snapshot)
unfolding program
note_premises = (refl, refl, refl, refl, refl, refl, refl, refl)

rename_loses_file_example :
    ((Store.rename failing (codes "f") (codes "g") with_note).0 ≡ err invalid_snapshot)
    × (has (codes "f") (Store.rename failing (codes "f") (codes "g") with_note).1.files ≡ false)
    × (has (codes "g") (Store.rename failing (codes "f") (codes "g") with_note).1.files ≡ false)
rename_loses_file_example =
    let (nf, ng, pf, pd, tf, td, g, clock) = note_premises in
    rename_loses_file failing (codes "f") (codes "g") (path_of (codes "f") (codes "/workspace/f"))
      (path_of (codes "g") (codes "/workspace/g")) with_note note invalid_snapshot nf ng refl refl
      pf pd tf td g clock
