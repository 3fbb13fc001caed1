-- ===== src/Workspace/Commands.antt =====
-- The calls of a workspace store as one type, and what holds of every run of them
-- (apps/web/src/workspace.js).

use wasm_host.Prelude.{ℕ, Text, Bool, ◌≡◌, subst, Option, List, [], ◌∷◌}
use wasm_host.Prelude.Exec.{
  Result, ok, err, ◌>>=◌, ◌>>◌, pure, After, After-pure, After-throw, After-lift, After-gets,
  After-if, After-option, After-call, After-weaken,
}
use wasm_host.Prelude.Dict.{has, get}
use wasm_host.Workspace.Path.{ErrorKind, normalize_workspace_path}
use wasm_host.Workspace.Store
use wasm_host.Workspace.Store.{Host, Store, Stat, Content, Action}
use wasm_host.Workspace.Snapshots
use wasm_host.Workspace.Snapshots.{Snapshot}
use wasm_host.Workspace.Tree.{IsTree, Steady, SameTree, Outcome, unchanged}
use wasm_host.Workspace.Tree.Writes.{write_file-Outcome, delete_file-Outcome}
use wasm_host.Workspace.Tree.Deletes.{delete_directory-Outcome}
use wasm_host.Workspace.Tree.Directories.{create_directory-Outcome}
use wasm_host.Workspace.Tree.Rename.{rename-Outcome}
use wasm_host.Workspace.Tree.Snapshots.{Built, construct-Built, load_snapshot-Outcome}

-- The methods of the store with their arguments.
pub data Command : Type 0 where
  write_file : Text → Content → Command
  read_file delete_file read_directory stat : Text → Command
  create_directory delete_directory : Text → Bool → Command
  rename : Text → Text → Command
  export_snapshot : Command
  import_snapshot : Option Snapshot → Command

pub data Reply : Type 0 where
  nothing : Reply
  bytes : List ℕ → Reply
  one : Stat → Reply
  many : List Stat → Reply
  exported : Snapshot → Reply

module _ (host : Host) where
  -- A call by its command.
  unfoldable pub execute : Command → Action Reply
  execute (write_file path content) = do r ← Store.write_file host path content; pure (one r)
  execute (read_file path) = do r ← Store.read_file path; pure (bytes r)
  execute (delete_file path) = do Store.delete_file path; pure nothing
  execute (read_directory path) = do r ← Store.read_directory host path; pure (many r)
  execute (stat path) = do r ← Store.stat path; pure (one r)
  execute (create_directory path recursive) = do
    r ← Store.create_directory host path recursive
    pure (one r)
  execute (delete_directory path recursive) = do Store.delete_directory path recursive; pure nothing
  execute (rename from to) = do Store.rename host from to; pure nothing
  execute export_snapshot = do r ← Snapshots.export_snapshot host; pure (exported r)
  execute (import_snapshot snapshot) = do Snapshots.load_snapshot host snapshot; pure nothing

  -- The calls one after the other; a call that throws ends only itself.
  unfoldable pub run : List Command → Store → Store
  run [] s = s
  run (c ∷ cs) s = run cs (execute c s).1

returns-tree :
    {C : Type 0} {A : Type 0} {s : Store} (m : Action A) (f : A → Action Reply)
    → After (Outcome C s) m s
    → ((a : A) (u : Store) → IsTree u → After (Outcome C s) (f a) u)
    → After (Outcome C s) (m >>= f) s
returns-tree m f h k = After-call (Outcome _ _) m f _ h (λ e u o. o) k

always :
    {C A : Type 0} {s : Store} (m : Action A)
    → After (Outcome (Unit {0}) s) m s
    → After (Outcome C s) m s
always {C} {A} {s} m h = After-weaken m s weaken h
  where
    weaken : (r : Result ErrorKind A) (u : Store) → Outcome (Unit {0}) s r u → Outcome C s r u
    weaken (ok a) u o = o
    weaken (err e) u o = (o.0, λ _. o.1 tt)

module _ (C : Type 0) {s : Store} (t : IsTree s) where
  read_file-Outcome : (path : Text) → After (Outcome C s) (Store.read_file path) s
  unfolding Store.read_file
  read_file-Outcome path =
      After-lift (normalize_workspace_path path) _ s (λ _ _. unchanged _ t)
        λ n _. After-gets _ _ s (
          After-option (get n.relative_path s.files) _ _ s
            (λ _.
              After-if (has n.relative_path s.directories) _ _ s
                (λ _. After-throw _ s (unchanged _ t)) λ _. After-throw _ s (unchanged _ t))
            λ r _. After-pure _ s t)

  read_directory-Outcome :
      (host : Host) (path : Text) → After (Outcome C s) (Store.read_directory host path) s
  unfolding Store.read_directory
  read_directory-Outcome host path =
      After-lift (normalize_workspace_path path) _ s (λ _ _. unchanged _ t)
        λ n _. After-gets _ _ s (
          After-if (has n.relative_path s.directories) _ _ s (λ _. After-pure _ s t)
            λ _.
              After-if (has n.relative_path s.files) _ _ s (λ _. After-throw _ s (unchanged _ t))
                λ _. After-throw _ s (unchanged _ t))

  stat-Outcome : (path : Text) → After (Outcome C s) (Store.stat path) s
  unfolding Store.stat
  stat-Outcome path =
      After-lift (normalize_workspace_path path) _ s (λ _ _. unchanged _ t)
        λ n _. After-gets _ _ s (
          After-option (get n.relative_path s.files) _ _ s
            (λ _.
              After-option (get n.relative_path s.directories) _ _ s
                (λ _. After-throw _ s (unchanged _ t)) λ r _. After-pure _ s t)
            λ r _. After-pure _ s t)

  export_snapshot-Outcome : (host : Host) → After (Outcome C s) (Snapshots.export_snapshot host) s
  unfolding Snapshots.export_snapshot
  export_snapshot-Outcome host = After-gets _ _ s (After-pure _ s t)

module _ (host : Host) where
  execute-Outcome :
      (c : Command) (s : Store) → IsTree s → After (Outcome (Steady host) s) (execute host c) s
  unfolding execute
  execute-Outcome (write_file path content) s t =
      returns-tree _ _ (always _ (write_file-Outcome host path content s t)) λ a u. After-pure _ u
  execute-Outcome (read_file path) s t =
      returns-tree _ _ (read_file-Outcome _ t path) λ a u. After-pure _ u
  execute-Outcome (delete_file path) s t =
      returns-tree _ _ (always _ (delete_file-Outcome path s t)) λ a u. After-pure _ u
  execute-Outcome (read_directory path) s t =
      returns-tree _ _ (read_directory-Outcome _ t host path) λ a u. After-pure _ u
  execute-Outcome (stat path) s t = returns-tree _ _ (stat-Outcome _ t path) λ a u. After-pure _ u
  execute-Outcome (create_directory path recursive) s t =
      returns-tree _ _ (create_directory-Outcome host path recursive s t) λ a u. After-pure _ u
  execute-Outcome (delete_directory path recursive) s t =
      returns-tree _ _ (always _ (delete_directory-Outcome path recursive s t))
        λ a u. After-pure _ u
  execute-Outcome (rename from to) s t =
      returns-tree _ _ (rename-Outcome host from to s t) λ a u. After-pure _ u
  execute-Outcome export_snapshot s t =
      returns-tree _ _ (export_snapshot-Outcome _ t host) λ a u. After-pure _ u
  execute-Outcome (import_snapshot snapshot) s t =
      returns-tree _ _ (always _ (load_snapshot-Outcome host snapshot s t)) λ a u. After-pure _ u

  Outcome-IsTree :
      (s : Store) (r : Result ErrorKind Reply) (u : Store) → Outcome (Steady host) s r u → IsTree u
  Outcome-IsTree s (ok a) u o = o
  Outcome-IsTree s (err e) u o = o.0

  Outcome-SameTree :
      (s : Store) (r : Result ErrorKind Reply) (u : Store) (e : ErrorKind)
      → Outcome (Steady host) s r u
      → r ≡ err e
      → Steady host
      → SameTree s u
  Outcome-SameTree s (ok a) u e o h steady = cc
  Outcome-SameTree s (err c) u e o h steady = o.1 steady

  -- From a well-formed store, whatever the calls and whatever the clock returns, the store stays
  -- well-formed: the root is a directory, no path is both a file and a directory, and the parent of
  -- every file and directory is a directory. Calls that throw are included.
  pub run-IsTree : (cs : List Command) (s : Store) → IsTree s → IsTree (run host cs s)
  unfolding run
  run-IsTree [] s t = t
  run-IsTree (c ∷ cs) s t =
      run-IsTree cs (execute host c s).1
        (Outcome-IsTree s (execute host c s).0 (execute host c s).1 (execute-Outcome c s t).ends)

  -- If the clock returns safe integers, a call that throws on a well-formed store has changed
  -- neither its files nor its directories.
  pub execute-SameTree :
      (c : Command) (s : Store) (e : ErrorKind)
      → Steady host
      → IsTree s
      → (execute host c s).0 ≡ err e
      → SameTree s (execute host c s).1
  execute-SameTree c s e steady t h =
      Outcome-SameTree s (execute host c s).0 (execute host c s).1 e (execute-Outcome c s t).ends h
        steady

  -- A store that its constructor made, with a snapshot or without one, and whatever the clock
  -- returns, is well-formed after any calls, those that throw included.
  pub created-IsTree :
      (snapshot : Option (Option Snapshot)) (cs : List Command) (s : Store)
      → (Snapshots.construct host snapshot s).0 ≡ ok tt
      → IsTree (run host cs (Snapshots.construct host snapshot s).1)
  created-IsTree snapshot cs s h = run-IsTree cs (Snapshots.construct host snapshot s).1 (
      subst (λ r. Built r (Snapshots.construct host snapshot s).1) h
        (construct-Built host snapshot s).ends)
