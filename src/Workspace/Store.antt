-- ===== src/Workspace/Store.antt =====
-- `MemoryBrowserWorkspaceStore` (apps/web/src/workspace.js). A method is an action on the store
-- that returns or throws an error kind; what it wrote before it threw stays written.
use wasm_host.Prelude.{
  ℕ, suc, ◌^◌, Text, Bool, ◌||◌, ◌&&◌, not, Option, none, some, List, [], ◌∷◌, ◌++◌, length,
  text_eq, is_empty, ltb, split, any, if◌then◌else◌,
}
use wasm_host.Prelude.Exec.{
  Result, ok, err, Exec, pure, throw, lift, gets, modify, throw_if, ◌>>=◌, ◌>>◌,
}
use wasm_host.Prelude.Sort.{sort_by}
use wasm_host.Prelude.Dict.{Dict, get, has, set, delete, keys}
use wasm_host.Workspace.Path.{
  ErrorKind, invalid_path, not_file, not_found, not_directory, already_exists, not_empty,
  invalid_snapshot, invalid_content, type_error, NormalPath, normalize_workspace_path, parent_path,
  is_child_path, replace_path_prefix, public_path, slash,
}

-- What the store takes from its surroundings: the clock of `options.now`, by the number of the
-- reading, where `none` is a value that is no integer or is negative; `TextEncoder`; the order
-- of `localeCompare`; and the platform's base64, where `none` is an exception of its reader.
pub record Host : Type 0 where
  pub now : ℕ → Option ℕ
  pub encode_utf8 : Text → List ℕ
  pub locale_le : Text → Text → Bool
  pub encode_base64 : List ℕ → Text
  pub decode_base64 : Text → Option (List ℕ)

pub data Content : Type 0 where
  text : Text → Content
  bytes : List ℕ → Content
  other : Content

pub record FileRecord : Type 0 where
  pub content : List ℕ
  pub mtime_ms : ℕ
  pub path : Text

pub record DirectoryRecord : Type 0 where
  pub mtime_ms : ℕ
  pub path : Text

pub data Kind : Type 0 where
  file directory : Kind

pub record Stat : Type 0 where
  pub kind : Kind
  pub mtime_ms : ℕ
  pub path : Text
  pub size : ℕ

pub record Store : Type 0 where
  pub directories : Dict DirectoryRecord
  pub files : Dict FileRecord
  pub readings : ℕ

abbrev pub Action : Type 0 → Type 0
Action A = Exec ErrorKind Store A

abbrev pub public_file_stat : Text → FileRecord → Stat
public_file_stat path r = record {
  kind = file;
  mtime_ms = r.mtime_ms;
  path = path;
  size = length r.content;
}

abbrev pub public_directory_stat : Text → DirectoryRecord → Stat
public_directory_stat path r = record {
  kind = directory;
  mtime_ms = r.mtime_ms;
  path = path;
  size = 0;
}

-- `Number.isSafeInteger(number) && number >= 0`
unfoldable pub non_negative_time : Option ℕ → Result ErrorKind ℕ
non_negative_time none = err invalid_snapshot
non_negative_time (some n) = if ltb n (2 ^ 53) then ok n else err invalid_snapshot

abbrev pub put_file : Text → FileRecord → Store → Store
put_file k r s = record s { files = set k r s.files }

abbrev pub put_directory : Text → DirectoryRecord → Store → Store
put_directory k r s = record s { directories = set k r s.directories }

unfoldable pub require_parent_directory : Text → Action Unit
require_parent_directory path = do
  s ← gets (λ s. s)
  throw_if (has (parent_path path) s.files) not_directory
  throw_if (not (has (parent_path path) s.directories)) not_found

unfoldable pub read_file : Text → Action (List ℕ)
read_file path = do
  n ← lift (normalize_workspace_path path)
  s ← gets (λ s. s)
  elim (get n.relative_path s.files) [
    | some r ↦ pure r.content
    | none ↦ if has n.relative_path s.directories then throw not_file else throw not_found
  ]

unfoldable pub delete_file : Text → Action Unit
delete_file path = do
  n ← lift (normalize_workspace_path path)
  s ← gets (λ s. s)
  if has n.relative_path s.files
      then modify (λ s. record s { files = delete n.relative_path s.files })
      else if has n.relative_path s.directories
      then throw not_file
      else throw not_found

unfoldable pub has_children : Text → Store → Bool
has_children path s =
    any (is_child_path path) (keys s.files)
    || any (λ d. not (text_eq d path) && is_child_path path d) (keys s.directories)

-- The keys of a tree that `deleteDirectoryTree` removes, one after the other.
unfoldable pub delete_tree {ℓ} : {V : Type ℓ} → Text → List Text → Dict V → Dict V
delete_tree path [] d = d
delete_tree path (k ∷ ks) d =
    delete_tree path ks (if text_eq k path || is_child_path path k then delete k d else d)

unfoldable pub delete_directory_tree : Text → Store → Store
delete_directory_tree path s = record s {
  files = delete_tree path (keys s.files) s.files;
  directories = delete_tree path (keys s.directories) s.directories;
}

unfoldable pub delete_directory : Text → Bool → Action Unit
delete_directory path recursive = do
  n ← lift (normalize_workspace_path path)
  throw_if (is_empty n.relative_path) invalid_path
  s ← gets (λ s. s)
  throw_if (not (has n.relative_path s.directories)) not_found
  throw_if (not recursive && has_children n.relative_path s) not_empty
  modify (delete_directory_tree n.relative_path)

unfoldable pub stat : Text → Action Stat
stat path = do
  n ← lift (normalize_workspace_path path)
  s ← gets (λ s. s)
  elim (get n.relative_path s.files) [
    | some r ↦ pure (public_file_stat n.workspace_path r)
    | none ↦ elim (get n.relative_path s.directories) [
      | some r ↦ pure (public_directory_stat n.workspace_path r)
      | none ↦ throw not_found
    ]
  ]

-- `publicDirectoryStat(n.workspacePath, this.directories.get(n.relativePath))`, which throws a
-- `TypeError` if there is no record.
unfoldable pub directory_stat : NormalPath → Action Stat
directory_stat n s = elim (get n.relative_path s.directories) [
  | some r ↦ (ok (public_directory_stat n.workspace_path r), s)
  | none ↦ (err type_error, s)
]

-- `current ? current + "/" + part : part`
abbrev pub append_part : Text → Text → Text
append_part [] part = part
append_part (c ∷ current) part = (c ∷ current) ++ (slash ∷ part)

-- `filter(Boolean)` drops the empty parts.
abbrev pub nonempty_parts : List Text → List Text
nonempty_parts [] = []
nonempty_parts (p ∷ ps) = let rest = nonempty_parts ps in if is_empty p then rest else p ∷ rest

-- The entries of `directoryEntries`, before they are sorted.
unfoldable pub file_entries : Text → Dict FileRecord → List Stat
file_entries path [] = []
file_entries path ((k, r) ∷ d) =
    let rest = file_entries path d in
    if text_eq (parent_path k) path then public_file_stat (public_path k) r ∷ rest else rest

unfoldable pub subdirectory_entries : Text → Dict DirectoryRecord → List Stat
subdirectory_entries path [] = []
subdirectory_entries path ((k, r) ∷ d) =
    let rest = subdirectory_entries path d in
    if not (is_empty k) && text_eq (parent_path k) path
    then public_directory_stat (public_path k) r ∷ rest
    else rest

module _ (host : Host) where
  unfoldable pub directory_entries : Text → Store → List Stat
  directory_entries path s =
      sort_by (λ a b. host.locale_le a.path b.path)
        (file_entries path s.files ++ subdirectory_entries path s.directories)

  unfoldable pub read_directory : Text → Action (List Stat)
  read_directory path = do
    n ← lift (normalize_workspace_path path)
    s ← gets (λ s. s)
    if has n.relative_path s.directories
        then pure (directory_entries n.relative_path s)
        else if has n.relative_path s.files
        then throw not_directory
        else throw not_found

  unfoldable pub current_time : Action ℕ
  current_time = do
    s ← gets (λ s. s)
    modify (λ s. record s { readings = suc s.readings })
    lift (non_negative_time (host.now s.readings))

  unfoldable pub to_bytes : Content → Result ErrorKind (List ℕ)
  to_bytes (text t) = ok (host.encode_utf8 t)
  to_bytes (bytes b) = ok b
  to_bytes other = err invalid_content

  unfoldable pub write_file : Text → Content → Action Stat
  write_file path content = do
    n ← lift (normalize_workspace_path path)
    throw_if (is_empty n.relative_path) invalid_path
    s ← gets (λ s. s)
    throw_if (has n.relative_path s.directories) not_file
    require_parent_directory n.relative_path
    b ← lift (to_bytes content)
    time ← current_time
    let r : FileRecord = record { content = b; mtime_ms = time; path = n.workspace_path }
    modify (put_file n.relative_path r)
    pure (public_file_stat n.workspace_path r)

  -- The loop of `ensureDirectory` over the parts that are left, below `current`.
  unfoldable pub ensure_parts : Text → List Text → Action Unit
  ensure_parts current [] = pure tt
  ensure_parts current (part ∷ parts) =
      let next = append_part current part in
      let rest = ensure_parts next parts in
      do
        s ← gets (λ s. s)
        throw_if (has next s.files) not_directory
        if has next s.directories then rest else do
          time ← current_time
          modify (put_directory next (record { mtime_ms = time; path = public_path next }))
          rest

  unfoldable pub ensure_directory : Text → Action Unit
  ensure_directory path = ensure_parts [] (nonempty_parts (split slash path))

  unfoldable pub create_directory : Text → Bool → Action Stat
  create_directory path recursive = do
    n ← lift (normalize_workspace_path path)
    s ← gets (λ s. s)
    if is_empty n.relative_path then directory_stat n else do
      throw_if (has n.relative_path s.files) not_directory
      if recursive then (do ensure_directory n.relative_path; directory_stat n) else do
        require_parent_directory n.relative_path
        throw_if (has n.relative_path s.directories) already_exists
        time ← current_time
        modify (put_directory n.relative_path (record { mtime_ms = time; path = n.workspace_path }))
        directory_stat n

  -- The loops of `renameDirectory`, which fill a new map. The clock is read once for each entry
  -- that moves.
  unfoldable pub move_directories :
      Text → Text → Dict DirectoryRecord → Dict DirectoryRecord → Action (Dict DirectoryRecord)
  move_directories from to [] moved = pure moved
  move_directories from to ((path, r) ∷ d) moved =
      let stays = move_directories from to d (set path r moved) in
      let moves = λ (time : ℕ).
        let target = replace_path_prefix path from to in
        move_directories from to d
          (set target (record { mtime_ms = time; path = public_path target }) moved) in
      if text_eq path from || is_child_path from path
      then (do time ← current_time; moves time)
      else stays

  unfoldable pub move_files :
      Text → Text → Dict FileRecord → Dict FileRecord → Action (Dict FileRecord)
  move_files from to [] moved = pure moved
  move_files from to ((path, r) ∷ d) moved =
      let stays = move_files from to d (set path r moved) in
      let moves = λ (time : ℕ).
        let target = replace_path_prefix path from to in
        move_files from to d (
          set target (record { content = r.content; mtime_ms = time; path = public_path target })
            moved) in
      if is_child_path from path then (do time ← current_time; moves time) else stays

  unfoldable pub rename_directory : NormalPath → NormalPath → Action Unit
  rename_directory from to = if text_eq to.relative_path from.relative_path then pure tt else do
    throw_if (is_child_path from.relative_path to.relative_path) invalid_path
    s ← gets (λ s. s)
    ds ← move_directories from.relative_path to.relative_path s.directories []
    fs ← move_files from.relative_path to.relative_path s.files []
    modify (λ t. record t { directories = ds; files = fs })

  -- The source file is deleted before the clock is read for the new record.
  unfoldable pub rename : Text → Text → Action Unit
  rename from_path to_path = do
    from ← lift (normalize_workspace_path from_path)
    to ← lift (normalize_workspace_path to_path)
    throw_if (is_empty from.relative_path || is_empty to.relative_path) invalid_path
    require_parent_directory to.relative_path
    s ← gets (λ s. s)
    throw_if (has to.relative_path s.files || has to.relative_path s.directories) already_exists
    elim (get from.relative_path s.files) [
      | some r ↦ do
        modify (λ t. record t { files = delete from.relative_path t.files })
        time ← current_time
        modify (
            put_file to.relative_path
              (record { content = r.content; mtime_ms = time; path = to.workspace_path }))
      | none ↦
          if has from.relative_path s.directories then rename_directory from to else throw not_found
    ]
