-- ===== src/Workspace/Path.antt =====
-- Workspace paths (apps/web/src/workspace.js): normalisation, parents, children and prefixes. A
-- path below the root is kept as its relative text, such as `a/b`; the root is the empty text.
pub mod Laws
pub mod Normal
pub mod Within
use wasm_host.Prelude.{
  ℕ, suc, ◌+◌, Text, Bool, true, false, ◌||◌, Option, none, some, List, [], ◌∷◌, ◌++◌, length, take,
  drop, codes, text_eq, is_empty, includes, starts_with, trim, split, join, ◌==◌, if◌then◌else◌,
  ◌≡◌, refl, not,
}
use wasm_host.Prelude.Exec.{Result, ok, err, bind}

-- The `kind` of a `BrowserWorkspaceError`; `type_error` stands for an exception of the
-- engine's own, such as `TypeError`.
pub data ErrorKind : Type 0 where
  invalid_path not_file not_found not_directory already_exists not_empty : ErrorKind
  invalid_content invalid_snapshot transport unsupported type_error : ErrorKind

abbrev pub slash : ℕ
slash = b'/'

abbrev pub workspace_root : Text
workspace_root = codes "/workspace"

pub record NormalPath : Type 0 where
  pub relative_path : Text
  pub workspace_path : Text

-- `relativePath ? "/workspace/" + relativePath : "/workspace"`
abbrev pub public_path : Text → Text
public_path [] = workspace_root
public_path (c ∷ s) = workspace_root ++ (slash ∷ c ∷ s)

-- The loop over `relative.split("/")`.
unfoldable pub collect_parts : List Text → Result ErrorKind (List Text)
collect_parts [] = ok []
collect_parts (part ∷ parts) =
    let rest = collect_parts parts in
    if is_empty part || text_eq part (codes ".")
    then rest
    else if text_eq part (codes "..")
    then err invalid_path
    else bind rest (λ ps. ok (part ∷ ps))

-- The part of the text below the root; an absolute text must be under `/workspace`.
unfoldable pub below_root : Text → Result ErrorKind Text
below_root raw =
    if text_eq raw workspace_root
    then ok []
    else if starts_with (codes "/workspace/") raw
    then ok (drop (length workspace_root + 1) raw)
    else if starts_with (codes "/") raw
    then err invalid_path
    else ok raw

abbrev pub normal_path : List Text → NormalPath
normal_path parts =
    let relative = join slash parts in
    record { relative_path = relative; workspace_path = public_path relative }

unfoldable pub normalize_workspace_path : Text → Result ErrorKind NormalPath
normalize_workspace_path path =
    let raw = trim path in
    if is_empty raw || includes 0 raw || includes b'\\' raw
    then err invalid_path
    else bind (below_root raw)
        λ relative. bind (collect_parts (split slash relative)) λ parts. ok (normal_path parts)

-- `text.lastIndexOf("/")`
unfoldable pub last_slash : Text → Option ℕ
last_slash [] = none
last_slash (c ∷ s) = elim (last_slash s) [
  | some i ↦ some (suc i)
  | none ↦ if c == slash then some 0 else none
]

unfoldable pub parent_path : Text → Text
unfolding last_slash
parent_path path = elim (last_slash path) [ none ↦ [] | some i ↦ take i path ]

unfoldable pub is_child_path : Text → Text → Bool
is_child_path parent child =
    if is_empty parent then not (is_empty child) else starts_with (parent ++ (slash ∷ [])) child

unfoldable pub replace_path_prefix : Text → Text → Text → Text
replace_path_prefix path from to =
    if text_eq path from then to else to ++ (slash ∷ drop (length from + 1) path)
