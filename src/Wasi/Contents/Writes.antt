-- ===== src/Wasi/Contents/Writes.antt =====
-- The writes to a descriptor keep to its contents: a file changes only if an open descriptor may
-- write to it (apps/web/src/wasi-module.js).
use wasm_host.Prelude.{
  ℕ, ◌+◌, ◌≡◌, refl, sym, ap, ◌∙◌, Bool, true, false, ◌||◌, Option, none, some, List, [], ◌∷◌, inl,
  inr, length, ◌==◌, Bool-cases, arith, subst, if◌then◌else◌,
}
use wasm_host.Prelude.Table.{get, set, get-set}
use wasm_host.Wasi.Descriptors.{
  Bytes, FileRecord, Runtime, Tables, Regular, workspace, scratch, package_root, Mount,
}
use wasm_host.Wasi.Writes
use wasm_host.Wasi.Writes.{pipe_buffer_limit}
use wasm_host.Wasi.Within.{
  same_preorder, Within, Within-pure, Within-gets, Within-then, Within-bind, Within-present,
  Within-modify, Within-throw_if,
}
use wasm_host.Wasi.Contents.{Contents, contents_preorder, IsReadOnly}
use wasm_host.Wasi.Contents.Reads.{offsets-Contents}

-- Some open descriptor may write to these bytes.
abbrev pub MayWrite : ℕ → Tables → Type 0
MayWrite n t = IsReadOnly n t → ⊥

pub MayWrite-later : (n : ℕ) (t u : Tables) → Contents t u → MayWrite n t → MayWrite n u
MayWrite-later n t u c h o = h (λ fd f g e. o fd f g (ap (get fd) c.open_files ∙ e))

set_bytes-Contents :
    (n : ℕ) (content : FileRecord) (dirty : Bool) (t : Tables)
    → MayWrite n t
    → Contents t (record t { files = set n content t.files; dirty = dirty })
set_bytes-Contents n content dirty t h = record {
  open_files = refl;
  next_file_fd = refl;
  next_pipe = refl;
  pipes = (contents_preorder.stay t).pipes;
  read_only = λ m o. elim (Bool-cases (n == m)) [
    | inl same ↦
        let here : n ≡ m = ground arith in absurd (h (subst (λ i. IsReadOnly i t) (sym here) o))
    | inr other ↦ rw (get-set n m content t.files, other) refl
  ];
}

dirty-Contents : (dirty : Bool) (t : Tables) → Contents t (record t { dirty = dirty })
dirty-Contents dirty t = record {
  open_files = refl;
  next_file_fd = refl;
  next_pipe = refl;
  pipes = (contents_preorder.stay t).pipes;
  read_only = λ n o. refl;
}

set_found :
    (n : ℕ) (change : FileRecord → FileRecord) (found : Option FileRecord) (dirty : Bool)
    (t : Tables)
    → MayWrite n t
    → Contents t (record t {
      files = elim found [ none ↦ t.files | some content ↦ set n (change content) t.files ];
      dirty = dirty;
    })
set_found n change none dirty t h = dirty-Contents dirty t
set_found n change (some content) dirty t h = set_bytes-Contents n (change content) dirty t h

pub set_file-Contents :
    (n : ℕ) (bytes : Bytes) (t : Tables) → MayWrite n t → Contents t (Writes.set_file n bytes t)
unfolding Writes.set_file
set_file-Contents n bytes t h =
    set_found n (λ content. record content { bytes = bytes }) (get n t.files) t.dirty t h

marked-Contents :
    (f : Regular) (mount : Mount) (t : Tables)
    → MayWrite f.file t
    → Contents t (Writes.mark_open_file_dirty (record f { mount = mount }) t)
unfolding Writes.mark_open_file_dirty
marked-Contents f workspace t h =
    set_found f.file (λ content. record content { fallback = false }) (get f.file t.files) true t h
marked-Contents f scratch t h = contents_preorder.stay t
marked-Contents f package_root t h = contents_preorder.stay t

pub mark_open_file_dirty-Contents :
    (f : Regular) (t : Tables) → MayWrite f.file t → Contents t (Writes.mark_open_file_dirty f t)
mark_open_file_dirty-Contents f t h = marked-Contents f f.mount t h

write_chunk-Contents :
    (f : Regular) (chunk : Bytes) (offset : ℕ) (r : Runtime)
    → MayWrite f.file r.tables
    → Within Contents (Writes.write_chunk f chunk offset) r
unfolding Writes.write_chunk
write_chunk-Contents f chunk offset r h = Within-gets _ _ r (
    Within-present _ _ r λ content _. Within-then _ _ r (Within-throw_if _ _ r) λ _ u same.
      Within-bind _ _ u (Within-modify _ u (set_file-Contents f.file _ u.tables (rw same h)))
        λ _ v _. Within-pure _ v)

write_chunks-Contents :
    (f : Regular) (chunks : List Bytes) (offset : ℕ) (changed : Bool) (r : Runtime)
    → MayWrite f.file r.tables
    → Within Contents (Writes.write_chunks f chunks offset changed) r
unfolding Writes.write_chunks
write_chunks-Contents f [] offset changed r h = Within-pure _ r
write_chunks-Contents f (chunk ∷ chunks) offset changed r h =
    Within-bind _ _ r (write_chunk-Contents f chunk offset r h) λ now u c.
      write_chunks-Contents f chunks (offset + length chunk) (changed || now) u
        (MayWrite-later f.file r.tables u.tables c h)

marked_if-Contents :
    (f : Regular) (changed : Bool) (t : Tables)
    → MayWrite f.file t
    → Contents t (if changed then Writes.mark_open_file_dirty f t else t)
marked_if-Contents f true t h = mark_open_file_dirty-Contents f t h
marked_if-Contents f false t h = contents_preorder.stay t

pub write_open_file_at-Contents :
    (f : Regular) (chunks : List Bytes) (offset : ℕ) (r : Runtime)
    → MayWrite f.file r.tables
    → Within Contents (Writes.write_open_file_at f chunks offset) r
unfolding Writes.write_open_file_at
write_open_file_at-Contents f chunks offset r h =
    Within-bind _ _ r (write_chunks-Contents f chunks offset false r h) λ done u c.
      Within-bind _ _ u
        (Within-modify _ u
          (marked_if-Contents f done.1 u.tables (MayWrite-later f.file r.tables u.tables c h)))
        λ _ v _. Within-pure _ v

pub write_open_file-Contents :
    (f : Regular) (chunks : List Bytes) (r : Runtime)
    → MayWrite f.file r.tables
    → Within Contents (Writes.write_open_file f chunks) r
unfolding Writes.write_open_file
write_open_file-Contents f chunks r h = Within-gets _ _ r (
    Within-present _ _ r λ content _. Within-present _ _ r λ offset _.
      Within-bind _ _ r (write_open_file_at-Contents f chunks _ r h)
        λ next u _. Within-modify _ u (offsets-Contents _ u.tables))
