-- ===== src/Wasi/Contents/Sizes.antt =====
-- The calls that move offsets, and ask for and change the sizes of files, keep to the contents
-- (apps/web/src/wasi-module.js).
use wasm_host.Prelude.{
  ℕ, Bool, ◌||◌, zero, suc, ◌≡◌, refl, ap, sym, subst, ◌∙◌, true, ◌&&◌, not, Option, none, some,
  length, ltb, ◌==◌, arith,
}
use wasm_host.Prelude.Int.{ℤ}
use wasm_host.Prelude.Table.{get}
use wasm_host.Prelude.Exec.{pure, ◌>>◌}
use wasm_host.Wasi.Memory.{throw_if_aborted}
use wasm_host.Wasi.Descriptors.{
  Errno, isdir, Runtime, Tables, Kind, pipe, stdio, directory, regular, Regular, OpenFile, Action,
  is_writable, file_at,
}
use wasm_host.Wasi.Rights.{
  has_right, fd_write_right, fd_filestat_set_size_right, fd_allocate_right, can_resize_file,
  can_allocate_file, fd_stat,
}
use wasm_host.Wasi.Ranges.{resolve_file_size, resolve_file_allocation, resolve_seek}
use wasm_host.Wasi.Sizes
use wasm_host.Wasi.Writes
use wasm_host.Wasi.Within.{
  same_preorder, Same, Within, Within-pure, Within-throw, Within-throw_if, Within-gets, Within-then,
  Within-bind, Within-if, Within-present, Within-modify, Within-result, Within-option,
}
use wasm_host.Wasi.Contents.{Contents, contents_preorder}
use wasm_host.Wasi.Contents.Memory.{
  throw_if_aborted-Same, write_memory-Same, write_u32-Same, write_u64-Same,
}
use wasm_host.Wasi.Contents.Reads.{offsets-Contents}
use wasm_host.Wasi.Contents.Writes.{
  MayWrite, set_file-Contents, mark_open_file_dirty-Contents, MayWrite-later,
}
use wasm_host.Wasi.Contents.Output.{opened-MayWrite}

size_of_kind-Same : (kind : Kind) (s r : Runtime) → Within Same (Sizes.size_of_kind kind s) r
unfolding Sizes.size_of_kind
size_of_kind-Same (regular g) s r = Within-present _ _ r λ content _. Within-pure _ r
size_of_kind-Same (pipe d p) s r = Within-throw _ r
size_of_kind-Same (stdio n) s r = Within-throw _ r
size_of_kind-Same (directory d) s r = Within-throw _ r

seek_base-Same :
    (kind : Kind) (offset_ref whence : ℕ) (s r : Runtime)
    → Within Same (Sizes.seek_base kind offset_ref whence s) r
unfolding Sizes.seek_base
seek_base-Same kind offset_ref zero s r = Within-pure _ r
seek_base-Same kind offset_ref (suc zero) s r = Within-present _ _ r λ offset _. Within-pure _ r
seek_base-Same kind offset_ref (suc (suc zero)) s r =
    Within-then _ _ r (size_of_kind-Same kind s r) λ size u _. Within-pure _ u
seek_base-Same kind offset_ref (suc (suc (suc whence))) s r = Within-pure _ r

seek_from-Contents :
    (offset_ref : ℕ) (base : Option ℕ) (offset : ℤ) (ptr : ℕ) (r : Runtime)
    → Within Contents (Sizes.seek_from offset_ref base offset ptr) r
unfolding Sizes.seek_from
seek_from-Contents offset_ref none offset ptr r = Within-pure _ r
seek_from-Contents offset_ref (some base) offset ptr r =
    Within-result (resolve_seek base offset) _ _ r (λ e _. Within-pure e r)
      λ next _.
        Within-bind _ _ r (Within-modify _ r (offsets-Contents _ r.tables))
          λ _ u _. Within-then _ _ u (write_u64-Same ptr next u) λ _ v _. Within-pure _ v

seek_kind-Contents :
    (fd : ℕ) (kind : Kind) (rights : ℕ) (offset : ℤ) (whence ptr : ℕ) (s r : Runtime)
    → Within Contents
        (Sizes.seek_kind fd (some (record { kind = kind; rights = rights })) offset whence ptr s)
        r
unfolding Sizes.seek_kind
seek_kind-Contents fd (pipe d p) rights offset whence ptr s r = Within-pure _ r
seek_kind-Contents fd (stdio n) rights offset whence ptr s r = Within-pure _ r
seek_kind-Contents fd (directory d) rights offset whence ptr s r =
    Within-then _ _ r (seek_base-Same (directory d) d.offset whence s r)
      λ base u _. seek_from-Contents d.offset base offset ptr u
seek_kind-Contents fd (regular g) rights offset whence ptr s r =
    Within-then _ _ r (seek_base-Same (regular g) g.offset whence s r)
      λ base u _. seek_from-Contents g.offset base offset ptr u

seek_any-Contents :
    (fd : ℕ) (f : Option OpenFile) (offset : ℤ) (whence ptr : ℕ) (s r : Runtime)
    → Within Contents (Sizes.seek_kind fd f offset whence ptr s) r
unfolding Sizes.seek_kind
seek_any-Contents fd none offset whence ptr s r = Within-pure _ r
seek_any-Contents fd (some f) offset whence ptr s r =
    seek_kind-Contents fd f.kind f.rights offset whence ptr s r

pub fd_seek-Contents :
    (fd : ℕ) (offset : ℤ) (whence ptr : ℕ) (r : Runtime)
    → Within Contents (Sizes.fd_seek fd offset whence ptr) r
unfolding Sizes.fd_seek
fd_seek-Contents fd offset whence ptr r =
    Within-then _ _ r (throw_if_aborted-Same r)
      λ _ u _. Within-gets _ _ u (seek_any-Contents fd _ offset whence ptr u u)

tell_offset-Contents :
    (offset_ref ptr : ℕ) (r : Runtime) → Within Contents (Sizes.tell_offset offset_ref ptr) r
unfolding Sizes.tell_offset
tell_offset-Contents offset_ref ptr r = Within-gets _ _ r (
    Within-present _ _ r
      λ offset _. Within-then _ _ r (write_u64-Same ptr offset r) λ _ u _. Within-pure _ u)

tell_kind-Contents :
    (fd : ℕ) (kind : Kind) (rights ptr : ℕ) (s r : Runtime)
    → Within Contents (Sizes.tell_kind fd (some (record { kind = kind; rights = rights })) ptr s) r
unfolding Sizes.tell_kind
tell_kind-Contents fd (pipe d p) rights ptr s r = Within-pure _ r
tell_kind-Contents fd (stdio n) rights ptr s r = Within-pure _ r
tell_kind-Contents fd (directory d) rights ptr s r = tell_offset-Contents d.offset ptr r
tell_kind-Contents fd (regular g) rights ptr s r = tell_offset-Contents g.offset ptr r

tell_any-Contents :
    (fd : ℕ) (f : Option OpenFile) (ptr : ℕ) (s r : Runtime)
    → Within Contents (Sizes.tell_kind fd f ptr s) r
unfolding Sizes.tell_kind
tell_any-Contents fd none ptr s r = Within-pure _ r
tell_any-Contents fd (some f) ptr s r = tell_kind-Contents fd f.kind f.rights ptr s r

pub fd_tell-Contents : (fd ptr : ℕ) (r : Runtime) → Within Contents (Sizes.fd_tell fd ptr) r
unfolding Sizes.fd_tell
fd_tell-Contents fd ptr r =
    Within-then _ _ r (throw_if_aborted-Same r)
      λ _ u _. Within-gets _ _ u (tell_any-Contents fd _ ptr u u)

pub fd_fdstat_get-Contents :
    (fd ptr : ℕ) (r : Runtime) → Within Contents (Sizes.fd_fdstat_get fd ptr) r
unfolding Sizes.fd_fdstat_get
fd_fdstat_get-Contents fd ptr r = Within-then _ _ r (throw_if_aborted-Same r) λ _ u _.
    Within-gets _ _ u (
      Within-option (fd_stat fd u) _ _ u (λ _. Within-pure _ u)
        λ stat _. Within-then _ _ u (write_memory-Same ptr _ u) λ _ v _.
          Within-then _ _ v (write_memory-Same _ _ v) λ _ v _.
            Within-then _ _ v (write_memory-Same _ _ v) λ _ v _.
              Within-then _ _ v (write_u32-Same _ _ v) λ _ v _.
                Within-then _ _ v (write_u64-Same _ _ v)
                  λ _ v _. Within-then _ _ v (write_u64-Same _ _ v) λ _ v _. Within-pure _ v)

pub fd_fdstat_set_flags-Contents :
    (fd : ℕ) (r : Runtime) → Within Contents (Sizes.fd_fdstat_set_flags fd) r
unfolding Sizes.fd_fdstat_set_flags
fd_fdstat_set_flags-Contents fd r =
    Within-then _ _ r (throw_if_aborted-Same r) λ _ u _. Within-gets _ _ u (Within-pure _ u)

write_filestat-Same :
    (ptr filetype size : ℕ) (r : Runtime) → Within Same (Sizes.write_filestat ptr filetype size) r
unfolding Sizes.write_filestat
write_filestat-Same ptr filetype size r = Within-then _ _ r (write_u64-Same _ _ r) λ _ v _.
    Within-then _ _ v (write_u64-Same _ _ v) λ _ v _.
      Within-then _ _ v (write_memory-Same _ _ v) λ _ v _.
        Within-then _ _ v (write_memory-Same _ _ v) λ _ v _.
          Within-then _ _ v (write_memory-Same _ _ v) λ _ v _.
            Within-then _ _ v (write_u32-Same _ _ v) λ _ v _.
              Within-then _ _ v (write_u64-Same _ _ v) λ _ v _.
                Within-then _ _ v (write_u64-Same _ _ v) λ _ v _.
                  Within-then _ _ v (write_u64-Same _ _ v)
                    λ _ v _. Within-then _ _ v (write_u64-Same _ _ v) λ _ v _. write_u64-Same _ _ v

pub fd_filestat_get-Contents :
    (fd ptr : ℕ) (r : Runtime) → Within Contents (Sizes.fd_filestat_get fd ptr) r
unfolding Sizes.fd_filestat_get
fd_filestat_get-Contents fd ptr r = Within-then _ _ r (throw_if_aborted-Same r) λ _ u _.
    Within-gets _ _ u (
      Within-option (fd_stat fd u) _ _ u (λ _. Within-pure _ u)
        λ stat _. Within-then _ _ u (write_filestat-Same ptr _ _ u) λ _ v _. Within-pure _ v)

resize_open_file-Contents :
    (kind : Kind) (size : ℕ) (r : Runtime)
    → ((g : Regular) → kind ≡ regular g → MayWrite g.file r.tables)
    → Within Contents (Sizes.resize_open_file kind size) r
unfolding Sizes.resize_open_file
resize_open_file-Contents (pipe d p) size r h = Within-throw _ r
resize_open_file-Contents (stdio n) size r h = Within-throw _ r
resize_open_file-Contents (directory d) size r h = Within-throw _ r
resize_open_file-Contents (regular g) size r h = Within-gets _ _ r (
    Within-present _ _ r λ content _.
      Within-if (length content.bytes == size) _ _ r (λ _. Within-pure _ r)
        λ _. Within-then _ _ r (Within-throw_if _ _ r) λ _ u same.
          let may = subst (MayWrite g.file) (sym same) (h g refl) in
          let sized = set_file-Contents g.file (Sizes.resized content.bytes size) u.tables may in
          let t = Writes.set_file g.file (Sizes.resized content.bytes size) u.tables in
          Within-modify _ u (
            contents_preorder.chain u.tables t (Writes.mark_open_file_dirty g t) sized
              (mark_open_file_dirty-Contents g t (MayWrite-later g.file u.tables t sized may))))

allocate_to-Contents :
    (kind : Kind) (size : Option ℕ) (r : Runtime)
    → ((g : Regular) → kind ≡ regular g → MayWrite g.file r.tables)
    → Within Contents (Sizes.allocate_to kind size) r
unfolding Sizes.allocate_to
allocate_to-Contents kind none r h = Within-pure _ r
allocate_to-Contents (pipe d p) (some size) r h = Within-throw _ r
allocate_to-Contents (stdio n) (some size) r h = Within-throw _ r
allocate_to-Contents (directory d) (some size) r h = Within-throw _ r
allocate_to-Contents (regular g) (some size) r h = Within-gets _ _ r (
    Within-present _ _ r λ content _.
      Within-if (ltb (length content.bytes) size) _ _ r
        (λ _. resize_open_file-Contents (regular g) size r h) λ _. Within-pure _ r)

-- A call on an open file that may change only what the file may write to.
on_open-Contents :
    (kind : Kind) (call : Action Errno) (r : Runtime)
    → Within Contents call r
    → Within Contents (elim kind [ directory d ↦ pure isdir | _ ↦ call ]) r
on_open-Contents (pipe d p) call r h = h
on_open-Contents (stdio n) call r h = h
on_open-Contents (directory d) call r h = Within-pure _ r
on_open-Contents (regular g) call r h = h

on_file-Contents :
    (fd : ℕ) (call : OpenFile → Action Errno) (r : Runtime)
    → ((f : OpenFile) → get fd r.tables.open_files ≡ some f → Within Contents (call f) r)
    → Within Contents (Sizes.on_file fd call) r
unfolding Sizes.on_file file_at
on_file-Contents fd call r h = Within-gets _ _ r (
    Within-option (get fd r.tables.open_files) _ _ r (λ _. Within-pure _ r)
      λ f e. on_open-Contents f.kind (call f) r (h f e))

-- The same test for a descriptor of any kind
abbrev may_change_file : OpenFile → Bool
may_change_file f =
    is_writable f.kind
    && (has_right fd_write_right f.rights
        || (has_right fd_filestat_set_size_right f.rights || has_right fd_allocate_right f.rights))

-- A file that may be changed, and open under the number of the call.
changeable-MayWrite :
    (fd : ℕ) (f : OpenFile) (t : Tables)
    → get fd t.open_files ≡ some f
    → may_change_file f ≡ true
    → (g : Regular) → f.kind ≡ regular g
    → MayWrite g.file t
unfolding is_writable
changeable-MayWrite fd f t e w g k =
    opened-MayWrite fd g f.rights t
      (rw e (ap (λ kind. some (record { kind = kind; rights = f.rights })) k))
      (ap (λ kind. may_change_file (record { kind = kind; rights = f.rights })) (sym k) ∙ w)

set_size-Contents :
    (fd : ℕ) (size : ℤ) (f : OpenFile) (r : Runtime)
    → get fd r.tables.open_files ≡ some f
    → Within Contents (Sizes.set_size size f) r
unfolding Sizes.set_size can_resize_file
set_size-Contents fd size f r e =
    Within-if (not (is_writable f.kind && has_right fd_filestat_set_size_right f.rights)) _ _ r
      (λ _. Within-pure _ r)
      λ can.
        Within-result (resolve_file_size size) _ _ r (λ e _. Within-pure e r)
          λ n _.
            Within-bind _ _ r
              (resize_open_file-Contents f.kind n r
                (changeable-MayWrite fd f r.tables e (ground (arith, can))))
              λ _ u _. Within-pure _ u

allocate-Contents :
    (fd : ℕ) (offset n : ℤ) (f : OpenFile) (r : Runtime)
    → get fd r.tables.open_files ≡ some f
    → Within Contents (Sizes.allocate offset n f) r
unfolding Sizes.allocate can_allocate_file
allocate-Contents fd offset n f r e =
    Within-if (not (is_writable f.kind && has_right fd_allocate_right f.rights)) _ _ r
      (λ _. Within-pure _ r)
      λ can.
        Within-result (resolve_file_allocation offset n) _ _ r (λ e _. Within-pure e r)
          λ size _.
            Within-bind _ _ r
              (allocate_to-Contents f.kind size r
                (changeable-MayWrite fd f r.tables e (ground (arith, can))))
              λ _ u _. Within-pure _ u

-- A call on a file once the run is known to go on.
checked-Contents :
    (m : Action Errno) (r : Runtime)
    → ((u : Runtime) → Within Contents m u)
    → Within Contents (throw_if_aborted >> m) r
checked-Contents m r h = Within-then _ _ r (throw_if_aborted-Same r) λ _ u _. h u

pub fd_filestat_set_size-Contents :
    (fd : ℕ) (size : ℤ) (r : Runtime) → Within Contents (Sizes.fd_filestat_set_size fd size) r
unfolding Sizes.fd_filestat_set_size
fd_filestat_set_size-Contents fd size r =
    checked-Contents _ r λ u. on_file-Contents fd _ u λ f e. set_size-Contents fd size f u e

pub fd_filestat_set_times-Contents :
    (fd flags : ℕ) (r : Runtime) → Within Contents (Sizes.fd_filestat_set_times fd flags) r
unfolding Sizes.fd_filestat_set_times
fd_filestat_set_times-Contents fd flags r = checked-Contents _ r λ u.
    Within-if (not (Sizes.is_supported_set_times flags)) _ _ u (λ _. Within-pure _ u)
      λ _. on_file-Contents fd _ u λ f e. Within-pure _ u

pub fd_allocate-Contents :
    (fd : ℕ) (offset n : ℤ) (r : Runtime) → Within Contents (Sizes.fd_allocate fd offset n) r
unfolding Sizes.fd_allocate
fd_allocate-Contents fd offset n r =
    checked-Contents _ r λ u. on_file-Contents fd _ u λ f e. allocate-Contents fd offset n f u e

pub fd_advise-Contents :
    (fd : ℕ) (offset n : ℤ) (advice : ℕ) (r : Runtime)
    → Within Contents (Sizes.fd_advise fd offset n advice) r
unfolding Sizes.fd_advise
fd_advise-Contents fd offset n advice r =
    checked-Contents _ r λ u. on_file-Contents fd _ u λ f e. Within-pure _ u

pub fd_sync-Contents :
    (fd required_right : ℕ) (r : Runtime) → Within Contents (Sizes.fd_sync fd required_right) r
unfolding Sizes.fd_sync
fd_sync-Contents fd required_right r =
    checked-Contents _ r λ u. on_file-Contents fd _ u λ f e. Within-pure _ u
