-- ===== src/Wasi/Steps.antt =====
-- The ways in which the calls of a module change the tables of its descriptors, as a relation of
-- the tables before to those after (apps/web/src/wasi-module.js).
pub mod Calls
pub mod Opens
pub mod Shapes
use wasm_host.Prelude.{
  ℕ, ◌+◌, ◌≤◌, ◌≡◌, refl, ◌∙◌, Bool, true, false, Option, none, some, ◌⊎◌, ◌==◌,
}
use wasm_host.Prelude.Table.{get}
use wasm_host.Wasi.Descriptors.{
  Direction, read_end, write_end, Kind, stdio, pipe, directory, regular, OpenFile, Tables,
}
use wasm_host.Wasi.Rights.{allows_bits}
use wasm_host.Wasi.Tables.{
  close_open_file, retain_open_file, put_open_file, remove_open_file, put_flags, moved, given,
  new_offset, copied_to, new_pipe, pipe_file, with_rights,
}
use wasm_host.Wasi.Within.{Preorder}
use wasm_host.Wasi.Contents.{Contents, contents_preorder}

-- A file that has no pipe and no bytes of its own.
unfoldable pub is_plain : Kind → Bool
is_plain (stdio n) = true
is_plain (directory d) = true
is_plain _ = false

-- What may be opened again: a file that is open, or one of the directories and standard streams.
abbrev pub MayOpen : OpenFile → Tables → Type 0
MayOpen f t = ((fd : ℕ) × (get fd t.open_files ≡ some f)) ⊎ (is_plain f.kind ≡ true)

-- The two ends of a new pipe, on descriptors that are free.
unfoldable pub with_pipe : ℕ → ℕ → Tables → Tables
with_pipe read_fd write_fd t =
    let opened =
      put_open_file read_fd (pipe_file read_end t.next_pipe) (given read_fd (new_pipe t)) in
    put_open_file write_fd (pipe_file write_end t.next_pipe) (given write_fd opened)

-- A second descriptor for a file, on one that is free.
unfoldable pub with_copy : ℕ → ℕ → OpenFile → Tables → Tables
with_copy fd flags f t =
    put_flags fd flags (put_open_file fd f (retain_open_file f.kind (given fd (new_offset t))))

pub data Step : Tables → Tables → Type 0 where
  uses : (t u : Tables) → Contents t u → Step t u
  closes :
      (fd : ℕ) (f : OpenFile) (t : Tables)
      → get fd t.open_files ≡ some f
      → Step t (remove_open_file fd (close_open_file f.kind t))
  moves :
      (fd to : ℕ) (f : OpenFile) (t : Tables)
      → get fd t.open_files ≡ some f
      → (fd == to) ≡ false
      → Step t (moved fd to f t)
  copies :
      (fd flags : ℕ) (f : OpenFile) (t : Tables)
      → get fd t.open_files ≡ none
      → MayOpen f t
      → Step t (with_copy fd flags f t)
  replaces :
      (to flags : ℕ) (f : OpenFile) (t : Tables)
      → MayOpen f t
      → Step t (copied_to to flags f (new_offset t))
  opens_pipe :
      (read_fd write_fd : ℕ) (t : Tables)
      → get read_fd t.open_files ≡ none
      → get write_fd t.open_files ≡ none
      → (read_fd == write_fd) ≡ false
      → Step t (with_pipe read_fd write_fd t)
  restricts :
      (fd base inheriting : ℕ) (f : OpenFile) (t : Tables)
      → get fd t.open_files ≡ some f
      → allows_bits 64 base f.rights ≡ true
      → Step t (put_open_file fd (with_rights base inheriting f) t)

pub data Steps : Tables → Tables → Type 0 where
  done : (t : Tables) → Steps t t
  after : (t u v : Tables) → Step t u → Steps u v → Steps t v

pub Steps_trans : (t u v : Tables) → Steps t u → Steps u v → Steps t v
Steps_trans t u v (done t') k = k
Steps_trans t u v (after t' w u' s h) k = after _ w _ s (Steps_trans w u v h k)

instance pub steps_preorder : Preorder Steps
steps_preorder = record { stay = done; chain = Steps_trans }

pub one_step : (t u : Tables) → Step t u → Steps t u
one_step t u s = after t u u s (done u)
