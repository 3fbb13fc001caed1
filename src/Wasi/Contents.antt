-- ===== src/Wasi/Contents.antt =====
-- What a call may do to the tables of the descriptors if it neither opens nor closes one
-- (apps/web/src/wasi-module.js).
pub mod Memory
pub mod Reads
pub mod Writes
pub mod Output
pub mod Sizes
use wasm_host.Prelude.{
  ℕ, ◌≤◌, ◌≡◌, refl, sym, ap, ◌∙◌, Bool, true, false, ◌&&◌, ◌||◌, Option, none, some, ◌⊎◌, inl, inr,
  length, if◌then◌else◌,
}
use native.Mathlib.Omega.{arith}
use wasm_host.Prelude.Table.{get}
use wasm_host.Wasi.Descriptors.{
  Errno, Trap, type_error, Pipe, Regular, Kind, regular, OpenFile, Tables, Runtime, Action,
}
use wasm_host.Wasi.Rights.{has_right, fd_write_right, fd_filestat_set_size_right, fd_allocate_right}
use wasm_host.Wasi.Within.{Preorder}
use wasm_host.Wasi.Writes.{pipe_buffer_limit}

-- A descriptor of a file may change its bytes: the file is writable, and the descriptor has the
-- right to write, to set the size or to allocate.
abbrev pub may_change : Regular → ℕ → Bool
may_change g rights =
    g.writable
    && (has_right fd_write_right rights
        || (has_right fd_filestat_set_size_right rights || has_right fd_allocate_right rights))

-- No open descriptor may change the bytes with this number.
abbrev pub IsReadOnly : ℕ → Tables → Type 0
IsReadOnly n t =
    (fd : ℕ) (f : OpenFile) (g : Regular)
    → get fd t.open_files ≡ some f
    → f.kind ≡ regular g
    → g.file ≡ n
    → may_change g f.rights ≡ false

-- A pipe keeps its counts, and holds no more than before or than the limit.
abbrev pub SamePipe : Option Pipe → Option Pipe → Type 0
SamePipe none none = Unit
SamePipe (some p) (some q) =
    (q.readers ≡ p.readers)
    × (q.writers ≡ p.writers)
    × ((length q.bytes ≤ length p.bytes) ⊎ (length q.bytes ≤ pipe_buffer_limit))
SamePipe _ _ = ⊥

SamePipe-refl : (p : Option Pipe) → SamePipe p p
SamePipe-refl none = tt
SamePipe-refl (some p) = (refl, refl, inl (omega arith))

SamePipe-trans : (p q r : Option Pipe) → SamePipe p q → SamePipe q r → SamePipe p r
SamePipe-trans none none none h k = tt
SamePipe-trans (some p) (some q) (some r) h k = ground arith
SamePipe-trans none none (some r) h k = elim k [ ]
SamePipe-trans none (some q) r h k = elim h [ ]
SamePipe-trans (some p) none r h k = elim h [ ]
SamePipe-trans (some p) (some q) none h k = elim k [ ]

pub record Contents (t u : Tables) : Type 0 where
  pub open_files : u.open_files ≡ t.open_files
  pub next_file_fd : u.next_file_fd ≡ t.next_file_fd
  pub next_pipe : u.next_pipe ≡ t.next_pipe
  pub pipes : (p : ℕ) → SamePipe (get p t.pipes) (get p u.pipes)
  pub read_only : (n : ℕ) → IsReadOnly n t → get n u.files ≡ get n t.files

pub Contents_refl : (t : Tables) → Contents t t
Contents_refl t = record {
  open_files = refl;
  next_file_fd = refl;
  next_pipe = refl;
  pipes = λ p. SamePipe-refl (get p t.pipes);
  read_only = λ n h. refl;
}

pub Contents_trans : (t u v : Tables) → Contents t u → Contents u v → Contents t v
Contents_trans t u v h k = record {
  open_files = k.open_files ∙ h.open_files;
  next_file_fd = k.next_file_fd ∙ h.next_file_fd;
  next_pipe = k.next_pipe ∙ h.next_pipe;
  pipes =
      λ p. SamePipe-trans (get p t.pipes) (get p u.pipes) (get p v.pipes) (h.pipes p) (k.pipes p);
  read_only = λ n o.
      k.read_only n (λ fd f g e. o fd f g (ap (get fd) (sym h.open_files) ∙ e)) ∙ h.read_only n o;
}

instance pub contents_preorder : Preorder Contents
contents_preorder = record { stay = Contents_refl; chain = Contents_trans }
