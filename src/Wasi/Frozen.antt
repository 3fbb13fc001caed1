-- ===== src/Wasi/Frozen.antt =====
-- What holds of every open descriptor, and what follows for the bytes of files
-- (apps/web/src/wasi-module.js).
use wasm_host.Prelude.{
  ℕ, ◌≡◌, refl, sym, ap, ◌∙◌, subst, true, false, Option, none, some, inl, inr, List, ◌==◌,
  Bool-cases, arith,
}
use wasm_host.Prelude.Table.{Table, get, set, delete, get-set, get-delete}
use wasm_host.Wasi.Descriptors.{
  Direction, read_end, write_end, Kind, stdio, pipe, directory, regular, Regular, OpenFile, Tables,
  Runtime,
}
use wasm_host.Wasi.Tables
use wasm_host.Wasi.Calls.{Command, run}
use wasm_host.Wasi.Rights.{
  has_right, allows_bits, fd_write_right, fd_filestat_set_size_right, fd_allocate_right,
}
use wasm_host.Wasi.Capability.{has_right_of_allows_bits}
use wasm_host.Wasi.Contents.{IsReadOnly, may_change}
use wasm_host.Wasi.Steps.{
  Step, uses, closes, moves, copies, replaces, opens_pipe, restricts, MayOpen, is_plain,
}
use wasm_host.Wasi.Runs.{run_keeps}
use wasm_host.Wasi.Steps.Shapes.{
  closed-Shape, moved-Shape, copied-Shape, replaced-Shape, piped-Shape, restricted-Shape,
}

-- The files of the tables stand in open_files, one by one.
abbrev Every : (OpenFile → Type 0) → Table OpenFile → Type 0
Every P t = (fd : ℕ) (f : OpenFile) → get fd t ≡ some f → P f

module _ (P : OpenFile → Type 0) where
  Every-set : (k : ℕ) (g : OpenFile) (t : Table OpenFile) → P g → Every P t → Every P (set k g t)
  Every-set k g t p h fd f e = elim (Bool-cases (k == fd)) [
    | inl same ↦ subst P (value (rw (get-set k fd g t, same) at e)) p
    | inr other ↦ h fd f (rw (get-set k fd g t, other) at e)
  ]
    where
      value : some g ≡ some f → g ≡ f
      value e = cc e

  Every-delete : (k : ℕ) (t : Table OpenFile) → Every P t → Every P (delete k t)
  Every-delete k t h fd f e = elim (Bool-cases (k == fd)) [
    | inl same ↦ absurd (nothing (rw (get-delete k fd t, same) at e))
    | inr other ↦ h fd f (rw (get-delete k fd t, other) at e)
  ]
    where
      nothing : none ≡ some f → ⊥
      nothing e = cc e

  -- A property of files that a plain file and the end of a pipe have, and that does not depend on
  -- rights.
  module _ (plain : (f : OpenFile) → is_plain f.kind ≡ true → P f)
      (piped : (d : Direction) (p : ℕ) → P (Tables.pipe_file d p))
      (restricted : (base inheriting : ℕ) (f : OpenFile)
        → allows_bits 64 base f.rights ≡ true
        → P f
        → P (Tables.with_rights base inheriting f)) where
    may_open : (f : OpenFile) (t : Tables) → MayOpen f t → Every P t.open_files → P f
    may_open f t (inl (fd, e)) h = h fd f e
    may_open f t (inr e) h = plain f e

    Step-Every : (t u : Tables) → Step t u → Every P t.open_files → Every P u.open_files
    Step-Every t u (uses t' u' c) h = rw c.open_files h
    Step-Every t u (closes fd f t' e) h =
        rw (closed-Shape fd f t).open_files (Every-delete fd t.open_files h)
    Step-Every t u (moves fd to f t' e other) h =
        rw (moved-Shape fd to f t).open_files
          (Every-set to f _ (h fd f e) (Every-delete fd t.open_files h))
    Step-Every t u (copies fd flags f t' free may) h =
        rw (copied-Shape fd flags f t).open_files
          (Every-set fd f t.open_files (may_open f t may h) h)
    Step-Every t u (replaces to flags f t' may) h =
        rw (replaced-Shape to flags f t).open_files
          (Every-set to f t.open_files (may_open f t may h) h)
    Step-Every t u (opens_pipe read_fd write_fd t' free free' apart) h =
        rw (piped-Shape read_fd write_fd t).open_files (
          Every-set write_fd _ _ (piped write_end t.next_pipe)
            (Every-set read_fd _ t.open_files (piped read_end t.next_pipe) h))
    Step-Every t u (restricts fd base inheriting f t' e allowed) h =
        rw (restricted-Shape fd (Tables.with_rights base inheriting f) t).open_files
          (Every-set fd _ t.open_files (restricted base inheriting f allowed (h fd f e)) h)

-- A descriptor that may not change the bytes with this number.
abbrev Bars : ℕ → OpenFile → Type 0
Bars n f = (g : Regular) → f.kind ≡ regular g → g.file ≡ n → may_change g f.rights ≡ false

abbrev regular_of : Kind → Option Regular
regular_of (regular g) = some g
regular_of _ = none

none_apart : (g : Regular) → none ≡ some g → ⊥
none_apart g e = cc e

plain-Bars : (n : ℕ) (f : OpenFile) → is_plain f.kind ≡ true → Bars n f
unfolding is_plain
plain-Bars n f e g k = ground (arith, ap is_plain (sym k) ∙ e)

piped-Bars : (n : ℕ) (d : Direction) (p : ℕ) → Bars n (Tables.pipe_file d p)
piped-Bars n d p g k = absurd (none_apart g (ap regular_of k))

lost :
    (base rights k : ℕ)
    → allows_bits 64 base rights ≡ true
    → has_right k rights ≡ false
    → has_right k base ≡ false
lost base rights k allowed h = ground (arith, has_right_of_allows_bits 64 base rights k allowed)

-- With fewer rights a descriptor may change no more.
fewer_rights :
    (g : Regular) (base rights : ℕ)
    → allows_bits 64 base rights ≡ true
    → may_change g rights ≡ false
    → may_change g base ≡ false
fewer_rights g base rights allowed h = ground (
  arith,
  lost base rights fd_write_right allowed,
  lost base rights fd_filestat_set_size_right allowed,
  lost base rights fd_allocate_right allowed,
)

restricted-Bars :
    (n base inheriting : ℕ) (f : OpenFile)
    → allows_bits 64 base f.rights ≡ true
    → Bars n f
    → Bars n (Tables.with_rights base inheriting f)
unfolding Tables.with_rights
restricted-Bars n base inheriting f allowed h = by_kind f.kind f.rights allowed h
  where
    by_kind :
        (k : Kind) (rights : ℕ)
        → allows_bits 64 base rights ≡ true
        → Bars n (record { kind = k; rights = rights })
        → Bars n (Tables.with_rights base inheriting (record { kind = k; rights = rights }))
    by_kind (stdio m) rights allowed h = λ g k. absurd (none_apart g (ap regular_of k))
    by_kind (pipe d p) rights allowed h = λ g k. absurd (none_apart g (ap regular_of k))
    by_kind (regular r) rights allowed h = λ g k e. fewer_rights g base rights allowed (h g k e)
    by_kind (directory d) rights allowed h = λ g k. absurd (none_apart g (ap regular_of k))

Step-IsReadOnly : (n : ℕ) (t u : Tables) → Step t u → IsReadOnly n t → IsReadOnly n u
Step-IsReadOnly n t u s h fd f g e = kept fd f e g
  where
    kept : Every (Bars n) u.open_files
    kept =
        Step-Every (Bars n) (plain-Bars n) (piped-Bars n) (restricted-Bars n) t u s
          (λ fd f e g. h fd f g e)

Step-files : (n : ℕ) (t u : Tables) → Step t u → IsReadOnly n t → get n u.files ≡ get n t.files
Step-files n t u (uses t' u' c) h = c.read_only n h
Step-files n t u (closes fd f t' e) h = ap (get n) (closed-Shape fd f t).beside.files
Step-files n t u (moves fd to f t' e other) h = ap (get n) (moved-Shape fd to f t).beside.files
Step-files n t u (copies fd flags f t' free may) h =
    ap (get n) (copied-Shape fd flags f t).beside.files
Step-files n t u (replaces to flags f t' may) h =
    ap (get n) (replaced-Shape to flags f t).beside.files
Step-files n t u (opens_pipe read_fd write_fd t' free free' apart) h =
    ap (get n) (piped-Shape read_fd write_fd t).beside.files
Step-files n t u (restricts fd base inheriting f t' e allowed) h =
    ap (get n) (restricted-Shape fd _ t).beside.files

-- If every open descriptor of a file's bytes is for reading only, or has none of the rights to
-- write, to set the size and to allocate, no run of calls changes them: not by writing, resizing or
-- allocating, and not by duplicating, renumbering or changing the rights of descriptors first.
pub read_only_kept :
    (n : ℕ) (cs : List Command) (r : Runtime)
    → IsReadOnly n r.tables
    → get n (run cs r).tables.files ≡ get n r.tables.files
read_only_kept n cs r h =
    (run_keeps (λ t. IsReadOnly n t × (get n t.files ≡ get n r.tables.files))
      (λ t u s (o, e). (Step-IsReadOnly n t u s o, Step-files n t u s o ∙ e)) cs r (h, refl)).1
