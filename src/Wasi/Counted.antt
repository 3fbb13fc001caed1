-- ===== src/Wasi/Counted.antt =====
-- A pipe counts the descriptors of its two ends (apps/web/src/wasi-module.js).
pub mod Steps
pub mod Runs
use wasm_host.Prelude.{
  ℕ, ◌+◌, ◌-◌, ◌≤◌, ◌≡◌, refl, sym, ap, ◌∙◌, Bool, true, false, ◌&&◌, Option, none, some, inl, inr,
  is_some, length, ◌==◌, if◌then◌else◌, Bool-cases, arith,
}
use wasm_host.Prelude.Table.{
  Table, get, set, delete, get-set, get-delete, IsUnique, delete-IsUnique, set-IsUnique, weight,
  count, count-set, count-delete,
}
use wasm_host.Wasi.Descriptors.{
  Direction, read_end, write_end, Pipe, Kind, stdio, pipe, directory, regular, OpenFile, Tables,
}
use wasm_host.Wasi.Tables.{fewer, more, change_pipe, close_open_file, retain_open_file, close_found}

unfoldable pub same_end : Direction → Direction → Bool
same_end read_end read_end = true
same_end write_end write_end = true
same_end _ _ = false

-- A descriptor of this end of this pipe.
unfoldable pub is_end : Direction → ℕ → Kind → Bool
is_end d p (pipe e q) = same_end d e && p == q
is_end d p _ = false

-- What the pipe says of an end; a pipe that is not there has none.
unfoldable pub ends : Direction → Option Pipe → ℕ
ends d none = 0
ends read_end (some q) = q.readers
ends write_end (some q) = q.writers

abbrev pub open_ends : Direction → ℕ → Tables → ℕ
open_ends d p t = count (λ f. is_end d p f.kind) t.open_files

-- Each descriptor stands once, each pipe counts the descriptors of its ends, and no pipe has the
-- number that the next one gets.
pub record IsCounted (t : Tables) : Type 0 where
  pub unique : IsUnique t.open_files
  pub counted : (d : Direction) (p : ℕ) → open_ends d p t ≡ ends d (get p t.pipes)
  pub fresh : (p : ℕ) → t.next_pipe ≤ p → get p t.pipes ≡ none

abbrev pub one_if : Bool → ℕ
one_if b = if b then 1 else 0

-- The pipe of the descriptor is there.
abbrev pub Known : Kind → Tables → Type 0
Known (pipe d p) t = is_some (get p t.pipes) ≡ true
Known _ t = Unit

ends-set-fewer :
    (d e : Direction) (p j : ℕ) (q : Pipe) (t : Table Pipe)
    → get p t ≡ some q
    → ends d (get j (set p (fewer e q) t)) ≡ ends d (get j t) - one_if (is_end d j (pipe e p))
unfolding ends is_end same_end fewer
ends-set-fewer read_end read_end p j q t h = ground (arith, get-set p j (fewer read_end q) t)
ends-set-fewer read_end write_end p j q t h = ground (arith, get-set p j (fewer write_end q) t)
ends-set-fewer write_end read_end p j q t h = ground (arith, get-set p j (fewer read_end q) t)
ends-set-fewer write_end write_end p j q t h = ground (arith, get-set p j (fewer write_end q) t)

ends-set-more :
    (d e : Direction) (p j : ℕ) (q : Pipe) (t : Table Pipe)
    → get p t ≡ some q
    → ends d (get j (set p (more e q) t)) ≡ ends d (get j t) + one_if (is_end d j (pipe e p))
unfolding ends is_end same_end more
ends-set-more read_end read_end p j q t h = ground (arith, get-set p j (more read_end q) t)
ends-set-more read_end write_end p j q t h = ground (arith, get-set p j (more write_end q) t)
ends-set-more write_end read_end p j q t h = ground (arith, get-set p j (more read_end q) t)
ends-set-more write_end write_end p j q t h = ground (arith, get-set p j (more write_end q) t)

no_pipe :
    (d e : Direction) (p j : ℕ) (t : Table Pipe)
    → get p t ≡ none
    → ends d (get j t) ≡ ends d (get j t) - one_if (is_end d j (pipe e p))
unfolding ends is_end
no_pipe d e p j t h = ground arith

change_pipe-ends :
    (d e : Direction) (p j : ℕ) (o : Option Pipe) (t : Tables)
    → get p t.pipes ≡ o
    → ends d (get j (change_pipe (fewer e) p o t).pipes)
      ≡ ends d (get j t.pipes) - one_if (is_end d j (pipe e p))
unfolding change_pipe
change_pipe-ends d e p j none t h = no_pipe d e p j t.pipes h
change_pipe-ends d e p j (some q) t h = ends-set-fewer d e p j q t.pipes h

change_pipe-more-ends :
    (d e : Direction) (p j : ℕ) (o : Option Pipe) (t : Tables)
    → get p t.pipes ≡ o
    → is_some o ≡ true
    → ends d (get j (change_pipe (more e) p o t).pipes)
      ≡ ends d (get j t.pipes) + one_if (is_end d j (pipe e p))
unfolding change_pipe
change_pipe-more-ends d e p j none t h k = ground (arith, k)
change_pipe-more-ends d e p j (some q) t h k = ends-set-more d e p j q t.pipes h

pub close_open_file-ends :
    (d : Direction) (kind : Kind) (j : ℕ) (t : Tables)
    → ends d (get j (close_open_file kind t).pipes)
      ≡ ends d (get j t.pipes) - one_if (is_end d j kind)
unfolding close_open_file is_end
close_open_file-ends d (stdio n) j t = omega arith
close_open_file-ends d (directory f) j t = omega arith
close_open_file-ends d (regular f) j t = omega arith
close_open_file-ends d (pipe e p) j t = change_pipe-ends d e p j (get p t.pipes) t refl

pub retain_open_file-ends :
    (d : Direction) (kind : Kind) (j : ℕ) (t : Tables)
    → Known kind t
    → ends d (get j (retain_open_file kind t).pipes)
      ≡ ends d (get j t.pipes) + one_if (is_end d j kind)
unfolding retain_open_file is_end
retain_open_file-ends d (stdio n) j t k = omega arith
retain_open_file-ends d (directory f) j t k = omega arith
retain_open_file-ends d (regular f) j t k = omega arith
retain_open_file-ends d (pipe e p) j t k = change_pipe-more-ends d e p j (get p t.pipes) t refl k

-- How many bytes are in a pipe.
abbrev pub held : Option Pipe → ℕ
held none = 0
held (some q) = length q.bytes

-- These change the counts of pipes alone.
pub record SamePipes (t u : Tables) : Type 0 where
  pub open_files : u.open_files ≡ t.open_files
  pub next_file_fd : u.next_file_fd ≡ t.next_file_fd
  pub next_pipe : u.next_pipe ≡ t.next_pipe
  pub files : u.files ≡ t.files
  pub pipes : (j : ℕ) → is_some (get j u.pipes) ≡ is_some (get j t.pipes)
  pub sizes : (j : ℕ) → held (get j u.pipes) ≡ held (get j t.pipes)

SamePipes-refl : (t : Tables) → SamePipes t t
SamePipes-refl t = record {
  open_files = refl;
  next_file_fd = refl;
  next_pipe = refl;
  files = refl;
  pipes = λ j. refl;
  sizes = λ j. refl;
}

change_pipe-SamePipes :
    (g : Pipe → Pipe) (p : ℕ) (o : Option Pipe) (t : Tables)
    → get p t.pipes ≡ o
    → ((q : Pipe) → (g q).bytes ≡ q.bytes)
    → SamePipes t (change_pipe g p o t)
unfolding change_pipe
change_pipe-SamePipes g p none t h keeps = SamePipes-refl t
change_pipe-SamePipes g p (some q) t h keeps = record {
  open_files = refl;
  next_file_fd = refl;
  next_pipe = refl;
  files = refl;
  pipes = λ j. elim (Bool-cases (p == j)) [
    | inl e ↦ let here : p ≡ j = ground arith in rw (get-set p j (g q) t.pipes, e, ← here, h) refl
    | inr e ↦ rw (get-set p j (g q) t.pipes, e) refl
  ];
  sizes = λ j. elim (Bool-cases (p == j)) [
    | inl e ↦
        let here : p ≡ j = ground arith in
        rw (get-set p j (g q) t.pipes, e, ← here, h) (ap length (keeps q))
    | inr e ↦ rw (get-set p j (g q) t.pipes, e) refl
  ];
}

fewer_bytes : (d : Direction) (q : Pipe) → (fewer d q).bytes ≡ q.bytes
unfolding fewer
fewer_bytes read_end q = refl
fewer_bytes write_end q = refl

more_bytes : (d : Direction) (q : Pipe) → (more d q).bytes ≡ q.bytes
unfolding more
more_bytes read_end q = refl
more_bytes write_end q = refl

pub close_open_file-SamePipes : (kind : Kind) (t : Tables) → SamePipes t (close_open_file kind t)
unfolding close_open_file
close_open_file-SamePipes (stdio n) t = SamePipes-refl t
close_open_file-SamePipes (directory f) t = SamePipes-refl t
close_open_file-SamePipes (regular f) t = SamePipes-refl t
close_open_file-SamePipes (pipe e p) t =
    change_pipe-SamePipes (fewer e) p (get p t.pipes) t refl (fewer_bytes e)

pub retain_open_file-SamePipes : (kind : Kind) (t : Tables) → SamePipes t (retain_open_file kind t)
unfolding retain_open_file
retain_open_file-SamePipes (stdio n) t = SamePipes-refl t
retain_open_file-SamePipes (directory f) t = SamePipes-refl t
retain_open_file-SamePipes (regular f) t = SamePipes-refl t
retain_open_file-SamePipes (pipe e p) t =
    change_pipe-SamePipes (more e) p (get p t.pipes) t refl (more_bytes e)

pub close_found-SamePipes : (o : Option OpenFile) (t : Tables) → SamePipes t (close_found o t)
unfolding close_found
close_found-SamePipes none t = SamePipes-refl t
close_found-SamePipes (some f) t = close_open_file-SamePipes f.kind t

pub close_found-ends :
    (d : Direction) (o : Option OpenFile) (j : ℕ) (t : Tables)
    → ends d (get j (close_found o t).pipes)
      ≡ ends d (get j t.pipes) - weight (λ f. is_end d j f.kind) o
unfolding close_found
close_found-ends d none j t = omega arith
close_found-ends d (some f) j t = close_open_file-ends d f.kind j t
