-- ===== src/Wasi/Numbers.antt =====
-- The numbers of descriptors, and the bytes in pipes (apps/web/src/wasi-module.js).
use wasm_host.Prelude.{
  ℕ, ◌≤◌, ◌<◌, ◌≡◌, sym, ◌∙◌, false, Option, none, some, inl, inr, List, leb, ◌==◌, Bool-cases,
  arith,
}
use wasm_host.Prelude.Table.{Table, get, set, delete, get-set, get-delete}
use wasm_host.Wasi.Descriptors.{Pipe, OpenFile, Tables, Runtime}
use wasm_host.Wasi.Tables
use wasm_host.Wasi.Writes.{pipe_buffer_limit}
use wasm_host.Wasi.Calls.{Command, run}
use wasm_host.Wasi.Contents.{SamePipe}
use wasm_host.Wasi.Steps.{Step, uses, closes, moves, copies, replaces, opens_pipe, restricts}
use wasm_host.Wasi.Steps.Shapes.{
  Beside, Shape, closed-Shape, moved-Shape, copied-Shape, replaced-Shape, piped-Shape,
  restricted-Shape, moved_below, replaced_below, copied_below, piped_below,
}
use wasm_host.Wasi.Runs.{run_keeps}
use wasm_host.Wasi.Counted.{held}

-- No pipe holds more than the limit.
abbrev pub IsLimited : Tables → Type 0
IsLimited t = (p : ℕ) → held (get p t.pipes) ≤ pipe_buffer_limit

used-held :
    (o p : Option Pipe) → SamePipe o p → held o ≤ pipe_buffer_limit → held p ≤ pipe_buffer_limit
used-held none none s h = h
used-held (some q) (some q') s h = ground arith
used-held none (some q) s h = elim s [ ]
used-held (some q) none s h = elim s [ ]

Beside-IsLimited : (t u : Tables) → Beside t u → IsLimited t → IsLimited u
Beside-IsLimited t u b h p = omega (arith, b.held p, h p)

Step-IsLimited : (t u : Tables) → Step t u → IsLimited t → IsLimited u
Step-IsLimited t u (uses t' u' c) h = λ p. used-held _ _ (c.pipes p) (h p)
Step-IsLimited t u (closes fd f t' e) h = Beside-IsLimited t u (closed-Shape fd f t).beside h
Step-IsLimited t u (moves fd to f t' e other) h =
    Beside-IsLimited t u (moved-Shape fd to f t).beside h
Step-IsLimited t u (copies fd flags f t' free may) h =
    Beside-IsLimited t u (copied-Shape fd flags f t).beside h
Step-IsLimited t u (replaces to flags f t' may) h =
    Beside-IsLimited t u (replaced-Shape to flags f t).beside h
Step-IsLimited t u (opens_pipe read_fd write_fd t' free free' apart) h =
    Beside-IsLimited t u (piped-Shape read_fd write_fd t).beside h
Step-IsLimited t u (restricts fd base inheriting f t' e allowed) h =
    Beside-IsLimited t u (restricted-Shape fd _ t).beside h

-- If no pipe holds more than a mebibyte, none does after any run of calls.
pub run-IsLimited :
    (cs : List Command) (r : Runtime) → IsLimited r.tables → IsLimited (run cs r).tables
run-IsLimited cs r h = run_keeps IsLimited Step-IsLimited cs r h

-- The next descriptor that a path is opened on, and all above it, are free.
pub record IsNumbered (t : Tables) : Type 0 where
  pub first : 5 ≤ t.next_file_fd
  pub free : (fd : ℕ) → t.next_file_fd ≤ fd → get fd t.open_files ≡ none

-- A descriptor below the next one gets a file.
put-IsNumbered :
    (to : ℕ) (f : OpenFile) (t u : Tables) (o : Table OpenFile)
    → IsNumbered t
    → Shape t u (set to f o)
    → to < u.next_file_fd
    → ((fd : ℕ) → t.next_file_fd ≤ fd → get fd o ≡ none)
    → IsNumbered u
put-IsNumbered to f t u o h s below free = record {
  first = omega (arith, h.first, s.beside.next);
  free = λ fd le.
      let apart : (to == fd) ≡ false = ground arith in
      rw (s.open_files, get-set to fd f o, apart) (free fd (omega (arith, le, s.beside.next)));
}

deleted_free : (k fd : ℕ) (t : Table OpenFile) → get fd t ≡ none → get fd (delete k t) ≡ none
deleted_free k fd t h = ground (arith, get-delete k fd t)

Step-IsNumbered : (t u : Tables) → Step t u → IsNumbered t → IsNumbered u
unfolding Tables.put_open_file
Step-IsNumbered t u (uses t' u' c) h = record {
  first = omega (arith, h.first, c.next_file_fd);
  free = λ fd le. rw c.open_files (h.free fd (omega (arith, le, c.next_file_fd)));
}
Step-IsNumbered t u (closes fd f t' e) h =
    let s = closed-Shape fd f t in
    record {
      first = omega (arith, h.first, s.beside.next);
      free = λ k le.
          rw s.open_files
            (deleted_free fd k t.open_files (h.free k (omega (arith, le, s.beside.next))));
    }
Step-IsNumbered t u (moves fd to f t' e other) h =
    put-IsNumbered to f t u (delete fd t.open_files) h (moved-Shape fd to f t)
      (moved_below fd to f t h.first) λ k le. deleted_free fd k t.open_files (h.free k le)
Step-IsNumbered t u (copies fd flags f t' free may) h =
    put-IsNumbered fd f t u t.open_files h (copied-Shape fd flags f t) (copied_below fd flags f t)
      h.free
Step-IsNumbered t u (replaces to flags f t' may) h =
    put-IsNumbered to f t u t.open_files h (replaced-Shape to flags f t)
      (replaced_below to flags f t h.first) h.free
Step-IsNumbered t u (opens_pipe read_fd write_fd t' free free' apart) h =
    let s = piped-Shape read_fd write_fd t in
    let below = piped_below read_fd write_fd t in
    record {
      first = omega (arith, h.first, s.beside.next);
      free = λ k le.
          let apart : (read_fd == k) ≡ false = ground (arith, below.0) in
          let apart' : (write_fd == k) ≡ false = ground (arith, below.1) in
          rw (s.open_files, get-set write_fd k, apart', get-set read_fd k, apart)
            (h.free k (omega (arith, le, s.beside.next)));
    }
Step-IsNumbered t u (restricts fd base inheriting f t' e allowed) h =
    put-IsNumbered fd _ t u t.open_files h (restricted-Shape fd _ t) (taken fd f t h e) h.free
  where
    taken :
        (fd : ℕ) (f : OpenFile) (t : Tables)
        → IsNumbered t
        → get fd t.open_files ≡ some f
        → fd < t.next_file_fd
    taken fd f t h e = elim (Bool-cases (leb t.next_file_fd fd)) [
      | inl le ↦ absurd (different (sym (h.free fd (ground arith)) ∙ e))
      | inr gt ↦ ground arith
    ]
      where
        different : none ≡ some f → ⊥
        different e = cc e

-- If the number that the next opened path gets is at least 5, and no descriptor is open there or
-- above it, the same holds after every run of calls: a path is never opened on a number in use.
pub run-IsNumbered :
    (cs : List Command) (r : Runtime) → IsNumbered r.tables → IsNumbered (run cs r).tables
run-IsNumbered cs r h = run_keeps IsNumbered Step-IsNumbered cs r h
