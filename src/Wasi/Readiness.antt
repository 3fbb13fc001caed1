-- ===== src/Wasi/Readiness.antt =====
-- `fdReadReadiness` and `fdWriteReadiness`, which polling asks (apps/web/src/wasi-module.js).
use wasm_host.Prelude.{
  ℕ, ◌+◌, ◌-◌, ◌≤◌, ◌≡◌, ◌≢◌, ◌⊎◌, refl, sym, ◌∙◌, Bool, true, false, ◌&&◌, ◌||◌, not, Option, none,
  some, length, ltb, ◌==◌, if◌then◌else◌, Bool-cases, inl, inr, arith,
}
use wasm_host.Prelude.Exec.{Result, ok, err, pure, gets, ◌>>=◌}
use wasm_host.Prelude.Table.{get}
use wasm_host.Wasi.Descriptors.{
  Trap, Errno, success, badf, isdir, notcapable, broken_pipe, Direction, read_end, write_end, Kind,
  stdio, pipe, directory, regular, Regular, OpenFile, Runtime, Action, file_at, is_writable,
}
use wasm_host.Wasi.Rights.{has_right, fd_read_right, fd_write_right, can_write_file}
use wasm_host.Wasi.Reads.{present, is_preopen, answer}
use wasm_host.Wasi.Writes.{fd_write, fd_write_kind, fd_write_pipe, fd_write_stdio}
use wasm_host.Wasi.Ends.{write_u32_ok, not_aborted}

-- What a poll for reading tells: whether the other end hung up, and the bytes that are there.
pub record Ready : Type 0 where
  pub hangup : Bool
  pub nbytes : ℕ

abbrev ready : Bool → ℕ → Result Errno Ready
ready hangup nbytes = ok (record { hangup = hangup; nbytes = nbytes })

unfoldable pub stdin_ready : Runtime → Result Errno Ready
stdin_ready r = let remaining = length r.stdin - r.stdin_offset in ready (remaining == 0) remaining

unfoldable pub pipe_ready : Direction → ℕ → ℕ → Runtime → Action (Result Errno Ready)
pipe_ready write_end p rights r = pure (err badf)
pipe_ready read_end p rights r =
    if not (has_right fd_read_right rights) then pure (err notcapable) else do
      q ← present (get p r.tables.pipes)
      pure (ready (length q.bytes == 0 && q.writers == 0) (length q.bytes))

unfoldable pub file_ready : Regular → ℕ → Runtime → Action (Result Errno Ready)
file_ready g rights r = if not (has_right fd_read_right rights) then pure (err notcapable) else do
  content ← present (get g.file r.tables.files)
  offset ← present (get g.offset r.tables.offsets)
  let remaining = length content.bytes - offset
  pure (ready (remaining == 0) remaining)

unfoldable pub read_ready : ℕ → Option OpenFile → Runtime → Action (Result Errno Ready)
read_ready fd none r = pure (err (if is_preopen fd r then isdir else badf))
read_ready fd (some f) r = elim f.kind [
  | stdio n ↦
      if not (n == 0)
      then pure (err badf)
      else if not (has_right fd_read_right f.rights)
      then pure (err notcapable)
      else pure (stdin_ready r)
  | pipe d p ↦ pipe_ready d p f.rights r
  | directory d ↦ pure (err isdir)
  | regular g ↦ if is_preopen fd r then pure (err isdir) else file_ready g f.rights r
]

unfoldable pub fd_read_readiness : ℕ → Action (Result Errno Ready)
fd_read_readiness fd = do
  r ← gets (λ r. r)
  if fd == 0 then pure (stdin_ready r) else read_ready fd (file_at fd r) r

unfoldable pub write_pipe_ready : Direction → ℕ → ℕ → Runtime → Action Errno
write_pipe_ready read_end p rights r = pure badf
write_pipe_ready write_end p rights r =
    if not (has_right fd_write_right rights) then pure notcapable else do
      q ← present (get p r.tables.pipes)
      pure (if ltb 0 q.readers then success else broken_pipe)

unfoldable pub write_ready : Option OpenFile → Runtime → Action Errno
write_ready none r = pure badf
write_ready (some f) r = elim f.kind [
  | stdio n ↦
      if not (n == 1) && not (n == 2)
      then pure badf
      else pure (if has_right fd_write_right f.rights then success else notcapable)
  | pipe d p ↦ write_pipe_ready d p f.rights r
  | directory d ↦ pure (if can_write_file f then success else notcapable)
  | regular g ↦ pure (if can_write_file f then success else notcapable)
]

-- The error that a poll for writing tells, if any.
unfoldable pub fd_write_readiness : ℕ → Action Errno
fd_write_readiness fd = do
  r ← gets (λ r. r)
  if fd == 1 || fd == 2 then pure success else write_ready (file_at fd r) r

option_cases : {A : Type 0} (o : Option A) → (o ≡ none) ⊎ ((a : A) × (o ≡ some a))
option_cases none = inl refl
option_cases (some a) = inr (a, refl)

abbrev said : Errno → Result Trap Errno
said e = ok e

answered : {a b : Errno} → said a ≡ said b → a ≡ b
answered e = cc e

-- A call that starts with setting its count to 0, where that place is in memory.
answer_lem :
    (ptr : ℕ) (e : Errno) (r : Runtime) → ptr + 4 ≤ length r.memory → (answer ptr e r).0 ≡ ok e
unfolding answer pure ◌>>=◌
answer_lem ptr e r fits = rw (write_u32_ok ptr 0 r fits) refl

pipe-write_ready :
    (d : Direction) (p rights iovs_ptr iovs_len ptr : ℕ) (e : Errno) (r : Runtime)
    → ptr + 4 ≤ length r.memory
    → (write_pipe_ready d p rights r r).0 ≡ ok e
    → e ≢ success
    → (fd_write_pipe d p rights iovs_ptr iovs_len ptr r).0 ≡ ok e
unfolding write_pipe_ready fd_write_pipe pure gets present ◌>>=◌
pipe-write_ready read_end p rights iovs_ptr iovs_len ptr e r fits told other =
    answer_lem ptr badf r fits ∙ told
pipe-write_ready write_end p rights iovs_ptr iovs_len ptr e r fits told other =
    rw (write_u32_ok ptr 0 r fits) (elim (Bool-cases (has_right fd_write_right rights)) [
      | inr cannot ↦ rw cannot (rw (write_pipe_ready, cannot) at told)
      | inl may ↦ elim (option_cases (get p r.tables.pipes)) [
        | inl gone ↦ rw may (rw gone (rw (write_pipe_ready, may, gone) at told))
        | inr (q, at) ↦ elim (Bool-cases (q.readers == 0)) [
          | inl unread ↦
              let full : ltb 0 q.readers ≡ false = ground arith in
              rw may (rw at (rw unread (rw (write_pipe_ready, may, at, full) at told)))
          | inr read ↦
              let some_reader : ltb 0 q.readers ≡ true = ground arith in
              absurd (other (sym (answered (rw (write_pipe_ready, may, at, some_reader) at told))))
        ]
      ]
    ])

stdio-write_ready :
    (n rights iovs_ptr iovs_len ptr : ℕ) (e : Errno) (r : Runtime)
    → ptr + 4 ≤ length r.memory
    → (write_ready (some (record { kind = stdio n; rights = rights })) r r).0 ≡ ok e
    → e ≢ success
    → (fd_write_stdio n rights iovs_ptr iovs_len ptr r).0 ≡ ok e
unfolding write_ready fd_write_stdio pure
stdio-write_ready n rights iovs_ptr iovs_len ptr e r fits told other =
    elim (Bool-cases (not (n == 1) && not (n == 2))) [
      | inl wrong ↦ rw wrong (answer_lem ptr badf r fits ∙ (rw (write_ready, wrong) at told))
      | inr right ↦ elim (Bool-cases (has_right fd_write_right rights)) [
        | inr cannot ↦ rw right (
            rw cannot
              (answer_lem ptr notcapable r fits ∙ (rw (write_ready, right, cannot) at told)))
        | inl may ↦ absurd (other (sym (answered (rw (write_ready, right, may) at told))))
      ]
    ]

open-write_ready :
    (fd : ℕ) (kind : Kind) (rights iovs_ptr iovs_len ptr : ℕ) (e : Errno) (r : Runtime)
    → ptr + 4 ≤ length r.memory
    → (write_ready (some (record { kind = kind; rights = rights })) r r).0 ≡ ok e
    → e ≢ success
    → (fd_write_kind fd (some (record { kind = kind; rights = rights })) iovs_ptr iovs_len ptr r).0
      ≡ ok e
unfolding write_ready fd_write_kind can_write_file is_writable pure
open-write_ready fd (stdio n) rights iovs_ptr iovs_len ptr e r fits told other =
    stdio-write_ready n rights iovs_ptr iovs_len ptr e r fits told other
open-write_ready fd (pipe d p) rights iovs_ptr iovs_len ptr e r fits told other =
    pipe-write_ready d p rights iovs_ptr iovs_len ptr e r fits told other
open-write_ready fd (directory d) rights iovs_ptr iovs_len ptr e r fits told other =
    answer_lem ptr notcapable r fits ∙ told
open-write_ready fd (regular g) rights iovs_ptr iovs_len ptr e r fits told other =
    elim (Bool-cases (g.writable && has_right fd_write_right rights)) [
      | inl may ↦ absurd (other (sym (answered (rw (write_ready, may) at told))))
      | inr cannot ↦
          rw cannot (answer_lem ptr notcapable r fits ∙ (rw (write_ready, cannot) at told))
    ]

none-write_ready :
    (fd iovs_ptr iovs_len ptr : ℕ) (e : Errno) (r : Runtime)
    → (fd == 1 || fd == 2) ≡ false
    → ptr + 4 ≤ length r.memory
    → (write_ready none r r).0 ≡ ok e
    → (fd_write_kind fd none iovs_ptr iovs_len ptr r).0 ≡ ok e
unfolding write_ready fd_write_kind pure
none-write_ready fd iovs_ptr iovs_len ptr e r apart fits told =
    let neither : (not (fd == 1) && not (fd == 2)) ≡ true = ground arith in
    rw neither (answer_lem ptr badf r fits ∙ told)

-- What a poll for writing tells of a descriptor other than 1 and 2 is what a write to it answers: if
-- the poll tells an error, the write answers the same, if the run is not aborted and the place for
-- the count is in memory.
pub write_as_polled :
    (fd iovs_ptr iovs_len ptr : ℕ) (e : Errno) (r : Runtime)
    → (fd == 1 || fd == 2) ≡ false
    → r.signal ≡ false
    → ptr + 4 ≤ length r.memory
    → (fd_write_readiness fd r).0 ≡ ok e
    → e ≢ success
    → (fd_write fd iovs_ptr iovs_len ptr r).0 ≡ ok e
unfolding fd_write fd_write_readiness gets file_at ◌>>=◌
write_as_polled fd iovs_ptr iovs_len ptr e r apart signal fits told other =
    rw (not_aborted r signal)
      (by_file (get fd r.tables.open_files) (rw (fd_write_readiness, apart) at told))
  where
    by_file :
        (o : Option OpenFile)
        → (write_ready o r r).0 ≡ ok e
        → (fd_write_kind fd o iovs_ptr iovs_len ptr r).0 ≡ ok e
    by_file none told = none-write_ready fd iovs_ptr iovs_len ptr e r apart fits told
    by_file (some f) told =
        open-write_ready fd f.kind f.rights iovs_ptr iovs_len ptr e r fits told other
