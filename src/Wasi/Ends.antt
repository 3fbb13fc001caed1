-- ===== src/Wasi/Ends.antt =====
-- What a pipe says at its ends (apps/web/src/wasi-module.js).
use wasm_host.Prelude.{
  ℕ, ◌+◌, ◌≤◌, ◌≡◌, refl, sym, ap, ◌∙◌, Bool, true, false, some, [], length, ltb, ◌==◌,
  if◌then◌else◌, arith,
}
use wasm_host.Prelude.Exec.{ok, pure, ◌>>=◌, throw_if, modify, gets}
use wasm_host.Prelude.Table.{get}
use wasm_host.Wasi.Descriptors.{
  aborted, success, again, broken_pipe, read_end, write_end, Pipe, pipe, Runtime, file_at,
}
use wasm_host.Wasi.Rights.{has_right, fd_read_right, fd_write_right}
use wasm_host.Wasi.Memory.{throw_if_aborted, write_memory, write_u32, overlay, little_endian_bytes}
use wasm_host.Wasi.Reads.{fd_read, fd_read_kind, fd_read_pipe, present}
use wasm_host.Wasi.Writes.{fd_write, fd_write_kind, fd_write_pipe}
use wasm_host.Wasi.Counted.{IsCounted, open_ends, ends}

pub write_u32_ok :
    (ptr value : ℕ) (r : Runtime)
    → ptr + 4 ≤ length r.memory
    → write_u32 ptr value r
      ≡ (ok tt, record r { memory = overlay r.memory (little_endian_bytes 4 value) ptr })
unfolding write_u32 write_memory little_endian_bytes ◌>>=◌ throw_if modify gets
write_u32_ok ptr value r fits =
    let inside : ltb (length r.memory) (ptr + 4) ≡ false = ground arith in rw inside refl

pub not_aborted : (r : Runtime) → r.signal ≡ false → throw_if_aborted r ≡ (ok tt, r)
unfolding throw_if_aborted gets ◌>>=◌ throw_if
not_aborted r h = passed r.signal r h
  where
    passed : (b : Bool) (s : Runtime) → b ≡ false → throw_if b aborted s ≡ (ok tt, s)
    passed false s e = refl
    passed true s e = ground (arith, e)

-- The empty pipe, after the count is set to 0.
read_empty :
    (p rights iovs_ptr iovs_len ptr : ℕ) (q : Pipe) (r : Runtime)
    → has_right fd_read_right rights ≡ true
    → get p r.tables.pipes ≡ some q
    → q.bytes ≡ []
    → ptr + 4 ≤ length r.memory
    → (fd_read_pipe read_end p rights iovs_ptr iovs_len ptr r).0
      ≡ ok (if ltb 0 q.writers then again else success)
unfolding fd_read_pipe present pure gets ◌>>=◌
read_empty p rights iovs_ptr iovs_len ptr q r can there empty fits =
    rw (write_u32_ok ptr 0 r fits) (rw can (rw there (rw empty refl)))

-- Reading from an empty pipe, through a descriptor that may read, answers that the input has ended
-- exactly if no descriptor for writing to the pipe is open, and to try again otherwise, if the pipes
-- count their ends, the run is not aborted and the place for the count is in memory.
pub read_empty_pipe :
    (fd p rights iovs_ptr iovs_len ptr : ℕ) (q : Pipe) (r : Runtime)
    → IsCounted r.tables
    → r.signal ≡ false
    → get fd r.tables.open_files ≡ some (record { kind = pipe read_end p; rights = rights })
    → has_right fd_read_right rights ≡ true
    → get p r.tables.pipes ≡ some q
    → q.bytes ≡ []
    → ptr + 4 ≤ length r.memory
    → (fd_read fd iovs_ptr iovs_len ptr r).0
      ≡ ok (if open_ends write_end p r.tables == 0 then success else again)
unfolding fd_read fd_read_kind gets file_at ◌>>=◌ ends
read_empty_pipe fd p rights iovs_ptr iovs_len ptr q r h signal at can there empty fits =
    rw (not_aborted r signal) (
      rw at (
        read_empty p rights iovs_ptr iovs_len ptr q r can there empty fits
        ∙ ap ok (
            told (open_ends write_end p r.tables) q.writers
              (h.counted write_end p ∙ ap (ends write_end) there))))
  where
    told :
        (n m : ℕ)
        → n ≡ m
        → (if ltb 0 m then again else success) ≡ (if n == 0 then success else again)
    told n m e = ground (arith, e)

-- Writing to a pipe that no descriptor reads from.
write_broken :
    (p rights iovs_ptr iovs_len ptr : ℕ) (q : Pipe) (r : Runtime)
    → has_right fd_write_right rights ≡ true
    → get p r.tables.pipes ≡ some q
    → q.readers ≡ 0
    → ptr + 4 ≤ length r.memory
    → (fd_write_pipe write_end p rights iovs_ptr iovs_len ptr r).0 ≡ ok broken_pipe
unfolding fd_write_pipe present pure gets ◌>>=◌
write_broken p rights iovs_ptr iovs_len ptr q r can there none_reads fits =
    rw (write_u32_ok ptr 0 r fits) (rw can (rw there (rw none_reads refl)))

-- Writing to a pipe, through a descriptor that may write, once no descriptor for reading from it is
-- open, fails as a broken pipe, if the pipes count their ends, the run is not
-- aborted and the place for the count is in memory.
pub write_broken_pipe :
    (fd p rights iovs_ptr iovs_len ptr : ℕ) (q : Pipe) (r : Runtime)
    → IsCounted r.tables
    → r.signal ≡ false
    → get fd r.tables.open_files ≡ some (record { kind = pipe write_end p; rights = rights })
    → has_right fd_write_right rights ≡ true
    → get p r.tables.pipes ≡ some q
    → open_ends read_end p r.tables ≡ 0
    → ptr + 4 ≤ length r.memory
    → (fd_write fd iovs_ptr iovs_len ptr r).0 ≡ ok broken_pipe
unfolding fd_write fd_write_kind gets file_at ◌>>=◌ ends
write_broken_pipe fd p rights iovs_ptr iovs_len ptr q r h signal at can there none_open fits =
    rw (not_aborted r signal) (
      rw at (
        write_broken p rights iovs_ptr iovs_len ptr q r can there
          (sym (h.counted read_end p ∙ ap (ends read_end) there) ∙ none_open) fits))
