-- ===== src/Wasi/Calls.antt =====
-- The calls of a module that work on its descriptors, and runs of them
-- (apps/web/src/wasi-module.js).
use wasm_host.Prelude.{ℕ, List, [], ◌∷◌}
use wasm_host.Prelude.Int.{ℤ}
use wasm_host.Wasi.Descriptors.{Errno, Runtime, Action}
use wasm_host.Wasi.Reads.{fd_read, fd_pread}
use wasm_host.Wasi.Writes.{fd_write, fd_pwrite}
use wasm_host.Wasi.Tables.{
  fd_close, fd_dup, fd_dup2, fd_renumber, fd_pipe, fd_fdstat_set_rights, fd_fdflags_set,
  fd_fdflags_get,
}
use wasm_host.Wasi.Sizes.{
  fd_seek, fd_tell, fd_fdstat_get, fd_fdstat_set_flags, fd_filestat_get, fd_filestat_set_size,
  fd_filestat_set_times, fd_allocate, fd_advise, fd_sync,
}

-- The calls that the extended interface adds
pub data WasixCommand : Type 0 where
  fdflags_get fdflags_set duplicate open_pipe : ℕ → ℕ → WasixCommand
  duplicate_to : ℕ → ℕ → ℕ → ℕ → WasixCommand

pub data Command : Type 0 where
  read write : ℕ → ℕ → ℕ → ℕ → Command
  pread pwrite : ℕ → ℕ → ℕ → ℤ → ℕ → Command
  seek : ℕ → ℤ → ℕ → ℕ → Command
  tell fdstat_get filestat_get sync set_times renumber : ℕ → ℕ → Command
  fdstat_set_flags close : ℕ → Command
  set_rights allocate : ℕ → ℤ → ℤ → Command
  set_size : ℕ → ℤ → Command
  advise : ℕ → ℤ → ℤ → ℕ → Command
  wasix : WasixCommand → Command

unfoldable pub execute_wasix : WasixCommand → Action Errno
execute_wasix (fdflags_get fd ptr) = fd_fdflags_get fd ptr
execute_wasix (fdflags_set fd flags) = fd_fdflags_set fd flags
execute_wasix (duplicate fd ptr) = fd_dup fd ptr
execute_wasix (duplicate_to fd to cloexec ptr) = fd_dup2 fd to cloexec ptr
execute_wasix (open_pipe read_ptr write_ptr) = fd_pipe read_ptr write_ptr

unfoldable pub execute : Command → Action Errno
execute (read fd iovs n ptr) = fd_read fd iovs n ptr
execute (write fd iovs n ptr) = fd_write fd iovs n ptr
execute (pread fd iovs n offset ptr) = fd_pread fd iovs n offset ptr
execute (pwrite fd iovs n offset ptr) = fd_pwrite fd iovs n offset ptr
execute (seek fd offset whence ptr) = fd_seek fd offset whence ptr
execute (tell fd ptr) = fd_tell fd ptr
execute (fdstat_get fd ptr) = fd_fdstat_get fd ptr
execute (filestat_get fd ptr) = fd_filestat_get fd ptr
execute (sync fd required_right) = fd_sync fd required_right
execute (set_times fd flags) = fd_filestat_set_times fd flags
execute (renumber fd to) = fd_renumber fd to
execute (fdstat_set_flags fd) = fd_fdstat_set_flags fd
execute (close fd) = fd_close fd
execute (set_rights fd base inheriting) = fd_fdstat_set_rights fd base inheriting
execute (allocate fd offset size) = fd_allocate fd offset size
execute (set_size fd size) = fd_filestat_set_size fd size
execute (advise fd offset size advice) = fd_advise fd offset size advice
execute (wasix c) = execute_wasix c

-- What the calls leave behind, those that throw too.
unfoldable pub run : List Command → Runtime → Runtime
unfolding execute
run [] r = r
run (c ∷ cs) r = run cs (execute c r).1
