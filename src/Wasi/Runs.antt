-- ===== src/Wasi/Runs.antt =====
-- A run of calls changes the tables of the descriptors by steps (apps/web/src/wasi-module.js).
use wasm_host.Prelude.{List, [], ◌∷◌}
use wasm_host.Wasi.Descriptors.{Errno, Runtime, Tables, Action}
use wasm_host.Wasi.Calls
use wasm_host.Wasi.Calls.{Command, WasixCommand, execute_wasix, execute, run}
use wasm_host.Wasi.Within.{Within}
use wasm_host.Wasi.Contents.{Contents}
use wasm_host.Wasi.Contents.Reads.{fd_read-Contents, fd_pread-Contents}
use wasm_host.Wasi.Contents.Output.{fd_write-Contents, fd_pwrite-Contents}
use wasm_host.Wasi.Contents.Sizes.{
  fd_seek-Contents, fd_tell-Contents, fd_fdstat_get-Contents, fd_fdstat_set_flags-Contents,
  fd_filestat_get-Contents, fd_filestat_set_size-Contents, fd_filestat_set_times-Contents,
  fd_allocate-Contents, fd_advise-Contents, fd_sync-Contents,
}
use wasm_host.Wasi.Steps.{Step, uses, Steps, done, after, Steps_trans, one_step}
use wasm_host.Wasi.Steps.Calls.{
  fd_close-Steps, fd_renumber-Steps, fd_fdflags_set-Steps, fd_fdflags_get-Steps,
  fd_fdstat_set_rights-Steps,
}
use wasm_host.Wasi.Steps.Opens.{duplicate_fd-Steps, duplicate_fd_to-Steps, fd_pipe-Steps}

used : (m : Action Errno) (r : Runtime) → Within Contents m r → Steps r.tables (m r).1.tables
used m r h = one_step r.tables (m r).1.tables (uses r.tables (m r).1.tables h.after)

execute_wasix-Steps : (c : WasixCommand) (r : Runtime) → Steps r.tables (execute_wasix c r).1.tables
unfolding execute_wasix
execute_wasix-Steps (Calls.fdflags_get fd ptr) r = (fd_fdflags_get-Steps fd ptr r).after
execute_wasix-Steps (Calls.fdflags_set fd flags) r = (fd_fdflags_set-Steps fd flags r).after
execute_wasix-Steps (Calls.duplicate fd ptr) r = (duplicate_fd-Steps fd 5 0 ptr r).after
execute_wasix-Steps (Calls.duplicate_to fd to cloexec ptr) r =
    (duplicate_fd_to-Steps fd to _ ptr r).after
execute_wasix-Steps (Calls.open_pipe read_ptr write_ptr) r =
    (fd_pipe-Steps read_ptr write_ptr r).after

pub execute-Steps : (c : Command) (r : Runtime) → Steps r.tables (execute c r).1.tables
unfolding execute
execute-Steps (Calls.read fd iovs n ptr) r = used _ r (fd_read-Contents fd iovs n ptr r)
execute-Steps (Calls.write fd iovs n ptr) r = used _ r (fd_write-Contents fd iovs n ptr r)
execute-Steps (Calls.pread fd iovs n offset ptr) r =
    used _ r (fd_pread-Contents fd iovs n offset ptr r)
execute-Steps (Calls.pwrite fd iovs n offset ptr) r =
    used _ r (fd_pwrite-Contents fd iovs n offset ptr r)
execute-Steps (Calls.seek fd offset whence ptr) r =
    used _ r (fd_seek-Contents fd offset whence ptr r)
execute-Steps (Calls.tell fd ptr) r = used _ r (fd_tell-Contents fd ptr r)
execute-Steps (Calls.fdstat_get fd ptr) r = used _ r (fd_fdstat_get-Contents fd ptr r)
execute-Steps (Calls.filestat_get fd ptr) r = used _ r (fd_filestat_get-Contents fd ptr r)
execute-Steps (Calls.sync fd required_right) r = used _ r (fd_sync-Contents fd required_right r)
execute-Steps (Calls.set_times fd flags) r = used _ r (fd_filestat_set_times-Contents fd flags r)
execute-Steps (Calls.renumber fd to) r = (fd_renumber-Steps fd to r).after
execute-Steps (Calls.fdstat_set_flags fd) r = used _ r (fd_fdstat_set_flags-Contents fd r)
execute-Steps (Calls.close fd) r = (fd_close-Steps fd r).after
execute-Steps (Calls.set_rights fd base inheriting) r =
    (fd_fdstat_set_rights-Steps fd base inheriting r).after
execute-Steps (Calls.allocate fd offset n) r = used _ r (fd_allocate-Contents fd offset n r)
execute-Steps (Calls.set_size fd size) r = used _ r (fd_filestat_set_size-Contents fd size r)
execute-Steps (Calls.advise fd offset n advice) r =
    used _ r (fd_advise-Contents fd offset n advice r)
execute-Steps (Calls.wasix c) r = execute_wasix-Steps c r

-- Whatever calls a module makes, with whatever arguments and whether they throw or not, the tables
-- of the descriptors change only by the steps of the relation Step, one after the other, which are
-- the writes that the calls are made of.
pub run-Steps : (cs : List Command) (r : Runtime) → Steps r.tables (run cs r).tables
unfolding run
run-Steps [] r = done r.tables
run-Steps (c ∷ cs) r =
    Steps_trans r.tables (execute c r).1.tables _ (execute-Steps c r) (run-Steps cs (execute c r).1)

-- What every step keeps, every run keeps.
pub run_keeps :
    (P : Tables → Type 0)
    → ((t u : Tables) → Step t u → P t → P u)
    → (cs : List Command) (r : Runtime) → P r.tables
    → P (run cs r).tables
run_keeps P keep cs r h = along r.tables (run cs r).tables (run-Steps cs r) h
  where
    along : (t u : Tables) → Steps t u → P t → P u
    along t u (done t') k = k
    along t u (after t' v u' s rest) k = along v u rest (keep t v s k)
