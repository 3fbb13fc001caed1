-- ===== src/Wasi/Tests.antt =====
-- Runs of calls on a small memory.
use wasm_host.Prelude.{
  ℕ, ◌%◌, ◌^◌, ◌≤◌, ◌<◌, ◌≡◌, refl, true, false, none, [], ◌∷◌, is_some, arith, ◌==◌, if◌then◌else◌,
}
use wasm_host.Prelude.Int.{pos}
use wasm_host.Prelude.Exec.{ok, pure, throw, lift, gets, modify, throw_if, ◌>>=◌}
use wasm_host.Prelude.Table.{Table, get, set, delete, count}
use wasm_host.Wasi.Descriptors
use wasm_host.Wasi.Descriptors.{
  Bytes, success, again, badf, notcapable, isdir, broken_pipe, inval, read_end, write_end, pipe,
  regular, directory, workspace, scratch, Regular, OpenFile, Tables, Runtime, FileRecord, Trap,
  Errno, Kind, aborted,
}
use wasm_host.Wasi.Rights
use wasm_host.Wasi.Ranges
use wasm_host.Wasi.Memory
use wasm_host.Wasi.Reads
use wasm_host.Wasi.Writes
use wasm_host.Wasi.Tables
use wasm_host.Wasi.Sizes
use wasm_host.Wasi.Calls
use wasm_host.Wasi.Calls.{
  Command, execute, execute_wasix, wasix, run, open_pipe, close, duplicate, write, read, set_size,
  renumber, set_rights, allocate,
}
use wasm_host.Wasi.Contents.{IsReadOnly}
use wasm_host.Wasi.Counted.{IsCounted, open_ends, is_end, same_end, ends}
use wasm_host.Wasi.Counted.Runs.{run-IsCounted}
use wasm_host.Wasi.Fresh.{dynamic_file_fd_lem}
use wasm_host.Wasi.Frozen.{read_only_kept}
use wasm_host.Wasi.Numbers.{IsLimited, run-IsLimited, IsNumbered, run-IsNumbered}
use wasm_host.Wasi.Ends.{read_empty_pipe, write_broken_pipe}
use wasm_host.Wasi.Splice
use wasm_host.Wasi.Splice.{splice}
use wasm_host.Wasi.Splice.Writes.{bytes_at, write_open_file_at_lem}
use wasm_host.Wasi.Readiness
use wasm_host.Wasi.Readiness.{write_as_polled}
use wasm_host.Wasi.Capability.{can, can_pass, rights_only_shrink}

program : Unit {0}
unfolding get set delete count pure throw lift gets modify throw_if ◌>>=◌ Descriptors.file_at
    Descriptors.is_package_root Descriptors.is_stdio_fd Descriptors.is_dynamic_file_fd_number
    Descriptors.is_open_directory Descriptors.is_open_stdio Descriptors.is_open_pipe
    Descriptors.is_writable Descriptors.is_workspace_file Rights.has_right Rights.allows_bits
    Rights.allows_rights Rights.stdin_rights Rights.stdout_rights Rights.workspace_rights
    Rights.writable_workspace_rights Rights.tmp_rights Rights.regular_file_rights
    Rights.scratch_file_rights Rights.pipe_read_rights Rights.pipe_write_rights
    Rights.can_write_file Rights.can_read_file Rights.can_resize_file Rights.can_set_file_times
    Rights.can_allocate_file Rights.stdio_rights Rights.pipe_size Rights.file_size
    Rights.open_file_stat Rights.directory_stat Rights.preopened_stat Rights.fd_stat
    Ranges.resolve_file_size Ranges.resolve_file_range Ranges.resolve_file_allocation
    Ranges.resolve_seek Memory.throw_if_aborted Memory.little_endian Memory.little_endian_bytes
    Memory.read_u32 Memory.overlay Memory.write_memory Memory.write_u32 Memory.write_u64
    Memory.can_write_u32 Memory.read_iov_chunks Memory.read_into_iov Memory.read_into_iovs
    Reads.present Reads.no_file Reads.fd_read_stdio Reads.fd_read_pipe Reads.fd_read_file
    Reads.fd_read_stdin Reads.is_preopen Reads.answer Reads.fd_read_kind Reads.fd_read
    Reads.fd_pread_file Reads.fd_pread_kind Reads.fd_pread Writes.zeros Writes.concat Writes.filled
    Writes.emit Writes.write_output Writes.mark_open_file_dirty Writes.grown Writes.set_file
    Writes.write_chunk Writes.write_chunks Writes.write_open_file_at Writes.write_open_file
    Writes.fd_write_pipe Writes.fd_write_output Writes.fd_write_stdio Writes.fd_write_file
    Writes.fd_write_kind Writes.fd_write Writes.fd_pwrite_file Writes.fd_pwrite_kind
    Writes.fd_pwrite Tables.fewer Tables.more Tables.change_pipe Tables.close_open_file
    Tables.retain_open_file Tables.put_open_file Tables.close_found Tables.close_replaced
    Tables.remove_open_file Tables.put_flags Tables.reserve Tables.fd_close Tables.may_replace
    Tables.move_flags Tables.moved Tables.fd_renumber Tables.open_above Tables.free_fd
    Tables.dynamic_file_fd Tables.given Tables.allocate_dynamic_file_fd Tables.duplicate_preopened
    Tables.duplicate_open_file_for_fd Tables.new_offset Tables.duplicate_fd Tables.refused
    Tables.copied_to Tables.duplicate_fd_to Tables.new_pipe Tables.fd_pipe Tables.with_rights
    Tables.fd_fdstat_set_rights Tables.fd_fdflags_set Tables.fd_fdflags_get Sizes.no_offset
    Sizes.size_of_kind Sizes.seek_base Sizes.seek_from Sizes.seek_kind Sizes.fd_seek
    Sizes.tell_offset Sizes.tell_kind Sizes.fd_tell Sizes.filetype_code Sizes.fd_fdstat_get
    Sizes.fd_fdstat_set_flags Sizes.write_filestat Sizes.fd_filestat_get Sizes.not_a_file
    Sizes.resized Sizes.resize_open_file Sizes.on_file Sizes.set_size Sizes.fd_filestat_set_size
    Sizes.is_supported_set_times Sizes.fd_filestat_set_times Sizes.allocate_to Sizes.allocate
    Sizes.fd_allocate Sizes.advise Sizes.fd_advise Sizes.fd_sync Splice.padded Splice.splice
    execute_wasix Readiness.stdin_ready Readiness.pipe_ready Readiness.file_ready
    Readiness.read_ready Readiness.fd_read_readiness Readiness.write_pipe_ready
    Readiness.write_ready Readiness.fd_write_readiness Calls.execute Calls.run is_end same_end ends
    can
program = tt

-- One vector, at 8, of three bytes at 16.
abbrev memory : Bytes
memory =
    0 ∷ 0 ∷ 0 ∷ 0 ∷ 0 ∷ 0 ∷ 0 ∷ 0 ∷ 16 ∷ 0 ∷ 0 ∷ 0 ∷ 3 ∷ 0 ∷ 0 ∷ 0 ∷ 71 ∷ 72 ∷ 73 ∷ 0 ∷ 0 ∷ 0 ∷ 0
    ∷ 0 ∷ []

-- A file that may be read, at descriptor 5.
abbrev read_only : OpenFile
read_only = record {
  kind = regular (record {
    append = false;
    mount = workspace;
    offset = 0;
    path = [];
    file = 0;
    writable = false;
  });
  rights = 10;
}

abbrev tables : Table OpenFile → Tables
tables files = record {
  open_files = files;
  fd_flags_ext = [];
  next_file_fd = 6;
  pipes = [];
  next_pipe = 0;
  offsets = (0, 0) ∷ [];
  next_offset = 1;
  files = (0, record { bytes = 1 ∷ 2 ∷ []; fallback = false }) ∷ [];
  dirty = false;
}

abbrev start_with : Table OpenFile → Runtime
start_with files = record {
  memory = memory;
  output = [];
  package_root = false;
  signal = false;
  longest_array = 1000;
  stdin = [];
  stdin_offset = 0;
  tables = tables files;
  writable = true;
}

abbrev start : Runtime
start = start_with []

-- A pipe, with its ends at 5 and 6.
abbrev piped : Runtime
piped = run (wasix (open_pipe 0 4) ∷ []) start

abbrev open_file : Runtime
open_file = start_with ((5, read_only) ∷ [])

-- An empty pipe with a writer asks to try again; after the last writer is closed it has ended.
read_again : (execute (read 5 8 1 0) piped).0 ≡ ok again
unfolding program
read_again = refl

read_end_of_input : (execute (read 5 8 1 0) (run (close 6 ∷ []) piped)).0 ≡ ok success
unfolding program
read_end_of_input = refl

empty-IsCounted : IsCounted start.tables
unfolding program
empty-IsCounted = record { unique = tt; counted = λ d p. nothing d; fresh = λ p le. refl }
  where
    nothing : (d : Descriptors.Direction) → 0 ≡ ends d none
    nothing d = refl

run-IsCounted_example :
    IsCounted (run (wasix (open_pipe 0 4) ∷ wasix (duplicate 6 0) ∷ close 6 ∷ []) start).tables
run-IsCounted_example =
    run-IsCounted (wasix (open_pipe 0 4) ∷ wasix (duplicate 6 0) ∷ close 6 ∷ []) start
      empty-IsCounted

piped-IsCounted : IsCounted piped.tables
piped-IsCounted = run-IsCounted (wasix (open_pipe 0 4) ∷ []) start empty-IsCounted

run-IsLimited_example : IsLimited (run (wasix (open_pipe 0 4) ∷ write 6 8 1 0 ∷ []) start).tables
unfolding program
run-IsLimited_example =
    run-IsLimited (wasix (open_pipe 0 4) ∷ write 6 8 1 0 ∷ []) start (λ p. omega arith)

run-IsNumbered_example : IsNumbered (run (wasix (open_pipe 0 4) ∷ renumber 5 9 ∷ []) start).tables
unfolding program
run-IsNumbered_example =
    run-IsNumbered (wasix (open_pipe 0 4) ∷ renumber 5 9 ∷ []) start
      (record { first = omega arith; free = λ fd le. refl })

guarded : IsReadOnly 0 open_file.tables
unfolding program
guarded fd f g e k n = ground arith

read_only_kept_example :
    get 0
      (run (write 5 8 1 0 ∷ set_size 5 (pos 0) ∷ wasix (duplicate 5 0) ∷ []) open_file).tables.files
    ≡ get 0 open_file.tables.files
read_only_kept_example =
    read_only_kept 0 (write 5 8 1 0 ∷ set_size 5 (pos 0) ∷ wasix (duplicate 5 0) ∷ []) open_file
      guarded

dynamic_file_fd_lem_example :
    let fd = Tables.dynamic_file_fd 4 open_file in
    (Rights.fd_stat fd open_file ≡ none)
    × ((5 ≤ fd)
        × ((4 % 2 ^ 32 ≤ fd)
            × ((k : ℕ)
                → 5 ≤ k
                → 4 % 2 ^ 32 ≤ k
                → k < fd
                → is_some (Rights.fd_stat k open_file) ≡ true)))
dynamic_file_fd_lem_example = dynamic_file_fd_lem 4 open_file

-- The first free descriptor after the file.
next_is_six : Tables.dynamic_file_fd 4 open_file ≡ 6
unfolding program
next_is_six = refl

read_empty_pipe_example :
    (execute (read 5 8 1 0) piped).0
    ≡ ok (if open_ends write_end 0 piped.tables == 0 then success else again)
unfolding program
read_empty_pipe_example =
    read_empty_pipe 5 0 Rights.pipe_read_rights 8 1 0
      (record { bytes = []; readers = 1; writers = 1 }) piped piped-IsCounted refl refl refl refl
      refl (omega arith)

abbrev deaf : Runtime
deaf = run (wasix (open_pipe 0 4) ∷ close 5 ∷ []) start

deaf-IsCounted : IsCounted deaf.tables
deaf-IsCounted = run-IsCounted (wasix (open_pipe 0 4) ∷ close 5 ∷ []) start empty-IsCounted

write_broken_pipe_example : (execute (write 6 8 1 0) deaf).0 ≡ ok broken_pipe
unfolding program
write_broken_pipe_example =
    write_broken_pipe 6 0 Rights.pipe_write_rights 8 1 0
      (record { bytes = []; readers = 0; writers = 1 }) deaf deaf-IsCounted refl refl refl refl refl
      (omega arith)

-- The right to read is kept of the rights to read and to tell.
rights_only_shrink_example :
    let u = (Tables.fd_fdstat_set_rights 5 (pos 2) (pos 0) open_file).1.tables in
    (can 1 (get 5 u.open_files) ≡ true → can 1 (get 5 open_file.tables.open_files) ≡ true)
    × (can_pass 1 (get 5 u.open_files) ≡ true
        → can_pass 1 (get 5 open_file.tables.open_files) ≡ true)
rights_only_shrink_example = rights_only_shrink 5 (pos 2) (pos 0) 1 open_file

-- A file with two bytes gets a chunk of one byte and one of two, from its fourth byte on.
abbrev writable_file : Regular
writable_file = record {
  append = false;
  mount = workspace;
  offset = 0;
  path = [];
  file = 0;
  writable = true;
}

write_open_file_at_lem_example :
    ((Writes.write_open_file_at writable_file ((7 ∷ []) ∷ (8 ∷ 9 ∷ []) ∷ []) 3 start).0 ≡ ok 6)
    × (bytes_at 0
          (Writes.write_open_file_at writable_file ((7 ∷ []) ∷ (8 ∷ 9 ∷ []) ∷ []) 3 start).1.tables
        ≡ splice (1 ∷ 2 ∷ []) (7 ∷ 8 ∷ 9 ∷ []) 3)
unfolding program
write_open_file_at_lem_example =
    write_open_file_at_lem writable_file (7 ∷ []) ((8 ∷ 9 ∷ []) ∷ []) 3
      (record { bytes = 1 ∷ 2 ∷ []; fallback = false }) start refl (omega arith)

with_gap : splice (1 ∷ 2 ∷ []) (7 ∷ 8 ∷ 9 ∷ []) 3 ≡ 1 ∷ 2 ∷ 0 ∷ 7 ∷ 8 ∷ 9 ∷ []
unfolding program
with_gap = refl

no_success : broken_pipe ≡ success → ⊥
no_success e = cc e

write_as_polled_example : (execute (write 6 8 1 0) deaf).0 ≡ ok broken_pipe
unfolding program
write_as_polled_example =
    write_as_polled 6 8 1 0 broken_pipe deaf refl refl (omega arith) refl no_success

-- Standard input from a pipe: the poll looks at the input of the run, not at the pipe.
polled_stdin :
    (Readiness.fd_read_readiness 0 (run (renumber 5 0 ∷ []) piped)).0
    ≡ ok (ok (record { hangup = true; nbytes = 0 }))
unfolding program
polled_stdin = refl

read_stdin : (execute (read 0 8 1 0) (run (renumber 5 0 ∷ []) piped)).0 ≡ ok again
unfolding program
read_stdin = refl
