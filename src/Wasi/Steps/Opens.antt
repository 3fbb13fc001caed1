-- ===== src/Wasi/Steps/Opens.antt =====
-- The calls that open descriptors change the tables by steps (apps/web/src/wasi-module.js).
use wasm_host.Prelude.{
  ℕ, ◌+◌, ◌≡◌, refl, ◌∙◌, true, false, ◌&&◌, ◌||◌, not, Option, none, some, inl, inr, is_some, ◌==◌,
  ◌%◌, ◌^◌, arith,
}
use wasm_host.Prelude.Exec.{modify, ◌>>=◌}
use wasm_host.Prelude.Table.{get, get-set}
use wasm_host.Wasi.Descriptors.{
  Errno, read_end, OpenFile, Runtime, Tables, Action, file_at, is_stdio_fd,
  is_dynamic_file_fd_number,
}
use wasm_host.Wasi.Rights.{fd_stat, FdStat, stdio_rights}
use wasm_host.Wasi.Memory.{can_write_u32}
use wasm_host.Wasi.Reads.{change}
use wasm_host.Wasi.Tables
use wasm_host.Wasi.Tables.{allocate_dynamic_file_fd, dynamic_file_fd, given}
use wasm_host.Wasi.Fresh.{dynamic_file_fd_lem}
use wasm_host.Wasi.Within.{
  same_preorder, Within, Within-pure, Within-gets, Within-then, Within-if, Within-option,
}
use wasm_host.Wasi.Contents.Memory.{throw_if_aborted-Same, write_u32-Same}
use wasm_host.Wasi.Steps.{
  Step, copies, replaces, opens_pipe, Steps, steps_preorder, one_step, Steps_trans, MayOpen,
  is_plain, with_copy, with_pipe,
}

-- What a block does to the tables, counted from a state before it.
record From {A : Type 0} (t : Tables) (m : Action A) (r : Runtime) : Type 0 where
  after : Steps t (m r).1.tables

From-change :
    {A : Type 0} (t : Tables) (g : Tables → Tables) (m : Unit → Action A) (r : Runtime)
    → From t (m tt) (record r { tables = g r.tables })
    → From t (change g >>= m) r
unfolding modify ◌>>=◌
From-change t g m r h = record { after = h.after }

From-allocate :
    {A : Type 0} (t : Tables) (min_fd : ℕ) (m : ℕ → Action A) (r : Runtime)
    → From t
        (m (dynamic_file_fd min_fd r))
        (record r { tables = given (dynamic_file_fd min_fd r) r.tables })
    → From t (allocate_dynamic_file_fd min_fd >>= m) r
unfolding allocate_dynamic_file_fd ◌>>=◌ modify
From-allocate t min_fd m r h = record { after = h.after }

From-Step :
    {A : Type 0} (t : Tables) (m : Action A) (r : Runtime)
    → Step t r.tables
    → Within Steps m r
    → From t m r
From-Step t m r s h = record { after = Steps_trans t r.tables _ (one_step t r.tables s) h.after }

From-Within : {A : Type 0} (m : Action A) (r : Runtime) → From r.tables m r → Within Steps m r
From-Within m r h = record { after = h.after }

-- Nothing is open where the loop ends.
found_free : (fd : ℕ) (r : Runtime) → fd_stat fd r ≡ none → get fd r.tables.open_files ≡ none
unfolding fd_stat file_at
found_free fd r e = ground arith

-- What the preopened descriptors stand for has no pipe and no bytes.
preopened-MayOpen :
    (fd : ℕ) (stat : FdStat) (offset : ℕ) (r : Runtime) (f : OpenFile)
    → Tables.duplicate_preopened fd stat offset r ≡ some f
    → is_plain f.kind ≡ true
unfolding Tables.duplicate_preopened stdio_rights is_plain
preopened-MayOpen fd stat offset r f e = ground arith

duplicate-MayOpen :
    (fd : ℕ) (r : Runtime) (f : OpenFile)
    → Tables.duplicate_open_file_for_fd fd r ≡ some f
    → MayOpen f r.tables
unfolding Tables.duplicate_open_file_for_fd file_at
duplicate-MayOpen fd r f e = by_file (get fd r.tables.open_files) refl (fd_stat fd r) e
  where
    by_file :
        (o : Option OpenFile)
        → get fd r.tables.open_files ≡ o
        → (s : Option FdStat)
        → elim o [
          | some f ↦ some f
          | none ↦ elim s [
            | none ↦ none
            | some stat ↦ Tables.duplicate_preopened fd stat r.tables.next_offset r
          ]
        ]
          ≡ some f
        → MayOpen f r.tables
    by_file (some g) at s e = inl (fd, at ∙ e)
    by_file none at (some stat) e = inr (preopened-MayOpen fd stat r.tables.next_offset r f e)
    by_file none at none e = ground (arith, e)

pub duplicate_fd-Steps :
    (fd min_fd flags ptr : ℕ) (r : Runtime)
    → Within Steps (Tables.duplicate_fd fd min_fd flags ptr) r
unfolding Tables.duplicate_fd Tables.new_offset with_copy Tables.put_flags
duplicate_fd-Steps fd min_fd flags ptr r = Within-then _ _ r (throw_if_aborted-Same r) λ _ u _.
    Within-gets _ _ u (
      Within-if (not (can_write_u32 ptr u.memory)) _ _ u (λ _. Within-pure _ u)
        λ _.
          Within-option (Tables.duplicate_open_file_for_fd fd u) _ _ u (λ _. Within-pure _ u)
            λ f e. From-Within _ u (
              From-change _ _ _ u (
                From-allocate _ min_fd _ _ (
                  From-change _ _ _ _ (
                    From-Step _ _ _ (copied f u (duplicate-MayOpen fd u f e))
                      (Within-then _ _ _ (write_u32-Same ptr _ _) λ _ v _. Within-pure _ v))))))
  where
    copied :
        (f : OpenFile) (u : Runtime)
        → MayOpen f u.tables
        → let fd = dynamic_file_fd min_fd (record u { tables = Tables.new_offset u.tables }) in
          Step u.tables (with_copy fd flags f u.tables)
    copied f u may =
        let u' = record u { tables = Tables.new_offset u.tables } in
        copies _ flags f u.tables (found_free _ u' (dynamic_file_fd_lem min_fd u').0) may

refused-Steps : (ptr : ℕ) (e : Errno) (r : Runtime) → Within Steps (Tables.refused ptr e) r
unfolding Tables.refused
refused-Steps ptr e r = Within-then _ _ r (write_u32-Same ptr 0 r) λ _ u _. Within-pure e u

pub duplicate_fd_to-Steps :
    (fd to flags ptr : ℕ) (r : Runtime) → Within Steps (Tables.duplicate_fd_to fd to flags ptr) r
unfolding Tables.duplicate_fd_to
duplicate_fd_to-Steps fd target flags ptr r =
    let to = target % 2 ^ 32 in
    Within-then _ _ r (throw_if_aborted-Same r) λ _ u _. Within-gets _ _ u (
      Within-if (not (can_write_u32 ptr u.memory)) _ _ u (λ _. Within-pure _ u)
        λ _.
          Within-if (not (is_some (fd_stat fd u))) _ _ u (λ _. refused-Steps ptr _ u)
            λ _.
              Within-if (not (is_dynamic_file_fd_number to) && not (is_stdio_fd to)) _ _ u
                (λ _. refused-Steps ptr _ u)
                λ _.
                  Within-if (fd == to) _ _ u
                    (λ _. Within-then _ _ u (write_u32-Same ptr to u) λ _ v _. Within-pure _ v)
                    λ _.
                      Within-option (Tables.duplicate_open_file_for_fd fd u) _ _ u
                        (λ _. refused-Steps ptr _ u)
                        λ f e.
                          Within-if (not (Tables.may_replace to f.kind)) _ _ u
                            (λ _. refused-Steps ptr _ u)
                            λ _. From-Within _ u (
                              From-change _ _ _ u (
                                From-Step _ _ _
                                  (replaces to flags f u.tables (duplicate-MayOpen fd u f e))
                                  (Within-then _ _ _ (write_u32-Same ptr to _)
                                    λ _ v _. Within-pure _ v))))

-- What is free is not the descriptor that was just given.
just_given :
    (fd other : ℕ) (f : OpenFile) (t : Tables)
    → get other (Tables.put_open_file fd f (given fd t)).open_files ≡ none
    → (fd == other) ≡ false
unfolding given Tables.put_open_file
just_given fd other f t free =
    ground (arith, get-set fd other f t.open_files, get-set fd other f (given fd t).open_files)

-- A descriptor that is free beside one that was just given was free before.
still_free :
    (fd other : ℕ) (f : OpenFile) (t : Tables)
    → (fd == other) ≡ false
    → get other (Tables.put_open_file fd f (given fd t)).open_files ≡ none
    → get other t.open_files ≡ none
unfolding given Tables.put_open_file
still_free fd other f t apart free = ground (arith, get-set fd other f t.open_files)

-- The first end is open where the second looks for a descriptor.
pub fd_pipe-Steps :
    (read_ptr write_ptr : ℕ) (r : Runtime) → Within Steps (Tables.fd_pipe read_ptr write_ptr) r
unfolding Tables.fd_pipe with_pipe Tables.put_open_file Tables.new_pipe
fd_pipe-Steps read_ptr write_ptr r = Within-then _ _ r (throw_if_aborted-Same r) λ _ u _.
    Within-gets _ _ u (
      Within-if (not (can_write_u32 read_ptr u.memory) || not (can_write_u32 write_ptr u.memory)) _
        _ u (λ _. Within-pure _ u)
        λ _. From-Within _ u (
          From-change _ _ _ u (
            From-allocate _ 5 _ _ (
              From-change _ _ _ _ (
                From-allocate _ _ _ _ (
                  From-change _ _ _ _ (
                    From-Step _ _ _ (piped u) (
                      Within-then _ _ _ (write_u32-Same read_ptr _ _) λ _ v _.
                        Within-then _ _ v (write_u32-Same write_ptr _ v)
                          λ _ w _. Within-pure _ w))))))))
  where
    piped :
        (u : Runtime)
        → let p = u.tables.next_pipe in
          let u' = record u { tables = Tables.new_pipe u.tables } in
          let read_fd = dynamic_file_fd 5 u' in
          let u'' = record u {
            tables =
                Tables.put_open_file read_fd
                  (Tables.pipe_file read_end p)
                  (given read_fd u'.tables);
          } in
          Step u.tables (with_pipe read_fd (dynamic_file_fd (read_fd + 1) u'') u.tables)
    piped u =
        let p = u.tables.next_pipe in
        let u' = record u { tables = Tables.new_pipe u.tables } in
        let read_fd = dynamic_file_fd 5 u' in
        let u'' = record u {
          tables =
              Tables.put_open_file read_fd (Tables.pipe_file read_end p) (given read_fd u'.tables);
        } in
        let second = dynamic_file_fd_lem (read_fd + 1) u'' in
        let free = found_free _ u'' second.0 in
        let apart = just_given read_fd _ (Tables.pipe_file read_end p) u'.tables free in
        opens_pipe read_fd _ u.tables (found_free read_fd u' (dynamic_file_fd_lem 5 u').0)
          (still_free read_fd _ (Tables.pipe_file read_end p) u'.tables apart free) apart
