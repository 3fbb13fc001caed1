-- ===== src/Wasi/Steps/Shapes.antt =====
-- What the steps that open, move and close descriptors do to the table of the open files, and what
-- they leave alone (apps/web/src/wasi-module.js).
use wasm_host.Prelude.{ℕ, ◌≤◌, ◌<◌, ◌≡◌, refl, ap, ◌∙◌, inl, inr, [], ◌==◌, Bool-cases, arith}
use wasm_host.Prelude.Table.{Table, get, set, delete, get-set}
use wasm_host.Wasi.Descriptors.{read_end, write_end, OpenFile, Tables, is_dynamic_file_fd_number}
use wasm_host.Wasi.Tables
use wasm_host.Wasi.Steps.{with_copy, with_pipe}
use wasm_host.Wasi.Counted.{
  SamePipes, held, close_found-SamePipes, close_open_file-SamePipes, retain_open_file-SamePipes,
}
use wasm_host.Wasi.Counted.Steps.{reserve-Alike, given-Alike}

-- No file changes, the next descriptor does not go down, no pipe gets bytes.
pub record Beside (t u : Tables) : Type 0 where
  pub files : u.files ≡ t.files
  pub next : t.next_file_fd ≤ u.next_file_fd
  pub held : (j : ℕ) → held (get j u.pipes) ≤ held (get j t.pipes)

pub Beside-trans : (t u v : Tables) → Beside t u → Beside u v → Beside t v
Beside-trans t u v h k = record {
  files = k.files ∙ h.files;
  next = omega (arith, h.next, k.next);
  held = λ j. omega (arith, h.held j, k.held j);
}

same-Beside : (t u : Tables) → SamePipes t u → Beside t u
same-Beside t u s = record {
  files = s.files;
  next = omega (arith, s.next_file_fd);
  held = λ j. omega (arith, s.sizes j);
}

reserve-Beside : (fd : ℕ) (t : Tables) → Beside t (Tables.reserve fd t)
unfolding Tables.reserve
reserve-Beside fd t = record { files = ground arith; next = ground arith; held = λ j. ground arith }

given-Beside : (fd : ℕ) (t : Tables) → Beside t (Tables.given fd t)
unfolding Tables.given
given-Beside fd t = record { files = ground arith; next = ground arith; held = λ j. ground arith }

-- The descriptor that is put is below the next one.
pub reserved_below :
    (fd : ℕ) (t : Tables) → 5 ≤ t.next_file_fd → fd < (Tables.reserve fd t).next_file_fd
unfolding Tables.reserve is_dynamic_file_fd_number
reserved_below fd t h = ground arith

pub given_below : (fd : ℕ) (t : Tables) → fd < (Tables.given fd t).next_file_fd
unfolding Tables.given
given_below fd t = ground arith

-- A step that puts files on descriptors: `o` is the table after it.
pub record Shape (t u : Tables) (o : Table OpenFile) : Type 0 where
  pub open_files : u.open_files ≡ o
  pub beside : Beside t u

pub closed-Shape :
    (fd : ℕ) (f : OpenFile) (t : Tables)
    → Shape t
        (Tables.remove_open_file fd (Tables.close_open_file f.kind t))
        (delete fd t.open_files)
unfolding Tables.remove_open_file
closed-Shape fd f t =
    let same = close_open_file-SamePipes f.kind t in
    let beside = same-Beside t _ same in
    record {
      open_files = ap (delete fd) same.open_files;
      beside = record { files = beside.files; next = beside.next; held = beside.held };
    }

pub moved-Shape :
    (fd to : ℕ) (f : OpenFile) (t : Tables)
    → Shape t (Tables.moved fd to f t) (set to f (delete fd t.open_files))
unfolding Tables.moved Tables.close_replaced Tables.move_flags Tables.put_open_file
moved-Shape fd to f t =
    let closed = Tables.close_found (get to t.open_files) t in
    let same = close_found-SamePipes (get to t.open_files) t in
    let beside = same-Beside t closed same in
    let core =
      Tables.move_flags fd to
        (Tables.put_open_file to f (record closed { open_files = delete fd closed.open_files })) in
    record {
      open_files = (reserve-Alike to core).0 ∙ ap (λ o. set to f (delete fd o)) same.open_files;
      beside =
          Beside-trans t core _
            (record { files = beside.files; next = beside.next; held = beside.held })
            (reserve-Beside to core);
    }

pub copied-Shape :
    (fd flags : ℕ) (f : OpenFile) (t : Tables)
    → Shape t (with_copy fd flags f t) (set fd f t.open_files)
unfolding with_copy Tables.put_open_file Tables.put_flags Tables.new_offset
copied-Shape fd flags f t =
    let u = Tables.new_offset t in
    let v = Tables.given fd u in
    let same = retain_open_file-SamePipes f.kind v in
    let beside = Beside-trans t v _ (given-Beside' fd t) (same-Beside v _ same) in
    record {
      open_files = ap (set fd f) (same.open_files ∙ (given-Alike fd u).0);
      beside = record { files = beside.files; next = beside.next; held = beside.held };
    }
  where
    given-Beside' : (fd : ℕ) (t : Tables) → Beside t (Tables.given fd (Tables.new_offset t))
    given-Beside' fd t =
        let h = given-Beside fd (Tables.new_offset t) in
        record { files = h.files; next = h.next; held = h.held }

pub replaced-Shape :
    (to flags : ℕ) (f : OpenFile) (t : Tables)
    → Shape t (Tables.copied_to to flags f (Tables.new_offset t)) (set to f t.open_files)
unfolding Tables.copied_to Tables.close_replaced Tables.put_flags Tables.put_open_file
    Tables.new_offset
replaced-Shape to flags f t =
    let u = Tables.new_offset t in
    let closed = Tables.close_found (get to t.open_files) u in
    let same = close_found-SamePipes (get to t.open_files) u in
    let same' = retain_open_file-SamePipes f.kind closed in
    let beside = Beside-trans u closed _ (same-Beside u closed same) (same-Beside closed _ same') in
    let core =
      Tables.put_flags to flags
        (Tables.put_open_file to f (Tables.retain_open_file f.kind closed)) in
    record {
      open_files = (reserve-Alike to core).0 ∙ ap (set to f) (same'.open_files ∙ same.open_files);
      beside =
          Beside-trans t core _
            (record { files = beside.files; next = beside.next; held = beside.held })
            (reserve-Beside to core);
    }

new_pipe-Beside : (t : Tables) → Beside t (Tables.new_pipe t)
unfolding Tables.new_pipe
new_pipe-Beside t = record {
  files = refl;
  next = omega arith;
  held = λ j. elim (Bool-cases (t.next_pipe == j)) [
    | inl e ↦
        rw (get-set t.next_pipe j (record { bytes = []; readers = 1; writers = 1 }) t.pipes, e)
          (omega arith)
    | inr e ↦
        rw (get-set t.next_pipe j (record { bytes = []; readers = 1; writers = 1 }) t.pipes, e)
          (omega arith)
  ];
}

pub piped-Shape :
    (read_fd write_fd : ℕ) (t : Tables)
    → Shape t (with_pipe read_fd write_fd t) (
        set write_fd
          (Tables.pipe_file write_end t.next_pipe)
          (set read_fd (Tables.pipe_file read_end t.next_pipe) t.open_files))
unfolding with_pipe Tables.put_open_file Tables.new_pipe
piped-Shape read_fd write_fd t =
    let p = t.next_pipe in
    let u = Tables.new_pipe t in
    let v = Tables.given read_fd u in
    let w : Tables = record v {
      open_files = set read_fd (Tables.pipe_file read_end p) v.open_files;
    } in
    let first = Beside-trans t u v (new_pipe-Beside t) (given-Beside read_fd u) in
    let second = given-Beside write_fd w in
    let both =
      Beside-trans t w _ (record { files = first.files; next = first.next; held = first.held })
        second in
    record {
      open_files = ap (set write_fd (Tables.pipe_file write_end p)) (
          (given-Alike write_fd w).0
          ∙ ap (set read_fd (Tables.pipe_file read_end p))
              ((given-Alike read_fd u).0 ∙ new_pipe_open t));
      beside = record { files = both.files; next = both.next; held = both.held };
    }
  where
    new_pipe_open : (t : Tables) → (Tables.new_pipe t).open_files ≡ t.open_files
    new_pipe_open t = refl

pub restricted-Shape :
    (fd : ℕ) (f : OpenFile) (t : Tables)
    → Shape t (Tables.put_open_file fd f t) (set fd f t.open_files)
unfolding Tables.put_open_file
restricted-Shape fd f t = record {
  open_files = refl;
  beside = record { files = refl; next = omega arith; held = λ j. omega arith };
}

-- What gets a file stands below the next descriptor.
pub moved_below :
    (fd to : ℕ) (f : OpenFile) (t : Tables)
    → 5 ≤ t.next_file_fd
    → to < (Tables.moved fd to f t).next_file_fd
unfolding Tables.moved Tables.close_replaced Tables.move_flags Tables.put_open_file
moved_below fd to f t h =
    let same = close_found-SamePipes (get to t.open_files) t in
    reserved_below to _ (omega (arith, h, same.next_file_fd))

pub replaced_below :
    (to flags : ℕ) (f : OpenFile) (t : Tables)
    → 5 ≤ t.next_file_fd
    → to < (Tables.copied_to to flags f (Tables.new_offset t)).next_file_fd
unfolding Tables.copied_to Tables.close_replaced Tables.put_flags Tables.put_open_file
    Tables.new_offset
replaced_below to flags f t h =
    let u = Tables.new_offset t in
    let closed = Tables.close_found (get to t.open_files) u in
    let same = close_found-SamePipes (get to t.open_files) u in
    let same' = retain_open_file-SamePipes f.kind closed in
    reserved_below to _ (omega (arith, h, same.next_file_fd, same'.next_file_fd))

pub copied_below :
    (fd flags : ℕ) (f : OpenFile) (t : Tables) → fd < (with_copy fd flags f t).next_file_fd
unfolding with_copy Tables.put_open_file Tables.put_flags
copied_below fd flags f t =
    let v = Tables.given fd (Tables.new_offset t) in
    let same = retain_open_file-SamePipes f.kind v in
    omega (arith, given_below fd (Tables.new_offset t), same.next_file_fd)

pub piped_below :
    (read_fd write_fd : ℕ) (t : Tables)
    → (read_fd < (with_pipe read_fd write_fd t).next_file_fd)
      × (write_fd < (with_pipe read_fd write_fd t).next_file_fd)
unfolding with_pipe Tables.put_open_file
piped_below read_fd write_fd t =
    let v = Tables.given read_fd (Tables.new_pipe t) in
    let w : Tables = record v {
      open_files = set read_fd (Tables.pipe_file read_end t.next_pipe) v.open_files;
    } in
    let kept = (given-Beside write_fd w).next in
    (omega (arith, kept, given_below read_fd (Tables.new_pipe t)), given_below write_fd w)
