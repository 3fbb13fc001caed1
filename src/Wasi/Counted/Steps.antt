-- ===== src/Wasi/Counted/Steps.antt =====
-- Every step keeps the counts of the pipes (apps/web/src/wasi-module.js).
use wasm_host.Prelude.{
  ℕ, ◌+◌, ◌≤◌, ◌≡◌, refl, ap, ◌∙◌, Bool, true, false, Option, none, some, [], subst, inl, inr,
  is_some, ◌==◌, arith,
}
use wasm_host.Prelude.Table.{
  Table, get, set, delete, get-set, get-delete, IsUnique, delete-IsUnique, set-IsUnique, weight,
  count, count-set, count-delete,
}
use wasm_host.Wasi.Descriptors.{
  Direction, read_end, write_end, Pipe, Kind, stdio, pipe, directory, regular, OpenFile, Tables,
}
use wasm_host.Wasi.Tables
use wasm_host.Wasi.Steps.{MayOpen, is_plain, with_copy, with_pipe}
use wasm_host.Wasi.Counted

pub absent : {A : Type 0} (x y : Option A) → is_some x ≡ is_some y → y ≡ none → x ≡ none
absent none y e h = refl
absent (some a) none e h = ground (arith, e)
absent (some a) (some b) e h = ground (arith, h)

pub close-IsCounted :
    (fd : ℕ) (f : OpenFile) (t : Tables)
    → get fd t.open_files ≡ some f
    → Counted.IsCounted t
    → Counted.IsCounted (Tables.remove_open_file fd (Tables.close_open_file f.kind t))
unfolding Tables.remove_open_file
close-IsCounted fd f t e h =
    let same = Counted.close_open_file-SamePipes f.kind t in
    record {
      unique = rw same.open_files (delete-IsUnique fd t.open_files h.unique);
      counted = λ d p.
          let gone =
            rw e at (count-delete (λ f. Counted.is_end d p f.kind) fd t.open_files h.unique) in
          rw same.open_files
            (omega (arith, gone, h.counted d p, Counted.close_open_file-ends d f.kind p t));
      fresh = λ p le. absent _ _ (same.pipes p) (h.fresh p (rw same.next_pipe at le));
    }

-- What the counts read of two tables is the same.
abbrev pub Alike : Tables → Tables → Type 0
Alike t u = (u.open_files ≡ t.open_files) × (u.pipes ≡ t.pipes) × (u.next_pipe ≡ t.next_pipe)

pub reserve-Alike : (fd : ℕ) (t : Tables) → Alike t (Tables.reserve fd t)
unfolding Tables.reserve
reserve-Alike fd t = ground arith

pub given-Alike : (fd : ℕ) (t : Tables) → Alike t (Tables.given fd t)
unfolding Tables.given
given-Alike fd t = ground arith

pub Alike-IsCounted : (t u : Tables) → Alike t u → Counted.IsCounted t → Counted.IsCounted u
Alike-IsCounted t u (files, pipes, next) h = record {
  unique = rw files h.unique;
  counted = λ d p. rw (files, pipes) (h.counted d p);
  fresh = λ p le. rw pipes (h.fresh p (rw next at le));
}

pub moved-IsCounted :
    (fd to : ℕ) (f : OpenFile) (t : Tables)
    → get fd t.open_files ≡ some f
    → (fd == to) ≡ false
    → Counted.IsCounted t
    → Counted.IsCounted (Tables.moved fd to f t)
unfolding Tables.moved Tables.close_replaced Tables.move_flags Tables.put_open_file
moved-IsCounted fd to f t e other h =
    let closed = Tables.close_found (get to t.open_files) t in
    let same = Counted.close_found-SamePipes (get to t.open_files) t in
    let rest = delete fd t.open_files in
    let core : Tables = record closed { open_files = set to f (delete fd closed.open_files) } in
    Alike-IsCounted core _ (reserve-Alike to _) (record {
      unique =
          rw same.open_files (set-IsUnique to f rest (delete-IsUnique fd t.open_files h.unique));
      counted = λ d p.
          let test = λ (f : OpenFile). Counted.is_end d p f.kind in
          let gone = rw e at (count-delete test fd t.open_files h.unique) in
          let put = rw (get-delete fd to t.open_files, other) at (count-set test to f rest) in
          rw same.open_files (
            omega (
              arith,
              gone,
              put,
              h.counted d p,
              Counted.close_found-ends d (get to t.open_files) p t,
            ));
      fresh = λ p le. absent _ _ (same.pipes p) (h.fresh p (rw same.next_pipe at le));
    })

-- A pipe that an open descriptor names is there.
weight_le :
    {A : Type 0} (test : A → Bool) (k : ℕ) (a : A) (t : Table A)
    → IsUnique t
    → get k t ≡ some a
    → weight test (some a) ≤ count test t
weight_le test k a t u e = let gone = rw e at (count-delete test k t u) in omega (arith, gone)

known_end : (e : Direction) (o : Option Pipe) → 1 ≤ Counted.ends e o → is_some o ≡ true
unfolding Counted.ends
known_end e none h = absurd (omega (arith, h))
known_end e (some q) h = refl

own_end : (e : Direction) (p : ℕ) → Counted.is_end e p (pipe e p) ≡ true
unfolding Counted.is_end Counted.same_end
own_end read_end p = ground arith
own_end write_end p = ground arith

open-Known :
    (kind : Kind) (rights fd : ℕ) (t : Tables)
    → Counted.IsCounted t
    → get fd t.open_files ≡ some (record { kind = kind; rights = rights })
    → Counted.Known kind t
open-Known (stdio n) rights fd t h e = tt
open-Known (directory d) rights fd t h e = tt
open-Known (regular g) rights fd t h e = tt
open-Known (pipe d p) rights fd t h e =
    let one = weight_le (λ f. Counted.is_end d p f.kind) fd _ t.open_files h.unique e in
    let one' : 1 ≤ Counted.open_ends d p t = rw (own_end d p) at one in
    known_end d (get p t.pipes) (rw (h.counted d p) at one')

plain-Known : (kind : Kind) (t : Tables) → is_plain kind ≡ true → Counted.Known kind t
unfolding is_plain
plain-Known (stdio n) t h = tt
plain-Known (directory d) t h = tt
plain-Known (regular g) t h = tt
plain-Known (pipe d p) t h = ground (arith, h)

MayOpen-Known :
    (f : OpenFile) (t : Tables) → Counted.IsCounted t → MayOpen f t → Counted.Known f.kind t
MayOpen-Known f t h (inl (fd, e)) = open-Known f.kind f.rights fd t h e
MayOpen-Known f t h (inr plain) = plain-Known f.kind t plain

later-Known :
    (kind : Kind) (t u : Tables)
    → Counted.SamePipes t u
    → Counted.Known kind t
    → Counted.Known kind u
later-Known (stdio n) t u s h = tt
later-Known (directory d) t u s h = tt
later-Known (regular g) t u s h = tt
later-Known (pipe d p) t u s h = s.pipes p ∙ h

-- A descriptor gets a file, and the descriptor that was there loses its own.
put-IsCounted :
    (to : ℕ) (f : OpenFile) (t : Tables)
    → Counted.IsCounted t
    → Counted.Known f.kind t
    → Counted.IsCounted
        (Tables.put_open_file to f (Tables.retain_open_file f.kind (Tables.close_replaced to t)))
unfolding Tables.put_open_file Tables.close_replaced
put-IsCounted to f t h known =
    let closed = Tables.close_found (get to t.open_files) t in
    let same = Counted.close_found-SamePipes (get to t.open_files) t in
    let same' = Counted.retain_open_file-SamePipes f.kind closed in
    record {
      unique = rw (same'.open_files, same.open_files) (set-IsUnique to f t.open_files h.unique);
      counted = λ d p.
          let test = λ (f : OpenFile). Counted.is_end d p f.kind in
          let put = count-set test to f t.open_files in
          let now = ap (λ o. count test (set to f o)) (same'.open_files ∙ same.open_files) in
          let less = Counted.close_found-ends d (get to t.open_files) p t in
          let back =
            Counted.retain_open_file-ends d f.kind p closed
              (later-Known f.kind t closed same known) in
          omega (arith, now, put, less, back, h.counted d p, within d p);
      fresh = λ p le.
          absent _ _ (same'.pipes p ∙ same.pipes p)
            (h.fresh p (rw (same'.next_pipe, same.next_pipe) at le));
    }
  where
    within :
        (d : Direction) (p : ℕ)
        → weight (λ (f : OpenFile). Counted.is_end d p f.kind) (get to t.open_files)
          ≤ Counted.open_ends d p t
    within d p = by_file (get to t.open_files) refl
      where
        by_file :
            (o : Option OpenFile)
            → get to t.open_files ≡ o
            → weight (λ (f : OpenFile). Counted.is_end d p f.kind) o ≤ Counted.open_ends d p t
        by_file none e = omega arith
        by_file (some g) e =
            weight_le (λ (f : OpenFile). Counted.is_end d p f.kind) to g t.open_files h.unique e

new_offset-SamePipes : (t : Tables) → Counted.SamePipes t (Tables.new_offset t)
unfolding Tables.new_offset
new_offset-SamePipes t = record {
  open_files = refl;
  next_file_fd = refl;
  next_pipe = refl;
  files = refl;
  pipes = λ j. refl;
  sizes = λ j. refl;
}

pub new_offset-Alike : (t : Tables) → Alike t (Tables.new_offset t)
unfolding Tables.new_offset
new_offset-Alike t = (refl, refl, refl)

flags-Alike : (fd flags : ℕ) (t : Tables) → Alike t (Tables.put_flags fd flags t)
unfolding Tables.put_flags
flags-Alike fd flags t = (refl, refl, refl)

pub replaced-IsCounted :
    (to flags : ℕ) (f : OpenFile) (t : Tables)
    → MayOpen f t
    → Counted.IsCounted t
    → Counted.IsCounted (Tables.copied_to to flags f (Tables.new_offset t))
unfolding Tables.copied_to
replaced-IsCounted to flags f t may h =
    let u = Tables.new_offset t in
    let known = later-Known f.kind t u (new_offset-SamePipes t) (MayOpen-Known f t h may) in
    let put =
      Tables.put_open_file to f (Tables.retain_open_file f.kind (Tables.close_replaced to u)) in
    let flagged = Tables.put_flags to flags put in
    Alike-IsCounted flagged _ (reserve-Alike to flagged) (
      Alike-IsCounted put flagged (flags-Alike to flags put)
        (put-IsCounted to f u (Alike-IsCounted t u (new_offset-Alike t) h) known))

pub nothing_closed :
    (fd : ℕ) (t : Tables) → get fd t.open_files ≡ none → Tables.close_replaced fd t ≡ t
unfolding Tables.close_replaced Tables.close_found
nothing_closed fd t e = rw e refl

alike-Known :
    (kind : Kind) (t u : Tables) → u.pipes ≡ t.pipes → Counted.Known kind t → Counted.Known kind u
alike-Known (stdio n) t u e h = tt
alike-Known (directory d) t u e h = tt
alike-Known (regular g) t u e h = tt
alike-Known (pipe d p) t u e h = rw e h

pub copied-IsCounted :
    (fd flags : ℕ) (f : OpenFile) (t : Tables)
    → get fd t.open_files ≡ none
    → MayOpen f t
    → Counted.IsCounted t
    → Counted.IsCounted (with_copy fd flags f t)
unfolding with_copy
copied-IsCounted fd flags f t free may h =
    let u = Tables.new_offset t in
    let v = Tables.given fd u in
    let counted =
      Alike-IsCounted u v (given-Alike fd u) (Alike-IsCounted t u (new_offset-Alike t) h) in
    let known = later-Known f.kind t u (new_offset-SamePipes t) (MayOpen-Known f t h may) in
    let known' = alike-Known f.kind u v (given-Alike fd u).1 known in
    let free' : get fd v.open_files ≡ none =
      ap (get fd) ((given-Alike fd u).0 ∙ (new_offset-Alike t).0) ∙ free in
    let put = Tables.put_open_file fd f (Tables.retain_open_file f.kind v) in
    Alike-IsCounted put _ (flags-Alike fd flags put) (
      subst (λ w. Counted.IsCounted (Tables.put_open_file fd f (Tables.retain_open_file f.kind w)))
        (nothing_closed fd v free') (put-IsCounted fd f v counted known'))

-- The ends of a new pipe are one of each.
new_ends :
    (d : Direction) (p j : ℕ) (t : Table Pipe)
    → get p t ≡ none
    → Counted.ends d (get j (set p (record { bytes = []; readers = 1; writers = 1 }) t))
      ≡ Counted.ends d (get j t)
        + (Counted.one_if (Counted.is_end d j (pipe read_end p))
            + Counted.one_if (Counted.is_end d j (pipe write_end p)))
unfolding Counted.ends Counted.is_end Counted.same_end
new_ends read_end p j t h =
    ground (arith, get-set p j (record { bytes = []; readers = 1; writers = 1 }) t)
new_ends write_end p j t h =
    ground (arith, get-set p j (record { bytes = []; readers = 1; writers = 1 }) t)

pub piped-IsCounted :
    (read_fd write_fd : ℕ) (t : Tables)
    → get read_fd t.open_files ≡ none
    → get write_fd t.open_files ≡ none
    → (read_fd == write_fd) ≡ false
    → Counted.IsCounted t
    → Counted.IsCounted (with_pipe read_fd write_fd t)
unfolding with_pipe Tables.put_open_file Tables.new_pipe
piped-IsCounted read_fd write_fd t free free' apart h =
    let p = t.next_pipe in
    let one = set read_fd (Tables.pipe_file read_end p) t.open_files in
    let u : Tables = record t {
      open_files = set write_fd (Tables.pipe_file write_end p) one;
      pipes = set p (record { bytes = []; readers = 1; writers = 1 }) t.pipes;
      next_pipe = p + 1;
    } in
    let v = Tables.given read_fd (Tables.new_pipe t) in
    let w : Tables = record v {
      open_files = set read_fd (Tables.pipe_file read_end p) v.open_files;
    } in
    let (files, pipes, next) = given-Alike read_fd (Tables.new_pipe t) in
    let (files', pipes', next') = given-Alike write_fd w in
    let all : Alike u (with_pipe read_fd write_fd t) = (
      ap (set write_fd (Tables.pipe_file write_end p))
          (files' ∙ ap (set read_fd (Tables.pipe_file read_end p)) files),
      pipes' ∙ pipes,
      next' ∙ next,
    ) in
    Alike-IsCounted u _ all (record {
      unique = set-IsUnique write_fd _ one (set-IsUnique read_fd _ t.open_files h.unique);
      counted = λ d j.
          let test = λ (f : OpenFile). Counted.is_end d j f.kind in
          let first =
            rw free at (count-set test read_fd (Tables.pipe_file read_end p) t.open_files) in
          let second =
            rw (get-set read_fd write_fd (Tables.pipe_file read_end p) t.open_files, apart, free')
              at (count-set test write_fd (Tables.pipe_file write_end p) one) in
          omega
            (arith, first, second, h.counted d j, new_ends d p j t.pipes (h.fresh p (omega arith)));
      fresh = λ j le.
          ground (
            arith,
            get-set p j (record { bytes = []; readers = 1; writers = 1 }) t.pipes,
            h.fresh j,
          );
    })
