-- ===== src/Wasi/Splice/Writes.antt =====
-- `writeOpenFileAt` writes the chunks one by one; together they are one splice of the file
-- (apps/web/src/wasi-module.js).
use wasm_host.Prelude.{
  ℕ, ◌+◌, ◌≤◌, ◌≡◌, refl, sym, ap, ◌∙◌, Bool, true, false, ◌&&◌, ◌||◌, Option, none, some, List, [],
  ◌∷◌, ◌++◌, length, ltb, if◌then◌else◌, length-append, ◌==◌, arith,
}
use wasm_host.Prelude.Exec.{Result, ok, err, pure, gets, modify, throw_if, ◌>>=◌}
use wasm_host.Prelude.Table.{Table, get, get-set}
use wasm_host.Wasi.Descriptors.{
  Trap, too_long, Bytes, FileRecord, Regular, Mount, workspace, scratch, package_root, Runtime,
  Tables,
}
use wasm_host.Wasi.Reads.{present}
use wasm_host.Wasi.Writes.{
  concat, set_file, write_chunk, write_chunks, write_open_file_at, mark_open_file_dirty,
}
use wasm_host.Wasi.Splice.{splice, overlay-grown, splice-splice, append-nil}

-- The bytes of a file.
abbrev pub bytes_of : Option FileRecord → Bytes
bytes_of none = []
bytes_of (some content) = content.bytes

abbrev pub bytes_at : ℕ → Tables → Bytes
bytes_at n t = bytes_of (get n t.files)

passed : (b : Bool) (e : Trap) (s : Runtime) → b ≡ false → throw_if b e s ≡ (ok tt, s)
unfolding throw_if
passed false e s h = refl
passed true e s h = ground (arith, h)

abbrev with_file : ℕ → Bytes → Runtime → Runtime
with_file n bytes r = record r { tables = set_file n bytes r.tables }

write_chunk_lem :
    (f : Regular) (chunk : Bytes) (offset : ℕ) (content : FileRecord) (r : Runtime)
    → get f.file r.tables.files ≡ some content
    → offset + length chunk ≤ r.longest_array
    → write_chunk f chunk offset r ≡ (
      ok (ltb (length content.bytes) (offset + length chunk) || ltb 0 (length chunk)),
      with_file f.file (splice content.bytes chunk offset) r,
    )
unfolding write_chunk present gets modify pure ◌>>=◌
write_chunk_lem f chunk offset content r there fits =
    let last = offset + length chunk in
    let short : (ltb (length content.bytes) last && ltb r.longest_array last) ≡ false =
      ground arith in
    rw there (rw (passed _ too_long r short) (rw (overlay-grown content.bytes chunk offset) refl))

own : {A : Type 0} (n : ℕ) (a : A) (t : Table A) → (if n == n then some a else get n t) ≡ some a
own n a t = ground arith

get-set_file :
    (n : ℕ) (bytes : Bytes) (content : FileRecord) (t : Tables)
    → get n t.files ≡ some content
    → get n (set_file n bytes t).files ≡ some (record content { bytes = bytes })
unfolding set_file
get-set_file n bytes content t there =
    rw (set_file, there)
      (get-set n n (record content { bytes = bytes }) t.files
        ∙ own n (record content { bytes = bytes }) t.files)

-- How far a write came, and what the file then has.
abbrev end_of : {A : Type 0} → Result Trap (ℕ × A) → Option ℕ
end_of (ok done) = some done.0
end_of (err e) = none

-- The chunks one after the other.
spliced : Bytes → List Bytes → ℕ → Bytes
spliced bytes [] offset = bytes
spliced bytes (chunk ∷ chunks) offset =
    spliced (splice bytes chunk offset) chunks (offset + length chunk)

write_chunks_lem :
    (f : Regular) (chunks : List Bytes) (offset : ℕ) (changed : Bool) (content : FileRecord)
    (r : Runtime)
    → get f.file r.tables.files ≡ some content
    → offset + length (concat chunks) ≤ r.longest_array
    → (end_of (write_chunks f chunks offset changed r).0 ≡ some (offset + length (concat chunks)))
      × (bytes_at f.file (write_chunks f chunks offset changed r).1.tables
          ≡ spliced content.bytes chunks offset)
unfolding write_chunks pure concat spliced ◌>>=◌
write_chunks_lem f [] offset changed content r there fits =
    (let e : offset ≡ offset + 0 = omega arith in ap some e, ap bytes_of there)
write_chunks_lem f (chunk ∷ chunks) offset changed content r there fits =
    let next = splice content.bytes chunk offset in
    let sum = length-append chunk (concat chunks) in
    let total : offset + length chunk + length (concat chunks)
        ≡ offset + length (chunk ++ concat chunks) =
      omega (arith, sum) in
    let one = write_chunk_lem f chunk offset content r there (omega (arith, fits, sum)) in
    let rest =
      write_chunks_lem f chunks (offset + length chunk)
        (changed || (ltb (length content.bytes) (offset + length chunk) || ltb 0 (length chunk)))
        (record content { bytes = next }) (with_file f.file next r)
        (get-set_file f.file next content r.tables there) (omega (arith, fits, sum)) in
    rw one (rest.0 ∙ ap some total, rest.1)

-- All chunks in one.
spliced_lem :
    (chunks : List Bytes) (bytes chunk : Bytes) (offset : ℕ)
    → spliced bytes (chunk ∷ chunks) offset ≡ splice bytes (concat (chunk ∷ chunks)) offset
unfolding spliced concat
spliced_lem [] bytes chunk offset = ap (λ c. splice bytes c offset) (sym (append-nil chunk))
spliced_lem (next ∷ chunks) bytes chunk offset =
    spliced_lem chunks (splice bytes chunk offset) next (offset + length chunk)
    ∙ splice-splice bytes chunk (next ++ concat chunks) offset

mark-bytes_at :
    (f : Regular) (mount : Mount) (t : Tables)
    → bytes_at f.file (mark_open_file_dirty (record f { mount = mount }) t) ≡ bytes_at f.file t
unfolding mark_open_file_dirty
mark-bytes_at f scratch t = refl
mark-bytes_at f package_root t = refl
mark-bytes_at f workspace t = by_file (get f.file t.files) refl
  where
    by_file :
        (o : Option FileRecord)
        → get f.file t.files ≡ o
        → bytes_at f.file (mark_open_file_dirty (record f { mount = workspace }) t)
          ≡ bytes_at f.file t
    by_file none e = rw (mark_open_file_dirty, e) (ap bytes_of e)
    by_file (some content) e =
        rw (mark_open_file_dirty, e)
          (ap bytes_of (
            get-set f.file f.file (record content { fallback = false }) t.files
            ∙ own f.file _ t.files))

marked_if :
    (f : Regular) (changed : Bool) (t : Tables)
    → bytes_at f.file (if changed then mark_open_file_dirty f t else t) ≡ bytes_at f.file t
marked_if f true t = mark-bytes_at f f.mount t
marked_if f false t = refl

-- Writing chunks to a file at an offset, one after the other, each in an array that may have to
-- grow, ends where all their bytes end and leaves the file as one splice of their bytes would, with
-- zeros in a gap before them, if there is a chunk, the file is there and the platform makes an array
-- that long.
pub write_open_file_at_lem :
    (f : Regular) (chunk : Bytes) (chunks : List Bytes) (offset : ℕ) (content : FileRecord)
    (r : Runtime)
    → get f.file r.tables.files ≡ some content
    → offset + length (concat (chunk ∷ chunks)) ≤ r.longest_array
    → ((write_open_file_at f (chunk ∷ chunks) offset r).0
        ≡ ok (offset + length (concat (chunk ∷ chunks))))
      × (bytes_at f.file (write_open_file_at f (chunk ∷ chunks) offset r).1.tables
          ≡ splice content.bytes (concat (chunk ∷ chunks)) offset)
unfolding write_open_file_at pure modify ◌>>=◌
write_open_file_at_lem f chunk chunks offset content r there fits =
    let (came, bytes) = write_chunks_lem f (chunk ∷ chunks) offset false content r there fits in
    ended (write_chunks f (chunk ∷ chunks) offset false r) came
      (bytes ∙ spliced_lem chunks content.bytes chunk offset)
  where
    ended :
        (p : Result Trap (ℕ × Bool) × Runtime)
        → end_of p.0 ≡ some (offset + length (concat (chunk ∷ chunks)))
        → bytes_at f.file p.1.tables ≡ splice content.bytes (concat (chunk ∷ chunks)) offset
        → let q =
            ((λ (s : Runtime). p) >>= λ done.
            modify (λ (u : Runtime). record u {
              tables = if done.1 then mark_open_file_dirty f u.tables else u.tables;
            })
            >>= λ _. pure done.0)
              r in
          (q.0 ≡ ok (offset + length (concat (chunk ∷ chunks))))
          × (bytes_at f.file q.1.tables ≡ splice content.bytes (concat (chunk ∷ chunks)) offset)
    ended (ok done, u) came bytes = (ap ok (inner came), marked_if f done.1 u.tables ∙ bytes)
      where
        inner : {a b : ℕ} → some a ≡ some b → a ≡ b
        inner e = cc e
    ended (err e, u) came bytes = absurd (never came)
      where
        never : {b : ℕ} → none ≡ some b → ⊥
        never e = cc e
