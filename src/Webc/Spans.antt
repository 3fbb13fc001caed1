-- ===== src/Webc/Spans.antt =====
-- The spans of a package's files are where their bytes are (apps/web/src/webc-metadata.js).
pub mod Packages
use wasm_host.Prelude.{
  ℕ, zero, suc, ◌+◌, ◌-◌, ◌≤◌, ◌≡◌, refl, sym, ap, subst, ◌∙◌, inl, inr, Text, Bool, true, false,
  ◌||◌, Option, none, some, [], ◌∷◌, text_eq, codes, length, take, drop, any, ltb, ◌==◌, arith,
  if◌then◌else◌, Bool-cases,
}
use wasm_host.Prelude.Exec.{Result, ok, err, bind, OnOk, OnOk-bind, OnOk-bind_any, OnOk_elim}
use wasm_host.Prelude.Dict.{Dict, get, set, get-set}
use wasm_host.Webc.Reader.{
  WebcError, Bytes, Version, slice, read_byte, require_available, read_uint64_le, slice-slice,
  length-slice, byte_at, invalid_directory_length, unsupported_header_tag,
}
use wasm_host.Webc.Volumes.{
  File, Section, Volume, Context, Visited, version_bytes, read_entry, read_entries, read_directory,
  read_file, parse_header_entry, parse_volume_header, parse_volume_payload, parse_volume_section,
}
use wasm_host.Webc.Sections.{
  Atoms, Sections, hash_length, read_section, parse_atoms_section, add_section, read_sections_from,
  read_webc_sections,
}

-- `p` is the part of the webc from `offset` on.
pub record IsPart (webc p : Bytes) (offset : ℕ) : Type 0 where
  pub same : p ≡ slice webc offset (length p)
  pub within : (offset + length p) ≤ length webc

IsPart-slice :
    (webc p : Bytes) (o a m : ℕ)
    → IsPart webc p o
    → (a + m) ≤ length p
    → IsPart webc (slice p a m) (o + a)
IsPart-slice webc p o a m h fits = record {
  same =
      ap (λ x. slice x a m) h.same
      ∙ slice-slice webc o (length p) a m fits
      ∙ ap (slice webc (o + a)) (sym size);
  within = omega (arith, h.within, fits, size);
}
  where
    size : length (slice p a m) ≡ m
    size = length-slice p a m fits

take_all : (n : ℕ) (xs : Bytes) → n ≡ length xs → take n xs ≡ xs
take_all zero [] h = refl
take_all zero (x ∷ xs) h = ground arith
take_all (suc n) [] h = refl
take_all (suc n) (x ∷ xs) h = ap (λ ys. x ∷ ys) (take_all n xs (omega arith))

drop_as_slice : (xs : Bytes) (k : ℕ) → drop k xs ≡ slice xs k (length xs - k)
drop_as_slice xs zero = sym (take_all (length xs - 0) xs (omega arith))
drop_as_slice [] (suc k) = sym (take_all (0 - suc k) [] (omega arith))
drop_as_slice (x ∷ xs) (suc k) = drop_as_slice xs k ∙ ap (λ n. take n (drop k xs)) (omega arith)

IsPart-drop :
    (webc p : Bytes) (o k : ℕ) → IsPart webc p o → k ≤ length p → IsPart webc (drop k p) (o + k)
IsPart-drop webc p o k h fits =
    subst (λ x. IsPart webc x (o + k)) (sym (drop_as_slice p k))
      (IsPart-slice webc p o k (length p - k) h (omega (arith, fits)))

pub require_available-fits :
    (bytes : Bytes) (o n : ℕ) (u : Unit {0})
    → require_available bytes o n ≡ ok u
    → (o + n) ≤ length bytes
unfolding require_available
require_available-fits bytes o n u h = ground arith

-- What a file says of itself is so.
pub record IsAt (webc : Bytes) (f : File) : Type 0 where
  pub bytes : f.bytes ≡ slice webc f.span.offset f.span.length
  pub within : (f.span.offset + f.span.length) ≤ length webc
  pub byte_length : f.byte_length ≡ f.span.length

abbrev pub FilesAt : Bytes → Dict File → Type 0
FilesAt webc files = (path : Text) (f : File) → get path files ≡ some f → IsAt webc f

FilesAt-empty : {webc : Bytes} → FilesAt webc []
unfolding get
FilesAt-empty {webc} k f e = subst (λ o. elim o [ none ↦ Unit {0} | some g ↦ IsAt webc g ]) e tt

FilesAt-set :
    (webc : Bytes) (path : Text) (f : File) (d : Dict File)
    → IsAt webc f
    → FilesAt webc d
    → FilesAt webc (set path f d)
FilesAt-set webc path f d h k j x e = elim (Bool-cases (text_eq path j)) [
  | inl t ↦ subst (IsAt webc) (ground (arith, get-set path j f d)) h
  | inr t ↦ k j x (ground (arith, get-set path j f d))
]

module _ (webc : Bytes) (c : Context) (part : IsPart webc c.region c.data_offset) where
  abbrev Kept : Visited → Type 0
  Kept v = FilesAt webc v.files

  read_file-Kept :
      (cursor : ℕ) (path : Text) (v : Visited) → Kept v → OnOk Kept (read_file c cursor path v)
  unfolding read_file
  read_file-Kept cursor path v h = OnOk-bind_any Kept (read_uint64_le c.header cursor) _ λ start _.
      OnOk-bind_any Kept (read_uint64_le c.header (cursor + 8)) _ λ end_offset _.
        OnOk-bind_any Kept (require_available c.header (cursor + 16) 32) _ λ _ _.
          OnOk-bind_any Kept
            (require_available c.header (cursor + 48 + version_bytes c.version 24) 0) _
            λ _ _. elim (Bool-cases (ltb end_offset start || ltb (length c.region) end_offset)) [
              | inl e ↦ rw e tt
              | inr e ↦
                  let fits : (start + (end_offset - start)) ≤ length c.region = ground arith in
                  let here =
                    IsPart-slice webc c.region c.data_offset start (end_offset - start) part fits in
                  let size = length-slice c.region start (end_offset - start) fits in
                  rw e (
                    FilesAt-set webc path _ v.files
                      (record {
                        bytes = here.same ∙ ap (slice webc (c.data_offset + start)) size;
                        within = omega (arith, here.within, size);
                        byte_length = refl;
                      })
                      h)
            ]

  read_entries-Kept :
      (visit : ℕ → Text → Visited → Result WebcError Visited)
      → ((o : ℕ) (path : Text) (v : Visited) → Kept v → OnOk Kept (visit o path v))
      → (fuel cursor entries_end : ℕ) (path : Text) (v : Visited) → Kept v
      → OnOk Kept (read_entries c visit fuel cursor entries_end path v)
  unfolding read_entries
  read_entries-Kept visit keeps zero cursor entries_end path v h = tt
  read_entries-Kept visit keeps (suc fuel) cursor entries_end path v h =
      elim (Bool-cases (ltb cursor entries_end)) [
        | inl e ↦
            rw (read_entries, e)
              (OnOk-bind_any Kept (read_entry c cursor) _ λ x _.
                OnOk-bind Kept Kept (visit x.0 _ v) _ (keeps x.0 _ v h)
                  λ w _ k. read_entries-Kept visit keeps fuel x.1.1 entries_end path w k)
        | inr e ↦ rw (read_entries, e) (last (cursor == entries_end))
      ]
    where
      last : (b : Bool) → OnOk Kept (if b then ok v else err invalid_directory_length)
      last true = h
      last false = tt

  read_directory-Kept :
      (visit : ℕ → Text → Visited → Result WebcError Visited)
      → ((o : ℕ) (path : Text) (v : Visited) → Kept v → OnOk Kept (visit o path v))
      → (cursor : ℕ) (path : Text) (v : Visited) → Kept v
      → OnOk Kept (read_directory c visit cursor path v)
  unfolding read_directory
  read_directory-Kept visit keeps cursor path v h =
      OnOk-bind_any Kept (read_uint64_le c.header cursor) _ λ n _.
        OnOk-bind_any Kept (require_available c.header (cursor + 8) n) _ λ _ _.
          OnOk-bind_any Kept
            (require_available c.header (cursor + 8 + version_bytes c.version 56) 0) _
            λ _ _. read_entries-Kept visit keeps _ _ _ path v h

  parse_header_entry-Kept :
      (fuel offset : ℕ) (path : Text) (v : Visited)
      → Kept v
      → OnOk Kept (parse_header_entry c fuel offset path v)
  unfolding parse_header_entry
  parse_header_entry-Kept zero offset path v h = tt
  parse_header_entry-Kept (suc fuel) offset path v h =
      elim (Bool-cases (any (λ o. o == offset) v.seen_offsets)) [
        | inl e ↦ rw e tt
        | inr e ↦ rw e (
            OnOk-bind_any Kept (require_available c.header offset 1) _ λ _ _.
              elim (Bool-cases (byte_at c.header offset == 30)) [
                | inl t ↦ rw t (
                    read_directory-Kept (parse_header_entry c fuel) (parse_header_entry-Kept fuel)
                      (offset + 1) path _ h)
                | inr t ↦ rw t (file (byte_at c.header offset == 31))
              ])
      ]
    where
      file :
          (b : Bool)
          → OnOk Kept (
              if b
              then read_file c
                  (offset + 1)
                  path
                  (record v { seen_offsets = offset ∷ v.seen_offsets })
              else err unsupported_header_tag)
      file true = read_file-Kept (offset + 1) path _ h
      file false = tt

  parse_volume_header-FilesAt : (prefix : Text) → OnOk (FilesAt webc) (parse_volume_header c prefix)
  unfolding parse_volume_header
  parse_volume_header-FilesAt prefix =
      OnOk-bind Kept (FilesAt webc) (parse_header_entry c _ 0 prefix _) _
        (parse_header_entry-Kept _ 0 prefix _ FilesAt-empty) λ v _ h. h
