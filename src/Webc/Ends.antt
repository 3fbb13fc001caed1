-- ===== src/Webc/Ends.antt =====
-- The loops of the package reader end within their fuel (apps/web/src/webc-metadata.js): each turn
-- moves the cursor, and each header entry is visited once.
pub mod Packages
use wasm_host.Prelude.{
  ℕ, zero, suc, ◌+◌, ◌-◌, ◌≤◌, ◌<◌, ◌≡◌, ◌≢◌, refl, sym, ap, subst, ◌∙◌, inl, inr, Text, Bool, true,
  false, ◌||◌, none, some, List, [], ◌∷◌, codes, length, any, ltb, ◌==◌, arith, if◌then◌else◌,
  Bool-cases,
}
use wasm_host.Prelude.Exec.{Result, ok, err, bind}
use wasm_host.Prelude.Dict.{set}
use wasm_host.Webc.Reader.{
  WebcError, out_of_fuel, Bytes, Version, slice, require_available, read_byte, read_uint64_le,
  little_endian, safe_number, byte_at, invalid_directory_length, unsupported_header_tag,
}
use wasm_host.Webc.Volumes.{
  Section, Context, Visited, read_entry, read_entries, read_directory, read_file,
  parse_header_entry, parse_volume_header, parse_volume_payload, parse_volume_section,
}
use wasm_host.Webc.Sections.{
  Sections, hash_length, read_section, parse_atoms_section, add_section, read_sections_from,
  read_webc_sections,
}

abbrev is_out_of_fuel : WebcError → Bool
is_out_of_fuel out_of_fuel = true
is_out_of_fuel _ = false

-- The fuel was enough, and `P` holds of the result, if there is one.
abbrev Finishes : {A : Type 0} → (A → Type 0) → Result WebcError A → Type 0
Finishes P (ok a) = P a
Finishes P (err e) = is_out_of_fuel e ≡ false

Finishes-weaken :
    {A : Type 0} (P Q : A → Type 0) (r : Result WebcError A)
    → ((a : A) → P a → Q a)
    → Finishes P r
    → Finishes Q r
Finishes-weaken P Q (ok a) k h = k a h
Finishes-weaken P Q (err e) k h = h

Finishes-bind :
    {A B : Type 0} (P : A → Type 0) (Q : B → Type 0) (r : Result WebcError A)
    (f : A → Result WebcError B)
    → Finishes P r
    → ((a : A) → P a → Finishes Q (f a))
    → Finishes Q (bind r f)
Finishes-bind P Q (ok a) f h k = k a h
Finishes-bind P Q (err e) f h k = h

abbrev Any : {A : Type 0} → A → Type 0
Any a = Unit {0}

available :
    (bytes : Bytes) (o n : ℕ) → Finishes (λ _. (o + n) ≤ length bytes) (require_available bytes o n)
unfolding require_available
available bytes o n = ground arith

safe : (n : ℕ) → Finishes Any (safe_number n)
unfolding safe_number
safe n = ground arith

uint64 : (bytes : Bytes) (o : ℕ) → Finishes Any (read_uint64_le bytes o)
unfolding read_uint64_le
uint64 bytes o =
    Finishes-bind _ Any (require_available bytes o 8) _ (available bytes o 8)
      λ _ _. safe (little_endian (slice bytes o 8))

byte : (bytes : Bytes) (o : ℕ) → Finishes (λ _. (o + 1) ≤ length bytes) (read_byte bytes o)
unfolding read_byte
byte bytes o = Finishes-bind _ _ (require_available bytes o 1) _ (available bytes o 1) λ _ h. h

-- How many of the first offsets have not been seen.
abbrev unseen : ℕ → List ℕ → ℕ
unseen zero seen = 0
unseen (suc n) seen = (if any (λ o. o == n) seen then 0 else 1) + unseen n seen

unseen_bound : (n : ℕ) → unseen n [] ≤ n
unseen_bound zero = omega arith
unseen_bound (suc n) = omega (arith, unseen_bound n)

unseen_less : (n x : ℕ) (seen : List ℕ) → unseen n (x ∷ seen) ≤ unseen n seen
unseen_less zero x seen = omega arith
unseen_less (suc n) x seen = ground (arith, unseen_less n x seen)

unseen_step :
    (n x : ℕ) (seen : List ℕ)
    → x < n
    → any (λ o. o == x) seen ≡ false
    → (1 + unseen n (x ∷ seen)) ≤ unseen n seen
unseen_step zero x seen h e = omega arith
unseen_step (suc n) x seen h e = elim (Bool-cases (x == n)) [
  | inl t ↦
      let same : x ≡ n = ground arith in
      let fresh : any (λ o. o == n) seen ≡ false =
        ap (λ y. any (λ o. o == y) seen) (sym same) ∙ e in
      ground (arith, unseen_less n x seen)
  | inr t ↦ let below : x < n = ground arith in ground (arith, unseen_step n x seen below e)
]

module _ (c : Context) where
  abbrev left : Visited → ℕ
  left v = unseen (length c.header) v.seen_offsets

  entry-moves : (cursor : ℕ) → Finishes (λ e. cursor < e.1.1) (read_entry c cursor)
  unfolding read_entry
  entry-moves cursor =
      Finishes-bind Any (λ e. cursor < e.1.1) (read_uint64_le c.header cursor) _
        (uint64 c.header cursor)
        λ _ _.
          Finishes-bind Any (λ e. cursor < e.1.1) (read_uint64_le c.header _) _ (uint64 c.header _)
            λ n _.
              Finishes-bind _ (λ e. cursor < e.1.1) (require_available c.header _ n) _
                (available c.header _ n) λ _ _. omega arith

  file-Finishes :
      (bound cursor : ℕ) (path : Text) (v : Visited)
      → left v ≤ bound
      → Finishes (λ w. left w ≤ bound) (read_file c cursor path v)
  unfolding read_file
  file-Finishes bound cursor path v h =
      Finishes-bind Any _ (read_uint64_le c.header cursor) _ (uint64 c.header cursor) λ start _.
        Finishes-bind Any _ (read_uint64_le c.header (cursor + 8)) _ (uint64 c.header (cursor + 8))
          λ end_offset _.
            Finishes-bind _ _ (require_available c.header (cursor + 16) 32) _
              (available c.header (cursor + 16) 32)
              λ _ _.
                Finishes-bind _ _ (require_available c.header _ 0) _ (available c.header _ 0) λ _ _.
                  elim (Bool-cases (ltb end_offset start || ltb (length c.region) end_offset)) [
                    | inl e ↦ rw e refl
                    | inr e ↦ rw e h
                  ]

  module _ (visit : ℕ → Text → Visited → Result WebcError Visited) (bound : ℕ)
      (visits : (o : ℕ) (path : Text) (v : Visited)
        → left v ≤ bound
        → Finishes (λ w. left w ≤ bound) (visit o path v)) where
    entries-Finishes :
        (fuel cursor entries_end : ℕ) (path : Text) (v : Visited)
        → (entries_end - cursor) < fuel
        → left v ≤ bound
        → Finishes (λ w. left w ≤ bound) (read_entries c visit fuel cursor entries_end path v)
    unfolding read_entries
    entries-Finishes zero cursor entries_end path v f h = ground arith
    entries-Finishes (suc fuel) cursor entries_end path v f h =
        elim (Bool-cases (ltb cursor entries_end)) [
          | inl e ↦
              rw (read_entries, e)
                (Finishes-bind (λ e. cursor < e.1.1) _ (read_entry c cursor) _ (entry-moves cursor)
                  λ x m.
                    Finishes-bind _ _ (visit x.0 _ v) _ (visits x.0 _ v h)
                      λ w k. entries-Finishes fuel x.1.1 entries_end path w (ground arith) k)
          | inr e ↦ rw (read_entries, e) (last (cursor == entries_end))
        ]
      where
        last :
            (b : Bool)
            → Finishes
                (λ (w : Visited). left w ≤ bound)
                (if b then ok v else err invalid_directory_length)
        last true = h
        last false = refl

    directory-Finishes :
        (cursor : ℕ) (path : Text) (v : Visited)
        → left v ≤ bound
        → Finishes (λ w. left w ≤ bound) (read_directory c visit cursor path v)
    unfolding read_directory
    directory-Finishes cursor path v h =
        Finishes-bind Any _ (read_uint64_le c.header cursor) _ (uint64 c.header cursor) λ n _.
          Finishes-bind _ _ (require_available c.header (cursor + 8) n) _
            (available c.header (cursor + 8) n)
            λ _ fits.
              Finishes-bind _ _ (require_available c.header _ 0) _ (available c.header _ 0)
                λ _ _. entries-Finishes _ _ _ path v (omega (arith, fits)) h

  visit-Finishes :
      (fuel bound offset : ℕ) (path : Text) (v : Visited)
      → left v ≤ bound
      → bound < fuel
      → Finishes (λ w. left w ≤ bound) (parse_header_entry c fuel offset path v)
  unfolding parse_header_entry
  visit-Finishes zero bound offset path v h f = ground arith
  visit-Finishes (suc fuel) bound offset path v h f =
      elim (Bool-cases (any (λ o. o == offset) v.seen_offsets)) [
        | inl e ↦ rw e refl
        | inr e ↦ rw e (
            Finishes-bind _ _ (require_available c.header offset 1) _ (available c.header offset 1)
              λ _ fits.
                let fewer =
                  unseen_step (length c.header) offset v.seen_offsets (omega (arith, fits)) e in
                elim (Bool-cases (byte_at c.header offset == 30)) [
                  | inl t ↦ rw t (
                      Finishes-weaken (λ w. left w ≤ (bound - 1)) (λ w. left w ≤ bound)
                        (read_directory c (parse_header_entry c fuel) _ path _)
                        (λ w k. omega (arith, k))
                        (directory-Finishes (parse_header_entry c fuel) (bound - 1)
                          (λ o p w k.
                            visit-Finishes fuel (bound - 1) o p w k (omega (arith, fewer, h, f)))
                          (offset + 1) path _ (omega (arith, fewer, h))))
                  | inr t ↦ rw t (file (byte_at c.header offset == 31) (omega (arith, fewer, h)))
                ])
      ]
    where
      abbreviated : Visited
      abbreviated = record v { seen_offsets = offset ∷ v.seen_offsets }

      file :
          (b : Bool)
          → left abbreviated ≤ bound
          → Finishes
              (λ (w : Visited). left w ≤ bound)
              (if b then read_file c (offset + 1) path abbreviated else err unsupported_header_tag)
      file true k = file-Finishes bound (offset + 1) path abbreviated k
      file false k = refl

  header-Finishes : (prefix : Text) → Finishes Any (parse_volume_header c prefix)
  unfolding parse_volume_header
  header-Finishes prefix =
      let n = unseen_bound (length c.header) in
      Finishes-bind _ Any (parse_header_entry c _ 0 prefix _) _
        (visit-Finishes (suc (length c.header)) (length c.header) 0 prefix _ n (omega arith))
        λ v _. tt
