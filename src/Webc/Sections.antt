-- ===== src/Webc/Sections.antt =====
-- The sections of a package (apps/web/src/webc-metadata.js).
use wasm_host.Prelude.{
  ℕ, zero, suc, ◌+◌, Text, true, false, Option, none, some, [], length, ltb, ◌==◌, if◌then◌else◌,
}
use wasm_host.Prelude.Exec.{Result, ok, err, bind}
use wasm_host.Prelude.Dict.{Dict, set}
use wasm_host.Webc.Reader.{
  WebcError, out_of_fuel, Bytes, Version, v2, v3, slice, require_available, read_byte,
  read_uint64_le, Span,
}
use wasm_host.Webc.Volumes.{Section, Volume, File, parse_volume_payload, parse_volume_section}

-- What `parseAtomsSection` returns.
pub record Atoms : Type 0 where
  pub files : Dict File
  pub hash : Option Text
  pub payload_span : Span

pub record Sections : Type 0 where
  pub atoms : Option Atoms
  pub manifest : Option Section
  pub volumes : Dict Volume

-- In version 3 a section has a hash, unless it is the index.
unfoldable pub hash_length : Version → ℕ → ℕ
hash_length v2 tag = 0
hash_length v3 tag = if tag == 2 then 0 else 32

unfoldable pub section_hash : Bytes → ℕ → ℕ → Option Bytes
section_hash bytes offset n = if n == 0 then none else some (slice bytes offset n)

-- The head of a section and its payload.
unfoldable pub read_section : Version → Bytes → ℕ → Result WebcError Section
read_section version bytes offset = bind (read_byte bytes offset) λ tag.
    let hash = hash_length version tag in
    bind (require_available bytes (offset + 1) hash) λ _.
      bind (read_uint64_le bytes (offset + 1 + hash)) λ n.
        let start = offset + 1 + hash + 8 in
        bind (require_available bytes start n) λ _. ok (record {
          hash = section_hash bytes (offset + 1) hash;
          length = n;
          payload = slice bytes start n;
          payload_offset = start;
          section_offset = offset;
          tag = tag;
        })

module _ (decode : Bytes → Text) (version : Version) where
  unfoldable pub parse_atoms_section : Section → Result WebcError Atoms
  parse_atoms_section s = bind (parse_volume_payload decode version s [] []) λ v. ok (record {
    files = v.files;
    hash = v.hash;
    payload_span = record { offset = s.payload_offset; length = s.length };
  })

  unfoldable pub add_section : Section → Sections → Result WebcError Sections
  add_section s found =
      if s.tag == 1
      then ok (record found { manifest = some s })
      else if s.tag == 3
      then bind (parse_atoms_section s) (λ a. ok (record found { atoms = some a }))
      else if s.tag == 4
      then bind (parse_volume_section decode version s)
          (λ v. ok (record found { volumes = set v.name v found.volumes }))
      else ok found

  unfoldable pub read_sections_from : Bytes → ℕ → ℕ → Sections → Result WebcError Sections
  read_sections_from bytes zero offset found = err out_of_fuel
  read_sections_from bytes (suc fuel) offset found = elim (ltb offset (length bytes)) [
    | true ↦ bind (read_section version bytes offset) λ s.
        bind (add_section s found)
          λ more. read_sections_from bytes fuel (s.payload_offset + s.length) more
    | false ↦ ok found
  ]

  unfoldable pub read_webc_sections : Bytes → Result WebcError Sections
  read_webc_sections bytes =
      read_sections_from bytes (suc (length bytes)) 8
        (record { atoms = none; manifest = none; volumes = [] })
