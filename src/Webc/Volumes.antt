-- ===== src/Webc/Volumes.antt =====
-- Volumes and their headers (apps/web/src/webc-metadata.js). The visit of a header entry and the
-- loop over a directory's entries have fuel; `Webc.Ends` shows that theirs is enough.
use wasm_host.Prelude.{
  ℕ, zero, suc, ◌+◌, ◌-◌, Text, true, false, ◌||◌, Option, none, some, List, [], ◌∷◌, ◌++◌, codes,
  text_eq, is_empty, length, drop, any, ltb, ◌==◌, if◌then◌else◌,
}
use wasm_host.Prelude.Exec.{Result, ok, err, bind}
use wasm_host.Prelude.Dict.{Dict, set}
use wasm_host.Webc.Reader.{
  WebcError, reference_loop, invalid_directory_length, invalid_file_span, unsupported_header_tag,
  out_of_fuel, Bytes, Version, v2, v3, slice, byte_at, require_available, read_uint64_le,
  bytes_to_hex, Span,
}

pub record File : Type 0 where
  pub byte_length : ℕ
  pub bytes : Bytes
  pub checksum_sha256 : Text
  pub span : Span

pub record Section : Type 0 where
  pub hash : Option Bytes
  pub length : ℕ
  pub payload : Bytes
  pub payload_offset : ℕ
  pub section_offset : ℕ
  pub tag : ℕ

pub record Volume : Type 0 where
  pub data_span : Span
  pub files : Dict File
  pub hash : Option Text
  pub header_span : Span
  pub name : Text
  pub payload_span : Span

-- `options` of `parseHeaderEntry`, but for the offsets that were seen.
pub record Context : Type 0 where
  pub header : Bytes
  pub region : Bytes
  pub data_offset : ℕ
  pub version : Version
  pub decode : Bytes → Text

-- What the visits share: the offsets that were seen, and the files.
pub record Visited : Type 0 where
  pub seen_offsets : List ℕ
  pub files : Dict File

unfoldable pub child_path : Text → Text → Text
child_path parent name =
    if is_empty parent
    then name
    else if text_eq parent (codes "/")
    then codes "/" ++ name
    else parent ++ codes "/" ++ name

abbrev pub version_bytes : Version → ℕ → ℕ
version_bytes v2 n = 0
version_bytes v3 n = n

module _ (c : Context) where
  -- One entry of a directory: the offset of the child, its name, and where the next entry is.
  unfoldable pub read_entry : ℕ → Result WebcError (ℕ × (Text × ℕ))
  read_entry cursor = bind (read_uint64_le c.header cursor) λ child_offset.
      let after_offset = cursor + 8 + version_bytes c.version 32 in
      bind (read_uint64_le c.header after_offset) λ name_length.
        bind (require_available c.header (after_offset + 8) name_length) λ _. ok (
          child_offset,
          (
            c.decode (slice c.header (after_offset + 8) name_length),
            after_offset + 8 + name_length,
          ),
        )

  -- The `while` loop of a directory.
  unfoldable pub read_entries :
      (ℕ → Text → Visited → Result WebcError Visited)
      → ℕ
      → ℕ
      → ℕ
      → Text
      → Visited
      → Result WebcError Visited
  read_entries visit zero cursor entries_end path v = err out_of_fuel
  read_entries visit (suc fuel) cursor entries_end path v = elim (ltb cursor entries_end) [
    | true ↦ bind (read_entry cursor) λ e.
        bind (visit e.0 (child_path path e.1.0) v)
          λ w. read_entries visit fuel e.1.1 entries_end path w
    | false ↦ if cursor == entries_end then ok v else err invalid_directory_length
  ]

  unfoldable pub read_directory :
      (ℕ → Text → Visited → Result WebcError Visited)
      → ℕ
      → Text
      → Visited
      → Result WebcError Visited
  read_directory visit cursor path v = bind (read_uint64_le c.header cursor) λ n.
      let start = cursor + 8 in
      bind (require_available c.header start n) λ _.
        let first = start + version_bytes c.version 56 in
        bind (require_available c.header first 0)
          λ _. read_entries visit (suc (length c.header)) first (start + n) path v

  unfoldable pub read_file : ℕ → Text → Visited → Result WebcError Visited
  read_file cursor path v = bind (read_uint64_le c.header cursor) λ start.
      bind (read_uint64_le c.header (cursor + 8)) λ end_offset.
        bind (require_available c.header (cursor + 16) 32) λ _.
          bind (require_available c.header (cursor + 48 + version_bytes c.version 24) 0) λ _.
            if ltb end_offset start || ltb (length c.region) end_offset
            then err invalid_file_span
            else let n = end_offset - start in
              ok (record v {
                files =
                    set path
                      (record {
                        byte_length = n;
                        bytes = slice c.region start n;
                        checksum_sha256 = bytes_to_hex (slice c.header (cursor + 16) 32);
                        span = record { offset = c.data_offset + start; length = n };
                      })
                      v.files;
              })

  -- The fuel bounds how deep the directories are.
  unfoldable pub parse_header_entry : ℕ → ℕ → Text → Visited → Result WebcError Visited
  parse_header_entry zero offset path v = err out_of_fuel
  parse_header_entry (suc fuel) offset path v =
      if any (λ o. o == offset) v.seen_offsets
      then err reference_loop
      else let w = record v { seen_offsets = offset ∷ v.seen_offsets } in
        bind (require_available c.header offset 1) λ _.
          let tag = byte_at c.header offset in
          elim (tag == 30) [
            | true ↦ read_directory (parse_header_entry fuel) (offset + 1) path w
            | false ↦
                if tag == 31 then read_file (offset + 1) path w else err unsupported_header_tag
          ]

  unfoldable pub parse_volume_header : Text → Result WebcError (Dict File)
  parse_volume_header path_prefix =
      bind
        (parse_header_entry (suc (length c.header)) 0 path_prefix
          (record { seen_offsets = []; files = [] }))
        λ v. ok v.files

abbrev pub section_hash_hex : Section → Option Text
section_hash_hex s = elim s.hash [ none ↦ none | some h ↦ some (bytes_to_hex h) ]

module _ (decode : Bytes → Text) (version : Version) where
  unfoldable pub parse_volume_payload : Section → Text → Text → Result WebcError Volume
  parse_volume_payload s name path_prefix = bind (read_uint64_le s.payload 0) λ header_length.
      bind (require_available s.payload 8 header_length) λ _.
        bind (read_uint64_le s.payload (8 + header_length)) λ data_length.
          let start = 8 + header_length + 8 in
          bind (require_available s.payload start data_length) λ _.
            let c : Context = record {
              header = slice s.payload 8 header_length;
              region = slice s.payload start data_length;
              data_offset = s.payload_offset + start;
              version = version;
              decode = decode;
            } in
            bind (parse_volume_header c path_prefix) λ files. ok (record {
              data_span = record { offset = s.payload_offset + start; length = data_length };
              files = files;
              hash = section_hash_hex s;
              header_span = record { offset = s.payload_offset + 8; length = header_length };
              name = name;
              payload_span = record { offset = s.payload_offset; length = s.length };
            })

  unfoldable pub parse_volume_section : Section → Result WebcError Volume
  parse_volume_section s = bind (read_uint64_le s.payload 0) λ name_length.
      bind (require_available s.payload 8 name_length) λ _.
        let start = 8 + name_length in
        parse_volume_payload
          (record s {
            payload = drop start s.payload;
            payload_offset = s.payload_offset + start;
            length = s.length - start;
          })
          (decode (slice s.payload 8 name_length)) (codes "/")
