-- ===== src/Webc/Tests.antt =====
-- A run of the package reader.
use wasm_host.Prelude.{
  Text, true, map, trim, ℕ, length, ◌≡◌, ◌≢◌, refl, Option, none, some, [], ◌∷◌, ◌++◌, codes,
}
use wasm_host.Prelude.Exec.{Result, ok, err}
use wasm_host.Prelude.Dict.{get, has, set}
use wasm_host.Webc.Reader.{
  WebcError, out_of_fuel, Bytes, v2, require_available, read_byte, little_endian, safe_number,
  read_uint64_le, hex_digit, bytes_to_hex,
}
use wasm_host.Webc.Volumes.{
  child_path, read_entry, read_entries, read_directory, read_file, parse_header_entry,
  parse_volume_header, parse_volume_payload, parse_volume_section,
}
use wasm_host.Webc.Sections.{
  Sections, hash_length, section_hash, read_section, parse_atoms_section, add_section,
  read_sections_from, read_webc_sections,
}
use wasm_host.Webc.Cbor.{
  Value, unsigned, negative, array, object, no_values, value, field, no_fields, set_field,
  decode_float16, major_of, big_endian, read_bytes, read_number, read_uint64, read_argument,
  read_simple, read_array, read_map, read_major, read_value, decode_cbor,
}
use wasm_host.Webc.Manifest.{
  Mapping, Package, command_metadata, normalize_command_metadata, filesystem_mapping,
  filesystem_mappings, normalize_filesystem_mappings, names, choose_command, check_atoms,
  manifest_with_commands, normalize_webc_manifest, validate_referenced_atoms,
  validate_referenced_volumes, detect_webc_version, supported_version, validated,
  package_of_sections, extract_webc_package_metadata,
}
use wasm_host.Webc.Objects.{
  lookup, own, byte_fields, object_value, optional_object, optional_string, optional_string_list,
  first_own, found_in, file_property, volume_property,
}
use wasm_host.Webc.Spans.Packages.{AllPlaced, read_webc_sections-AllPlaced}
use wasm_host.Webc.Ends.Packages.{read_webc_sections_ends}

program : Unit {0}
unfolding get set require_available read_byte little_endian safe_number read_uint64_le hex_digit
    bytes_to_hex child_path read_entry read_entries read_directory read_file parse_header_entry
    parse_volume_header parse_volume_payload parse_volume_section hash_length section_hash
    read_section parse_atoms_section add_section read_sections_from read_webc_sections set_field
    decode_float16 major_of big_endian read_bytes read_number read_uint64 read_argument read_simple
    read_array read_map read_major read_value decode_cbor lookup own byte_fields object_value
    optional_object optional_string optional_string_list first_own command_metadata
    normalize_command_metadata filesystem_mapping filesystem_mappings normalize_filesystem_mappings
    names choose_command check_atoms manifest_with_commands normalize_webc_manifest found_in
    file_property volume_property validate_referenced_atoms validate_referenced_volumes
    detect_webc_version supported_version validated package_of_sections
    extract_webc_package_metadata trim
program = tt

abbrev uint64 : ℕ → Bytes
uint64 n = n ∷ 0 ∷ 0 ∷ 0 ∷ 0 ∷ 0 ∷ 0 ∷ 0 ∷ []

abbrev eight : Bytes
eight = uint64 0

-- A directory with the file `f`.
abbrev header : Bytes
header =
    (30 ∷ uint64 17)
    ++ uint64 26
    ++ uint64 1
    ++ codes "f"
    ++ (31 ∷ uint64 0)
    ++ uint64 2
    ++ eight
    ++ eight
    ++ eight
    ++ eight

-- A package of version 2 with the volume `v`.
abbrev webc : Bytes
webc =
    (0 ∷ codes "webc002")
    ++ (4 ∷ uint64 102)
    ++ uint64 1
    ++ codes "v"
    ++ uint64 75
    ++ header
    ++ uint64 2
    ++ codes "hi"

abbrev sections_of : Result WebcError Sections → Sections
sections_of (ok s) = s
sections_of (err e) = record { atoms = none; manifest = none; volumes = [] }

abbrev found : Sections
found = sections_of (read_webc_sections (λ b. b) v2 webc)

abbrev contents : Option (Bytes × (ℕ × ℕ))
contents = elim (get (codes "v") found.volumes) [
  | none ↦ none
  | some v ↦ elim (get (codes "/f") v.files) [
    | none ↦ none
    | some f ↦ some (f.bytes, (f.span.offset, f.span.length))
  ]
]

contents_lem : contents ≡ some (codes "hi", (117, 2))
unfolding program
contents_lem = refl

found_lem : read_webc_sections (λ b. b) v2 webc ≡ ok found
unfolding program
found_lem = refl

read_webc_sections-AllPlaced_example : AllPlaced webc found
read_webc_sections-AllPlaced_example = read_webc_sections-AllPlaced (λ b. b) v2 webc found found_lem

read_webc_sections_ends_example : read_webc_sections (λ b. b) v2 webc ≢ err out_of_fuel
read_webc_sections_ends_example = read_webc_sections_ends (λ b. b) v2 webc

-- `{"a": [1, -2]}`
abbrev cbor : Bytes
cbor = 161 ∷ 97 ∷ 97 ∷ 130 ∷ 1 ∷ 33 ∷ []

abbrev decoded : Value
decoded =
    object (field (codes "a") (array (value (unsigned 1) (value (negative 1) no_values))) no_fields)

decoded_lem : decode_cbor (λ b. b) (λ v. []) cbor ≡ ok decoded
unfolding program
decoded_lem = refl

-- `{"commands": {"run": {}}}`
abbrev manifest : Bytes
manifest = (161 ∷ 104 ∷ codes "commands") ++ (161 ∷ 99 ∷ codes "run") ++ (160 ∷ [])

abbrev runnable : Bytes
runnable = (0 ∷ codes "webc002") ++ (1 ∷ uint64 16) ++ manifest

abbrev package_of : Result WebcError Package → Package
package_of (ok p) = p
package_of (err e) = record {
  metadata = record {
    command_metadata = [];
    commands = [];
    default_command = [];
    filesystem = [];
    manifest = no_fields;
  };
  atom_files = [];
  volumes = [];
}

abbrev extracted : Package
extracted = package_of (extract_webc_package_metadata (λ b. b) (λ v. []) runnable)

extracted_lem : extract_webc_package_metadata (λ b. b) (λ v. []) runnable ≡ ok extracted
unfolding program
extracted_lem = refl

extracted_commands : extracted.metadata.default_command ≡ codes "run"
unfolding program
extracted_commands = refl

-- Its command has the atom `f`, and its file system the volume `v`.
abbrev linked_manifest : Bytes
linked_manifest =
    (162 ∷ 104 ∷ codes "commands")
    ++ (161 ∷ 99 ∷ codes "run")
    ++ (161 ∷ 107 ∷ codes "annotations")
    ++ (161 ∷ 100 ∷ codes "atom")
    ++ (161 ∷ 100 ∷ codes "name")
    ++ (97 ∷ codes "f")
    ++ (103 ∷ codes "package")
    ++ (161 ∷ 98 ∷ codes "fs")
    ++ (129 ∷ 162 ∷ 107 ∷ codes "volume_name")
    ++ (97 ∷ codes "v")
    ++ (106 ∷ codes "mount_path")
    ++ (98 ∷ codes "/m")

abbrev linked_bytes : Bytes
linked_bytes =
    webc
    ++ (3 ∷ uint64 93)
    ++ uint64 75
    ++ header
    ++ uint64 2
    ++ codes "hi"
    ++ (1 ∷ uint64 (length linked_manifest))
    ++ linked_manifest

abbrev linked : Package
linked = package_of (extract_webc_package_metadata (λ b. b) (λ v. []) linked_bytes)

abbrev proto : Text
proto = codes "__proto__"

-- The reference is to an atom and a volume that are there.
linked_names :
    (has (codes "f") linked.atom_files ≡ true)
    × (map (λ (m : Mapping). m.volume_name) linked.metadata.filesystem ≡ (codes "v" ∷ []))
unfolding program
linked_names = (refl, refl)
