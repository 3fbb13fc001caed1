-- ===== src/Webc/Manifest.antt =====
-- The normalised manifest and the references it makes (apps/web/src/webc-metadata.js). An object's
-- names are in the order they were set in; names that are array indexes are not treated apart.
use wasm_host.Prelude.{
  Text, Bool, not, ◌&&◌, ◌||◌, Option, none, some, List, [], ◌∷◌, codes, text_eq, is_empty, length,
  ltb, take, is_some, if◌then◌else◌,
}
use wasm_host.Prelude.Exec.{Result, ok, err, bind}
use wasm_host.Prelude.Dict.{Dict, set}
use wasm_host.Webc.Reader.{
  WebcError, missing_version, unsupported_version, missing_manifest, no_commands,
  missing_mount_path, missing_volume_name, missing_atom, missing_volume, Bytes, Version, v2, v3,
  slice,
}
use wasm_host.Webc.Volumes.{File, Section, Volume}
use wasm_host.Webc.Sections.{Atoms, Sections, read_webc_sections}
use wasm_host.Webc.Cbor.{
  Value, array, Values, no_values, value, Fields, no_fields, field, decode_cbor,
}
use wasm_host.Webc.Objects.{
  lookup, object_value, optional_object, optional_string, optional_string_list, first_own, or_none,
  lookup_in, or_empty, member, found_in, file_property, volume_property,
}

pub record CommandMetadata : Type 0 where
  pub annotations : Fields
  pub atom : Option Text
  pub cwd : Option Text
  pub dependency : Option Text
  pub env : List Text
  pub exec_name : Option Text
  pub main_args : List Text
  pub runner : Option Text

pub record Mapping : Type 0 where
  pub source : Option Text
  pub host_path : Option Text
  pub mount_path : Text
  pub volume_name : Text

pub record Metadata : Type 0 where
  pub command_metadata : Dict CommandMetadata
  pub commands : List Text
  pub default_command : Text
  pub filesystem : List Mapping
  pub manifest : Fields

pub record Package : Type 0 where
  pub metadata : Metadata
  pub atom_files : Dict File
  pub volumes : Dict Volume

-- The body of the loop of `normalizeCommandMetadata`.
unfoldable pub command_metadata : Value → Result WebcError CommandMetadata
command_metadata v = bind (object_value v) λ command.
    bind (optional_object (lookup (codes "annotations") command)) λ given.
      let annotations = or_empty given in
      bind (optional_object (lookup (codes "atom") annotations)) λ atom.
        bind (optional_object (lookup (codes "wasi") annotations)) λ wasi. ok (record {
          annotations = annotations;
          atom =
              or_none (optional_string (lookup_in (codes "name") atom))
                (optional_string (lookup_in (codes "atom") wasi));
          cwd = optional_string (first_own wasi (codes "cwd" ∷ []));
          dependency =
              or_none (optional_string (lookup_in (codes "dependency") atom))
                (optional_string (first_own wasi (codes "package" ∷ [])));
          env = optional_string_list (first_own wasi (codes "env" ∷ []));
          exec_name =
              or_none
                (optional_string (first_own wasi (codes "exec_name" ∷ codes "exec-name" ∷ [])))
                (optional_string (first_own wasi (codes "execName" ∷ [])));
          main_args =
              optional_string_list (first_own wasi (codes "main_args" ∷ codes "main-args" ∷ []));
          runner = optional_string (lookup (codes "runner") command);
        })

unfoldable pub normalize_command_metadata :
    Fields → Dict CommandMetadata → Result WebcError (Dict CommandMetadata)
normalize_command_metadata no_fields metadata = ok metadata
normalize_command_metadata (field name v rest) metadata =
    bind (command_metadata v) λ m. normalize_command_metadata rest (set name m metadata)

abbrev required : Option Text → WebcError → Result WebcError Text
required none e = err e
required (some t) e = ok t

unfoldable pub filesystem_mapping : Value → Result WebcError Mapping
filesystem_mapping v = bind (object_value v) λ mapping.
    bind
      (required
        (optional_string (first_own (some mapping) (codes "mount_path" ∷ codes "mount-path" ∷ [])))
        missing_mount_path)
      λ mount_path.
        bind
          (required
            (optional_string
              (first_own (some mapping) (codes "volume_name" ∷ codes "volume-name" ∷ [])))
            missing_volume_name)
          λ volume_name. ok (record {
            source = optional_string (lookup (codes "from") mapping);
            host_path =
                or_none
                  (optional_string (
                    first_own (some mapping)
                      (codes "host_path" ∷ codes "host-path" ∷ codes "original_path" ∷ [])))
                  (optional_string (first_own (some mapping) (codes "original-path" ∷ [])));
            mount_path = mount_path;
            volume_name = volume_name;
          })

unfoldable pub filesystem_mappings : Values → Result WebcError (List Mapping)
filesystem_mappings no_values = ok []
filesystem_mappings (value v vs) =
    bind (filesystem_mapping v) λ m. bind (filesystem_mappings vs) λ ms. ok (m ∷ ms)

unfoldable pub normalize_filesystem_mappings : Value → Result WebcError (List Mapping)
normalize_filesystem_mappings (array vs) = filesystem_mappings vs
normalize_filesystem_mappings _ = ok []

unfoldable pub names : Fields → List Text
names no_fields = []
names (field n v rest) = n ∷ names rest

-- The entry point if it is a command, and the first command otherwise.
unfoldable pub choose_command : Option Text → Text → List Text → Text
choose_command none first commands = first
choose_command (some e) first commands = if member e commands then e else first

-- The loop of `normalizeAtoms` checks that each atom is a map.
unfoldable pub check_atoms : Fields → Result WebcError Unit
check_atoms no_fields = ok tt
check_atoms (field name v rest) =
    bind (object_value v)
      λ atom. bind (optional_object (lookup (codes "annotations") atom)) λ _. check_atoms rest

-- What follows the commands' names in `normalizeWebcManifest`.
unfoldable pub manifest_with_commands : Fields → Fields → List Text → Result WebcError Metadata
manifest_with_commands root command_map [] = err no_commands
manifest_with_commands root command_map (first ∷ others) =
    bind (optional_object (lookup (codes "package") root)) λ given.
      let annotations = or_empty given in
      bind (optional_object (lookup (codes "wapm") annotations)) λ _.
        bind (normalize_filesystem_mappings (lookup (codes "fs") annotations)) λ filesystem.
          bind (optional_object (lookup (codes "atoms") root)) λ atoms.
            bind (check_atoms (or_empty atoms)) λ _.
              bind (normalize_command_metadata command_map []) λ metadata. ok (record {
                command_metadata = metadata;
                commands = first ∷ others;
                default_command =
                    choose_command (optional_string (lookup (codes "entrypoint") root)) first
                      (first ∷ others);
                filesystem = filesystem;
                manifest = root;
              })

unfoldable pub normalize_webc_manifest : Value → Result WebcError Metadata
normalize_webc_manifest manifest = bind (object_value manifest) λ root.
    bind (object_value (lookup (codes "commands") root))
      λ command_map. manifest_with_commands root command_map (names command_map)

unfoldable pub validate_referenced_atoms : Dict CommandMetadata → Dict File → Result WebcError Unit
validate_referenced_atoms [] files = ok tt
validate_referenced_atoms ((name, m) ∷ rest) files = elim m.atom [
  | none ↦ validate_referenced_atoms rest files
  | some a ↦
      if not (is_empty a) && not (found_in file_property a files)
      then err missing_atom
      else validate_referenced_atoms rest files
]

unfoldable pub validate_referenced_volumes : List Mapping → Dict Volume → Result WebcError Unit
validate_referenced_volumes [] volumes = ok tt
validate_referenced_volumes (m ∷ rest) volumes =
    if not (is_some m.source) && not (found_in volume_property m.volume_name volumes)
    then err missing_volume
    else validate_referenced_volumes rest volumes

abbrev starts_with_bytes : Bytes → Bytes → Bool
starts_with_bytes bytes start = text_eq (take (length start) bytes) start

-- The three version bytes.
unfoldable pub detect_webc_version : Bytes → Option Bytes
detect_webc_version bytes =
    if not (starts_with_bytes bytes (0 ∷ codes "webc")) || ltb (length bytes) 8
    then none
    else some (slice bytes 5 3)

unfoldable pub supported_version : (Bytes → Text) → Option Bytes → Result WebcError Version
supported_version decode none = err missing_version
supported_version decode (some v) =
    let text = decode v in
    if is_empty text
    then err missing_version
    else if text_eq text (codes "002")
    then ok v2
    else if text_eq text (codes "003")
    then ok v3
    else err unsupported_version

abbrev pub atom_files : Option Atoms → Dict File
atom_files none = []
atom_files (some a) = a.files

-- The references are looked up in what the sections have.
unfoldable pub validated : Metadata → Sections → Result WebcError Package
validated metadata sections =
    let files = atom_files sections.atoms in
    bind (validate_referenced_atoms metadata.command_metadata files) λ _.
      bind (validate_referenced_volumes metadata.filesystem sections.volumes)
        λ _. ok (record { metadata = metadata; atom_files = files; volumes = sections.volumes })

module _ (decode : Bytes → Text) (key_text : Value → Text) where
  unfoldable pub package_of_sections : Sections → Option Section → Result WebcError Package
  package_of_sections sections none = err missing_manifest
  package_of_sections sections (some m) =
      bind (decode_cbor decode key_text m.payload)
        λ manifest. bind (normalize_webc_manifest manifest) λ metadata. validated metadata sections

  unfoldable pub extract_webc_package_metadata : Bytes → Result WebcError Package
  extract_webc_package_metadata bytes =
      bind (supported_version decode (detect_webc_version bytes)) λ version.
        bind (read_webc_sections decode version bytes)
          λ sections. package_of_sections sections sections.manifest
