-- ===== src/Webc/References.antt =====
-- The references of a package's manifest lead somewhere (apps/web/src/webc-metadata.js).
use wasm_host.Prelude.{◌≡◌, Text, true, false, ◌||◌, some, codes, is_empty, is_some, All}
use wasm_host.Prelude.Dict.{Dict, get, has}
use wasm_host.Webc.Volumes.{File, Volume}
use wasm_host.Webc.Sections.{Sections}
use wasm_host.Webc.Manifest.{CommandMetadata, Mapping, Metadata, Package, atom_files}
use wasm_host.Webc.Objects.{member, prototype_names}

-- A command's atom has a file, or the name of a property that every object has.
abbrev pub AtomFound : Dict File → CommandMetadata → Type 0
AtomFound files m =
    (a : Text) → m.atom ≡ some a → (is_empty a || (has a files || member a prototype_names)) ≡ true

-- A mapping is from a dependency, or its volume is there, or the volume has the name of a property
-- that every object has.
abbrev pub VolumeFound : Dict Volume → Mapping → Type 0
VolumeFound volumes m =
    (is_some m.source || (has m.volume_name volumes || member m.volume_name prototype_names)) ≡ true

pub record IsResolved (p : Package) : Type 0 where
  pub atoms :
      (name : Text) (m : CommandMetadata)
      → get name p.metadata.command_metadata ≡ some m
      → AtomFound p.atom_files m
  pub volumes : All (VolumeFound p.volumes) p.metadata.filesystem
  pub default_command : member p.metadata.default_command p.metadata.commands ≡ true

abbrev NoProto : {V : Type 0} → Dict V → Type 0
NoProto table = has (codes "__proto__") table ≡ false

abbrev Chosen : Metadata → Type 0
Chosen m = member m.default_command m.commands ≡ true

-- A package is resolved if none of its atoms and volumes has the name `__proto__`.
abbrev IsResolvedPlain : Package → Type 0
IsResolvedPlain p = NoProto p.atom_files → NoProto p.volumes → IsResolved p
