-- ===== src/Webc/Spans/Packages.antt =====
-- The spans of the sections of a package (apps/web/src/webc-metadata.js).
use wasm_host.Prelude.{
  ℕ, zero, suc, ◌+◌, ◌≡◌, sym, ap, subst, inl, inr, Text, Bool, true, false, Option, none, some, [],
  text_eq, codes, length, ltb, ◌==◌, arith, if◌then◌else◌, Bool-cases,
}
use wasm_host.Prelude.Exec.{ok, bind, OnOk, OnOk-bind, OnOk-bind_any, OnOk_elim}
use wasm_host.Prelude.Dict.{get, set, get-set}
use wasm_host.Webc.Reader.{
  Bytes, Version, slice, read_byte, require_available, read_uint64_le, length-slice,
}
use wasm_host.Webc.Volumes.{Section, Volume, parse_volume_payload, parse_volume_section}
use wasm_host.Webc.Sections.{
  Atoms, Sections, hash_length, read_section, parse_atoms_section, add_section, read_sections_from,
  read_webc_sections,
}
use wasm_host.Webc.Spans.{
  IsPart, IsPart-slice, IsPart-drop, require_available-fits, FilesAt, parse_volume_header-FilesAt,
}

-- What a section's place and its payload have to do with each other.
pub record IsPlaced (webc : Bytes) (s : Section) : Type 0 where
  pub payload : IsPart webc s.payload s.payload_offset
  pub length : s.length ≡ length s.payload

abbrev pub VolumeAt : Bytes → Volume → Type 0
VolumeAt webc v = FilesAt webc v.files

module _ (decode : Bytes → Text) (version : Version) (webc : Bytes) where
  parse_volume_payload-VolumeAt :
      (s : Section) (name prefix : Text)
      → IsPart webc s.payload s.payload_offset
      → OnOk (VolumeAt webc) (parse_volume_payload decode version s name prefix)
  unfolding parse_volume_payload
  parse_volume_payload-VolumeAt s name prefix part =
      OnOk-bind_any (VolumeAt webc) (read_uint64_le s.payload 0) _ λ header_length _.
        OnOk-bind_any (VolumeAt webc) (require_available s.payload 8 header_length) _ λ _ _.
          OnOk-bind_any (VolumeAt webc) (read_uint64_le s.payload (8 + header_length)) _
            λ data_length _.
              OnOk-bind_any (VolumeAt webc)
                (require_available s.payload (8 + header_length + 8) data_length) _
                λ u fits.
                  OnOk-bind (FilesAt webc) (VolumeAt webc) _ _
                    (parse_volume_header-FilesAt webc _
                      (IsPart-slice webc s.payload s.payload_offset _ data_length part
                        (require_available-fits s.payload _ data_length u fits))
                      prefix)
                    λ files _ h. h

  parse_volume_section-VolumeAt :
      (s : Section)
      → IsPart webc s.payload s.payload_offset
      → OnOk (VolumeAt webc) (parse_volume_section decode version s)
  unfolding parse_volume_section
  parse_volume_section-VolumeAt s part =
      OnOk-bind_any (VolumeAt webc) (read_uint64_le s.payload 0) _ λ name_length _.
        OnOk-bind_any (VolumeAt webc) (require_available s.payload 8 name_length) _ λ u fits.
          parse_volume_payload-VolumeAt _ _ (codes "/") (
            IsPart-drop webc s.payload s.payload_offset (8 + name_length) part
              (require_available-fits s.payload 8 name_length u fits))

  read_section-IsPlaced : (offset : ℕ) → OnOk (IsPlaced webc) (read_section version webc offset)
  unfolding read_section
  read_section-IsPlaced offset = OnOk-bind_any (IsPlaced webc) (read_byte webc offset) _ λ tag _.
      OnOk-bind_any (IsPlaced webc) (require_available webc (offset + 1) (hash_length version tag))
        _
        λ _ _.
          OnOk-bind_any (IsPlaced webc) (read_uint64_le webc (offset + 1 + hash_length version tag))
            _
            λ n _.
              OnOk-bind_any (IsPlaced webc)
                (require_available webc (offset + 1 + hash_length version tag + 8) n) _
                λ u fits.
                  let size =
                    length-slice webc (offset + 1 + hash_length version tag + 8) n
                      (require_available-fits webc _ n u fits) in
                  record {
                    payload = record {
                      same = ap (slice webc (offset + 1 + hash_length version tag + 8)) (sym size);
                      within = omega (
                        arith,
                        require_available-fits webc (offset + 1 + hash_length version tag + 8) n u
                            fits,
                        size,
                      );
                    };
                    length = sym size;
                  }

-- The sections, with all their spans.
pub record AllPlaced (webc : Bytes) (s : Sections) : Type 0 where
  pub manifest : (m : Section) → s.manifest ≡ some m → IsPlaced webc m
  pub atoms : (a : Atoms) → s.atoms ≡ some a → FilesAt webc a.files
  pub volumes : (name : Text) (v : Volume) → get name s.volumes ≡ some v → VolumeAt webc v

module _ (decode : Bytes → Text) (version : Version) (webc : Bytes) where
  atoms-FilesAt :
      (s : Section)
      → IsPart webc s.payload s.payload_offset
      → OnOk (λ (a : Atoms). FilesAt webc a.files) (parse_atoms_section decode version s)
  unfolding parse_atoms_section
  atoms-FilesAt s part =
      OnOk-bind (VolumeAt webc) (λ (a : Atoms). FilesAt webc a.files)
        (parse_volume_payload decode version s [] []) _
        (parse_volume_payload-VolumeAt decode version webc s [] [] part) λ v _ h. h

  volume-AllPlaced :
      (v : Volume) (found : Sections)
      → VolumeAt webc v
      → AllPlaced webc found
      → AllPlaced webc (record found { volumes = set v.name v found.volumes })
  volume-AllPlaced v found h k = record {
    manifest = k.manifest;
    atoms = k.atoms;
    volumes = λ name x e. elim (Bool-cases (text_eq v.name name)) [
      | inl t ↦
          let same : v ≡ x = ground (arith, get-set v.name name v found.volumes) in
          subst (VolumeAt webc) same h
      | inr t ↦ k.volumes name x (ground (arith, get-set v.name name v found.volumes))
    ];
  }

  add_section-AllPlaced :
      (s : Section) (found : Sections)
      → IsPlaced webc s
      → AllPlaced webc found
      → OnOk (AllPlaced webc) (add_section decode version s found)
  unfolding add_section
  add_section-AllPlaced s found p k = chosen (s.tag == 1) (s.tag == 3) (s.tag == 4)
    where
      chosen :
          (m a v : Bool)
          → OnOk (AllPlaced webc) (
              if m
              then ok (record found { manifest = some s })
              else if a
              then bind
                  (parse_atoms_section decode version s)
                  (λ a. ok (record found { atoms = some a }))
              else if v
              then bind
                  (parse_volume_section decode version s)
                  (λ v. ok (record found { volumes = set v.name v found.volumes }))
              else ok found)
      chosen true a v = record {
        manifest = λ m e. let same : s ≡ m = cc in subst (IsPlaced webc) same p;
        atoms = k.atoms;
        volumes = k.volumes;
      }
      chosen false true v =
          OnOk-bind (λ (a : Atoms). FilesAt webc a.files) (AllPlaced webc)
            (parse_atoms_section decode version s) _ (atoms-FilesAt s p.payload)
            λ x _ h. record {
              manifest = k.manifest;
              atoms = λ a e.
                  let same : x ≡ a = cc in subst (λ (y : Atoms). FilesAt webc y.files) same h;
              volumes = k.volumes;
            }
      chosen false false true =
          OnOk-bind (VolumeAt webc) (AllPlaced webc) (parse_volume_section decode version s) _
            (parse_volume_section-VolumeAt decode version webc s p.payload)
            λ x _ h. volume-AllPlaced x found h k
      chosen false false false = k

  read_sections_from-AllPlaced :
      (fuel offset : ℕ) (found : Sections)
      → AllPlaced webc found
      → OnOk (AllPlaced webc) (read_sections_from decode version webc fuel offset found)
  unfolding read_sections_from
  read_sections_from-AllPlaced zero offset found k = tt
  read_sections_from-AllPlaced (suc fuel) offset found k =
      elim (Bool-cases (ltb offset (length webc))) [
        | inr e ↦ rw (read_sections_from, e) k
        | inl e ↦
            rw (read_sections_from, e)
              (OnOk-bind (IsPlaced webc) (AllPlaced webc) (read_section version webc offset) _
                (read_section-IsPlaced decode version webc offset)
                λ s _ p.
                  OnOk-bind (AllPlaced webc) (AllPlaced webc) (add_section decode version s found) _
                    (add_section-AllPlaced s found p k)
                    λ more _ m. read_sections_from-AllPlaced fuel _ more m)
      ]

-- In the sections that are read from a package, the manifest and each file of an atom or of a
-- volume has the bytes of the package at the offset and with the length that its span tells, and
-- the span is inside the package.
pub read_webc_sections-AllPlaced :
    (decode : Bytes → Text) (version : Version) (webc : Bytes) (s : Sections)
    → read_webc_sections decode version webc ≡ ok s
    → AllPlaced webc s
unfolding read_webc_sections get
read_webc_sections-AllPlaced decode version webc s h =
    OnOk_elim (AllPlaced webc) (read_webc_sections decode version webc) s
      (read_sections_from-AllPlaced decode version webc _ 8 _ (record {
        manifest = λ m e. subst (λ o. elim o [ none ↦ Unit {0} | some g ↦ IsPlaced webc g ]) e tt;
        atoms = λ a e.
            subst (λ (o : Option Atoms). elim o [ none ↦ Unit {0} | some g ↦ FilesAt webc g.files ])
              e tt;
        volumes = λ n v e.
            subst (λ (o : Option Volume). elim o [ none ↦ Unit {0} | some g ↦ VolumeAt webc g ]) e
              tt;
      }))
      h
