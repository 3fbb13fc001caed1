-- ===== src/Webc/Ends/Packages.antt =====
-- The reading of the sections of a package ends (apps/web/src/webc-metadata.js).
use wasm_host.Prelude.{
  ℕ, zero, suc, ◌+◌, ◌-◌, ◌<◌, ◌≡◌, ◌≢◌, subst, inl, inr, Text, Bool, true, false, none, some, [],
  codes, length, ltb, ◌==◌, arith, if◌then◌else◌, Bool-cases,
}
use wasm_host.Prelude.Exec.{ok, err, bind}
use wasm_host.Prelude.Dict.{set}
use wasm_host.Webc.Reader.{
  out_of_fuel, Bytes, Version, require_available, read_byte, read_uint64_le,
}
use wasm_host.Webc.Volumes.{
  Section, parse_volume_header, parse_volume_payload, parse_volume_section,
}
use wasm_host.Webc.Sections.{
  Sections, hash_length, read_section, parse_atoms_section, add_section, read_sections_from,
  read_webc_sections,
}
use wasm_host.Webc.Ends.{Finishes, Finishes-bind, Any, available, uint64, byte, header-Finishes}

module _ (decode : Bytes → Text) (version : Version) where
  payload-Finishes :
      (s : Section) (name prefix : Text)
      → Finishes Any (parse_volume_payload decode version s name prefix)
  unfolding parse_volume_payload
  payload-Finishes s name prefix =
      Finishes-bind Any Any (read_uint64_le s.payload 0) _ (uint64 s.payload 0) λ header_length _.
        Finishes-bind _ Any (require_available s.payload 8 header_length) _
          (available s.payload 8 header_length)
          λ _ _.
            Finishes-bind Any Any (read_uint64_le s.payload _) _ (uint64 s.payload _)
              λ data_length _.
                Finishes-bind _ Any (require_available s.payload _ data_length) _
                  (available s.payload _ data_length)
                  λ _ _.
                    Finishes-bind Any Any (parse_volume_header _ prefix) _
                      (header-Finishes _ prefix) λ _ _. tt

  volume-Finishes : (s : Section) → Finishes Any (parse_volume_section decode version s)
  unfolding parse_volume_section
  volume-Finishes s =
      Finishes-bind Any Any (read_uint64_le s.payload 0) _ (uint64 s.payload 0) λ n _.
        Finishes-bind _ Any (require_available s.payload 8 n) _ (available s.payload 8 n)
          λ _ _. payload-Finishes _ _ (codes "/")

  atoms-Finishes : (s : Section) → Finishes Any (parse_atoms_section decode version s)
  unfolding parse_atoms_section
  atoms-Finishes s =
      Finishes-bind Any Any (parse_volume_payload decode version s [] []) _
        (payload-Finishes s [] []) λ _ _. tt

  section-moves :
      (bytes : Bytes) (offset : ℕ)
      → Finishes (λ s. offset < s.payload_offset) (read_section version bytes offset)
  unfolding read_section
  section-moves bytes offset =
      Finishes-bind _ _ (read_byte bytes offset) _ (byte bytes offset) λ tag _.
        Finishes-bind _ _ (require_available bytes (offset + 1) (hash_length version tag)) _
          (available bytes _ _)
          λ _ _. Finishes-bind Any _ (read_uint64_le bytes _) _ (uint64 bytes _) λ n _.
            Finishes-bind _ _ (require_available bytes _ n) _ (available bytes _ n)
              λ _ _. omega arith

  add-Finishes :
      (s : Section) (found : Sections) → Finishes Any (add_section decode version s found)
  unfolding add_section
  add-Finishes s found = chosen (s.tag == 1) (s.tag == 3) (s.tag == 4)
    where
      chosen :
          (m a v : Bool)
          → Finishes Any (
              if m
              then ok (record found { manifest = some s })
              else if a
              then bind
                  (parse_atoms_section decode version s)
                  (λ a. ok (record found { atoms = some a }))
              else if v
              then bind
                  (parse_volume_section decode version s)
                  (λ v. ok (record found { volumes = set v.name v found.volumes }))
              else ok found)
      chosen true a v = tt
      chosen false true v =
          Finishes-bind Any Any (parse_atoms_section decode version s) _ (atoms-Finishes s)
            λ _ _. tt
      chosen false false true =
          Finishes-bind Any Any (parse_volume_section decode version s) _ (volume-Finishes s)
            λ _ _. tt
      chosen false false false = tt

  sections-Finishes :
      (bytes : Bytes) (fuel offset : ℕ) (found : Sections)
      → (length bytes - offset) < fuel
      → Finishes Any (read_sections_from decode version bytes fuel offset found)
  unfolding read_sections_from
  sections-Finishes bytes zero offset found h = ground arith
  sections-Finishes bytes (suc fuel) offset found h =
      elim (Bool-cases (ltb offset (length bytes))) [
        | inr e ↦ rw (read_sections_from, e) tt
        | inl e ↦
            rw (read_sections_from, e)
              (Finishes-bind (λ s. offset < s.payload_offset) Any
                (read_section version bytes offset) _ (section-moves bytes offset)
                λ s m.
                  Finishes-bind Any Any (add_section decode version s found) _
                    (add-Finishes s found)
                    λ more _. sections-Finishes bytes fuel _ more (ground arith))
      ]

-- The reading of the sections of any bytes ends: its loops and its visits of header entries,
-- with references that form loops too, need no more turns than they are given.
pub read_webc_sections_ends :
    (decode : Bytes → Text) (version : Version) (bytes : Bytes)
    → read_webc_sections decode version bytes ≢ err out_of_fuel
unfolding read_webc_sections
read_webc_sections_ends decode version bytes h =
    let done =
      sections-Finishes decode version bytes (suc (length bytes)) 8
        (record { atoms = none; manifest = none; volumes = [] }) (omega arith) in
    let wrong : true ≡ false = subst (Finishes {A = Sections} Any) h done in cc
