-- ===== src/Wasi/Imports/Ends.antt =====
-- The loop over a module's sections ends (apps/web/src/wasi-module.js).
use wasm_host.Prelude.{
  ℕ, zero, suc, ◌+◌, ◌-◌, ◌≤◌, ◌<◌, ◌≡◌, refl, Bool, ◌∙◌, Option, none, some, true, false, Text,
  List, [], length, is_some, ltb, ◌==◌, arith, if◌then◌else◌, Bool-cases, inl, inr,
}
use wasm_host.Prelude.Exec.{Result, ok, err, bind, OnOk, OnOk-bind, OnOk-bind_any}
use wasm_host.Webc.Reader.{Bytes, byte_at}
use wasm_host.Wasi.Imports.{
  ImportError, invalid_package, Import, require_wasm_range, read_groups, read_wasm_var_uint32,
  read_wasm_section, continue_from, read_wasm_sections, validate_wasm_magic,
  imported_memory_imports, only_of, imported_memory_import,
}

continued :
    (bound : ℕ) (k : ℕ → List Import → Option (Result ImportError (List Import)))
    (r : Result ImportError (ℕ × List Import))
    → OnOk (λ r. bound ≤ r.0) r
    → ((o : ℕ) (is : List Import) → bound ≤ o → is_some (k o is) ≡ true)
    → is_some (continue_from k r) ≡ true
unfolding continue_from
continued bound k (ok r) h all = all r.0 r.1 h
continued bound k (err e) h all = refl

-- One turn of the loop over the bytes of a number
either :
    (b c : Bool) (x cursor : ℕ) (rest : Result ImportError (ℕ × ℕ))
    → OnOk (λ r. (cursor + 1) < r.1) rest
    → OnOk
        (λ r. cursor < r.1)
        (if b then (if c then ok (x, cursor + 1) else rest) else err invalid_package)
either true true x cursor rest h = omega arith
either true false x cursor (ok r) h = omega (arith, h)
either true false x cursor (err e) h = tt
either false c x cursor rest h = tt

-- The next section, whether this one has imports or not
next_section :
    (b : Bool) (offset next : ℕ) (found : Result ImportError (List Import)) (imports : List Import)
    → offset < next
    → OnOk {A = ℕ × List Import}
        (λ r. offset < r.0)
        (if b then bind found (λ is. ok (next, is)) else ok (next, imports))
next_section true offset next (ok is) imports h = h
next_section true offset next (err e) imports h = tt
next_section false offset next found imports h = h

module _ (bytes : Bytes) where
  groups-moves :
      (turns shift result cursor end : ℕ)
      → OnOk (λ r. cursor < r.1) (read_groups bytes turns shift result cursor end)
  unfolding read_groups
  groups-moves zero shift result cursor end = tt
  groups-moves (suc turns) shift result cursor end =
      either (ltb cursor end) _ _ cursor _ (groups-moves turns (shift + 7) _ (cursor + 1) end)

  section-moves :
      (decode : Bytes → Text) (offset : ℕ) (imports : List Import)
      → OnOk (λ r. offset < r.0) (read_wasm_section bytes decode offset imports)
  unfolding read_wasm_section read_wasm_var_uint32
  section-moves decode offset imports =
      OnOk-bind (λ r. (offset + 1) < r.1) _ (read_groups bytes 5 0 0 (offset + 1) (length bytes)) _
        (groups-moves 5 0 0 (offset + 1) (length bytes))
        λ n _ h. OnOk-bind_any _ (require_wasm_range bytes n.1 n.0 (length bytes)) _ λ _ _.
          next_section (byte_at bytes offset == 2) offset (n.1 + n.0) _ imports (omega (arith, h))

  sections_end :
      (decode : Bytes → Text) (fuel offset : ℕ) (imports : List Import)
      → length bytes - offset < fuel
      → is_some (read_wasm_sections bytes decode fuel offset imports) ≡ true
  unfolding read_wasm_sections
  sections_end decode zero offset imports h = absurd (omega (arith, h))
  sections_end decode (suc fuel) offset imports h = elim (Bool-cases (ltb offset (length bytes))) [
    | inl e ↦ rw (e) (
        continued (suc offset) _ _ (section-moves decode offset imports)
          λ o is m. sections_end decode fuel o is (ground arith))
    | inr e ↦ rw (e) refl
  ]

only_of-is_some : (r : Option (Result ImportError (List Import))) → is_some (only_of r) ≡ is_some r
unfolding only_of
only_of-is_some none = refl
only_of-is_some (some r) = refl

-- The search for the imported memory comes to a result, on any bytes.
pub imported_memory_import_ends :
    (decode : Bytes → Text) (bytes : Bytes) → is_some (imported_memory_import decode bytes) ≡ true
unfolding imported_memory_import imported_memory_imports
imported_memory_import_ends decode bytes =
    let start : OnOk {A = ℕ × List Import} (λ r. 0 ≤ r.0)
        (bind (validate_wasm_magic bytes) λ _. ok (8, [])) =
      OnOk-bind_any _ (validate_wasm_magic bytes) _ λ _ _. omega arith in
    only_of-is_some _
    ∙ continued 0 _ _ start
        λ o is _. sections_end bytes decode (suc (length bytes)) o is (omega arith)
