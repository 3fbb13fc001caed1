-- ===== src/Wasi/Imports/Tests.antt =====
-- Modules with imported memories, read.
use wasm_host.Prelude.{ℕ, ◌≡◌, refl, true, some, [], ◌∷◌, ◌++◌, codes, is_some, arith}
use wasm_host.Prelude.Exec.{ok, err}
use wasm_host.Webc.Reader.{Bytes}
use wasm_host.Wasi.Imports
use wasm_host.Wasi.Imports.{
  Import, invalid_package, unsupported, wasm_magic, imported_memory_import, read_wasm_var_uint32,
}
use wasm_host.Wasi.Imports.Ends.{imported_memory_import_ends}
use wasm_host.Wasi.Imports.Numbers.{read_wasm_var_uint32_back}

program : Unit {0}
unfolding Imports.has_flag Imports.validate_wasm_magic Imports.require_wasm_range
    Imports.read_groups Imports.read_wasm_var_uint32 Imports.read_maximum Imports.read_wasm_limits
    Imports.read_wasm_memory_type Imports.skip_wasm_import_descriptor Imports.read_wasm_name
    Imports.parse_import Imports.parse_imports Imports.parse_wasm_import_section
    Imports.read_wasm_section Imports.continue_from Imports.read_wasm_sections
    Imports.imported_memory_imports Imports.only_import Imports.only_of
    Imports.imported_memory_import
program = tt

abbrev text : Bytes → Bytes
text bytes = bytes

-- A module whose import section has one function and one memory with these flags
abbrev importing : ℕ → Bytes
importing flags =
    wasm_magic
    ++ (1 ∷ 0 ∷ 0 ∷ 0 ∷ 2 ∷ 16 ∷ 2 ∷ 1 ∷ 97 ∷ 1 ∷ 98 ∷ 0 ∷ 7 ∷ 1 ∷ 97 ∷ 1 ∷ 109 ∷ 2 ∷ flags ∷ 17
        ∷ 200 ∷ 1 ∷ [])

memory_found :
    imported_memory_import text (importing 3)
    ≡ some (
        ok (
          some (record {
            module_name = codes "a";
            name = codes "m";
            initial = 17;
            maximum = some 200;
            shared = true;
          })))
unfolding program
memory_found = refl

memory64_refused : imported_memory_import text (importing 5) ≡ some (err unsupported)
unfolding program
memory64_refused = refl

section_cut :
    imported_memory_import text (wasm_magic ++ (1 ∷ 0 ∷ 0 ∷ 0 ∷ 2 ∷ 15 ∷ []))
    ≡ some (err invalid_package)
unfolding program
section_cut = refl

imported_memory_import_ends_example : is_some (imported_memory_import text (importing 3)) ≡ true
imported_memory_import_ends_example = imported_memory_import_ends text (importing 3)

read_wasm_var_uint32_back_example : read_wasm_var_uint32 (7 ∷ 172 ∷ 2 ∷ 9 ∷ []) 1 4 ≡ ok (300, 3)
read_wasm_var_uint32_back_example =
    read_wasm_var_uint32_back (7 ∷ 172 ∷ 2 ∷ 9 ∷ []) 300 1 4 (9 ∷ []) (omega arith) refl
      (omega arith)
