-- ===== src/Wasi/Imports.antt =====
-- The memories that a module imports (apps/web/src/wasi-module.js).

pub mod Ends
pub mod Numbers
pub mod Tests
use wasm_host.Prelude.{
  ℕ, zero, suc, ◌+◌, ◌*◌, ◌/◌, ◌%◌, ◌^◌, ◌||◌, not, Bool, Option, none, some, Text, List, [], ◌∷◌,
  ◌++◌, length, take, codes, text_eq, ltb, ◌==◌, if◌then◌else◌,
}
use wasm_host.Prelude.Exec.{Result, ok, err, bind}
use wasm_host.Webc.Reader.{Bytes, slice, byte_at}

-- The errors of this part, by their kind
pub data ImportError : Type 0 where
  invalid_package unsupported : ImportError

pub record Import : Type 0 where
  pub module_name : Text
  pub name : Text
  pub initial : ℕ
  pub maximum : Option ℕ
  pub shared : Bool

pub record Limits : Type 0 where
  pub flags : ℕ
  pub initial : ℕ
  pub maximum : Option ℕ
  pub offset : ℕ
  pub shared : Bool

abbrev wasm_magic : Bytes
wasm_magic = 0 ∷ codes "asm"

-- `bits & (1 << k)` is not 0.
unfoldable pub has_flag : ℕ → ℕ → Bool
has_flag k bits = (bits / 2 ^ k) % 2 == 1

unfoldable pub validate_wasm_magic : Bytes → Result ImportError Unit
validate_wasm_magic bytes =
    if text_eq (take (length wasm_magic) bytes) wasm_magic then ok tt else err invalid_package

unfoldable pub continue_from :
    (ℕ → List Import → Option (Result ImportError (List Import)))
    → Result ImportError (ℕ × List Import)
    → Option (Result ImportError (List Import))
continue_from k (ok (offset, imports)) = k offset imports
continue_from k (err e) = some (err e)

module _ (data_bytes : Bytes) where
  unfoldable pub require_wasm_range : ℕ → ℕ → ℕ → Result ImportError Unit
  require_wasm_range offset n end =
      if ltb end (offset + n) || ltb (length data_bytes) end then err invalid_package else ok tt

  -- The turns that are left before `shift` is 35. The bits of `result` are below those of the next
  -- byte, so that or is a sum; a shift on 32 bits drops what is above them.
  unfoldable pub read_groups : ℕ → ℕ → ℕ → ℕ → ℕ → Result ImportError (ℕ × ℕ)
  read_groups zero shift result cursor end = err invalid_package
  read_groups (suc turns) shift result cursor end =
      let byte = byte_at data_bytes cursor in
      let next = result + ((byte % 128) * 2 ^ shift) % 2 ^ 32 in
      let rest = read_groups turns (shift + 7) next (cursor + 1) end in
      if ltb cursor end
      then (if (byte / 128) % 2 == 0 then ok (next, cursor + 1) else rest)
      else err invalid_package

  -- The value, and the offset after it
  unfoldable pub read_wasm_var_uint32 : ℕ → ℕ → Result ImportError (ℕ × ℕ)
  read_wasm_var_uint32 offset end = read_groups 5 0 0 offset end

  unfoldable pub read_maximum : ℕ → ℕ → ℕ → Result ImportError (Option ℕ × ℕ)
  read_maximum flags cursor end =
      if has_flag 0 flags
      then bind (read_wasm_var_uint32 cursor end) (λ m. ok (some m.0, m.1))
      else ok (none, cursor)

  unfoldable pub read_wasm_limits : ℕ → ℕ → Result ImportError Limits
  read_wasm_limits offset end = bind (read_wasm_var_uint32 offset end) λ flags.
      bind (read_wasm_var_uint32 flags.1 end) λ initial.
        bind (read_maximum flags.0 initial.1 end) λ m. ok (record {
          flags = flags.0;
          initial = initial.0;
          maximum = m.0;
          offset = m.1;
          shared = has_flag 1 flags.0;
        })

  unfoldable pub read_wasm_memory_type : ℕ → ℕ → Result ImportError Limits
  read_wasm_memory_type offset end =
      bind (read_wasm_limits offset end) λ l. if has_flag 2 l.flags then err unsupported else ok l

  -- The offset after the descriptor
  unfoldable pub skip_wasm_import_descriptor : ℕ → ℕ → ℕ → Result ImportError ℕ
  skip_wasm_import_descriptor offset end kind =
      if kind == 0
      then bind (read_wasm_var_uint32 offset end) (λ type_index. ok type_index.1)
      else if kind == 4
      then bind (read_wasm_var_uint32 offset end)
          (λ attribute. bind (read_wasm_var_uint32 attribute.1 end) (λ type_index. ok type_index.1))
      else if kind == 1
      then bind (require_wasm_range offset 1 end)
          (λ _. bind (read_wasm_limits (offset + 1) end) (λ l. ok l.offset))
      else if kind == 3
      then bind (require_wasm_range offset 2 end) (λ _. ok (offset + 2))
      else err invalid_package

  module _ (decode : Bytes → Text) where
    unfoldable pub read_wasm_name : ℕ → ℕ → Result ImportError (Text × ℕ)
    read_wasm_name offset end = bind (read_wasm_var_uint32 offset end) λ n.
        bind (require_wasm_range n.1 n.0 end) λ _. ok (decode (slice data_bytes n.1 n.0), n.1 + n.0)

    -- One turn of the loop over a section's imports
    unfoldable pub parse_import : ℕ → ℕ → List Import → Result ImportError (ℕ × List Import)
    parse_import cursor end imports = bind (read_wasm_name cursor end) λ module_name.
        bind (read_wasm_name module_name.1 end) λ import_name.
          bind (require_wasm_range import_name.1 1 end) λ _.
            if byte_at data_bytes import_name.1 == 2
            then bind (read_wasm_memory_type (import_name.1 + 1) end) (λ memory. ok (
              memory.offset,
              imports
                  ++ (record {
                    module_name = module_name.0;
                    name = import_name.0;
                    initial = memory.initial;
                    maximum = memory.maximum;
                    shared = memory.shared;
                  }
                      ∷ []),
            ))
            else bind
                (skip_wasm_import_descriptor (import_name.1 + 1) end
                  (byte_at data_bytes import_name.1))
                (λ next. ok (next, imports))

    unfoldable pub parse_imports : ℕ → ℕ → ℕ → List Import → Result ImportError (List Import)
    parse_imports zero cursor end imports = ok imports
    parse_imports (suc n) cursor end imports =
        bind (parse_import cursor end imports) λ next. parse_imports n next.0 end next.1

    unfoldable pub parse_wasm_import_section :
        ℕ → ℕ → List Import → Result ImportError (List Import)
    parse_wasm_import_section offset end imports =
        bind (read_wasm_var_uint32 offset (length data_bytes))
          λ count. parse_imports count.0 count.1 end imports

    -- One turn of the loop over the sections: where the next one starts, and the imports so far
    unfoldable pub read_wasm_section : ℕ → List Import → Result ImportError (ℕ × List Import)
    read_wasm_section offset imports =
        bind (read_wasm_var_uint32 (offset + 1) (length data_bytes)) λ n.
          bind (require_wasm_range n.1 n.0 (length data_bytes)) λ _.
            if byte_at data_bytes offset == 2
            then bind (parse_wasm_import_section n.1 (n.1 + n.0) imports)
                (λ found. ok (n.1 + n.0, found))
            else ok (n.1 + n.0, imports)

    -- `none` stands for a loop that goes on when the fuel is spent.
    unfoldable pub read_wasm_sections :
        ℕ → ℕ → List Import → Option (Result ImportError (List Import))
    read_wasm_sections zero offset imports = none
    read_wasm_sections (suc fuel) offset imports =
        if ltb offset (length data_bytes)
        then continue_from (read_wasm_sections fuel) (read_wasm_section offset imports)
        else some (ok imports)

    unfoldable pub imported_memory_imports : Option (Result ImportError (List Import))
    imported_memory_imports =
        continue_from (read_wasm_sections (suc (length data_bytes)))
          (bind (validate_wasm_magic data_bytes) λ _. ok (8, []))

-- The only import among them
unfoldable pub only_import : List Import → Result ImportError (Option Import)
only_import [] = ok none
only_import (i ∷ []) = ok (some i)
only_import (i ∷ j ∷ is) = err invalid_package

unfoldable pub only_of :
    Option (Result ImportError (List Import)) → Option (Result ImportError (Option Import))
only_of none = none
only_of (some r) = some (bind r only_import)

unfoldable pub imported_memory_import :
    (Bytes → Text) → Bytes → Option (Result ImportError (Option Import))
imported_memory_import decode bytes = only_of (imported_memory_imports bytes decode)
