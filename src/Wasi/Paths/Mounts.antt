-- ===== src/Wasi/Paths/Mounts.antt =====
-- A path that a module gives leads nowhere but below its mount (apps/web/src/wasi-module.js).
use wasm_host.Prelude.{
  ◌≡◌, ◌⊎◌, refl, inl, inr, Text, Bool, true, false, Option, none, some, [], codes, starts_with,
  Bool-cases,
}
use wasm_host.Prelude.Exec.{Result, ok, err, OnOk, OnOk_elim, OnOk-weaken}
use wasm_host.Wasi.Descriptors.{Errno}
use wasm_host.Wasi.Paths
use wasm_host.Wasi.Paths.Segments.{IsRelative, Holds, normalized}

-- A place that a base and a path without `.`, `..` and empty parts name together.
pub record IsUnder (base q : Text) : Type 0 where
  pub path : Text
  pub relative : IsRelative path
  pub placed : q ≡ Paths.below base path

scratch-IsUnder : (base path : Text) → OnOk (IsUnder base) (Paths.resolve_scratch_path base path)
unfolding Paths.resolve_scratch_path
scratch-IsUnder base path = found (Paths.normalize_wasi_path path) (normalized path)
  where
    found :
        (o : Option Text)
        → Holds IsRelative o
        → OnOk (IsUnder base) (elim o as (λ x. Result Errno Text) [
          | none ↦ err Errno.notcapable
          | some p ↦ ok (Paths.below base p)
        ])
    found none h = tt
    found (some p) h = record { path = p; relative = h; placed = refl }

-- Below the base, or, if absolute paths are allowed, below the mount itself.
abbrev pub IsMounted : Text → Bool → Text → Type 0
IsMounted base allowed q = IsUnder base q ⊎ ((allowed ≡ true) × IsUnder [] q)

OnOk-IsMounted :
    (base path mount : Text) (allowed : Bool)
    → OnOk (IsMounted base allowed) (Paths.resolve_mounted_path base path mount allowed)
unfolding Paths.resolve_mounted_path Paths.resolve_from
OnOk-IsMounted base path mount false = elim (Bool-cases (starts_with (codes "/") path)) [
  | inl e ↦ rw e tt
  | inr e ↦ rw e (
      OnOk-weaken (IsUnder base) (IsMounted base false) _ (λ q h. inl h)
        (scratch-IsUnder base path))
]
OnOk-IsMounted base path mount true = inside (Paths.mounted_relative_path path mount)
  where
    inside : (o : Option Text) → OnOk (IsMounted base true) (Paths.resolve_from base path o)
    inside (some p) =
        OnOk-weaken (IsUnder []) (IsMounted base true) _ (λ q h. inr (refl, h))
          (scratch-IsUnder [] (Paths.or_here p))
    inside none = elim (Bool-cases (starts_with (codes "/") path)) [
      | inl e ↦ rw e tt
      | inr e ↦ rw e (
          OnOk-weaken (IsUnder base) (IsMounted base true) _ (λ q h. inl h)
            (scratch-IsUnder base path))
    ]

-- A path that resolves, whatever it holds, resolves to the base or to a place below it that joins
-- parts of which none is empty, `.` or `..` or holds a slash or a NUL; only if absolute paths are
-- allowed may it stand below the mount instead of the base.
pub resolve_mounted_path-IsMounted :
    (base path mount : Text) (allowed : Bool) (q : Text)
    → Paths.resolve_mounted_path base path mount allowed ≡ ok q
    → IsMounted base allowed q
resolve_mounted_path-IsMounted base path mount allowed q e =
    OnOk_elim (IsMounted base allowed) (Paths.resolve_mounted_path base path mount allowed) q
      (OnOk-IsMounted base path mount allowed) e
