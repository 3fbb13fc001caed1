-- ===== src/Wasi/Capability.antt =====
-- `allowsRights` as an order on sets of rights, and what `fdFdstatSetRights` can do with it
-- (apps/web/src/wasi-module.js).
use wasm_host.Prelude.{ℕ, zero, suc, subst, ◌/◌, ◌≡◌, Bool, true, false, Option, none, some, arith}
use wasm_host.Prelude.Int.{ℤ}
use wasm_host.Prelude.Table.{get, set, get-set}
use wasm_host.Wasi.Descriptors.{Kind, OpenFile, Runtime, Tables}
use wasm_host.Wasi.Rights.{has_right, allows_bits}
use wasm_host.Wasi.Tables
use wasm_host.Wasi.Within.{Preorder}
use wasm_host.Wasi.Steps.Calls.{inheriting_of, fd_fdstat_set_rights-Within}

no_rights : (k : ℕ) → has_right k 0 ≡ false
unfolding has_right
no_rights zero = ground arith
no_rights (suc k) = no_rights k

pub has_right_of_allows_bits :
    (w requested allowed k : ℕ)
    → allows_bits w requested allowed ≡ true
    → has_right k requested ≡ true
    → has_right k allowed ≡ true
unfolding allows_bits has_right
has_right_of_allows_bits zero requested allowed k a h =
    let nothing : requested ≡ 0 = ground arith in
    let off = subst (λ n. has_right k n ≡ true) nothing h in ground (arith, no_rights k, off)
has_right_of_allows_bits (suc w) requested allowed zero a h = ground arith
has_right_of_allows_bits (suc w) requested allowed (suc k) a h =
    has_right_of_allows_bits w (requested / 2) (allowed / 2) k (ground arith) h

-- The descriptor is open and has the right.
unfoldable pub can : ℕ → Option OpenFile → Bool
can k none = false
can k (some f) = has_right k f.rights

-- The descriptor is open and may pass the right on to files below it.
unfoldable pub can_pass : ℕ → Option OpenFile → Bool
can_pass k none = false
can_pass k (some f) = has_right k (inheriting_of f.kind)

abbrev Shrinks : ℕ → ℕ → Tables → Tables → Type 0
Shrinks fd k t u =
    (can k (get fd u.open_files) ≡ true → can k (get fd t.open_files) ≡ true)
    × (can_pass k (get fd u.open_files) ≡ true → can_pass k (get fd t.open_files) ≡ true)

Shrinks-preorder : (fd k : ℕ) → Preorder (Shrinks fd k)
Shrinks-preorder fd k = record {
  stay = λ t. (λ h. h, λ h. h);
  chain = λ t u v h h'. (λ e. h.0 (h'.0 e), λ e. h.1 (h'.1 e));
}

-- Only a directory passes rights on.
passed-with_rights :
    (base inheriting k : ℕ) (f : OpenFile)
    → can_pass k (some (Tables.with_rights base inheriting f)) ≡ true
    → has_right k inheriting ≡ true
unfolding can_pass Tables.with_rights
passed-with_rights base inheriting k f = by_kind f.kind f.rights
  where
    by_kind :
        (kind : Kind) (rights : ℕ)
        → can_pass k
            (some (Tables.with_rights base inheriting (record { kind = kind; rights = rights })))
          ≡ true
        → has_right k inheriting ≡ true
    by_kind (Kind.stdio n) rights h = ground (arith, no_rights k, h)
    by_kind (Kind.pipe d p) rights h = ground (arith, no_rights k, h)
    by_kind (Kind.directory d) rights h = h
    by_kind (Kind.regular g) rights h = ground (arith, no_rights k, h)

set_rights-Shrinks :
    (fd base inheriting k : ℕ) (f : OpenFile) (t : Tables)
    → get fd t.open_files ≡ some f
    → allows_bits 64 base f.rights ≡ true
    → allows_bits 64 inheriting (inheriting_of f.kind) ≡ true
    → Shrinks fd k t (Tables.put_open_file fd (Tables.with_rights base inheriting f) t)
unfolding can can_pass Tables.put_open_file Tables.with_rights
set_rights-Shrinks fd base inheriting k f t e may may_pass =
    let here : get fd (set fd (Tables.with_rights base inheriting f) t.open_files)
        ≡ some (Tables.with_rights base inheriting f) =
      ground (arith, get-set fd fd (Tables.with_rights base inheriting f) t.open_files) in
    rw (here, e)
      (
        λ h. has_right_of_allows_bits 64 base f.rights k may h,
        λ h.
            has_right_of_allows_bits 64 inheriting (inheriting_of f.kind) k may_pass
              (passed-with_rights base inheriting k f h),
      )

-- What fdFdstatSetRights leaves an open descriptor with, whatever the call answers, are rights that
-- the descriptor had before; and the rights that a directory passes on to what is opened below it
-- are rights that it passed on before.
pub rights_only_shrink :
    (fd : ℕ) (base inheriting : ℤ) (k : ℕ) (r : Runtime)
    → let u = (Tables.fd_fdstat_set_rights fd base inheriting r).1.tables in
      (can k (get fd u.open_files) ≡ true → can k (get fd r.tables.open_files) ≡ true)
      × (can_pass k (get fd u.open_files) ≡ true → can_pass k (get fd r.tables.open_files) ≡ true)
rights_only_shrink fd base inheriting k r =
    (fd_fdstat_set_rights-Within {R = Shrinks fd k} ⦃o = Shrinks-preorder fd k⦄ fd base inheriting r
      λ f t e may may_pass. set_rights-Shrinks fd _ _ k f t e may may_pass).after
