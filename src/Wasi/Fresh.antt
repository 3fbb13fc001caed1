-- ===== src/Wasi/Fresh.antt =====
-- The descriptor that `allocateDynamicFileFd` finds (apps/web/src/wasi-module.js).
use wasm_host.Prelude.{
  ℕ, zero, suc, ◌+◌, ◌%◌, ◌^◌, ◌≤◌, ◌<◌, ◌≡◌, refl, subst, true, false, Option, none, some, [], ◌∷◌,
  is_some, leb, ◌==◌, if◌then◌else◌, Bool-cases, inl, inr, arith,
}
use wasm_host.Prelude.Table.{Table, get}
use wasm_host.Wasi.Descriptors.{OpenFile, Runtime, file_at, is_package_root}
use wasm_host.Wasi.Rights.{fd_stat, preopened_stat, stdio_rights}
use wasm_host.Wasi.Tables.{open_above, free_fd, dynamic_file_fd}

open_above_next :
    (fd : ℕ) (t : Table OpenFile)
    → open_above (fd + 1) t + (if is_some (get fd t) then 1 else 0) ≤ open_above fd t
unfolding open_above get
open_above_next fd [] = omega arith
open_above_next fd ((k, f) ∷ t) = ground (arith, open_above_next fd t)

-- Who stands above the package's root is open.
preopened_above : (fd : ℕ) (r : Runtime) → 6 ≤ fd → preopened_stat fd r ≡ none
unfolding preopened_stat stdio_rights is_package_root
preopened_above fd r h = ground arith

-- How many descriptors from here on can be in use.
abbrev in_use : ℕ → Runtime → ℕ
in_use fd r = open_above fd r.tables.open_files + (if fd == 5 then 1 else 0)

in_use_next :
    (fd : ℕ) (r : Runtime)
    → 5 ≤ fd
    → is_some (fd_stat fd r) ≡ true
    → in_use (fd + 1) r < in_use fd r
unfolding fd_stat file_at
in_use_next fd r h taken =
    ground (arith, open_above_next fd r.tables.open_files, preopened_above fd r)

pub free_fd_lem :
    (fuel fd : ℕ) (r : Runtime)
    → 5 ≤ fd
    → in_use fd r < fuel
    → (fd ≤ free_fd fuel fd r)
      × ((fd_stat (free_fd fuel fd r) r ≡ none)
          × ((k : ℕ) → fd ≤ k → k < free_fd fuel fd r → is_some (fd_stat k r) ≡ true))
unfolding free_fd
free_fd_lem zero fd r low enough = absurd (omega (arith, enough))
free_fd_lem (suc fuel) fd r low enough = elim (Bool-cases (is_some (fd_stat fd r))) [
  | inl e ↦
      let rest =
        free_fd_lem fuel (fd + 1) r (omega (arith, low))
          (omega (arith, in_use_next fd r low e, enough)) in
      rw e (
        omega (arith, rest.0),
        (
          rest.1.0,
          λ k from to. elim (Bool-cases (k == fd)) [
            | inl same ↦
                let here : fd ≡ k = ground arith in subst (λ i. is_some (fd_stat i r) ≡ true) here e
            | inr other ↦ rest.1.1 k (ground arith) to
          ],
        ),
      )
  | inr e ↦
      rw e (omega arith, (no_value (fd_stat fd r) e, λ k from to. absurd (omega (arith, from, to))))
]
  where
    no_value : {A : Type 0} (x : Option A) → is_some x ≡ false → x ≡ none
    no_value none e = refl
    no_value (some a) e = ground (arith, e)

-- The descriptor that the loop of allocateDynamicFileFd finds names nothing, is not below the one
-- asked for, taken as an unsigned number of 32 bits, nor below 5, and is the first of those: the
-- fuel always reaches it.
pub dynamic_file_fd_lem :
    (min_result_fd : ℕ) (r : Runtime)
    → (fd_stat (dynamic_file_fd min_result_fd r) r ≡ none)
      × ((5 ≤ dynamic_file_fd min_result_fd r)
          × ((min_result_fd % 2 ^ 32 ≤ dynamic_file_fd min_result_fd r)
              × ((k : ℕ)
                  → 5 ≤ k
                  → min_result_fd % 2 ^ 32 ≤ k
                  → k < dynamic_file_fd min_result_fd r
                  → is_some (fd_stat k r) ≡ true)))
unfolding dynamic_file_fd
dynamic_file_fd_lem min_result_fd r = from_first (min_result_fd % 2 ^ 32)
  where
    from_first :
        (asked : ℕ)
        → let first = if leb 5 asked then asked else 5 in
          let fd = free_fd (2 + open_above first r.tables.open_files) first r in
          (fd_stat fd r ≡ none)
          × ((5 ≤ fd)
              × ((asked ≤ fd)
                  × ((k : ℕ) → 5 ≤ k → asked ≤ k → k < fd → is_some (fd_stat k r) ≡ true)))
    from_first asked = elim (Bool-cases (leb 5 asked)) [
      | inl e ↦
          let low : 5 ≤ asked = ground arith in
          let found =
            free_fd_lem (2 + open_above asked r.tables.open_files) asked r low (ground arith) in
          rw e (
            found.1.0,
            (omega (arith, low, found.0), (found.0, λ k _ from to. found.1.1 k from to)),
          )
      | inr e ↦
          let found =
            free_fd_lem (2 + open_above 5 r.tables.open_files) 5 r (omega arith) (ground arith) in
          rw e (found.1.0, (found.0, (ground (arith, found.0), λ k from _ to. found.1.1 k from to)))
    ]
