-- ===== src/Wasi/Steps/Calls.antt =====
-- Each call changes the tables of the descriptors by steps (apps/web/src/wasi-module.js).
use wasm_host.Prelude.{
  ℕ, ◌≡◌, refl, sym, ap, ◌∙◌, true, ◌&&◌, ◌||◌, not, none, some, is_some, ltb, ◌==◌, ◌%◌, ◌^◌,
  arith,
}
use wasm_host.Prelude.Int.{ℤ, pos, negsuc}
use wasm_host.Prelude.Exec.{modify, ◌>>◌}
use wasm_host.Prelude.Table.{get}
use wasm_host.Wasi.Descriptors.{
  Kind, OpenFile, Runtime, Tables, Action, file_at, is_stdio_fd, is_dynamic_file_fd_number,
}
use wasm_host.Wasi.Rights.{scratch_file_rights, fd_stat, open_file_stat, allows_bits, allows_rights}
use wasm_host.Wasi.Tables
use wasm_host.Wasi.Within.{
  same_preorder, Preorder, Within, Within-pure, Within-gets, Within-then, Within-if, Within-option,
  Within-modify, Within-bind,
}
use wasm_host.Wasi.Contents.{Contents, contents_preorder}
use wasm_host.Wasi.Contents.Memory.{throw_if_aborted-Same, write_u32-Same}
use wasm_host.Wasi.Steps.{Step, uses, closes, moves, restricts, Steps, steps_preorder, one_step}

-- A block that starts with one write to the tables.
change_then :
    {A : Type 0} (g : Tables → Tables) (m : Action A) (r : Runtime)
    → Step r.tables (g r.tables)
    → ((u : Runtime) → Within Steps m u)
    → Within Steps (modify (λ (u : Runtime). record u { tables = g u.tables }) >> m) r
change_then g m r s h =
    Within-bind _ _ r (Within-modify _ r (one_step r.tables (g r.tables) s)) λ _ u _. h u

pub fd_close-Steps : (fd : ℕ) (r : Runtime) → Within Steps (Tables.fd_close fd) r
unfolding Tables.fd_close file_at
fd_close-Steps fd r = Within-then _ _ r (throw_if_aborted-Same r) λ _ u _. Within-gets _ _ u (
    Within-option (get fd u.tables.open_files) _ _ u (λ _. Within-pure _ u)
      λ f e. change_then _ _ u (closes fd f u.tables e) λ v. Within-pure _ v)

pub fd_renumber-Steps : (fd to : ℕ) (r : Runtime) → Within Steps (Tables.fd_renumber fd to) r
unfolding Tables.fd_renumber file_at
fd_renumber-Steps fd to r = Within-then _ _ r (throw_if_aborted-Same r) λ _ u _. Within-gets _ _ u (
    Within-option (get fd u.tables.open_files) _ _ u (λ _. Within-pure _ u)
      λ f e.
        Within-if (not (is_dynamic_file_fd_number to) && not (is_stdio_fd to)) _ _ u
          (λ _. Within-pure _ u)
          λ _.
            Within-if (not (Tables.may_replace to f.kind)) _ _ u (λ _. Within-pure _ u)
              λ _.
                Within-if (fd == to) _ _ u (λ _. Within-pure _ u)
                  λ other. change_then _ _ u (moves fd to f u.tables e other) λ v. Within-pure _ v)

flags-Contents : (fd flags : ℕ) (t : Tables) → Contents t (Tables.put_flags fd flags t)
unfolding Tables.put_flags
flags-Contents fd flags t = record {
  open_files = refl;
  next_file_fd = refl;
  next_pipe = refl;
  pipes = (contents_preorder.stay t).pipes;
  read_only = λ n o. refl;
}

pub fd_fdflags_set-Steps :
    (fd flags : ℕ) (r : Runtime) → Within Steps (Tables.fd_fdflags_set fd flags) r
unfolding Tables.fd_fdflags_set
fd_fdflags_set-Steps fd flags r = Within-then _ _ r (throw_if_aborted-Same r) λ _ u _.
    Within-gets _ _ u (
      Within-if (ltb 1 (flags % 2 ^ 32)) _ _ u (λ _. Within-pure _ u)
        λ _.
          Within-if (not (is_some (fd_stat fd u))) _ _ u (λ _. Within-pure _ u)
            λ _.
              change_then _ _ u (uses u.tables _ (flags-Contents fd (flags % 2 ^ 32) u.tables))
                λ v. Within-pure _ v)

pub fd_fdflags_get-Steps :
    (fd ptr : ℕ) (r : Runtime) → Within Steps (Tables.fd_fdflags_get fd ptr) r
unfolding Tables.fd_fdflags_get
fd_fdflags_get-Steps fd ptr r = Within-then _ _ r (throw_if_aborted-Same r) λ _ u _.
    Within-gets _ _ u (
      Within-if (not (is_some (fd_stat fd u))) _ _ u (λ _. Within-pure _ u)
        λ _. Within-then _ _ u (write_u32-Same ptr _ u) λ _ v _. Within-pure _ v)

-- What a descriptor is given instead of its rights was among them.
allowed :
    (base : ℤ) (rights : ℕ)
    → allows_rights base rights ≡ true
    → allows_bits 64 (Tables.number_of base) rights ≡ true
unfolding allows_rights
allowed (pos n) rights e = e
allowed (negsuc n) rights e = ground (arith, e)

stat_rights : (f : OpenFile) (t : Tables) → (open_file_stat f t).rights ≡ f.rights
unfolding open_file_stat
stat_rights f t = by_kind f.kind f.rights t
  where
    by_kind :
        (k : Kind) (rights : ℕ) (t : Tables)
        → (open_file_stat (record { kind = k; rights = rights }) t).rights ≡ rights
    by_kind (Kind.stdio n) rights t = refl
    by_kind (Kind.pipe d p) rights t = refl
    by_kind (Kind.directory d) rights t = refl
    by_kind (Kind.regular g) rights t = refl

-- What a descriptor may give to the files that are opened below it
abbrev pub inheriting_of : Kind → ℕ
inheriting_of (Kind.directory d) = elim d.inheriting [ none ↦ scratch_file_rights | some i ↦ i ]
inheriting_of _ = 0

stat_inheriting :
    (f : OpenFile) (t : Tables) → (open_file_stat f t).inheriting ≡ inheriting_of f.kind
unfolding open_file_stat
stat_inheriting f t = by_kind f.kind f.rights t
  where
    by_kind :
        (k : Kind) (rights : ℕ) (t : Tables)
        → (open_file_stat (record { kind = k; rights = rights }) t).inheriting ≡ inheriting_of k
    by_kind (Kind.stdio n) rights t = refl
    by_kind (Kind.pipe d p) rights t = refl
    by_kind (Kind.directory d) rights t = refl
    by_kind (Kind.regular g) rights t = refl

-- All that fdFdstatSetRights can do is to put fewer rights on an open descriptor.
pub fd_fdstat_set_rights-Within :
    {R : Tables → Tables → Type 0} ⦃o : Preorder R⦄ (fd : ℕ) (base inheriting : ℤ) (r : Runtime)
    → ((f : OpenFile) (t : Tables)
        → get fd t.open_files ≡ some f
        → allows_bits 64 (Tables.number_of base) f.rights ≡ true
        → allows_bits 64 (Tables.number_of inheriting) (inheriting_of f.kind) ≡ true
        → R t (
            Tables.put_open_file fd
              (Tables.with_rights (Tables.number_of base) (Tables.number_of inheriting) f)
              t))
    → Within R (Tables.fd_fdstat_set_rights fd base inheriting) r
unfolding Tables.fd_fdstat_set_rights file_at fd_stat
fd_fdstat_set_rights-Within fd base inheriting r put =
    Within-then _ _ r (throw_if_aborted-Same r) λ _ u _. Within-gets _ _ u (
      Within-option (fd_stat fd u) _ _ u (λ _. Within-pure _ u)
        λ stat found.
          Within-if
            (not (allows_rights base stat.rights) || not (allows_rights inheriting stat.inheriting))
            _ _ u (λ _. Within-pure _ u)
            λ may.
              Within-option (get fd u.tables.open_files) _ _ u (λ _. Within-pure _ u)
                λ f e.
                  let is_stat : some (open_file_stat f u.tables) ≡ some stat =
                    rw (fd_stat, e) at found in
                  let rights : f.rights ≡ stat.rights =
                    sym (stat_rights f u.tables)
                    ∙ ap (λ o. elim o [ none ↦ 0 | some s ↦ s.rights ]) is_stat in
                  let inherited : inheriting_of f.kind ≡ stat.inheriting =
                    sym (stat_inheriting f u.tables)
                    ∙ ap (λ o. elim o [ none ↦ 0 | some s ↦ s.inheriting ]) is_stat in
                  Within-bind _ _ u
                    (Within-modify _ u (
                      put f u.tables e (allowed base f.rights (rw rights (ground (arith, may)))) (
                        allowed inheriting (inheriting_of f.kind)
                          (rw inherited (ground (arith, may))))))
                    λ _ v _. Within-pure _ v)

pub fd_fdstat_set_rights-Steps :
    (fd : ℕ) (base inheriting : ℤ) (r : Runtime)
    → Within Steps (Tables.fd_fdstat_set_rights fd base inheriting) r
fd_fdstat_set_rights-Steps fd base inheriting r =
    fd_fdstat_set_rights-Within fd base inheriting r
      λ f t e may _. one_step t _ (restricts fd _ _ f t e may)
