-- ===== src/Wasi/Paths/Virtual.antt =====
-- `resolveWasiVirtualPath` makes paths canonical (apps/web/src/wasi-module.js).
use wasm_host.Prelude.{
  ◌≡◌, refl, sym, ap, ◌∙◌, inl, inr, Text, ◌||◌, List, [], ◌∷◌, ◌++◌, All, codes, text_eq, is_empty,
  includes, starts_with, split, join, if◌then◌else◌, Bool-cases, arith,
}
use wasm_host.Prelude.Exec.{Result, ok, err, OnOk, OnOk-bind, OnOk_elim}
use wasm_host.Workspace.Path.{slash}
use wasm_host.Wasi.Descriptors.{Errno}
use wasm_host.Wasi.Paths
use wasm_host.Wasi.Paths.Segments.{IsSegment, IsPlain, split-IsPlain, split-join, join-no_nul}

-- A slash and segments that are joined.
pub record IsCanonical (path : Text) : Type 0 where
  pub segments : List Text
  pub joined : path ≡ Paths.absolute segments
  pub each : All IsSegment segments

All-append_one :
    (ss : List Text) (s : Text) → All IsSegment ss → IsSegment s → All IsSegment (ss ++ (s ∷ []))
All-append_one [] s h k = (k, tt)
All-append_one (r ∷ ss) s h k = (h.0, All-append_one ss s h.1 k)

All-all_but_last : (ss : List Text) → All IsSegment ss → All IsSegment (Paths.all_but_last ss)
All-all_but_last [] h = tt
All-all_but_last (s ∷ []) h = tt
All-all_but_last (s ∷ r ∷ ss) h = (h.0, All-all_but_last (r ∷ ss) h.1)

walk_segment-All :
    (s : Text) (ss : List Text)
    → IsPlain s
    → All IsSegment ss
    → OnOk (All IsSegment) (Paths.walk_segment s ss)
unfolding Paths.walk_segment
walk_segment-All s ss plain h = elim (Bool-cases (is_empty s || text_eq s (codes "."))) [
  | inl skipped ↦ rw skipped h
  | inr kept ↦ elim (Bool-cases (text_eq s (codes ".."))) [
    | inl up ↦ rw (kept, up) (back ss h)
    | inr down ↦
        rw (kept, down)
          (All-append_one ss s h (record {
            nonempty = ground arith;
            not_here = ground arith;
            not_up = down;
            no_slash = plain.no_slash;
            no_nul = plain.no_nul;
          }))
  ]
]
  where
    back :
        (ss : List Text)
        → All IsSegment ss
        → OnOk (All IsSegment) (elim ss as (λ x. Result Errno (List Text)) [
          | [] ↦ err Errno.notcapable
          | r ∷ rs ↦ ok (Paths.all_but_last (r ∷ rs))
        ])
    back [] h = tt
    back (r ∷ rs) h = All-all_but_last (r ∷ rs) h

walk-All :
    (parts ss : List Text)
    → All IsPlain parts
    → All IsSegment ss
    → OnOk (All IsSegment) (Paths.walk parts ss)
unfolding Paths.walk
walk-All [] ss a h = h
walk-All (s ∷ parts) ss a h =
    OnOk-bind (All IsSegment) (All IsSegment) (Paths.walk_segment s ss) _
      (walk_segment-All s ss a.0 h) λ next _ k. walk-All parts next a.1 k

filled-All : (ss : List Text) → All IsSegment ss → Paths.filled_segments ss ≡ ss
unfolding Paths.filled_segments
filled-All [] h = refl
filled-All (s ∷ ss) h = rw h.0.nonempty (ap (◌∷◌ s) (filled-All ss h.1))

-- The segments of a canonical path.
canonical-segments :
    (ss : List Text) → All IsSegment ss → Paths.absolute_path_segments (Paths.absolute ss) ≡ ss
unfolding Paths.absolute_path_segments Paths.filled_segments split join
canonical-segments [] h = refl
canonical-segments (s ∷ ss) h = ap Paths.filled_segments (split-join s ss h) ∙ filled-All (s ∷ ss) h

started :
    (cwd path : Text)
    → IsCanonical cwd
    → All IsSegment (
        if starts_with (codes "/") path
        then []
        else Paths.absolute_path_segments (Paths.or_workspace cwd))
started cwd path c = elim (Bool-cases (starts_with (codes "/") path)) [
  | inl e ↦ rw e tt
  | inr e ↦ rw (e, c.joined, canonical-segments c.segments c.each) c.each
]

resolved :
    (cwd path : Text)
    → IsCanonical cwd
    → OnOk IsCanonical (Paths.resolve_wasi_virtual_path cwd path)
unfolding Paths.resolve_wasi_virtual_path
resolved cwd path c = elim (Bool-cases (includes 0 path)) [
  | inl e ↦ rw e tt
  | inr e ↦ elim (Bool-cases (is_empty path)) [
    | inl n ↦ rw (e, n) tt
    | inr n ↦
        rw (e, n)
          (OnOk-bind (All IsSegment) IsCanonical (Paths.walk (split slash path) _) _
            (walk-All (split slash path) _ (split-IsPlain path e) (started cwd path c))
            λ segments _ h. record { segments = segments; joined = refl; each = h })
  ]
]

-- From a canonical working directory, whatever path a module gives resolves, if at all, to a
-- canonical path: a slash and parts joined by slashes, none of them empty, `.` or `..`.
pub resolve_wasi_virtual_path-IsCanonical :
    (cwd path q : Text)
    → IsCanonical cwd
    → Paths.resolve_wasi_virtual_path cwd path ≡ ok q
    → IsCanonical q
resolve_wasi_virtual_path-IsCanonical cwd path q c e =
    OnOk_elim IsCanonical (Paths.resolve_wasi_virtual_path cwd path) q (resolved cwd path c) e

append-nil : (ss : List Text) → ss ++ [] ≡ ss
append-nil [] = refl
append-nil (s ∷ ss) = ap (◌∷◌ s) (append-nil ss)

append_one : (acc ss : List Text) (s : Text) → (acc ++ (s ∷ [])) ++ ss ≡ acc ++ (s ∷ ss)
append_one [] ss s = refl
append_one (a ∷ acc) ss s = ap (◌∷◌ a) (append_one acc ss s)

walk-segments : (ss acc : List Text) → All IsSegment ss → Paths.walk ss acc ≡ ok (acc ++ ss)
unfolding Paths.walk Paths.walk_segment
walk-segments [] acc h = ap ok (sym (append-nil acc))
walk-segments (s ∷ ss) acc h =
    rw (h.0.nonempty, h.0.not_here, h.0.not_up)
      (walk-segments ss (acc ++ (s ∷ [])) h.1 ∙ ap ok (append_one acc ss s))

walk-absolute :
    (ss : List Text) → All IsSegment ss → Paths.walk (split slash (Paths.absolute ss)) [] ≡ ok ss
unfolding Paths.walk Paths.walk_segment split join
walk-absolute [] h = refl
walk-absolute (s ∷ ss) h =
    ap (λ parts. Paths.walk parts []) (split-join s ss h) ∙ walk-segments (s ∷ ss) [] h

resolve_absolute :
    (cwd : Text) (ss : List Text)
    → All IsSegment ss
    → Paths.resolve_wasi_virtual_path cwd (Paths.absolute ss) ≡ ok (Paths.absolute ss)
unfolding Paths.resolve_wasi_virtual_path
resolve_absolute cwd ss h = rw (join-no_nul ss h, walk-absolute ss h) refl

-- A canonical path resolves to itself, whatever the working directory is.
pub resolve_canonical :
    (cwd path : Text) → IsCanonical path → Paths.resolve_wasi_virtual_path cwd path ≡ ok path
resolve_canonical cwd path c =
    ap (Paths.resolve_wasi_virtual_path cwd) c.joined
    ∙ resolve_absolute cwd c.segments c.each
    ∙ ap ok (sym c.joined)
