-- ===== src/Wasi/Paths/Segments.antt =====
-- What normalised paths of a module are made of (apps/web/src/wasi-module.js).
use wasm_host.Prelude.{
  ℕ, ◌≡◌, refl, ap, ◌∙◌, inl, inr, Text, false, ◌||◌, Option, none, some, List, [], ◌∷◌, ◌++◌, All,
  codes, text_eq, is_empty, includes, starts_with, split, join, cons_head, ◌==◌, Bool-cases, arith,
}
use wasm_host.Workspace.Path.{slash}
use wasm_host.Wasi.Paths

-- A name between two separators, other than `.` and `..`.
pub record IsSegment (s : Text) : Type 0 where
  pub nonempty : is_empty s ≡ false
  pub not_here : text_eq s (codes ".") ≡ false
  pub not_up : text_eq s (codes "..") ≡ false
  pub no_slash : includes slash s ≡ false
  pub no_nul : includes 0 s ≡ false

-- Neither a separator nor a NUL.
pub record IsPlain (s : Text) : Type 0 where
  pub no_slash : includes slash s ≡ false
  pub no_nul : includes 0 s ≡ false

IsPlain-nil : IsPlain []
IsPlain-nil = record { no_slash = refl; no_nul = refl }

cons_head-IsPlain :
    (x : ℕ) (ps : List Text) → IsPlain (x ∷ []) → All IsPlain ps → All IsPlain (cons_head x ps)
cons_head-IsPlain x [] h a = (h, tt)
cons_head-IsPlain x (p ∷ ps) h a = let k = a.0 in (ground arith, a.1)

pub split-IsPlain : (s : Text) → includes 0 s ≡ false → All IsPlain (split slash s)
unfolding split
split-IsPlain [] h = (IsPlain-nil, tt)
split-IsPlain (x ∷ s) h = elim (Bool-cases (x == slash)) [
  | inl e ↦ rw e (IsPlain-nil, split-IsPlain s (ground arith))
  | inr e ↦
      rw e (cons_head-IsPlain x (split slash s) (ground arith) (split-IsPlain s (ground arith)))
]

-- Joining and splitting again.
split-append :
    (q p : Text) → includes slash q ≡ false → split slash (q ++ (slash ∷ p)) ≡ q ∷ split slash p
unfolding split
split-append [] p h = refl
split-append (c ∷ q) p h = ground (arith, split-append q p)

split-plain : (q : Text) → includes slash q ≡ false → split slash q ≡ q ∷ []
unfolding split
split-plain [] h = refl
split-plain (c ∷ q) h = ground (arith, split-plain q)

pub split-join :
    (p : Text) (ps : List Text)
    → All IsSegment (p ∷ ps)
    → split slash (join slash (p ∷ ps)) ≡ p ∷ ps
unfolding join
split-join p [] h = split-plain p h.0.no_slash
split-join p (q ∷ ps) h =
    split-append p (join slash (q ∷ ps)) h.0.no_slash ∙ ap (◌∷◌ p) (split-join q ps h.1)

-- A path below a mount: it is empty, or joins segments.
pub record IsRelative (path : Text) : Type 0 where
  pub segments : List Text
  pub joined : path ≡ join slash segments
  pub each : All IsSegment segments

abbrev pub Holds : {A : Type 0} → (A → Type 0) → Option A → Type 0
Holds P none = Unit
Holds P (some a) = P a

segments-All :
    (ss : List Text) → All IsPlain ss → Holds (All IsSegment) (Paths.relative_segments ss)
unfolding Paths.relative_segments
segments-All [] a = tt
segments-All (s ∷ ss) a = elim (Bool-cases (is_empty s || text_eq s (codes "."))) [
  | inl skipped ↦ rw skipped (segments-All ss a.1)
  | inr kept ↦ elim (Bool-cases (text_eq s (codes ".."))) [
    | inl up ↦ rw (kept, up) tt
    | inr down ↦
        rw (kept, down)
          (put (Paths.relative_segments ss)
            (record {
              nonempty = ground arith;
              not_here = ground arith;
              not_up = down;
              no_slash = a.0.no_slash;
              no_nul = a.0.no_nul;
            })
            (segments-All ss a.1))
  ]
]
  where
    put :
        (o : Option (List Text))
        → IsSegment s
        → Holds (All IsSegment) o
        → Holds (All IsSegment) (elim o as (λ x. Option (List Text)) [
          | none ↦ none
          | some segments ↦ some (s ∷ segments)
        ])
    put none h k = tt
    put (some segments) h k = (h, k)

joined-IsRelative :
    (o : Option (List Text)) → Holds (All IsSegment) o → Holds IsRelative (Paths.joined o)
joined-IsRelative none h = tt
joined-IsRelative (some []) h = tt
joined-IsRelative (some (s ∷ ss)) h = record { segments = s ∷ ss; joined = refl; each = h }

pub normalized : (path : Text) → Holds IsRelative (Paths.normalize_wasi_path path)
unfolding Paths.normalize_wasi_path Paths.normalize_relative_wasi_path join
normalized path = elim (Bool-cases (text_eq path (codes "."))) [
  | inl here ↦ rw here (record { segments = []; joined = refl; each = tt })
  | inr e ↦ elim (Bool-cases (starts_with (codes "/") path)) [
    | inl a ↦ rw (e, a) tt
    | inr a ↦ elim (Bool-cases (is_empty path || includes 0 path)) [
      | inl b ↦ rw (e, a, b) tt
      | inr b ↦
          rw (e, a, b)
            (joined-IsRelative (Paths.relative_segments (split slash path))
              (segments-All (split slash path) (split-IsPlain path (ground arith))))
    ]
  ]
]

-- What joins segments has no NUL, and does not begin with a separator.
includes-append :
    (c : ℕ) (s t : Text) → includes c s ≡ false → includes c t ≡ false → includes c (s ++ t) ≡ false
includes-append c [] t h k = k
includes-append c (x ∷ s) t h k = ground (arith, includes-append c s t)

pub join-no_nul : (ss : List Text) → All IsSegment ss → includes 0 (join slash ss) ≡ false
unfolding join
join-no_nul [] h = refl
join-no_nul (s ∷ []) h = h.0.no_nul
join-no_nul (s ∷ r ∷ ss) h =
    includes-append 0 s (slash ∷ join slash (r ∷ ss)) h.0.no_nul (join-no_nul (r ∷ ss) h.1)
