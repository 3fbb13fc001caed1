-- ===== src/Workspace/Path/Normal.antt =====
-- What `normalizeWorkspacePath` returns (apps/web/src/workspace.js): a sequence of parts that
-- neither traverses upward nor hides a separator.
use wasm_host.Prelude.{
  ℕ, zero, Text, false, ◌||◌, ◌≡◌, refl, sym, ap, ◌∙◌, inl, inr, List, [], ◌∷◌, ◌++◌, All, arith,
  Bool-cases, codes, text_eq, is_empty, includes, split, join, cons_head, ◌==◌, trim, drop, length,
  starts_with, trim_start, is_white, ◌+◌, suc,
}
use wasm_host.Prelude.Exec.{ok, OnOk, OnOk-bind, OnOk_elim}
use wasm_host.Workspace.Path.{
  workspace_root, public_path, slash, NormalPath, normal_path, collect_parts, below_root,
  normalize_workspace_path,
}

-- No separator, no NUL and no backslash.
pub record IsPlain (q : Text) : Type 0 where
  pub no_slash : includes slash q ≡ false
  pub no_nul : includes 0 q ≡ false
  pub no_backslash : includes b'\\' q ≡ false

-- A name between two separators, other than `.` and `..`.
pub record IsPart (q : Text) : Type 0 where
  pub nonempty : is_empty q ≡ false
  pub plain : IsPlain q
  pub not_here : text_eq q (codes ".") ≡ false
  pub not_up : text_eq q (codes "..") ≡ false

-- Neither NUL nor a backslash.
pub record IsSafe (s : Text) : Type 0 where
  pub no_nul : includes 0 s ≡ false
  pub no_backslash : includes b'\\' s ≡ false

IsPlain-nil : IsPlain []
IsPlain-nil = record { no_slash = refl; no_nul = refl; no_backslash = refl }

cons_head-IsPlain :
    (x : ℕ) (ps : List Text) → IsPlain (x ∷ []) → All IsPlain ps → All IsPlain (cons_head x ps)
cons_head-IsPlain x [] h a = (h, tt)
cons_head-IsPlain x (p ∷ ps) h a = let k = a.0 in (ground arith, a.1)

IsSafe-tail : (x : ℕ) (s : Text) → IsSafe (x ∷ s) → IsSafe s
IsSafe-tail x s h = ground arith

split-IsPlain : (s : Text) → IsSafe s → All IsPlain (split slash s)
unfolding split
split-IsPlain [] h = (IsPlain-nil, tt)
split-IsPlain (x ∷ s) h = elim (Bool-cases (x == slash)) [
  | inl e ↦ rw e (IsPlain-nil, split-IsPlain s (IsSafe-tail x s h))
  | inr e ↦
      rw e
        (cons_head-IsPlain x (split slash s) (ground arith) (split-IsPlain s (IsSafe-tail x s h)))
]

IsSafe-drop : (k : ℕ) (s : Text) → IsSafe s → IsSafe (drop k s)
IsSafe-drop zero s h = h
IsSafe-drop (suc k) [] h = h
IsSafe-drop (suc k) (x ∷ s) h = IsSafe-drop k s (IsSafe-tail x s h)

below_root-IsSafe : (raw : Text) → IsSafe raw → OnOk IsSafe (below_root raw)
unfolding below_root
below_root-IsSafe raw h = elim (Bool-cases (text_eq raw workspace_root)) [
  | inl e ↦ rw e (record { no_nul = refl; no_backslash = refl })
  | inr e ↦ elim (Bool-cases (starts_with (codes "/workspace/") raw)) [
    | inl u ↦ rw (e, u) (IsSafe-drop (length workspace_root + 1) raw h)
    | inr u ↦ elim (Bool-cases (starts_with (codes "/") raw)) [
      | inl a ↦ rw (e, u, a) tt
      | inr a ↦ rw (e, u, a) h
    ]
  ]
]

module _ (part : Text) (parts : List Text) (plain : IsPlain part) where
  collect-step :
      OnOk (All IsPart) (collect_parts parts) → OnOk (All IsPart) (collect_parts (part ∷ parts))
  unfolding collect_parts
  collect-step ih = elim (Bool-cases (is_empty part)) [
    | inl e ↦ rw e ih
    | inr e ↦ elim (Bool-cases (text_eq part (codes "."))) [
      | inl d ↦ rw (e, d) ih
      | inr d ↦ elim (Bool-cases (text_eq part (codes ".."))) [
        | inl u ↦ rw (e, d, u) tt
        | inr u ↦
            rw (e, d, u)
              (OnOk-bind (All IsPart) (All IsPart) (collect_parts parts) _ ih
                λ ps _ h. (record { nonempty = e; plain = plain; not_here = d; not_up = u }, h))
      ]
    ]
  ]

pub collect_parts-IsPart :
    (parts : List Text) → All IsPlain parts → OnOk (All IsPart) (collect_parts parts)
unfolding collect_parts
collect_parts-IsPart [] a = tt
collect_parts-IsPart (part ∷ parts) a = collect-step part parts a.0 (collect_parts-IsPart parts a.1)

-- A path in normal form: the parts that it joins.
pub record IsNormal (n : NormalPath) : Type 0 where
  pub parts : List Text
  pub joined : n ≡ normal_path parts
  pub each : All IsPart parts

OnOk-normalize : (path : Text) → OnOk IsNormal (normalize_workspace_path path)
unfolding normalize_workspace_path
OnOk-normalize path =
    elim (Bool-cases
      (is_empty (trim path) || includes 0 (trim path) || includes b'\\' (trim path))) [
        | inl e ↦ rw e tt
        | inr e ↦ rw e (
            OnOk-bind IsSafe IsNormal (below_root (trim path)) _
              (below_root-IsSafe (trim path) (ground arith))
              λ relative _ safe.
                OnOk-bind (All IsPart) IsNormal (collect_parts (split slash relative)) _
                  (collect_parts-IsPart (split slash relative) (split-IsPlain relative safe))
                  λ parts _ h. record { parts = parts; joined = refl; each = h })
      ]

-- Every accepted path is the join of parts of which none is empty, `.` or `..`, or holds a slash.
pub normalize-IsNormal :
    (path : Text) (n : NormalPath) → normalize_workspace_path path ≡ ok n → IsNormal n
normalize-IsNormal path n =
    OnOk_elim IsNormal (normalize_workspace_path path) n (OnOk-normalize path)

-- Joining and splitting again gives the parts back.
cons_head-append :
    (q p : Text) → includes slash q ≡ false → split slash (q ++ (slash ∷ p)) ≡ q ∷ split slash p
unfolding split
cons_head-append [] p h = refl
cons_head-append (c ∷ q) p h = ground (arith, cons_head-append q p)

split-plain : (q : Text) → includes slash q ≡ false → split slash q ≡ q ∷ []
unfolding split
split-plain [] h = refl
split-plain (c ∷ q) h = ground (arith, split-plain q)

pub split-join :
    (p : Text) (ps : List Text) → All IsPart (p ∷ ps) → split slash (join slash (p ∷ ps)) ≡ p ∷ ps
unfolding join
split-join p [] h = split-plain p h.0.plain.no_slash
split-join p (q ∷ ps) h =
    cons_head-append p (join slash (q ∷ ps)) h.0.plain.no_slash ∙ ap (◌∷◌ p) (split-join q ps h.1)

pub collect_parts-All : (ps : List Text) → All IsPart ps → collect_parts ps ≡ ok ps
unfolding collect_parts
collect_parts-All [] h = refl
collect_parts-All (p ∷ ps) h =
    rw (h.0.nonempty, h.0.not_here, h.0.not_up) (rw (collect_parts-All ps h.1))

-- The published form of a normal path normalises to the path itself.
includes-append :
    (c : ℕ) (s t : Text) → includes c s ≡ false → includes c t ≡ false → includes c (s ++ t) ≡ false
includes-append c [] t h k = k
includes-append c (x ∷ s) t h k = ground (arith, includes-append c s t)

join-IsSafe : (ps : List Text) → All IsPart ps → IsSafe (join slash ps)
unfolding join
join-IsSafe [] h = record { no_nul = refl; no_backslash = refl }
join-IsSafe (p ∷ []) h = record { no_nul = h.0.plain.no_nul; no_backslash = h.0.plain.no_backslash }
join-IsSafe (p ∷ q ∷ ps) h =
    let rest = join-IsSafe (q ∷ ps) h.1 in
    record {
      no_nul = includes-append 0 p (slash ∷ join slash (q ∷ ps)) h.0.plain.no_nul rest.no_nul;
      no_backslash =
          includes-append b'\\' p (slash ∷ join slash (q ∷ ps)) h.0.plain.no_backslash
            rest.no_backslash;
    }

pub join-ne-nil :
    (p : Text) (ps : List Text) → All IsPart (p ∷ ps) → is_empty (join slash (p ∷ ps)) ≡ false
unfolding join
join-ne-nil [] ps h = cc h.0.nonempty
join-ne-nil (c ∷ p) [] h = refl
join-ne-nil (c ∷ p) (q ∷ ps) h = refl

below_public :
    (rel : Text)
    → is_empty rel ≡ false
    → IsSafe rel
    → (below_root (public_path rel) ≡ ok rel)
      × (is_empty (public_path rel)
            || includes 0 (public_path rel)
            || includes b'\\' (public_path rel)
          ≡ false)
unfolding below_root
below_public [] e h = cc
below_public (c ∷ s) e h = (refl, ground arith)

normalize-root : normalize_workspace_path (public_path (join slash [])) ≡ ok (normal_path [])
unfolding normalize_workspace_path collect_parts below_root trim trim_start is_white split join
normalize-root = refl

normalize-parts :
    (parts : List Text)
    → All IsPart parts
    → trim (public_path (join slash parts)) ≡ public_path (join slash parts)
    → normalize_workspace_path (public_path (join slash parts)) ≡ ok (normal_path parts)
unfolding normalize_workspace_path
normalize-parts [] h t = normalize-root
normalize-parts (p ∷ ps) h t =
    let (below, fine) =
      below_public (join slash (p ∷ ps)) (join-ne-nil p ps h) (join-IsSafe (p ∷ ps) h) in
    rw (t, fine, below) (rw (split-join p ps h, collect_parts-All (p ∷ ps) h) refl)

-- A published path that `trim` leaves alone normalises to the path that it was published for.
pub normalize-public :
    (path : Text) (n : NormalPath)
    → normalize_workspace_path path ≡ ok n
    → trim n.workspace_path ≡ n.workspace_path
    → normalize_workspace_path n.workspace_path ≡ ok n
normalize-public path n h t =
    let normal = normalize-IsNormal path n h in
    let whole : n.workspace_path ≡ public_path (join slash normal.parts) =
      ap (λ (m : NormalPath). m.workspace_path) normal.joined in
    ap normalize_workspace_path whole
    ∙ normalize-parts normal.parts normal.each (ap trim (sym whole) ∙ t ∙ whole)
    ∙ ap ok (sym normal.joined)
