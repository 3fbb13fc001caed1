-- ===== src/Workspace/Path/Laws.antt =====
-- How parents, children and prefixes of workspace paths fit together (apps/web/src/workspace.js).
use mathlib.Core.List.{append_assoc}
use native.Mathlib.Nat.{zero-add, suc-add}
use wasm_host.Prelude.{
  ℕ, zero, suc, ◌+◌, ◌<◌, Text, true, false, ◌≡◌, ◌≢◌, refl, sym, ap, ◌∙◌, ◌↔◌, ◌⊎◌, inl, inr, none,
  some, [], ◌∷◌, ◌++◌, length, take, drop, starts_with, includes, arith, Option-cases, text_eq,
  text_eq_iff, text_eq_refl, Bool-cases, length-append,
}
use wasm_host.Workspace.Path.{slash, last_slash, parent_path, is_child_path, replace_path_prefix}

-- `k` lies strictly below `p`.
abbrev pub Child : Text → Text → Type 0
Child p k = (r : Text) × (k ≡ p ++ (slash ∷ r))

pub starts_with_iff : (p k : Text) → (starts_with p k ≡ true) ↔ ((r : Text) × (k ≡ p ++ r))
starts_with_iff [] k = (λ _. (k, refl), λ _. refl)
starts_with_iff (c ∷ p) [] = (λ h. cc, λ h. cc h.1)
starts_with_iff (c ∷ p) (d ∷ k) = (
  λ h. let (r, e) = (starts_with_iff p k).0 (ground arith) in (r, ground arith),
  λ h. ground (arith, (starts_with_iff p k).1 (h.0, ground arith)),
)

pub is_child_path_iff : (p k : Text) → p ≢ [] → (is_child_path p k ≡ true) ↔ Child p k
unfolding is_child_path
is_child_path_iff [] k h = absurd (h refl)
is_child_path_iff (c ∷ p) k h = (
  λ t.
      let (r, e) = (starts_with_iff ((c ∷ p) ++ (slash ∷ [])) k).0 t in
      (r, e ∙ append_assoc (c ∷ p) (slash ∷ []) r),
  λ t.
      (starts_with_iff ((c ∷ p) ++ (slash ∷ [])) k).1
        (t.0, t.1 ∙ sym (append_assoc (c ∷ p) (slash ∷ []) t.0)),
)

Child-ne-nil : (p r : Text) → p ++ (slash ∷ r) ≢ []
Child-ne-nil [] r = λ h. cc
Child-ne-nil (c ∷ p) r = λ h. cc

-- A path with a slash is its parent, a slash and the rest.
Child-take : (k : Text) (i : ℕ) → last_slash k ≡ some i → Child (take i k) k
unfolding last_slash
Child-take [] i h = cc
Child-take (c ∷ k) zero h = (k, ground arith)
Child-take (c ∷ k) (suc i) h = let (r, e) = Child-take k i (ground arith) in (r, ap (◌∷◌ c) e)

parent_at : (k : Text) (i : ℕ) → last_slash k ≡ some i → parent_path k ≡ take i k
unfolding parent_path
parent_at k i e = rw (e, parent_path)

pub parent-Child : (k : Text) → parent_path k ≢ [] → Child (parent_path k) k
unfolding parent_path
parent-Child k h = elim (Option-cases (last_slash k)) [
  | inl e ↦ absurd (h (rw (e, parent_path)))
  | inr (i, e) ↦ rw (e, parent_path) (Child-take k i e)
]

last_slash-append :
    (p r : Text)
    → last_slash (p ++ (slash ∷ r))
      ≡ elim (last_slash r) [ none ↦ some (length p) | some i ↦ some (length p + suc i) ]
unfolding last_slash
last_slash-append [] r = ground arith
last_slash-append (c ∷ p) r = ground (arith, last_slash-append p r)

take_prefix : (p r : Text) → take (length p) (p ++ r) ≡ p
take_prefix [] r = refl
take_prefix (c ∷ p) r = ap (◌∷◌ c) (take_prefix p r)

take_beyond :
    (p r : Text) (i : ℕ) → take (length p + suc i) (p ++ (slash ∷ r)) ≡ p ++ (slash ∷ take i r)
take_beyond [] r i = rw zero-add
take_beyond (c ∷ p) r i = rw suc-add (ap (◌∷◌ c) (take_beyond p r i))

parent_flat : (p r : Text) → last_slash r ≡ none → parent_path (p ++ (slash ∷ r)) ≡ p
parent_flat p r e =
    parent_at (p ++ (slash ∷ r)) (length p) (rw (last_slash-append p r, e))
    ∙ take_prefix p (slash ∷ r)

parent_deep :
    (p r : Text) (i : ℕ)
    → last_slash r ≡ some i
    → parent_path (p ++ (slash ∷ r)) ≡ p ++ (slash ∷ parent_path r)
parent_deep p r i e =
    parent_at (p ++ (slash ∷ r)) (length p + suc i) (rw (last_slash-append p r, e))
    ∙ take_beyond p r i
    ∙ ap (λ x. p ++ (slash ∷ x)) (sym (parent_at r i e))

-- The parent of `p/r`: the parent of `r` behind `p`, or `p` where `r` has no slash.
pub parent-append :
    (p r : Text)
    → (parent_path (p ++ (slash ∷ r)) ≡ p)
      ⊎ (parent_path (p ++ (slash ∷ r)) ≡ p ++ (slash ∷ parent_path r))
parent-append p r = elim (Option-cases (last_slash r)) [
  | inl e ↦ inl (parent_flat p r e)
  | inr (i, e) ↦ inr (parent_deep p r i e)
]

-- What lies below a child of `f`, or below `f`, lies below `f`.
pub Child-parent : (f k : Text) → Child f (parent_path k) → Child f k
Child-parent f k (r, e) =
    let (b, e') = parent-Child k (λ n. Child-ne-nil f r (sym e ∙ n)) in
    (r ++ (slash ∷ b), e' ∙ ap (λ x. x ++ (slash ∷ b)) e ∙ append_assoc f (slash ∷ r) (slash ∷ b))

pub parent_of_Child : (f k : Text) → Child f k → (parent_path k ≡ f) ⊎ Child f (parent_path k)
parent_of_Child f k (r, e) = elim (parent-append f r) [
  | inl h ↦ inl (ap parent_path e ∙ h)
  | inr h ↦ inr (parent_path r, ap parent_path e ∙ h)
]

-- Replacing the prefix of a moved path, and of one below it.
pub replace_self : (f t : Text) → replace_path_prefix f f t ≡ t
unfolding replace_path_prefix
replace_self f t = rw (text_eq_refl f)

drop_prefix : (f r : Text) → drop (length f + 1) (f ++ (slash ∷ r)) ≡ r
drop_prefix [] r = refl
drop_prefix (c ∷ f) r = rw suc-add (drop_prefix f r)

pub append_longer : (f r : Text) → f ++ (slash ∷ r) ≢ f
append_longer f r h = absurd (omega (arith, ap length h, length-append {0} f (slash ∷ r)))

pub replace_below : (f t r : Text) → replace_path_prefix (f ++ (slash ∷ r)) f t ≡ t ++ (slash ∷ r)
unfolding replace_path_prefix
replace_below f t r = elim (Bool-cases (text_eq (f ++ (slash ∷ r)) f)) [
  | inl h ↦ absurd (append_longer f r ((text_eq_iff _ f).0 h))
  | inr h ↦ rw (h, drop_prefix f r)
]

-- A name without a slash lies directly below what it is appended to.
last_slash-plain : (q : Text) → includes slash q ≡ false → last_slash q ≡ none
unfolding last_slash
last_slash-plain [] h = refl
last_slash-plain (c ∷ q) h = ground (arith, last_slash-plain q)

pub parent-plain : (q : Text) → includes slash q ≡ false → parent_path q ≡ []
unfolding parent_path
parent-plain q h = rw (last_slash-plain q h, parent_path)

pub parent-append_plain :
    (p q : Text) → includes slash q ≡ false → parent_path (p ++ (slash ∷ q)) ≡ p
parent-append_plain p q h =
    parent_at (p ++ (slash ∷ q)) (length p) (rw (last_slash-append p q, last_slash-plain q h))
    ∙ take_prefix p (slash ∷ q)

-- Below two directories the same name has its parents in the same place.
pub parent-append_both :
    (p q r : Text)
    → (parent_path (p ++ (slash ∷ r)) ≡ p) × (parent_path (q ++ (slash ∷ r)) ≡ q)
      ⊎ (parent_path (p ++ (slash ∷ r)) ≡ p ++ (slash ∷ parent_path r))
        × (parent_path (q ++ (slash ∷ r)) ≡ q ++ (slash ∷ parent_path r))
parent-append_both p q r = elim (Option-cases (last_slash r)) [
  | inl e ↦ inl (parent_flat p r e, parent_flat q r e)
  | inr (i, e) ↦ inr (parent_deep p r i e, parent_deep q r i e)
]

pub Child-longer : (p k : Text) → Child p k → length p < length k
Child-longer p k (r, e) = omega (arith, ap length e, length-append {0} p (slash ∷ r))

pub append-injective : (p r q : Text) → p ++ (slash ∷ r) ≡ p ++ (slash ∷ q) → r ≡ q
append-injective [] r q h = cc
append-injective (c ∷ p) r q h = append-injective p r q (cc)
