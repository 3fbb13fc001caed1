-- ===== src/Workspace/Path/Within.antt =====
-- The paths that an operation on a directory concerns: its own and those below it
-- (apps/web/src/workspace.js).
use wasm_host.Prelude.{
  Text, Bool, true, false, ◌||◌, ◌≡◌, ◌≢◌, refl, sym, subst, ◌∙◌, inl, inr, [], ◌∷◌, text_eq,
  text_eq_iff, arith, Bool-cases,
}
use wasm_host.Workspace.Path.{parent_path, is_child_path}
use wasm_host.Workspace.Path.Laws.{
  Child, is_child_path_iff, parent-Child, Child-parent, parent_of_Child,
}

abbrev pub within : Text → Text → Bool
within path k = text_eq k path || is_child_path path k

module _ (path : Text) (below : path ≢ []) where
  -- What lies within the directory lies there with all below it.
  pub within_parent : (k : Text) → within path (parent_path k) ≡ true → is_child_path path k ≡ true
  within_parent k h =
      (is_child_path_iff path k below).1 (elim (Bool-cases (text_eq (parent_path k) path)) [
        | inl e ↦
            let p = (text_eq_iff (parent_path k) path).0 e in
            subst (λ x. Child x k) p (parent-Child k (λ z. below (sym p ∙ z)))
        | inr e ↦
            Child-parent path k ((is_child_path_iff path (parent_path k) below).0 (ground arith))
      ])

  pub parent-within : (k : Text) → is_child_path path k ≡ true → within path (parent_path k) ≡ true
  parent-within k h = elim (parent_of_Child path k ((is_child_path_iff path k below).0 h)) [
    | inl e ↦ ground (arith, text_eq_iff (parent_path k) path)
    | inr c ↦ ground (arith, (is_child_path_iff path (parent_path k) below).1 c)
  ]

pub root-within : (path : Text) → path ≢ [] → within path [] ≡ false
unfolding is_child_path
root-within [] below = absurd (below refl)
root-within (c ∷ path) below = refl
