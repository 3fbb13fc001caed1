-- ===== src/Workspace/Tree/Renames.antt =====
-- `rename` keeps the tree (apps/web/src/workspace.js).
use wasm_host.Prelude.{
  ℕ, suc, Text, Bool, true, false, ◌≡◌, ◌≢◌, sym, ap, ◌∙◌, [], ◌∷◌, ◌++◌, text_eq, text_eq_iff,
  text_eq_refl, any, length, ◌<◌, zero, ◌⊎◌, arith, if◌then◌else◌, inl, inr, Bool-cases,
}
use wasm_host.Prelude.Dict.{Dict, has, keys}
use wasm_host.Prelude.Dict.Keys.{has-member, any-member, member-any}
use wasm_host.Workspace.Path.{slash, parent_path, is_child_path, replace_path_prefix}
use wasm_host.Workspace.Path.Laws.{
  append_longer, append-injective, Child-longer, Child, is_child_path_iff, replace_self,
  replace_below, parent-append_both, parent-Child, parent_of_Child,
}
use wasm_host.Workspace.Path.Within.{within, within_parent, root-within}
use wasm_host.Workspace.Store.{Store, FileRecord, DirectoryRecord}
use wasm_host.Workspace.Tree.{IsTree}

true≢false : {b : Bool} → b ≡ true → b ≡ false → ⊥
true≢false h k = cc

-- Where `renameDirectory` puts a path.
abbrev pub moved : Text → Text → Text → Text
moved from to k = if within from k then replace_path_prefix k from to else k

-- What the new maps hold: the moved paths of what the old ones hold.
pub record IsMove (from to : Text) (s : Store) (ds : Dict DirectoryRecord) (fs : Dict FileRecord)
    : Type 0 where
  pub directories :
      (q : Text) → has q ds ≡ any (λ k. text_eq (moved from to k) q) (keys s.directories)
  pub files : (q : Text) → has q fs ≡ any (λ k. text_eq (moved from to k) q) (keys s.files)

-- The directories that a rename accepts.
pub record IsMovable (from to : Text) (s : Store) : Type 0 where
  pub from_below : from ≢ []
  pub to_below : to ≢ []
  pub source : has from s.directories ≡ true
  pub parent : has (parent_path to) s.directories ≡ true
  pub no_file : has to s.files ≡ false
  pub no_directory : has to s.directories ≡ false
  pub outside : is_child_path from to ≡ false

module _ {from to : Text} {s : Store} (t : IsTree s) (m : IsMovable from to s) where
  -- What the moved maps hold, by a path that was there.
  origin :
      {V : Type 0} (q : Text) (d d' : Dict V)
      → has q d' ≡ any (λ k. text_eq (moved from to k) q) (keys d)
      → has q d' ≡ true
      → (k : Text) × (has k d ≡ true) × (moved from to k ≡ q)
  origin q d d' e h =
      let (k, mem, eq) = any-member (λ k. text_eq (moved from to k) q) (keys d) (sym e ∙ h) in
      (k, has-member k d ∙ mem, (text_eq_iff _ q).0 eq)

  arrives :
      {V : Type 0} (k : Text) (d d' : Dict V)
      → has (moved from to k) d' ≡ any (λ j. text_eq (moved from to j) (moved from to k)) (keys d)
      → has k d ≡ true
      → has (moved from to k) d' ≡ true
  arrives k d d' e h =
      e
      ∙ member-any (λ j. text_eq (moved from to j) (moved from to k)) (keys d) k
          (sym (has-member k d) ∙ h) (text_eq_refl (moved from to k))

  moved_out : (k : Text) → within from k ≡ false → moved from to k ≡ k
  moved_out k h = rw h

  moved_self : moved from to from ≡ to
  moved_self = rw (text_eq_refl from) (replace_self from to)

  moved_below : (k r : Text) → k ≡ from ++ (slash ∷ r) → moved from to k ≡ to ++ (slash ∷ r)
  moved_below k r e =
      let inside = (is_child_path_iff from k m.from_below).1 (r, e) in
      let within_from : within from k ≡ true = ground arith in
      rw within_from (ap (λ x. replace_path_prefix x from to) e ∙ replace_below from to r)

  -- The parent of a moved path is the moved parent, except for the directory itself.
  parent-moved_below :
      (k : Text)
      → is_child_path from k ≡ true
      → parent_path (moved from to k) ≡ moved from to (parent_path k)
  parent-moved_below k c =
      let (r, e) = (is_child_path_iff from k m.from_below).0 c in
      let up = ap parent_path (moved_below k r e) in
      elim (parent-append_both from to r) [
        | inl (p, q) ↦ up ∙ q ∙ sym moved_self ∙ ap (moved from to) (sym p ∙ sym (ap parent_path e))
        | inr (p, q) ↦
            up ∙ q ∙ sym (moved_below (parent_path k) (parent_path r) (ap parent_path e ∙ p))
      ]

  -- The new parent of the directory is not moved.
  parent_outside : within from (parent_path to) ≡ false
  parent_outside = elim (Bool-cases (within from (parent_path to))) [
    | inl h ↦ absurd (clash (within_parent from m.from_below to h))
    | inr h ↦ h
  ]
    where
      clash : is_child_path from to ≡ true → ⊥
      clash h = cc (m.outside)

  -- What lies above a directory is a directory.
  above :
      (n : ℕ) (p k : Text)
      → length k < n
      → Child p k
      → has (parent_path k) s.directories ≡ true
      → has p s.directories ≡ true
  above zero p k h c d = absurd (omega arith)
  above (suc n) p k h c d = elim (parent_of_Child p k c) [
    | inl e ↦ ap (λ x. has x s.directories) (sym e) ∙ d
    | inr c' ↦
        let shorter = Child-longer (parent_path k) k (
          parent-Child k
            (λ z. absurd (omega (arith, ap length z, Child-longer p (parent_path k) c')))) in
        above n p (parent_path k) (omega arith) c' (t.directory_parent (parent_path k) d)
  ]

  -- Nothing lies below the target.
  not_above : (k r : Text) → k ≡ to ++ (slash ∷ r) → has (parent_path k) s.directories ≡ true → ⊥
  not_above k r e d =
      absurd (true≢false (above (suc (length k)) to k (omega arith) (r, e) d) m.no_directory)

  within-cases :
      (k : Text) → (within from k ≡ false) ⊎ ((k ≡ from) ⊎ ((r : Text) × (k ≡ from ++ (slash ∷ r))))
  within-cases k = elim (Bool-cases (text_eq k from)) [
    | inl e ↦ inr (inl ((text_eq_iff k from).0 e))
    | inr e ↦ elim (Bool-cases (is_child_path from k)) [
      | inl c ↦ inr (inr ((is_child_path_iff from k m.from_below).0 c))
      | inr c ↦ inl (ground arith)
    ]
  ]

  -- A file and a directory that are moved do not meet.
  apart_moved :
      (k j : Text)
      → has k s.files ≡ true
      → has j s.directories ≡ true
      → moved from to k ≡ moved from to j
      → ⊥
  apart_moved k j f d e = elim (within-cases k) [
    | inl ko ↦ elim (within-cases j) [
      | inl jo ↦ true≢false d (
          ap (λ x. has x s.directories) (sym (moved_out j jo) ∙ sym e ∙ moved_out k ko)
          ∙ t.apart k f)
      | inr (inl j_from) ↦ true≢false f (
          ap (λ x. has x s.files)
            (sym (moved_out k ko) ∙ e ∙ ap (moved from to) j_from ∙ moved_self)
          ∙ m.no_file)
      | inr (inr (r, j_below)) ↦
          not_above k r (sym (moved_out k ko) ∙ e ∙ moved_below j r j_below) (t.file_parent k f)
    ]
    | inr (inl k_from) ↦
        true≢false m.source (ap (λ x. has x s.directories) (sym k_from) ∙ t.apart k f)
    | inr (inr (r, k_below)) ↦ elim (within-cases j) [
      | inl jo ↦
          not_above j r (sym (moved_out j jo) ∙ sym e ∙ moved_below k r k_below)
            (t.directory_parent j d)
      | inr (inl j_from) ↦
          append_longer to r
            (sym (moved_below k r k_below) ∙ e ∙ ap (moved from to) j_from ∙ moved_self)
      | inr (inr (q, j_below)) ↦
          let same =
            append-injective to r q (sym (moved_below k r k_below) ∙ e ∙ moved_below j q j_below) in
          true≢false d (
            ap (λ x. has x s.directories)
              (j_below ∙ ap (λ x. from ++ (slash ∷ x)) (sym same) ∙ sym k_below)
            ∙ t.apart k f)
    ]
  ]

  module _ {ds : Dict DirectoryRecord} {fs : Dict FileRecord} (move : IsMove from to s ds fs) where
    kept : (k : Text) → within from k ≡ false → has k s.directories ≡ true → has k ds ≡ true
    kept k out h =
        ap (λ x. has x ds) (sym (moved_out k out))
        ∙ arrives k s.directories ds (move.directories _) h

    parent_arrives :
        (k : Text)
        → has (parent_path k) s.directories ≡ true
        → has (parent_path (moved from to k)) ds ≡ true
    parent_arrives k h = elim (within-cases k) [
      | inl out ↦
          ap (λ x. has (parent_path x) ds) (moved_out k out)
          ∙ kept (parent_path k) (ground (arith, within_parent from m.from_below k)) h
      | inr (inl k_from) ↦
          ap (λ x. has (parent_path x) ds) (ap (moved from to) k_from ∙ moved_self)
          ∙ kept (parent_path to) parent_outside m.parent
      | inr (inr (r, k_below)) ↦
          ap (λ x. has x ds)
            (parent-moved_below k ((is_child_path_iff from k m.from_below).1 (r, k_below)))
          ∙ arrives (parent_path k) s.directories ds (move.directories _) h
    ]

    pub move-IsTree : IsTree (record s { directories = ds; files = fs })
    move-IsTree = record {
      root = kept [] (root-within from m.from_below) t.root;
      apart = λ q f. elim (Bool-cases (has q ds)) [
        | inl d ↦
            let (k, kf, ke) = origin q s.files fs (move.files q) f in
            let (j, jd, je) = origin q s.directories ds (move.directories q) d in
            absurd (apart_moved k j kf jd (ke ∙ sym je))
        | inr d ↦ d
      ];
      file_parent = λ q f.
          let (k, kf, ke) = origin q s.files fs (move.files q) f in
          ap (λ x. has (parent_path x) ds) (sym ke) ∙ parent_arrives k (t.file_parent k kf);
      directory_parent = λ q d.
          let (k, kd, ke) = origin q s.directories ds (move.directories q) d in
          ap (λ x. has (parent_path x) ds) (sym ke) ∙ parent_arrives k (t.directory_parent k kd);
    }
