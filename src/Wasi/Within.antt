-- ===== src/Wasi/Within.antt =====
-- What a block may do to the tables of the descriptors, as a relation of the tables before it to
-- those after it, whether it throws or not. The relation is a preorder, so the parts of a block
-- compose.
use wasm_host.Prelude.{◌≡◌, refl, subst, ◌∙◌, Bool, true, false, Option, none, some, if◌then◌else◌}
use wasm_host.Prelude.Exec.{
  Result, ok, err, pure, throw, lift, gets, modify, throw_if, ◌>>=◌, After-call,
}
use wasm_host.Wasi.Descriptors.{Trap, Tables, Runtime, Action}
use wasm_host.Wasi.Reads.{present}

pub record Preorder (R : Tables → Tables → Type 0) : Type 0 where
  pub stay : (t : Tables) → R t t
  pub chain : (t u v : Tables) → R t u → R u v → R t v

pub record Within (R : Tables → Tables → Type 0) {A : Type 0} (m : Action A) (r : Runtime)
    : Type 0 where
  pub after : R r.tables (m r).1.tables

-- Only the rest of the state changes.
abbrev pub Same : Tables → Tables → Type 0
Same t u = u ≡ t

instance pub same_preorder : Preorder Same
same_preorder = record { stay = λ t. refl; chain = λ t u v h k. k ∙ h }

module _ {R : Tables → Tables → Type 0} ⦃o : Preorder R⦄ where
  pub Within-Same : {A : Type 0} (m : Action A) (r : Runtime) → Within Same m r → Within R m r
  Within-Same m r h = record { after = rw (h.after) (o.stay r.tables) }

  pub Within-pure : {A : Type 0} (a : A) (r : Runtime) → Within R (pure a) r
  unfolding pure
  Within-pure a r = record { after = o.stay r.tables }

  pub Within-throw : {A : Type 0} (e : Trap) (r : Runtime) → Within R (throw {A = A} e) r
  unfolding throw
  Within-throw e r = record { after = o.stay r.tables }

  pub Within-throw_if : (b : Bool) (e : Trap) (r : Runtime) → Within R (throw_if b e) r
  unfolding throw_if
  Within-throw_if true e r = record { after = o.stay r.tables }
  Within-throw_if false e r = record { after = o.stay r.tables }

  pub Within-modify :
      (g : Runtime → Runtime) (r : Runtime) → R r.tables (g r).tables → Within R (modify g) r
  unfolding modify
  Within-modify g r h = record { after = h }

  pub Within-if :
      {A : Type 0} (b : Bool) (m n : Action A) (r : Runtime)
      → (b ≡ true → Within R m r)
      → (b ≡ false → Within R n r)
      → Within R (if b then m else n) r
  Within-if true m n r h k = h refl
  Within-if false m n r h k = k refl

  pub Within-option :
      {A B : Type 0} (x : Option B) (m : Action A) (f : B → Action A) (r : Runtime)
      → (x ≡ none → Within R m r)
      → ((b : B) → x ≡ some b → Within R (f b) r)
      → Within R (elim x [ none ↦ m | some b ↦ f b ]) r
  Within-option none m f r h k = h refl
  Within-option (some b) m f r h k = k b refl

  pub Within-result :
      {A B E : Type 0} (x : Result E B) (m : E → Action A) (f : B → Action A) (r : Runtime)
      → ((e : E) → x ≡ err e → Within R (m e) r)
      → ((b : B) → x ≡ ok b → Within R (f b) r)
      → Within R (elim x [ err e ↦ m e | ok b ↦ f b ]) r
  Within-result (err e) m f r h k = h e refl
  Within-result (ok b) m f r h k = k b refl

  pub Within-bind :
      {A B : Type 0} (m : Action A) (f : A → Action B) (r : Runtime)
      → Within R m r
      → ((a : A) (u : Runtime) → R r.tables u.tables → Within R (f a) u)
      → Within R (m >>= f) r
  Within-bind m f r h k = record {
    after =
        (After-call {Q = λ _ u. R r.tables u.tables} (λ _ u. R r.tables u.tables) m f r
          (record { ends = h.after }) (λ e u c. c)
          (λ a u c. record {
            ends = o.chain r.tables u.tables (f a u).1.tables c (k a u c).after;
          })).ends;
  }

  -- A first part that leaves the tables alone.
  pub Within-then :
      {A B : Type 0} (m : Action A) (f : A → Action B) (r : Runtime)
      → Within Same m r
      → ((a : A) (u : Runtime) → u.tables ≡ r.tables → Within R (f a) u)
      → Within R (m >>= f) r
  Within-then m f r h k = record {
    after =
        (After-call {Q = λ _ u. R r.tables u.tables} (λ _ u. u.tables ≡ r.tables) m f r
          (record { ends = h.after }) (λ e u c. rw c (o.stay r.tables))
          (λ a u c. record { ends = subst (λ t. R t (f a u).1.tables) c (k a u c).after })).ends;
  }

  pub Within-gets :
      {A B : Type 0} (g : Runtime → B) (f : B → Action A) (r : Runtime)
      → Within R (f (g r)) r
      → Within R (gets g >>= f) r
  unfolding ◌>>=◌
  Within-gets g f r h = record { after = h.after }

  pub Within-lift :
      {A B : Type 0} (x : Result Trap B) (f : B → Action A) (r : Runtime)
      → ((b : B) → x ≡ ok b → Within R (f b) r)
      → Within R (lift x >>= f) r
  unfolding ◌>>=◌
  Within-lift (ok b) f r k = record { after = (k b refl).after }
  Within-lift (err e) f r k = record { after = o.stay r.tables }

  pub Within-present :
      {A B : Type 0} (x : Option B) (f : B → Action A) (r : Runtime)
      → ((b : B) → x ≡ some b → Within R (f b) r)
      → Within R (present x >>= f) r
  unfolding present ◌>>=◌
  Within-present (some b) f r k = record { after = (k b refl).after }
  Within-present none f r k = record { after = o.stay r.tables }
