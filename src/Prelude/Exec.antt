-- ===== src/Prelude/Exec.antt =====
-- Methods that change an object and may throw. What was written before a throw stays written, so
-- the state comes back beside the error too.
use mathlib.Core.Bool.{Bool, true, false}
use mathlib.Core.Option.{Option, none, some}
use mathlib.Core.Path.{◌≡◌, refl, sym, subst}
use wasm_host.Prelude.Tests.{if◌then◌else◌}

pub data Result {ℓ} (E A : Type ℓ) : Type ℓ where
  ok : A → Result E A
  err : E → Result E A

abbrev pub bind {ℓ} : {E A B : Type ℓ} → Result E A → (A → Result E B) → Result E B
bind (ok a) f = f a
bind (err e) f = err e

-- `P` holds of a result, if there is one.
abbrev pub OnOk : {E A : Type 0} → (A → Type 0) → Result E A → Type 0
OnOk P (ok a) = P a
OnOk P (err e) = Unit

pub OnOk-bind :
    {E A B : Type 0} (P : A → Type 0) (Q : B → Type 0) (r : Result E A) (f : A → Result E B)
    → OnOk P r
    → ((a : A) → r ≡ ok a → P a → OnOk Q (f a))
    → OnOk Q (bind r f)
OnOk-bind P Q (ok a) f h k = k a refl h
OnOk-bind P Q (err e) f h k = tt

-- A bind of which nothing is known but its result.
pub OnOk-bind_any :
    {E A B : Type 0} (Q : B → Type 0) (r : Result E A) (f : A → Result E B)
    → ((a : A) → r ≡ ok a → OnOk Q (f a))
    → OnOk Q (bind r f)
OnOk-bind_any Q (ok a) f k = k a refl
OnOk-bind_any Q (err e) f k = tt

pub OnOk_elim : {E A : Type 0} (P : A → Type 0) (r : Result E A) (a : A) → OnOk P r → r ≡ ok a → P a
OnOk_elim P r a h e = subst (OnOk P) e h

-- A weaker statement of the same result.
pub OnOk-weaken :
    {E A : Type 0} (P Q : A → Type 0) (r : Result E A) → ((a : A) → P a → Q a) → OnOk P r → OnOk Q r
OnOk-weaken P Q (ok a) k h = k a h
OnOk-weaken P Q (err e) k h = tt

-- A choice of two results.
pub OnOk-if :
    {E A : Type 0} (P : A → Type 0) (b : Bool) (r s : Result E A)
    → OnOk P r
    → OnOk P s
    → OnOk P (if b then r else s)
OnOk-if P true r s h k = h
OnOk-if P false r s h k = k

abbrev pub Exec {ℓ} : Type ℓ → Type ℓ → Type ℓ → Type ℓ
Exec E S A = S → Result E A × S

module _ {ℓ} {E S A : Type ℓ} where
  unfoldable pub pure : A → Exec E S A
  pure a s = (ok a, s)

  unfoldable pub throw : E → Exec E S A
  throw e s = (err e, s)

  unfoldable pub lift : Result E A → Exec E S A
  lift r s = (r, s)

  unfoldable pub gets : (S → A) → Exec E S A
  gets f s = (ok (f s), s)

module _ {E S : Type 0} where
  unfoldable pub modify : (S → S) → Exec E S Unit
  modify f s = (ok tt, f s)

  -- `if (test) throw error`
  unfoldable pub throw_if : Bool → E → Exec E S Unit
  throw_if true e s = (err e, s)
  throw_if false e s = (ok tt, s)

module _ {E S A B : Type 0} where
  abbrev pub continue : Result E A → (A → Exec E S B) → Exec E S B
  continue (ok a) f s = f a s
  continue (err e) f s = (err e, s)

  infixl 10 ◌>>=◌ ◌>>◌
  -- opening this opens the actions above too
  unfoldable pub ◌>>=◌ : Exec E S A → (A → Exec E S B) → Exec E S B
  unfolding pure throw lift gets modify throw_if
  ◌>>=◌ m f s = let (r, s') = m s in continue r f s'

  abbrev pub ◌>>◌ : Exec E S A → Exec E S B → Exec E S B
  m >> n = m >>= λ _. n

-- `Q` holds of what the block returns or throws, and of the state that it leaves.
pub record After {E S A : Type 0} (Q : Result E A → S → Type 0) (m : Exec E S A) (s : S)
    : Type 0 where
  pub ends : Q (m s).0 (m s).1

-- One rule for each way to build a block.
module _ {E S A : Type 0} {Q : Result E A → S → Type 0} where
  pub After-pure : (a : A) (s : S) → Q (ok a) s → After Q (pure a) s
  unfolding pure
  After-pure a s h = record { ends = h }

  pub After-throw : (e : E) (s : S) → Q (err e) s → After Q (throw e) s
  unfolding throw
  After-throw e s h = record { ends = h }

  pub After-lift :
      {B : Type 0} (r : Result E B) (f : B → Exec E S A) (s : S)
      → ((e : E) → r ≡ err e → Q (err e) s)
      → ((b : B) → r ≡ ok b → After Q (f b) s)
      → After Q (lift r >>= f) s
  unfolding ◌>>=◌
  After-lift (ok b) f s bad good = record { ends = (good b refl).ends }
  After-lift (err e) f s bad good = record { ends = bad e refl }

  -- The computed value is known.
  pub After-lift_ok :
      {B : Type 0} (r : Result E B) (b : B) (f : B → Exec E S A) (s : S)
      → r ≡ ok b
      → After Q (f b) s
      → After Q (lift r >>= f) s
  unfolding ◌>>=◌
  After-lift_ok r b f s e h =
      subst (λ x. After Q (lift x >>= f) s) (sym e) (record { ends = h.ends })

  pub After-gets :
      {B : Type 0} (g : S → B) (f : B → Exec E S A) (s : S)
      → After Q (f (g s)) s
      → After Q (gets g >>= f) s
  unfolding ◌>>=◌
  After-gets g f s h = record { ends = h.ends }

  pub After-modify :
      (g : S → S) (f : Unit → Exec E S A) (s : S)
      → After Q (f tt) (g s)
      → After Q (modify g >>= f) s
  unfolding ◌>>=◌
  After-modify g f s h = record { ends = h.ends }

  pub After-throw_if :
      (b : Bool) (e : E) (f : Unit → Exec E S A) (s : S)
      → (b ≡ true → Q (err e) s)
      → (b ≡ false → After Q (f tt) s)
      → After Q (throw_if b e >>= f) s
  unfolding ◌>>=◌
  After-throw_if true e f s bad good = record { ends = bad refl }
  After-throw_if false e f s bad good = record { ends = (good refl).ends }

  pub After-if :
      (b : Bool) (m n : Exec E S A) (s : S)
      → (b ≡ true → After Q m s)
      → (b ≡ false → After Q n s)
      → After Q (if b then m else n) s
  After-if true m n s h k = h refl
  After-if false m n s h k = k refl

  -- An error ends the block that it is thrown in.
  pub After-error :
      {B : Type 0} (e : E) (f : B → Exec E S A) (s : S)
      → Q (err e) s
      → After Q (λ u. continue (err e) f u) s
  After-error e f s h = record { ends = h }

  -- A block that is made of two.
  pub After-bind :
      {B : Type 0} (m : Exec E S B) (f : B → Exec E S A) (s : S)
      → After (λ r t. After Q (λ u. continue r f u) t) m s
      → After Q (m >>= f) s
  unfolding ◌>>=◌
  After-bind m f s h = record { ends = h.ends.ends }

-- The last write of a block.
pub After-modify_last :
    {E S : Type 0} {Q : Result E Unit → S → Type 0} (g : S → S) (s : S)
    → Q (ok tt) (g s)
    → After Q (modify g) s
unfolding modify
After-modify_last g s h = record { ends = h }

pub After-throw_if_last :
    {E S : Type 0} {Q : Result E Unit → S → Type 0} (b : Bool) (e : E) (s : S)
    → (b ≡ true → Q (err e) s)
    → (b ≡ false → Q (ok tt) s)
    → After Q (throw_if b e) s
unfolding throw_if
After-throw_if_last true e s bad good = record { ends = bad refl }
After-throw_if_last false e s bad good = record { ends = good refl }

pub After-lift_last :
    {E S A : Type 0} {Q : Result E A → S → Type 0} (r : Result E A) (s : S)
    → ((e : E) → r ≡ err e → Q (err e) s)
    → ((a : A) → r ≡ ok a → Q (ok a) s)
    → After Q (lift r) s
unfolding lift
After-lift_last (ok a) s bad good = record { ends = good a refl }
After-lift_last (err e) s bad good = record { ends = bad e refl }

-- A weaker statement of the same block.
pub After-weaken :
    {E S A : Type 0} {Q R : Result E A → S → Type 0} (m : Exec E S A) (s : S)
    → ((r : Result E A) (t : S) → Q r t → R r t)
    → After Q m s
    → After R m s
After-weaken m s k h = record { ends = k (m s).0 (m s).1 h.ends }

-- The rule for a call inside a block, by what is known of the call.
pub After-call :
    {E S A B : Type 0} {Q : Result E A → S → Type 0} (R : Result E B → S → Type 0) (m : Exec E S B)
    (f : B → Exec E S A) (s : S)
    → After R m s
    → ((e : E) (u : S) → R (err e) u → Q (err e) u)
    → ((b : B) (u : S) → R (ok b) u → After Q (f b) u)
    → After Q (m >>= f) s
After-call {E} {S} {A} {B} {Q} R m f s h bad good = After-bind m f s (After-weaken m s next h)
  where
    next : (r : Result E B) (u : S) → R r u → After Q (λ v. continue r f v) u
    next (ok b) u k = record { ends = (good b u k).ends }
    next (err e) u k = After-error e f u (bad e u k)

-- A match on an optional value.
pub After-option :
    {E S A B : Type 0} {Q : Result E A → S → Type 0} (o : Option B) (m : Exec E S A)
    (f : B → Exec E S A) (s : S)
    → (o ≡ none → After Q m s)
    → ((b : B) → o ≡ some b → After Q (f b) s)
    → After Q (elim o [ none ↦ m | some b ↦ f b ]) s
After-option none m f s h k = h refl
After-option (some b) m f s h k = k b refl
