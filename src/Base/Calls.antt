-- ===== src/Base/Calls.antt =====
-- Calls that may fail: `none` is undefined behaviour (a read through NULL or out of bounds) or a loop
-- that the model's fuel does not cover, as each model says.
use mathlib.Core.Path.{◌≡◌, refl, sym, subst}
use mathlib.Core.Bool.{Bool, true, false}
use mathlib.Core.Option.{Option, none, some}
use rediskrazy.Base.Tests.{if◌then◌else◌}

infixl 5 ◌>>=◌
abbrev pub ◌>>=◌ : {A B : Type 0} → Option A → (A → Option B) → Option B
none >>= f = none
some a >>= f = f a

-- The call ends well, and its result satisfies `P`.
pub data Ends {A : Type 0} (P : A → Type 0) : Option A → Type 0 where
  ends : {a : A} → P a → Ends P (some a)

module _ {A : Type 0} {P : A → Type 0} where
  pub Ends-bind :
      {B : Type 0} {Q : B → Type 0} {m : Option A} {f : A → Option B}
      → Ends P m
      → ((a : A) → P a → Ends Q (f a))
      → Ends Q (m >>= f)
  Ends-bind (ends p) k = k _ p

  pub Ends-map : {Q : A → Type 0} {m : Option A} → Ends P m → ((a : A) → P a → Q a) → Ends Q m
  Ends-map (ends p) k = ends (k _ p)

  pub Ends-inv : {m : Option A} → Ends P m → (a : A) × (m ≡ some a) × P a
  Ends-inv (ends p) = (_, refl, p)

  pub Ends-if :
      {x y : Option A} (b : Bool)
      → (b ≡ true → Ends P x)
      → (b ≡ false → Ends P y)
      → Ends P (if b then x else y)
  Ends-if true p q = p refl
  Ends-if false p q = q refl

  -- A case on an optional value, in either order.
  pub Ends-option :
      {B : Type 0} {n : Option A} {f : B → Option A} (o : Option B)
      → (o ≡ none → Ends P n)
      → ((b : B) → o ≡ some b → Ends P (f b))
      → Ends P (elim o [ none ↦ n | some b ↦ f b ])
  Ends-option none p q = p refl
  Ends-option (some b) p q = q b refl

  pub Ends-some_first :
      {B : Type 0} {n : Option A} {f : B → Option A} (o : Option B)
      → (o ≡ none → Ends P n)
      → ((b : B) → o ≡ some b → Ends P (f b))
      → Ends P (elim o [ some b ↦ f b | none ↦ n ])
  Ends-some_first none p q = p refl
  Ends-some_first (some b) p q = q b refl

-- The first call has this result.
pub Ends-some :
    {A B : Type 0} {P : B → Type 0} {m : Option A} {a : A} (f : A → Option B)
    → m ≡ some a
    → Ends P (f a)
    → Ends P (m >>= f)
Ends-some {P = P} f e p = subst (λ m. Ends P (m >>= f)) (sym e) p

-- The same with a case on a Boolean, in either order.
module _ {A : Type 0} {P : A → Type 0} {x y : Option A} where
  pub Ends-elim_false :
      (b : Bool)
      → (b ≡ true → Ends P x)
      → (b ≡ false → Ends P y)
      → Ends P (elim b [ false ↦ y | true ↦ x ])
  Ends-elim_false true p q = p refl
  Ends-elim_false false p q = q refl

  pub Ends-elim :
      (b : Bool)
      → (b ≡ true → Ends P x)
      → (b ≡ false → Ends P y)
      → Ends P (elim b [ true ↦ x | false ↦ y ])
  Ends-elim true p q = p refl
  Ends-elim false p q = q refl

-- If the call ends well, its result satisfies `P`.
pub data IfEnds {A : Type 0} (P : A → Type 0) : Option A → Type 0 where
  fails : IfEnds P none
  ends_in : {a : A} → P a → IfEnds P (some a)

module _ {A : Type 0} {P : A → Type 0} where
  pub IfEnds-bind :
      {B : Type 0} {Q : B → Type 0} {m : Option A} {f : A → Option B}
      → IfEnds P m
      → ((a : A) → P a → IfEnds Q (f a))
      → IfEnds Q (m >>= f)
  IfEnds-bind fails k = fails
  IfEnds-bind (ends_in p) k = k _ p

  pub IfEnds-map : {Q : A → Type 0} {m : Option A} → IfEnds P m → ((a : A) → P a → Q a) → IfEnds Q m
  IfEnds-map fails k = fails
  IfEnds-map (ends_in p) k = ends_in (k _ p)

  pub IfEnds-if :
      {x y : Option A} (b : Bool) → IfEnds P x → IfEnds P y → IfEnds P (if b then x else y)
  IfEnds-if true p q = p
  IfEnds-if false p q = q

  pub IfEnds-elim :
      {x y : Option A} (b : Bool)
      → IfEnds P x
      → IfEnds P y
      → IfEnds P (elim b [ true ↦ x | false ↦ y ])
  IfEnds-elim true p q = p
  IfEnds-elim false p q = q

  pub IfEnds-elim_false :
      {x y : Option A} (b : Bool)
      → IfEnds P x
      → IfEnds P y
      → IfEnds P (elim b [ false ↦ y | true ↦ x ])
  IfEnds-elim_false true p q = p
  IfEnds-elim_false false p q = q

  pub Ends-and : {Q : A → Type 0} {m : Option A} → Ends P m → IfEnds Q m → Ends (λ a. P a × Q a) m
  Ends-and (ends p) (ends_in q) = ends (p, q)

pub anything : {A : Type 0} (m : Option A) → IfEnds (λ _. Unit {0}) m
anything none = fails
anything (some a) = ends_in tt
