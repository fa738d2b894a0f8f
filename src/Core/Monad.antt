-- ===== src/Core/Monad.antt =====
-- Code that changes the worker and may fail: what was written before an error stays written.
use donkeywork_desktop.Base.{Bool, true, false, ok, err}
use donkeywork_desktop.Core.Types.{Code, Core, Fallible}

abbrev pub Act : Type 0 → Type 0 → Type 0
Act B A = Core B → Core B × Fallible A

module _ {B A : Type 0} where
  abbrev pub pure : A → Act B A
  pure a c = (c, ok a)

  abbrev pub raise : Code → Act B A
  raise e c = (c, err e)

  abbrev pub lift : Fallible A → Act B A
  lift r c = (c, r)

  abbrev pub gets : (Core B → A) → Act B A
  gets f c = (c, ok (f c))

  -- A call of the backend.
  abbrev pub ask : (B → B × Fallible A) → Act B A
  ask f c = let (b, r) = f c.backend in (record c { backend = b }, r)

abbrev pub modify : {B : Type 0} → (Core B → Core B) → Act B (Unit {0})
modify f c = (f c, ok tt)

abbrev pub ensure : {B : Type 0} → Bool → Code → Act B (Unit {0})
ensure true e c = (c, ok tt)
ensure false e c = (c, err e)

module _ {B A C : Type 0} where
  abbrev pub continue : Fallible A → (A → Act B C) → Act B C
  continue (ok a) f c = f a c
  continue (err e) f c = (c, err e)

  infixl 5 ◌>>=◌
  abbrev pub ◌>>=◌ : Act B A → (A → Act B C) → Act B C
  ◌>>=◌ m f c = let (c', r) = m c in continue r f c'

infixl 5 ◌>>◌
abbrev pub ◌>>◌ : {B C : Type 0} → Act B (Unit {0}) → Act B C → Act B C
m >> k = m >>= λ _. k
