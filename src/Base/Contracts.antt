-- ===== src/Base/Contracts.antt =====
-- Contracts of code that changes a state and may fail: what holds before, what holds of the result
-- and the state after it, and what holds of the state after an error.
use mathlib.Core.Path.{◌≡◌, refl}
use mathlib.Core.Bool.{Bool, true, false}
use donkeywork_desktop.Base.Results.{Result, ok, err}
use donkeywork_desktop.Base.Tests.{if◌then◌else◌}
use donkeywork_desktop.Base.Actions.{
  Act, pure, raise, lift, gets, modify, ensure, continue, ◌>>=◌, Keeps,
}

abbrev pub Post : {S E A : Type 0} → (A → S → Type 0) → (S → Type 0) → S × Result E A → Type 0
Post J O (s, ok a) = J a s
Post J O (s, err e) = O s

pub record Contract {S E A : Type 0} (I : S → Type 0) (m : Act S E A) (J : A → S → Type 0)
    (O : S → Type 0) : Type 0 where
  pub at : (s : S) → I s → Post J O (m s)

post_of :
    {S E A : Type 0} (J : A → S → Type 0) (O : S → Type 0) (r : Result E A) (s : S)
    → ((a : A) → r ≡ ok a → J a s)
    → ((e : E) → r ≡ err e → O s)
    → Post J O (s, r)
post_of J O (ok a) s p q = p a refl
post_of J O (err e) s p q = q e refl

module _ {S E A : Type 0} {I : S → Type 0} {J : A → S → Type 0} {O : S → Type 0} where
  pub pure-Contract : (a : A) → ((s : S) → I s → J a s) → Contract {E = E} I (pure a) J O
  pure-Contract a h = record { at = h }

  pub raise-Contract : (e : E) → ((s : S) → I s → O s) → Contract I (raise e) J O
  raise-Contract e h = record { at = h }

  pub gets-Contract : (f : S → A) → ((s : S) → I s → J (f s) s) → Contract {E = E} I (gets f) J O
  gets-Contract f h = record { at = h }

  pub if-Contract :
      (b : Bool) (m n : Act S E A)
      → (b ≡ true → Contract I m J O)
      → (b ≡ false → Contract I n J O)
      → Contract I (if b then m else n) J O
  if-Contract true m n p q = p refl
  if-Contract false m n p q = q refl

  pub lift-Contract :
      (r : Result E A)
      → ((s : S) → I s → (a : A) → r ≡ ok a → J a s)
      → ((s : S) → I s → O s)
      → Contract I (lift r) J O
  lift-Contract r p q = record { at = λ s h. post_of J O r s (p s h) (λ e w. q s h) }

  -- From what the code does, by cases on its result.
  pub by_result :
      {m : Act S E A}
      → ((s : S) → I s → (a : A) → (m s).1 ≡ ok a → J a (m s).0)
      → ((s : S) → I s → (e : E) → (m s).1 ≡ err e → O (m s).0)
      → Contract I m J O
  by_result {m} p q = record { at = λ s h. post_of J O (m s).1 (m s).0 (p s h) (q s h) }

module _ {S E : Type 0} {I : S → Type 0} {O : S → Type 0} where
  pub modify-Contract :
      {J : Unit {0} → S → Type 0} (f : S → S)
      → ((s : S) → I s → J tt (f s))
      → Contract {E = E} I (modify f) J O
  modify-Contract f h = record { at = h }

  pub ensure-Contract :
      {J : Unit {0} → S → Type 0} (b : Bool) (e : E)
      → (b ≡ true → (s : S) → I s → J tt s)
      → ((s : S) → I s → O s)
      → Contract I (ensure b e) J O
  ensure-Contract true e p q = record { at = p refl }
  ensure-Contract false e p q = record { at = q }

-- The test decides which of the two follows.
pub ensure-Contract_by :
    {S E : Type 0} {I O : S → Type 0} {J : Unit {0} → S → Type 0} (b : Bool) (e : E)
    → (b ≡ true → (s : S) → I s → J tt s)
    → (b ≡ false → (s : S) → I s → O s)
    → Contract I (ensure b e) J O
ensure-Contract_by true e p q = record { at = p refl }
ensure-Contract_by false e p q = record { at = q refl }

then_post :
    {S E A C : Type 0} {J : A → S → Type 0} {L : C → S → Type 0} {O : S → Type 0}
    (f : A → Act S E C)
    → ((a : A) → Contract (J a) (f a) L O)
    → (r : Result E A) (t : S) → Post J O (t, r)
    → Post L O (continue r f t)
then_post f k (ok a) t h = (k a).at t h
then_post f k (err e) t h = h

module _ {S E A C : Type 0} {I : S → Type 0} {J : A → S → Type 0} {L : C → S → Type 0}
    {O : S → Type 0} where
  pub >>=-Contract :
      {m : Act S E A} {f : A → Act S E C}
      → Contract I m J O
      → ((a : A) → Contract (J a) (f a) L O)
      → Contract I (m >>= f) L O
  >>=-Contract {m} {f} h k = record {
    at = λ s i. then_post {J = J} {L = L} {O = O} f k (m s).1 (m s).0 (h.at s i);
  }

-- Code that relates the states before and after keeps what the relation keeps.
pub Keeps-Contract :
    {S E A : Type 0} {R : S → S → Type 0} {m : Act S E A} {I O : S → Type 0}
    → Keeps R m
    → ((s t : S) → R s t → I s → I t)
    → ((s : S) → I s → O s)
    → Contract I m (λ a. I) O
Keeps-Contract {m} k keep weaken =
    by_result (λ s h a e. keep s (m s).0 (k.apply s) h)
      (λ s h e w. weaken (m s).0 (keep s (m s).0 (k.apply s) h))

module _ {S E A : Type 0} {I : S → Type 0} {J : A → S → Type 0} {O : S → Type 0} where
  pub before-Contract :
      {H : S → Type 0} {m : Act S E A} → ((s : S) → H s → I s) → Contract I m J O → Contract H m J O
  before-Contract p c = record { at = λ s h. c.at s (p s h) }

  -- What follows from the result.
  pub after-Contract :
      {L : A → S → Type 0} {m : Act S E A}
      → ((a : A) (s : S) → J a s → L a s)
      → Contract I m J O
      → Contract I m L O
  after-Contract {L} {m} p c = record {
    at = λ s h. after_post {J = J} {L = L} O (m s).1 (m s).0 p (c.at s h);
  }
    where
      after_post :
          {S E A : Type 0} {J L : A → S → Type 0} (O : S → Type 0) (r : Result E A) (s : S)
          → ((a : A) (s : S) → J a s → L a s)
          → Post J O (s, r)
          → Post L O (s, r)
      after_post O (ok a) s p h = p a s h
      after_post O (err e) s p h = h

  -- A fact that does not depend on the state.
  pub fact-Contract :
      {F : Type 0} {m : Act S E A} → ((s : S) → I s → F) → (F → Contract I m J O) → Contract I m J O
  fact-Contract p c = record { at = λ s h. (c (p s h)).at s h }
