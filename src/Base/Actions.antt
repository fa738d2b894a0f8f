-- ===== src/Base/Actions.antt =====
-- Code that changes a state and may fail: what was written before an error stays written.
use mathlib.Core.Path.{◌≡◌, refl}
use mathlib.Core.Bool.{Bool, true, false}
use mathlib.Core.List.{List, [], ◌∷◌}
use donkeywork_desktop.Base.Results.{Result, ok, err}

abbrev pub Act : Type 0 → Type 0 → Type 0 → Type 0
Act S E A = S → S × Result E A

module _ {S E A : Type 0} where
  abbrev pub pure : A → Act S E A
  pure a s = (s, ok a)

  abbrev pub raise : E → Act S E A
  raise e s = (s, err e)

  abbrev pub lift : Result E A → Act S E A
  lift r s = (s, r)

  abbrev pub gets : (S → A) → Act S E A
  gets f s = (s, ok (f s))

module _ {S E : Type 0} where
  abbrev pub modify : (S → S) → Act S E (Unit {0})
  modify f s = (f s, ok tt)

  -- An early return with an error, unless the test holds.
  abbrev pub ensure : Bool → E → Act S E (Unit {0})
  ensure true e s = (s, ok tt)
  ensure false e s = (s, err e)

module _ {S E A C : Type 0} where
  abbrev pub continue : Result E A → (A → Act S E C) → Act S E C
  continue (ok a) f s = f a s
  continue (err e) f s = (s, err e)

  infixl 5 ◌>>=◌
  abbrev pub ◌>>=◌ : Act S E A → (A → Act S E C) → Act S E C
  ◌>>=◌ m f s = continue (m s).1 f (m s).0

infixl 5 ◌>>◌
abbrev pub ◌>>◌ : {S E C : Type 0} → Act S E (Unit {0}) → Act S E C → Act S E C
m >> k = m >>= λ _. k

-- A loop over a list that stops at the first error.
unfoldable pub each : {S E A : Type 0} → (A → Act S E (Unit {0})) → List A → Act S E (Unit {0})
each f [] s = (s, ok tt)
each f (x ∷ xs) s = continue (f x s).1 (λ _. each f xs) (f x s).0

-- The code relates the states before and after, whatever its result.
pub record Keeps {S E A : Type 0} (R : S → S → Type 0) (m : Act S E A) : Type 0 where
  pub apply : (s : S) → R s (m s).0

pub record IsPreorder {S : Type 0} (R : S → S → Type 0) : Type 0 where
  pub reflexive : (s : S) → R s s
  pub transitive : (s t u : S) → R s t → R t u → R s u

module _ {S : Type 0} {R : S → S → Type 0} ⦃P : IsPreorder R⦄ where
  pub pure-Keeps : {E A : Type 0} {a : A} → Keeps {E = E} R (pure a)
  pure-Keeps = record { apply = λ s. P.reflexive s }

  pub lift-Keeps : {E A : Type 0} {r : Result E A} → Keeps R (lift r)
  lift-Keeps = record { apply = λ s. P.reflexive s }

  pub raise-Keeps : {E A : Type 0} {e : E} → Keeps {A = A} R (raise e)
  raise-Keeps = record { apply = λ s. P.reflexive s }

  pub gets-Keeps : {E A : Type 0} {f : S → A} → Keeps {E = E} R (gets f)
  gets-Keeps = record { apply = λ s. P.reflexive s }

  pub ensure-Keeps : {E : Type 0} (b : Bool) (e : E) → Keeps R (ensure {S = S} b e)
  ensure-Keeps b e = record { apply = λ s. at b s }
    where
      at : (b' : Bool) (s : S) → R s (ensure b' e s).0
      at true s = P.reflexive s
      at false s = P.reflexive s

  continue-Keeps :
      {E A C : Type 0} (r : Result E A) (f : A → Act S E C) (s t : S)
      → R s t
      → ((a : A) → Keeps R (f a))
      → R s (continue r f t).0
  continue-Keeps (ok a) f s t h k = P.transitive s t (f a t).0 h ((k a).apply t)
  continue-Keeps (err e) f s t h k = h

  pub >>=-Keeps :
      {E A C : Type 0} {m : Act S E A} {f : A → Act S E C}
      → Keeps R m
      → ((a : A) → Keeps R (f a))
      → Keeps R (m >>= f)
  >>=-Keeps {m} {f} h k = record { apply = λ s. continue-Keeps (m s).1 f s (m s).0 (h.apply s) k }

  pub each-Keeps :
      {E A : Type 0} {f : A → Act S E (Unit {0})} (xs : List A)
      → ((a : A) → Keeps R (f a))
      → Keeps R (each f xs)
  unfolding each
  each-Keeps [] k = record { apply = λ s. P.reflexive s }
  each-Keeps {f} (x ∷ xs) k = record {
    apply = λ s.
        continue-Keeps (f x s).1 (λ _. each f xs) s (f x s).0 ((k x).apply s)
          (λ _. each-Keeps xs k);
  }

-- A chain that succeeds has a first part that does.
pub >>=-eq_ok :
    {S E A C : Type 0} (m : Act S E A) (f : A → Act S E C) (s : S) {c : C}
    → ((m >>= f) s).1 ≡ ok c
    → (a : A) × ((m s).1 ≡ ok a) × ((m >>= f) s ≡ f a (m s).0)
>>=-eq_ok m f s h = continue_lem (m s).1 f (m s).0 h
  where
    continue_lem :
        {S E A C : Type 0} (r : Result E A) (f : A → Act S E C) (t : S) {c : C}
        → (continue r f t).1 ≡ ok c
        → (a : A) × (r ≡ ok a) × (continue r f t ≡ f a t)
    continue_lem (ok a) f t h = (a, refl, refl)
    continue_lem (err e) f t h = cc

-- What holds of a result and the state after it, wherever the code succeeds.
pub record Ensures {S E A : Type 0} (Q : A → S → Type 0) (m : Act S E A) : Type 0 where
  pub at : (s : S) (a : A) → (m s).1 ≡ ok a → Q a (m s).0

continue-Ensures :
    {S E A C : Type 0} {Q : C → S → Type 0} (f : A → Act S E C)
    → ((a : A) → Ensures Q (f a))
    → (r : Result E A) (t : S) (c : C) → (continue r f t).1 ≡ ok c
    → Q c (continue r f t).0
continue-Ensures f k (ok a) t c h = (k a).at t c h
continue-Ensures f k (err e) t c h = cc

pub >>=-Ensures :
    {S E A C : Type 0} {Q : C → S → Type 0} (m : Act S E A) (f : A → Act S E C)
    → ((a : A) → Ensures Q (f a))
    → Ensures Q (m >>= f)
>>=-Ensures m f k = record { at = λ s. continue-Ensures f k (m s).1 (m s).0 }

-- What holds of a result alone.
abbrev pub Gives : {S E A : Type 0} → (A → Type 0) → Act S E A → Type 0
Gives P m = Ensures (λ a s. P a) m

continue-Ensures_given :
    {S E A C : Type 0} {P : A → Type 0} {Q : C → S → Type 0} (f : A → Act S E C)
    → ((a : A) → P a → Ensures Q (f a))
    → (r : Result E A) → ((a : A) → r ≡ ok a → P a)
    → (t : S) (c : C) → (continue r f t).1 ≡ ok c
    → Q c (continue r f t).0
continue-Ensures_given f k (ok a) p t c h = (k a (p a refl)).at t c h
continue-Ensures_given f k (err e) p t c h = cc

pub >>=-Ensures_given :
    {S E A C : Type 0} (P : A → Type 0) {Q : C → S → Type 0} (m : Act S E A) (f : A → Act S E C)
    → Gives P m
    → ((a : A) → P a → Ensures Q (f a))
    → Ensures Q (m >>= f)
>>=-Ensures_given P m f g k = record {
  at = λ s. continue-Ensures_given f k (m s).1 (g.at s) (m s).0;
}

pub lift-Gives : {S E A : Type 0} (r : Result E A) → Gives {S = S} (λ a. r ≡ ok a) (lift r)
lift-Gives r = record { at = λ s a h. h }
