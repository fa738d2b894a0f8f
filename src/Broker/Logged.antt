-- ===== src/Broker/Logged.antt =====
-- Contracts of the capability broker's methods about the calls they make
-- (device/console/src/bin/socket-broker.rs).
use donkeywork_desktop.Base.{
  ℕ, ◌≡◌, refl, Bool, true, false, List, ◌∷◌, Result, ok, err, if◌then◌else◌,
}
use donkeywork_desktop.Base.Actions.{pure, raise, lift, ensure, ◌>>=◌}
use donkeywork_desktop.Base.Contracts.{Contract, Post, >>=-Contract}
use donkeywork_desktop.Broker.Kernel.{
  ErrorKind, Kernel, Call, Worker, Method, written, ask, observe, ask_noted, observe_noted, closed,
}
use donkeywork_desktop.Broker.Serve.{close_on_error, close_after}

abbrev pub Done :
    {X A : Type 0}
    → (A → List Call → Type 0)
    → (List Call → Type 0)
    → Worker X × Result ErrorKind A
    → Type 0
Done Q O r = Post (λ a s. Q a s.calls) (λ s. O s.calls) r

pub record Logged {X A : Type 0} (P : List Call → Type 0) (m : Method X A)
    (Q : A → List Call → Type 0) (O : List Call → Type 0) : Type 0 where
  pub at : (s : Worker X) → P s.calls → Done Q O (m s)

module _ {X A : Type 0} {P O : List Call → Type 0} {Q : A → List Call → Type 0} where
  of_contract :
      {m : Method X A}
      → Contract (λ s. P s.calls) m (λ a s. Q a s.calls) (λ s. O s.calls)
      → Logged P m Q O
  of_contract k = record { at = λ s h. k.at s h }

  to_contract :
      {m : Method X A}
      → Logged P m Q O
      → Contract (λ s. P s.calls) m (λ a s. Q a s.calls) (λ s. O s.calls)
  to_contract k = record { at = λ s h. k.at s h }

module _ {X A : Type 0} {P O : List Call → Type 0} {Q : A → List Call → Type 0} where
  pub pure-Logged : (a : A) → ((c : List Call) → P c → Q a c) → Logged {X = X} P (pure a) Q O
  pure-Logged a p = record { at = λ s h. p s.calls h }

  pub raise-Logged :
      (e : ErrorKind) → ((c : List Call) → P c → O c) → Logged {X = X} P (raise e) Q O
  raise-Logged e p = record { at = λ s h. p s.calls h }

  pub lift-Logged :
      (r : Result ErrorKind A)
      → ((a : A) → r ≡ ok a → (c : List Call) → P c → Q a c)
      → ((c : List Call) → P c → O c)
      → Logged {X = X} P (lift r) Q O
  lift-Logged (ok a) p q = record { at = λ s h. p a refl s.calls h }
  lift-Logged (err e) p q = record { at = λ s h. q s.calls h }

  pub before-Logged :
      {H : List Call → Type 0} {m : Method X A}
      → ((c : List Call) → H c → P c)
      → Logged P m Q O
      → Logged H m Q O
  before-Logged p k = record { at = λ s h. k.at s (p s.calls h) }

  pub if-Logged :
      (b : Bool) (m n : Method X A)
      → (b ≡ true → Logged P m Q O)
      → (b ≡ false → Logged P n Q O)
      → Logged P (if b then m else n) Q O
  if-Logged true m n p q = p refl
  if-Logged false m n p q = q refl

  pub >>=-Logged :
      {B : Type 0} {J : B → List Call → Type 0} {m : Method X B} {f : B → Method X A}
      → Logged P m J O
      → ((b : B) → Logged (J b) (f b) Q O)
      → Logged P (m >>= f) Q O
  >>=-Logged {J} h k =
      of_contract (>>=-Contract {J = λ b s. J b s.calls} (to_contract h) (λ b. to_contract (k b)))

  pub ask_noted-Logged :
      (note : A → Call) (f : X → X × Result ErrorKind A)
      → ((c : List Call) → P c → (a : A) → Q a (note a ∷ c))
      → ((c : List Call) → P c → O c)
      → Logged P (ask_noted note f) Q O
  ask_noted-Logged note f p q = record { at = λ s h. noted (f s.world).0 (f s.world).1 s.calls h }
    where
      noted :
          (x : X) (r : Result ErrorKind A) (c : List Call)
          → P c
          → Done Q O (record { world = x; calls = written note c r }, r)
      noted x (ok a) c h = p c h a
      noted x (err e) c h = q c h

  pub ask-Logged :
      (f : X → X × Result ErrorKind A)
      → ((c : List Call) → P c → (a : A) → Q a c)
      → ((c : List Call) → P c → O c)
      → Logged P (ask f) Q O
  ask-Logged f p q = record { at = λ s h. asked (f s.world).0 (f s.world).1 s.calls h }
    where
      asked :
          (x : X) (r : Result ErrorKind A) (c : List Call)
          → P c
          → Done Q O (record { world = x; calls = c }, r)
      asked x (ok a) c h = p c h a
      asked x (err e) c h = q c h

  pub observe-Logged :
      (f : X → X × A) → ((c : List Call) → P c → (a : A) → Q a c) → Logged P (observe f) Q O
  observe-Logged f p = record { at = λ s h. p s.calls h (f s.world).1 }

  pub observe_noted-Logged :
      (note : A → Call) (f : X → X × A)
      → ((c : List Call) → P c → (a : A) → Q a (note a ∷ c))
      → Logged P (observe_noted note f) Q O
  observe_noted-Logged note f p = record { at = λ s h. p s.calls h (f s.world).1 }

-- The test decides which of the two follows.
pub ensure-Logged :
    {X : Type 0} {P O : List Call → Type 0} {Q : Unit {0} → List Call → Type 0} (b : Bool)
    (e : ErrorKind)
    → (b ≡ true → (c : List Call) → P c → Q tt c)
    → (b ≡ false → (c : List Call) → P c → O c)
    → Logged {X = X} P (ensure b e) Q O
ensure-Logged true e p q = record { at = λ s. p refl s.calls }
ensure-Logged false e p q = record { at = λ s. q refl s.calls }

module _ {X A : Type 0} (K : Kernel X) {P L O : List Call → Type 0}
    {Q : A → List Call → Type 0} where
  -- A descriptor that ends where an error leaves its scope.
  pub close_on_error-Logged :
      (fd : ℕ) (m : Method X A)
      → Logged P m Q L
      → ((c : List Call) → L c → O (closed fd ∷ c))
      → Logged P (λ s. close_on_error K fd (m s)) Q O
  close_on_error-Logged fd m k q = record { at = λ s h. ended (m s).0 (m s).1 (k.at s h) }
    where
      ended :
          (s : Worker X) (r : Result ErrorKind A)
          → Done Q L (s, r)
          → Done Q O (close_on_error K fd (s, r))
      ended s (ok a) h = h
      ended s (err e) h = q s.calls h

-- A descriptor that ends in any case.
pub close_after-Done :
    {X A : Type 0} (K : Kernel X) (J Q : A → List Call → Type 0) (L O : List Call → Type 0) (fd : ℕ)
    (s : Worker X) (r : Result ErrorKind A)
    → ((a : A) (c : List Call) → J a c → Q a (closed fd ∷ c))
    → ((c : List Call) → L c → O (closed fd ∷ c))
    → Done J L (s, r)
    → Done Q O (close_after K fd (s, r))
close_after-Done K J Q L O fd s (ok a) p q h = p a s.calls h
close_after-Done K J Q L O fd s (err e) p q h = q s.calls h

-- What an error leaves, said otherwise.
pub fail_as-Done :
    {X A : Type 0} (Q : A → List Call → Type 0) (L O : List Call → Type 0) (s : Worker X)
    (r : Result ErrorKind A)
    → ((c : List Call) → L c → O c)
    → Done Q L (s, r)
    → Done Q O (s, r)
fail_as-Done Q L O s (ok a) p h = h
fail_as-Done Q L O s (err e) p h = p s.calls h
