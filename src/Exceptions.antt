-- ===== src/Exceptions.antt =====
-- The exceptions of LibraryException.h, CommandFailedException.h, LongOperationInProgressException.h
-- and DeviceCommunicationExceptions.h, and calls that may throw one. A throw keeps the state that
-- was reached, since nothing is rolled back.
pub mod Messages
pub mod Reasons
use mathlib.Core.Path.{◌≡◌, refl, ◌∙◌, subst}
use libnitrokey.Prelude.{ℕ, Bool, true, false, if◌then◌else◌}
use libnitrokey.Prelude.Int.{ℤ}

pub data Exception : Type 0 where
  -- the source's size and the target's
  target_buffer_smaller_than_source : ℕ → ℕ → Exception
  too_long_string : ℕ → ℕ → Exception
  invalid_hex_string : ℕ → Exception
  invalid_slot : ℕ → Exception
  -- last_command_id, last_command_status and, for the second, progress_bar_value
  command_failed : ℕ → ℕ → Exception
  long_operation_in_progress : ℕ → ℕ → ℕ → Exception
  device_not_connected : Exception
  device_sending_failure : ℤ → Exception
  device_receiving_failure : Exception
  invalid_crc_received : Exception
  -- `std::runtime_error`, and `std::logic_error` with its subclasses
  runtime_error : Exception
  logic_error : Exception

pub data Result (A : Type 0) : Type 0 where
  ok : A → Result A
  err : Exception → Result A

abbrev pub Action : Type 0 → Type 0 → Type 0
Action S A = S → Result A × S

module _ {S : Type 0} {A : Type 0} where
  abbrev pub pure : A → Action S A
  pure a s = (ok a, s)

  abbrev pub throw : Exception → Action S A
  throw e s = (err e, s)

  abbrev pub gets : (S → A) → Action S A
  gets f s = (ok (f s), s)

  -- A computation that cannot touch the state.
  abbrev pub lift : Result A → Action S A
  lift r s = (r, s)

module _ {S : Type 0} where
  abbrev pub modify : (S → S) → Action S (Unit {0})
  modify f s = (ok tt, f s)

  abbrev pub throw_if : Bool → Exception → Action S (Unit {0})
  throw_if true e = throw e
  throw_if false e = pure tt

  abbrev pub when : Bool → Action S (Unit {0}) → Action S (Unit {0})
  when true m = m
  when false m = pure tt

abbrev pub then_call : {S A B : Type 0} → (A → Action S B) → Result A × S → Result B × S
then_call f (ok a, s) = f a s
then_call f (err e, s) = (err e, s)

infixl 5 ◌>>=◌ ◌>>◌
abbrev pub ◌>>=◌ : {S A B : Type 0} → Action S A → (A → Action S B) → Action S B
◌>>=◌ m f s = then_call f (m s)

abbrev pub ◌>>◌ : {S A B : Type 0} → Action S A → Action S B → Action S B
m >> k = m >>= λ _. k

-- What holds of a call that returns normally.
abbrev pub Yields : {S A : Type 0} → (A → S → Type 0) → Result A × S → Type 0
Yields P (ok a, s) = P a s
Yields P (err e, s) = Unit

pub then_call-Yields :
    {S A B : Type 0} (P : B → S → Type 0) (r : Result A × S) (f : A → Action S B)
    → ((a : A) (s : S) → Yields P (f a s))
    → Yields P (then_call f r)
then_call-Yields P (ok a, s) f h = h a s
then_call-Yields P (err e, s) f h = tt

pub Yields-ok :
    {S A : Type 0} (P : A → S → Type 0) (r : Result A × S) {a : A} {s : S}
    → Yields P r
    → r ≡ (ok a, s)
    → P a s
Yields-ok P r h e = subst (Yields P) e h

-- What holds of the state that a call leaves, whether it returns or throws.
pub then_call-state :
    {S A B : Type 0} (P : S → Type 0) (r : Result A × S) (f : A → Action S B)
    → P r.1
    → ((a : A) → P (f a r.1).1)
    → P (then_call f r).1
then_call-state P (ok a, s) f p h = h a
then_call-state P (err e, s) f p h = p

-- What every throw of a call is.
abbrev pub Throws : {S A : Type 0} → (Exception → Type 0) → Result A × S → Type 0
Throws P (ok a, s) = Unit
Throws P (err e, s) = P e

pub then_call-Throws :
    {S A B : Type 0} (P : Exception → Type 0) (r : Result A × S) (f : A → Action S B)
    → Throws P r
    → ((a : A) (s : S) → Throws P (f a s))
    → Throws P (then_call f r)
then_call-Throws P (ok a, s) f p h = h a s
then_call-Throws P (err e, s) f p h = p

-- A call leaves a view of the state alone, whether it returns or throws.
abbrev pub Keeps : {S T A : Type 0} → (S → T) → Action S A → Type 0
Keeps {S} view m = (s : S) → view (m s).1 ≡ view s

then_call-view :
    {S T A B : Type 0} (view : S → T) (f : A → Action S B) (t : T) (r : Result A × S)
    → view r.1 ≡ t
    → ((a : A) → Keeps view (f a))
    → view (then_call f r).1 ≡ t
then_call-view view f t (ok a, s) e h = h a s ∙ e
then_call-view view f t (err x, s) e h = e

pub >>=-Keeps :
    {S T A B : Type 0} (view : S → T) (m : Action S A) (f : A → Action S B)
    → Keeps view m
    → ((a : A) → Keeps view (f a))
    → Keeps view (m >>= f)
>>=-Keeps view m f k h s = then_call-view view f (view s) (m s) (k s) h

pub when-Keeps :
    {S T : Type 0} (view : S → T) (b : Bool) (m : Action S (Unit {0}))
    → Keeps view m
    → Keeps view (when b m)
when-Keeps view true m k s = k s
when-Keeps view false m k s = refl

pub if-Keeps :
    {S T A : Type 0} (view : S → T) (b : Bool) (m k : Action S A)
    → Keeps view m
    → Keeps view k
    → Keeps view (if b then m else k)
if-Keeps view true m k p q s = p s
if-Keeps view false m k p q s = q s

-- The same with what is known of the first call.
pub then_call-Yields_of :
    {S A B : Type 0} (Q : A → S → Type 0) (P : B → S → Type 0) (r : Result A × S)
    (f : A → Action S B)
    → Yields Q r
    → ((a : A) (s : S) → Q a s → Yields P (f a s))
    → Yields P (then_call f r)
then_call-Yields_of Q P (ok a, s) f q h = h a s q
then_call-Yields_of Q P (err e, s) f q h = tt

pub Yields-Keeps :
    {S T A : Type 0} (view : S → T) (m : Action S A) (s : S) {t : T}
    → Keeps view m
    → view s ≡ t
    → Yields (λ a s'. view s' ≡ t) (m s)
Yields-Keeps {S} {T} {A} view m s {t} k e = go (m s) (k s ∙ e)
  where
    go : (r : Result A × S) → view r.1 ≡ t → Yields (λ a s'. view s' ≡ t) r
    go (ok a, s') e' = e'
    go (err x, s') e' = tt

pub then_call-Throws_of :
    {S A B : Type 0} (Q : A → S → Type 0) (P : Exception → Type 0) (r : Result A × S)
    (f : A → Action S B)
    → Yields Q r
    → Throws P r
    → ((a : A) (s : S) → Q a s → Throws P (f a s))
    → Throws P (then_call f r)
then_call-Throws_of Q P (ok a, s) f q p h = h a s q
then_call-Throws_of Q P (err e, s) f q p h = p

pub Throws-imp :
    {S A : Type 0} (P Q : Exception → Type 0) (r : Result A × S)
    → ((e : Exception) → P e → Q e)
    → Throws P r
    → Throws Q r
Throws-imp P Q (ok a, s) h p = tt
Throws-imp P Q (err e, s) h p = h e p

pub Yields-imp :
    {S A : Type 0} (P Q : A → S → Type 0) (r : Result A × S)
    → ((a : A) (s : S) → P a s → Q a s)
    → Yields P r
    → Yields Q r
Yields-imp P Q (ok a, s) h p = h a s p
Yields-imp P Q (err e, s) h p = tt
