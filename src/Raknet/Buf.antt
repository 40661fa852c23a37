-- ===== src/Raknet/Buf.antt =====
-- `Result<_, E>` of a method that takes `&mut ReadBuf` or `&mut WriteBuf`, with its effect on the
-- buffer, and a third outcome for a panic. No caller looks at a buffer after an `Err`.
use trakt.Base.{◌≡◌, refl, ◌≢◌, Bool, true, false, Option, none, some}
use trakt.Raknet.Bytes.{Bytes}

pub data Outcome (E A : Type 0) : Type 0 where
  done : A → Bytes → Outcome E A
  fail : E → Outcome E A
  panic : Outcome E A

abbrev pub Buf : Type 0 → Type 0 → Type 0
Buf E A = Bytes → Outcome E A

abbrev pub bind : {E A B : Type 0} → Outcome E A → (A → Buf E B) → Outcome E B
bind (done a s) f = f a s
bind (fail e) f = fail e
bind panic f = panic

infixl 5 ◌>>=◌ ◌>>◌
abbrev pub ◌>>=◌ : {E A B : Type 0} → Buf E A → (A → Buf E B) → Buf E B
◌>>=◌ m f s = bind (m s) f

abbrev pub ◌>>◌ : {E A B : Type 0} → Buf E A → Buf E B → Buf E B
◌>>◌ m k s = bind (m s) (λ _. k)

abbrev pub return : {E A : Type 0} → A → Buf E A
return a s = done a s

abbrev pub throw : {E A : Type 0} → E → Buf E A
throw e s = fail e

-- `?` on an error of another type, which `From` converts.
abbrev pub map_err : {E F A : Type 0} → (E → F) → Outcome E A → Outcome F A
map_err f (done a s) = done a s
map_err f (fail e) = fail (f e)
map_err f panic = panic

-- A call of a method of the `bytes` crate that may panic.
abbrev pub or_panic : {E A : Type 0} → Option (A × Bytes) → Outcome E A
or_panic none = panic
or_panic (some (a, s)) = done a s

-- Inversion of a successful bind.
pub bind-eq-done :
    {E A B : Type 0} (o : Outcome E A) (f : A → Buf E B) {b : B} {t : Bytes}
    → bind o f ≡ done b t
    → (a : A) × (s : Bytes) × (o ≡ done a s) × (f a s ≡ done b t)
bind-eq-done (done a s) f h = (a, s, refl, h)
bind-eq-done (fail e) f h = cc
bind-eq-done panic f h = cc

pub bind-ne-panic :
    {E A B : Type 0} (o : Outcome E A) (f : A → Buf E B)
    → o ≢ panic
    → ((a : A) (s : Bytes) → o ≡ done a s → f a s ≢ panic)
    → bind o f ≢ panic
bind-ne-panic (done a s) f h k = k a s refl
bind-ne-panic (fail e) f h k = λ p. cc
bind-ne-panic panic f h k = absurd (h refl)

pub map_err-ne-panic :
    {E F A : Type 0} (f : E → F) (o : Outcome E A) → o ≢ panic → map_err f o ≢ panic
map_err-ne-panic f (done a s) h = λ p. cc
map_err-ne-panic f (fail e) h = λ p. cc
map_err-ne-panic f panic h = absurd (h refl)

-- `return Err(e)` unless the test holds.
abbrev pub ensure : {E : Type 0} → Bool → E → Buf E (Unit {0})
ensure true e s = done tt s
ensure false e s = fail e

-- What is returned, if anything is, has a property.
unfoldable pub Returns : {E A : Type 0} → (A → Type 0) → Outcome E A → Type 0
Returns P (done a s) = P a
Returns P (fail e) = Unit
Returns P panic = Unit

pub bind-Returns :
    {E A B : Type 0} (P : A → Type 0) (Q : B → Type 0) (o : Outcome E A) (f : A → Buf E B)
    → Returns P o
    → ((a : A) (s : Bytes) → P a → Returns Q (f a s))
    → Returns Q (bind o f)
unfolding Returns
bind-Returns P Q (done a s) f h k = k a s h
bind-Returns P Q (fail e) f h k = tt
bind-Returns P Q panic f h k = tt

pub map_err-Returns :
    {E F A : Type 0} (P : A → Type 0) (f : E → F) (o : Outcome E A)
    → Returns P o
    → Returns P (map_err f o)
unfolding Returns
map_err-Returns P f (done a s) h = h
map_err-Returns P f (fail e) h = tt
map_err-Returns P f panic h = tt

pub done-Returns :
    (E : Type 0) {A : Type 0} (P : A → Type 0) (a : A) (s : Bytes)
    → P a
    → Returns {E = E} P (done a s)
unfolding Returns
done-Returns E P a s h = h

-- After a step of which nothing is known.
pub after-Returns :
    {E A B : Type 0} (Q : B → Type 0) (o : Outcome E A) (f : A → Buf E B)
    → ((a : A) (s : Bytes) → Returns Q (f a s))
    → Returns Q (bind o f)
unfolding Returns
after-Returns Q (done a s) f k = k a s
after-Returns Q (fail e) f k = tt
after-Returns Q panic f k = tt
