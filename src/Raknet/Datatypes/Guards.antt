-- ===== src/Raknet/Datatypes/Guards.antt =====
-- `read_guard!` of src/raknet/datatypes.rs and a read behind it, on any buffer.
use trakt.Base.{
  ℕ, ◌+◌, ◌≤◌, ◌≡◌, ap, ◌∙◌, sym, Option, some, arith, length, take, drop, take-append-drop,
  length-take_le, length-drop,
}
use trakt.Raknet.Bytes.{Bytes, Gets}
use trakt.Raknet.Endian.{be_value}
use trakt.Raknet.Buf.{Buf, Outcome, done, fail, panic, bind, or_panic, map_err}
use trakt.Raknet.Datatypes.{BufError, read_guard}
use trakt.Raknet.Datatypes.Laws.{read_guard_enough, read_guard_short}
use native.Mathlib.Decide.{dec_lt}

-- From the buffer `s`: no panic, and a success has taken `n` bytes or more.
abbrev pub Takes : {E A : Type 0} → ℕ → Bytes → Outcome E A → Type 0
Takes n s (done a t) = length t + n ≤ length s
Takes n s (fail e) = Unit {0}
Takes n s panic = ⊥

-- What follows a read that left `t` may count the bytes taken before it.
pub Takes-later :
    {E A : Type 0} (n k : ℕ) (s t : Bytes) (o : Outcome E A)
    → length t + k ≤ length s + n
    → Takes n t o
    → Takes k s o
Takes-later n k s t (done a u) le h = omega arith
Takes-later n k s t (fail e) le h = tt
Takes-later n k s t panic le h = h

pub bind-Takes :
    {E A B : Type 0} (m n k : ℕ) (s : Bytes) (o : Outcome E A) (f : A → Buf E B)
    → k ≤ m + n
    → Takes m s o
    → ((a : A) (t : Bytes) → Takes n t (f a t))
    → Takes k s (bind o f)
bind-Takes m n k s (done a t) f le h g = Takes-later n k s t (f a t) (omega arith) (g a t)
bind-Takes m n k s (fail e) f le h g = tt
bind-Takes m n k s panic f le h g = h

pub map_err-Takes :
    {E F A : Type 0} (f : E → F) (n : ℕ) (s : Bytes) (o : Outcome E A)
    → Takes n s o
    → Takes n s (map_err f o)
map_err-Takes f n s (done a t) h = h
map_err-Takes f n s (fail e) h = tt
map_err-Takes f n s panic h = h

-- A read behind a guard: the guard answers for the rest, or there is enough.
pub read_guard-Takes :
    {A : Type 0} (n k : ℕ) (s : Bytes) (f : Buf BufError A)
    → (n ≤ length s → Takes k s (f s))
    → Takes k s (bind (read_guard n s) (λ _. f))
read_guard-Takes n k s f h = elim (dec_lt (length s) n) [
  | yes short ↦ rw (read_guard_short n s short) tt
  | no enough ↦ rw (read_guard_enough n s (omega arith)) (h (omega arith))
]

-- What a getter does on a buffer that is long enough, whatever it holds.
pub get_enough :
    (n : ℕ) (get : Bytes → Option (ℕ × Bytes)) (s : Bytes)
    → Gets n get
    → n ≤ length s
    → get s ≡ some (be_value (take n s), drop n s)
get_enough n get s g h =
    ap get (sym (take-append-drop n s)) ∙ g.0 (take n s) (drop n s) (length-take_le n s h)

pub guarded_get-Takes :
    (n : ℕ) (get : Bytes → Option (ℕ × Bytes)) (s : Bytes)
    → Gets n get
    → Takes n s (bind (read_guard n s) (λ _ t. or_panic {E = BufError} (get t)))
guarded_get-Takes n get s g =
    read_guard-Takes n n s (λ t. or_panic (get t))
      λ h. rw (get_enough n get s g h) (omega (arith, length-drop n s))

-- The same with the exact number of bytes.
abbrev pub TakesExactly : {E A : Type 0} → ℕ → Bytes → Outcome E A → Type 0
TakesExactly n s (done a t) = length t + n ≡ length s
TakesExactly n s (fail e) = Unit {0}
TakesExactly n s panic = ⊥

pub map_err-TakesExactly :
    {E F A : Type 0} (f : E → F) (n : ℕ) (s : Bytes) (o : Outcome E A)
    → TakesExactly n s o
    → TakesExactly n s (map_err f o)
map_err-TakesExactly f n s (done a t) h = h
map_err-TakesExactly f n s (fail e) h = tt
map_err-TakesExactly f n s panic h = h

pub read_guard-TakesExactly :
    {A : Type 0} (n : ℕ) (s : Bytes) (f : Buf BufError A)
    → (n ≤ length s → TakesExactly n s (f s))
    → TakesExactly n s (bind (read_guard n s) (λ _. f))
read_guard-TakesExactly n s f h = elim (dec_lt (length s) n) [
  | yes short ↦ rw (read_guard_short n s short) tt
  | no enough ↦ rw (read_guard_enough n s (omega arith)) (h (omega arith))
]
