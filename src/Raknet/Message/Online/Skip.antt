-- ===== src/Raknet/Message/Online/Skip.antt =====
-- The loop over the internal addresses in src/raknet/message/online.rs, and its fuel.
use trakt.Base.{
  ℕ, zero, suc, ◌+◌, ◌≤◌, ◌<◌, ◌≡◌, refl, ap, sym, append-nil, ◌∙◌, Bool-cases, inl, inr, false, [],
  ◌∷◌, ◌++◌, length, length-append, append_assoc, ltb, ◌==◌, arith,
}
use trakt.Raknet.Bytes.{Bytes, BytesCrate}
use trakt.Raknet.Buf.{Buf, Outcome, done, fail, panic, bind, return}
use trakt.Raknet.Datatypes.{SocketAddr, read_address}
use trakt.Raknet.Datatypes.Guards.{Takes, Takes-later, bind-Takes, map_err-Takes}
use trakt.Raknet.Datatypes.Safety.{read_address-Takes}
use trakt.Raknet.Datatypes.Addresses.{
  IsAddress, address_bytes, length-address_bytes, read_address_lem, write_address_lem,
}
use trakt.Raknet.Message.{MessageError, buf_error, up}
use trakt.Raknet.Message.Online.{after_address, skip_addresses, skip_all, write_addresses}
use native.Mathlib.Decide.{dec_lt}

module _ ⦃crate : BytesCrate⦄ where
  -- Two continuations that agree on shorter buffers cannot be told apart.
  same_rounds :
      (s : Bytes) (o : Outcome MessageError SocketAddr) (f g : Buf MessageError (Unit {0}))
      → Takes 7 s o
      → ((t : Bytes) → length t + 7 ≤ length s → f t ≡ g t)
      → bind o (λ a t. after_address f t) ≡ bind o (λ a t. after_address g t)
  unfolding after_address
  same_rounds s (done a t) f g h e = rw (e t h) refl
  same_rounds s (fail e') f g h e = refl
  same_rounds s panic f g h e = refl

  -- More fuel than bytes changes nothing: the result is that of the loop of the source, which has no
  -- bound on its rounds.
  skip_addresses-fuel :
      (n : ℕ) (s : Bytes) → length s ≤ n → skip_addresses (suc n) s ≡ skip_addresses n s
  unfolding skip_addresses
  skip_addresses-fuel zero s h =
      same_rounds s (up read_address s) (skip_addresses zero) (return tt)
        (map_err-Takes buf_error 7 s (read_address s) (read_address-Takes s))
        (λ t le. absurd (omega arith))
  skip_addresses-fuel (suc n) s h =
      same_rounds s (up read_address s) (skip_addresses (suc n)) (skip_addresses n)
        (map_err-Takes buf_error 7 s (read_address s) (read_address-Takes s))
        (λ t le. skip_addresses-fuel n t (omega arith))

  after-Takes :
      (onward : Buf MessageError (Unit {0})) (t : Bytes)
      → Takes 0 t (onward t)
      → Takes 0 t (after_address onward t)
  unfolding after_address
  after-Takes onward t h = elim (Bool-cases (length t == 16)) [
    | inl yes_ ↦ rw yes_ (omega arith)
    | inr no_ ↦
        rw no_
          (elim (Bool-cases (ltb (length t) 16)) [ inl short ↦ rw short tt | inr more ↦ rw more h ])
  ]

  skip_addresses-Takes : (n : ℕ) (s : Bytes) → Takes 7 s (skip_addresses n s)
  unfolding skip_addresses
  skip_addresses-Takes zero s =
      bind-Takes 7 0 7 s (up read_address s) _ (omega arith)
        (map_err-Takes buf_error 7 s (read_address s) (read_address-Takes s))
        (λ a t. after-Takes (return tt) t (omega arith))
  skip_addresses-Takes (suc n) s =
      bind-Takes 7 0 7 s (up read_address s) _ (omega arith)
        (map_err-Takes buf_error 7 s (read_address s) (read_address-Takes s))
        (λ a t.
          after-Takes (skip_addresses n) t
            (Takes-later 7 0 t t _ (omega arith) (skip_addresses-Takes n t)))

  after_last :
      (f : Buf MessageError (Unit {0})) (t : Bytes) → length t ≡ 16 → after_address f t ≡ done tt t
  unfolding after_address
  after_last f t e = rw e refl

  after_one :
      (f : Buf MessageError (Unit {0})) (t : Bytes) → 16 < length t → after_address f t ≡ f t
  unfolding after_address
  after_one f t h =
      let differ : (length t == 16) ≡ false = ground arith in
      let more : ltb (length t) 16 ≡ false = ground arith in rw (differ, more) refl

  unfoldable pub copies : ℕ → SocketAddr → Bytes
  copies zero a = []
  copies (suc n) a = address_bytes a ++ copies n a

  longer :
      (n : ℕ) (a : SocketAddr) (tail : Bytes)
      → IsAddress a
      → length tail ≡ 16
      → 16 < length (copies (suc n) a ++ tail)
  unfolding copies
  longer n a tail ok e = omega (
    arith,
    length-append (copies (suc n) a) tail,
    length-append (address_bytes a) (copies n a),
    length-address_bytes a ok,
  )

  -- One address and `n` more, before 16 bytes.
  skip_copies :
      (n fuel : ℕ) (a : SocketAddr) (tail : Bytes)
      → IsAddress a
      → length tail ≡ 16
      → n ≤ fuel
      → skip_addresses fuel (copies (suc n) a ++ tail) ≡ done tt tail
  unfolding skip_addresses copies
  skip_copies zero zero a tail ok e h =
      rw (append_assoc (address_bytes a) [] tail, read_address_lem a tail ok)
        (after_last (return tt) tail e)
  skip_copies zero (suc fuel) a tail ok e h =
      rw (append_assoc (address_bytes a) [] tail, read_address_lem a tail ok)
        (after_last (skip_addresses fuel) tail e)
  skip_copies (suc n) zero a tail ok e h = absurd (omega arith)
  skip_copies (suc n) (suc fuel) a tail ok e h =
      rw
        (
          append_assoc (address_bytes a) (copies (suc n) a) tail,
          read_address_lem a (copies (suc n) a ++ tail) ok,
        )
        (after_one (skip_addresses fuel) (copies (suc n) a ++ tail) (longer n a tail ok e)
          ∙ skip_copies n fuel a tail ok e (omega arith))

  -- Ten addresses and 16 bytes, with the fuel that the source's loop needs.
  pub skip_all_ten :
      (a : SocketAddr) (tail : Bytes)
      → IsAddress a
      → length tail ≡ 16
      → skip_all (copies 10 a ++ tail) ≡ done tt tail
  unfolding skip_all
  skip_all_ten a tail ok e =
      skip_copies 9 (length (copies 10 a ++ tail)) a tail ok e (omega (arith, longer 9 a tail ok e))

  pub write_addresses_lem :
      (n : ℕ) (a : SocketAddr) (s : Bytes) → write_addresses n a s ≡ done tt (s ++ copies n a)
  unfolding write_addresses copies
  write_addresses_lem zero a s = ap (done tt) (sym (append-nil s))
  write_addresses_lem (suc n) a s = rw (write_address_lem a s) (
      write_addresses_lem n a (s ++ address_bytes a)
      ∙ ap (done tt) (append_assoc s (address_bytes a) (copies n a)))

  skip_enough :
      (n : ℕ) (s : Bytes) → length s ≤ n → skip_addresses n s ≡ skip_addresses (length s) s
  skip_enough zero s h = let e : length s ≡ 0 = omega arith in rw e refl
  skip_enough (suc n) s h = elim (dec_lt (length s) (suc n)) [
    | yes less ↦ skip_addresses-fuel n s (omega arith) ∙ skip_enough n s (omega arith)
    | no all ↦ let e : length s ≡ suc n = omega arith in rw e refl
  ]

  -- The loop over the internal addresses ends on every buffer, and does not panic. Its fuel does not
  -- show: it satisfies the equation of the loop of the source, which has no bound on its rounds.
  pub skip_all_loop :
      (s : Bytes)
      → Takes 7 s (skip_all s)
        × (skip_all s ≡ bind (up read_address s) (λ a t. after_address skip_all t))
  unfolding skip_all
  skip_all_loop s = (skip_addresses-Takes (length s) s, rounds s)
    where
      read : (s : Bytes) → Takes 7 s (up read_address s)
      read s = map_err-Takes buf_error 7 s (read_address s) (read_address-Takes s)

      rounds :
          (s : Bytes)
          → skip_addresses (length s) s
            ≡ bind (up read_address s) (λ a t. after_address (λ u. skip_addresses (length u) u) t)
      rounds [] =
          unfold skip_addresses in
          same_rounds [] (up read_address []) (return tt) (λ u. skip_addresses (length u) u)
            (read []) (λ t le. absurd (omega arith))
      rounds (b ∷ bs) =
          unfold skip_addresses in
          same_rounds (b ∷ bs) (up read_address (b ∷ bs)) (skip_addresses (length bs))
            (λ u. skip_addresses (length u) u) (read (b ∷ bs))
            (λ t le. skip_enough (length bs) t (omega arith))
