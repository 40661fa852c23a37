-- ===== src/Proxy/Snapshot/Lookups.antt =====
-- How what the map of src/proxy.rs shows at an address follows from its entries, one by one.
use trakt.Base.{
  [], ℕ, ◌≡◌, refl, sym, ap, ◌∙◌, inl, inr, true, false, Bool-cases, List, ◌∷◌, Option, none, some,
  arith, if◌then◌else◌,
}
use trakt.Raknet.Datatypes.{SocketAddr}
use trakt.Server.{addr_eq, addr_eq→eq, addr_eq_self}
use trakt.Proxy.Client.{is_connected}
use trakt.Proxy.Clients.{RaknetProxy, get_client}
use trakt.Proxy.Snapshot.{register_all}
use trakt.Proxy.Snapshot.Views.{view_in, view}

abbrev pub or_else : Option SocketAddr → Option SocketAddr → Option SocketAddr
or_else none o = o
or_else (some a) o = some a

pub or_else-none : (o : Option SocketAddr) → o ≡ or_else o none
or_else-none none = refl
or_else-none (some a) = refl

-- An address that the list does not have is not that of its first entry either.
pub absent-cons :
    (k a : SocketAddr) (i : ℕ) (clients : List (SocketAddr × ℕ))
    → get_client k ((a, i) ∷ clients) ≡ none
    → (addr_eq k a ≡ false) × (get_client k clients ≡ none)
unfolding get_client
absent-cons k a i clients h = ground (arith, addr_eq→eq k a, addr_eq_self a)

-- A client that is not connected does not show.
pub view_in-skip :
    (s : RaknetProxy) (k a : SocketAddr) (i : ℕ) (clients : List (SocketAddr × ℕ))
    → is_connected (s.at i).stage ≡ false
    → get_client k clients ≡ none
    → view_in s clients a ≡ view_in s ((k, i) ∷ clients) a
unfolding get_client
view_in-skip s k a i clients away free = elim (Bool-cases (addr_eq k a)) [
  | inl same ↦
      let gone : get_client a clients ≡ none =
        ap (λ x. get_client x clients) (sym (addr_eq→eq k a same)) ∙ free in
      rw (same, gone, away) refl
  | inr other ↦ rw other refl
]

-- A connected one shows at its address.
pub view_in-take :
    (s : RaknetProxy) (k a : SocketAddr) (i : ℕ) (clients : List (SocketAddr × ℕ))
    (seen : Option SocketAddr)
    → is_connected (s.at i).stage ≡ true
    → get_client k clients ≡ none
    → (k ≡ a → seen ≡ none)
    → or_else
        (if addr_eq k a then some (s.store.at (s.at i).server).addr else seen)
        (view_in s clients a)
      ≡ or_else seen (view_in s ((k, i) ∷ clients) a)
unfolding get_client
view_in-take s k a i clients seen there free unseen = elim (Bool-cases (addr_eq k a)) [
  | inl same ↦ rw (same, unseen (addr_eq→eq k a same), there) refl
  | inr other ↦ rw other refl
]

-- The registrations at the end show nothing.
pub register_all-view :
    (met : List (SocketAddr × ℕ)) (t : RaknetProxy) (a : SocketAddr)
    → view (register_all met t) a ≡ view t a
unfolding register_all
register_all-view [] t a = refl
register_all-view (m ∷ met) t a = register_all-view met _ a

pub unseen : (t : RaknetProxy) (a : SocketAddr) → t.clients ≡ [] → view t a ≡ none
unfolding get_client
unseen t a e = rw e refl
