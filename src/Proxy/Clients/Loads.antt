-- ===== src/Proxy/Clients/Loads.antt =====
-- The loads of the servers, which src/proxy.rs counts up and down, under every step.
use trakt.Base.{
  ℕ, ◌≤◌, ◌<◌, ◌≡◌, refl, sym, ◌∙◌, inl, inr, Bool, true, ◌&&◌, List, [], ◌∷◌, Option, none, some,
  arith, ◌==◌,
}
use trakt.Config.{Text}
use trakt.Raknet.Bytes.{BytesCrate}
use trakt.Raknet.Datatypes.{SocketAddr}
use trakt.Server.{Store, alloc, new_server}
use trakt.Health.{check_health}
use trakt.Balancer.Member.{next-All}
use trakt.Balancer.Reload.Search.{Allocated}
use trakt.Balancer.Reload.Fresh.{Extends, alloc-Extends, load_config-Extends, load_config-Allocated}
use trakt.Proxy.Client.{ConnectionStage, spawned, notified, RaknetClient}
use trakt.Proxy.Client.{is_counted}
use trakt.Proxy.Client.Handled.{handled_counted, handled_server}
use trakt.Proxy.Clients.{
  Socket, RaknetProxy, set_client, insert_client, new_client, begin_task, remove_task, close_task,
  finish_task, reload_config, Step, connect, recover, stale, begin, datagram, send, notify, recv,
  timeout, remove, close, finish, register, check, reload,
}
use trakt.Proxy.Clients.Counts.{
  count_upto, count_upto-skip, count_upto-ext, count_upto-change, count_upto-none,
}
use trakt.Proxy.Clients.Opening.{new_client-Opens, Given}
use native.Mathlib.Decide.{dec_lt}

abbrev pub works_on : RaknetProxy → ℕ → ℕ → Bool
works_on s id j = is_counted (s.at j).phase && ((s.at j).server == id)

pub record IsLoaded (s : RaknetProxy) : Type 0 where
  pub allocated : Allocated s.store s.balancer.servers
  pub assigned : (j : ℕ) → j < s.made → (s.at j).server < s.store.fresh
  pub loads :
      (id : ℕ) → id < s.store.fresh → (s.store.at id).load ≡ count_upto (works_on s id) s.made

Allocated-weaken :
    (s t : Store) (ids : List ℕ) → Allocated s ids → s.fresh ≤ t.fresh → Allocated t ids
Allocated-weaken s t [] h le = tt
Allocated-weaken s t (x ∷ ids) h le = (omega (arith, h.0), Allocated-weaken s t ids h.1 le)

-- A step that counts every client as before, and touches no load.
keep :
    (s t : RaknetProxy)
    → t.balancer.servers ≡ s.balancer.servers
    → t.store.fresh ≡ s.store.fresh
    → t.made ≡ s.made
    → ((j : ℕ) → (t.at j).server ≡ (s.at j).server)
    → ((j : ℕ) → is_counted (t.at j).phase ≡ is_counted (s.at j).phase)
    → ((id : ℕ) → (t.store.at id).load ≡ (s.store.at id).load)
    → IsLoaded s
    → IsLoaded t
keep s t b f m sv p l inv = record {
  allocated = rw (b, f) inv.allocated;
  assigned = λ j lt. rw (sv j, f) (inv.assigned j (rw (sym m) lt));
  loads = λ id lt.
      l id
      ∙ (inv.loads id (rw (sym f) lt)
          ∙ rw m
              (count_upto-ext (works_on s id) (works_on t id) s.made (λ j h. rw (p j, sv j) refl)));
}

insert-IsLoaded :
    (s : RaknetProxy) (addr : SocketAddr) (stage : ConnectionStage) (id : ℕ)
    → id < s.store.fresh
    → IsLoaded s
    → IsLoaded (insert_client addr stage id s)
unfolding insert_client count_upto
insert-IsLoaded s addr stage id old inv = record {
  allocated = inv.allocated;
  assigned = λ j lt. ground (arith, inv.assigned j);
  loads = λ k lt.
      inv.loads k lt
      ∙ count_upto-ext (works_on s k) (works_on (insert_client addr stage id s) k) s.made
          (λ j h. ground arith)
      ∙ sym (count_upto-skip (works_on (insert_client addr stage id s) k) s.made (ground arith));
}

-- The store may grow, and the balancer may take other servers.
extend :
    (s t : RaknetProxy)
    → Extends s.store t.store
    → Allocated t.store t.balancer.servers
    → t.made ≡ s.made
    → ((j : ℕ) → t.at j ≡ s.at j)
    → IsLoaded s
    → IsLoaded t
extend s t e a m c inv = record {
  allocated = a;
  assigned = λ j lt. rw (c j) (omega (arith, inv.assigned j (rw (sym m) lt), e.grown));
  loads = λ id lt. elim (dec_lt id s.store.fresh) [
    | yes old ↦
        rw (e.kept id old, m)
          (inv.loads id old
            ∙ count_upto-ext (works_on s id) (works_on t id) s.made (λ j h. rw (c j) refl))
    | no new ↦
        rw (e.unloaded id (omega arith) lt, m)
          (sym (
            count_upto-none (works_on t id) s.made
              (λ j h. rw (c j) (ground (arith, inv.assigned j h)))))
  ];
}

-- One client comes to count, or to count no more, and the load of its server follows.
begin-IsLoaded :
    (s : RaknetProxy) (i : ℕ)
    → i < s.made
    → (s.at i).phase ≡ spawned
    → IsLoaded s
    → IsLoaded (begin_task i s)
unfolding begin_task
begin-IsLoaded s i lt e inv = record {
  allocated = inv.allocated;
  assigned = λ j h. ground (arith, inv.assigned j);
  loads = λ id h.
      let change =
        count_upto-change (works_on s id) (works_on (begin_task i s) id) i s.made lt
          (λ j d. ground arith) in
      let before = inv.loads id h in ground arith;
}

finish-IsLoaded :
    (s : RaknetProxy) (i : ℕ)
    → i < s.made
    → (s.at i).phase ≡ notified
    → IsLoaded s
    → IsLoaded (finish_task i s)
unfolding finish_task
finish-IsLoaded s i lt e inv = record {
  allocated = inv.allocated;
  assigned = λ j h. ground (arith, inv.assigned j);
  loads = λ id h.
      let change =
        count_upto-change (works_on s id) (works_on (finish_task i s) id) i s.made lt
          (λ j d. ground arith) in
      let before = inv.loads id h in ground arith;
}

new_client-IsLoaded :
    (bound : Socket) (announced : Bool) (addr : SocketAddr) (stage : ConnectionStage)
    (server : Option ℕ) (s : RaknetProxy)
    → ((id : ℕ) → server ≡ some id → id < s.store.fresh)
    → IsLoaded s
    → IsLoaded (new_client bound announced addr stage server s).1
new_client-IsLoaded bound announced addr stage server s old inv =
    let (b, same, out) = new_client-Opens bound announced addr stage server s in
    let u : RaknetProxy = record s { balancer = b } in
    let u-IsLoaded : IsLoaded u =
      keep s u same refl refl (λ j. refl) (λ j. refl) (λ id. refl) inv in
    elim out [
      | inl e ↦ rw e u-IsLoaded
      | inr (id, free, given, e) ↦
          rw e (insert-IsLoaded u addr stage id (given_old s server id old inv given) u-IsLoaded)
    ]
  where
    given_old :
        (s : RaknetProxy) (server : Option ℕ) (id : ℕ)
        → ((k : ℕ) → server ≡ some k → k < s.store.fresh)
        → IsLoaded s
        → Given s server id
        → id < s.store.fresh
    given_old s server id old inv (inl asked) = old id asked
    given_old s server id old inv (inr found) =
        next-All (λ k. k < s.store.fresh) s.store s.balancer {id = id} inv.allocated found

-- A step that writes one client, and neither its server nor whether it counts.
same_task :
    (s : RaknetProxy) (i : ℕ) (c : RaknetClient)
    → c.server ≡ (s.at i).server
    → is_counted c.phase ≡ is_counted (s.at i).phase
    → IsLoaded s
    → IsLoaded (set_client i c s)
same_task s i c sv p inv =
    keep s _ refl refl refl (λ j. ground arith) (λ j. ground arith) (λ id. refl) inv

module _ ⦃crate : BytesCrate⦄ (from_str : Text → Option SocketAddr) where
  pub step-IsLoaded : (s t : RaknetProxy) → Step from_str s t → IsLoaded s → IsLoaded t
  step-IsLoaded s t (connect bound announced addr stage) inv =
      new_client-IsLoaded bound announced addr stage none s (λ id e. absurd (cc e)) inv
  step-IsLoaded s t (recover bound announced addr stage id old) inv =
      new_client-IsLoaded bound announced addr stage (some id) s
        (λ k e. let same : id ≡ k = cc in rw (sym same) old) inv
  step-IsLoaded s t (stale addr) inv =
      extend s _ (alloc-Extends s.store addr)
        (Allocated-weaken s.store (alloc s.store (new_server addr)) s.balancer.servers inv.allocated
          (alloc-Extends s.store addr).grown)
        refl (λ j. refl) inv
  step-IsLoaded s t (begin i lt e) inv = begin-IsLoaded s i lt e inv
  step-IsLoaded s t (datagram i received lt e) inv =
      same_task s i _ (handled_server received (s.at i)) (handled_counted received (s.at i) e) inv
  step-IsLoaded s t (send i lt e empty) inv = same_task s i _ refl (rw e refl) inv
  step-IsLoaded s t (notify i cause lt alive empty) inv = same_task s i _ refl refl inv
  step-IsLoaded s t (recv i cause causes lt e full) inv = same_task s i _ refl (rw e refl) inv
  step-IsLoaded s t (timeout i lt e) inv = same_task s i _ refl (rw e refl) inv
  step-IsLoaded s t (remove i lt e) inv =
      unfold remove_task in
      keep s _ refl refl refl (λ j. ground arith) (λ j. ground arith) (λ id. refl) inv
  step-IsLoaded s t (close i lt e) inv = unfold close_task in same_task s i _ refl (rw e refl) inv
  step-IsLoaded s t (finish i lt e) inv = finish-IsLoaded s i lt e inv
  step-IsLoaded s t (register id) inv =
      keep s _ refl refl refl (λ j. refl) (λ j. refl) (λ k. refl) inv
  step-IsLoaded s t (check success id) inv =
      unfold check_health in keep s _ refl refl refl (λ j. refl) (λ j. refl) (λ k. ground arith) inv
  step-IsLoaded s t (reload config) inv =
      unfold reload_config in
      extend s _ (load_config-Extends from_str config true s.store s.balancer s.registered)
        (load_config-Allocated from_str config true s.store s.balancer s.registered inv.allocated)
        refl (λ j. refl) inv
