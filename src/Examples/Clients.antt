-- ===== src/Examples/Clients.antt =====
-- The clients of the proxy at concrete inputs.
use trakt.Base.{ℕ, ◌<◌, ◌≡◌, refl, ap, ◌≢◌, ◌↔◌, true, false, [], ◌∷◌, some, arith, ◌==◌}
use trakt.Raknet.Datatypes.{SocketAddr, v4}
use trakt.Server.{Store, new_server}
use trakt.Balancer.{round_robin, next, round_robin_loop, count_alive}
use trakt.Health.{check_health, all_joined, join_next, retain_held, Execute, executed}
use trakt.Health.Rounds.{count, execute_lem}
use trakt.Health.Check.{after as health_after}
use trakt.Proxy.Cause
use trakt.Proxy.Client.{handshake, connected, is_present, finished, handle_incoming_server}
use trakt.Proxy.Clients.{
  under_lock, usable, RaknetProxy, get_client, insert_client, new_client, begin_task, remove_task,
  close_task, finish_task, set_client, Reaches, stay, after, recover, begin, datagram, notify,
  timeout, remove, close, finish,
}
use trakt.Proxy.Clients.Counts.{count_upto}
use trakt.Proxy.Clients.Reach.{IsStart, get_client_iff, load_counts}
use trakt.Proxy.Clients.Ends.{Ends, ends_iff}
use trakt.Proxy.Clients.Halt.{IsHalted, deadlocked, halted_forever}
use trakt.Raknet.Message.{from_u8}
use trakt.Proxy.Receive.{handle_recv, call_new_client}
use trakt.Proxy.Receive.Permit.{permit_gone}
use trakt.Proxy.Receive.Routes.{Makes, handle_recv_lem}
use trakt.Raknet.Bytes.{Bytes}
use trakt.Raknet.Endian.{be_bytes}
use trakt.Proxy.Client.{left, after_spying}
use trakt.Proxy.Spy.{spied, disconnect, spy_datagram}
use trakt.Proxy.Spy.Finds.{datagram as datagram_of, frames_bytes, spy_datagram_finds}
use trakt.Examples.Frames.{goodbye, goodbye-IsFrame}
use trakt.Examples.Crate.{std_crate}
use trakt.Examples.Balancing.{address, from_str}

-- The address of a player.
abbrev player : SocketAddr
player = v4 (10 ∷ 0 ∷ 0 ∷ 1 ∷ []) 50000

-- Two servers, and no client yet.
abbrev pub fresh_proxy : RaknetProxy
fresh_proxy = record {
  store = record { at = λ n. new_server (address n); fresh = 2 };
  balancer = record { algo = round_robin 0; servers = 0 ∷ 1 ∷ [] };
  registered = 0 ∷ 1 ∷ [];
  clients = [];
  at = λ i. record {
    addr = player;
    server = 0;
    stage = handshake;
    close_rx = [];
    close_lock = 0;
    phase = finished;
  };
  made = 0;
}

pub fresh_proxy-IsStart : IsStart fresh_proxy
unfolding new_server
fresh_proxy-IsStart = record {
  unmade = refl;
  empty = refl;
  given_out = (omega arith, (omega arith, tt));
  unloaded = λ id lt. refl;
}

-- One client on server 1, whose task has begun.
abbrev playing : RaknetProxy
playing = begin_task 0 (new_client usable true player connected (some 1) fresh_proxy).1

to_playing : Reaches from_str fresh_proxy playing
unfolding new_client under_lock get_client insert_client
to_playing =
    after (after stay (recover usable true player connected 1 (omega arith)))
      (begin 0 (omega arith) refl)

get_client_iff_example : (get_client player playing.clients ≡ some 0) ↔ (
    (0 < playing.made) × (is_present (playing.at 0).phase ≡ true) × ((playing.at 0).addr ≡ player))
get_client_iff_example =
    get_client_iff from_str fresh_proxy playing fresh_proxy-IsStart to_playing player 0

load_counts_example : (playing.store.at 1).load ≡ 1
unfolding new_client under_lock get_client insert_client begin_task count_upto new_server
load_counts_example =
    load_counts from_str fresh_proxy playing fresh_proxy-IsStart to_playing 1 (omega arith)

-- The server is silent, so the task ends: it is about to lower the load, and then it has.
abbrev leaving : RaknetProxy
leaving =
    close_task 0 (remove_task 0 (set_client 0 (record (playing.at 0) { phase = left }) playing))

to_leaving : Reaches from_str fresh_proxy leaving
unfolding new_client under_lock get_client insert_client begin_task remove_task close_task
to_leaving =
    after (after (after to_playing (timeout 0 (omega arith) refl)) (remove 0 (omega arith) refl))
      (close 0 (omega arith) refl)

abbrev gone : RaknetProxy
gone = finish_task 0 leaving

to_gone : Reaches from_str fresh_proxy gone
unfolding new_client under_lock get_client insert_client begin_task remove_task close_task
    finish_task
to_gone = after to_leaving (finish 0 (omega arith) refl)

gone_finished : (i : ℕ) → i < gone.made → (gone.at i).phase ≡ finished
unfolding new_client under_lock get_client insert_client begin_task remove_task close_task
    finish_task
gone_finished i lt = ground arith

permit_gone_example : get_client player gone.clients ≢ some 0
unfolding new_client under_lock get_client insert_client begin_task remove_task close_task
    finish_task
permit_gone_example =
    permit_gone from_str fresh_proxy gone fresh_proxy-IsStart to_gone 0 (omega arith) (omega arith)
      player

-- The first message of a handshake.
handle_recv_lem_example : Makes player true fresh_proxy (
    call_new_client usable true player (handle_recv fresh_proxy player (0x05 ∷ 0 ∷ [])) fresh_proxy)
unfolding from_u8 get_client next round_robin_loop count_alive new_server
handle_recv_lem_example = handle_recv_lem usable true fresh_proxy fresh_proxy player 0x05 (0 ∷ [])

-- The player's notification is in the channel when the server's arrives.
abbrev told : RaknetProxy
told = set_client 0 (record (playing.at 0) { close_rx = Cause.client ∷ [] }) playing

abbrev bye : Bytes
bye = datagram_of 0x84 1 (frames_bytes (goodbye ∷ []))

abbrev locked : RaknetProxy
locked = set_client 0 (handle_incoming_server bye (told.at 0)).0 told

to_locked : Reaches from_str fresh_proxy locked
unfolding new_client under_lock get_client insert_client begin_task
to_locked =
    after (after to_playing (notify 0 Cause.client (omega arith) refl refl))
      (datagram 0 bye (omega arith) refl)

bye_found : spy_datagram bye ≡ spied disconnect
bye_found =
    spy_datagram_finds 0x84 1 (goodbye ∷ []) (omega arith) (omega arith) (goodbye-IsFrame, tt)

locked-IsHalted : IsHalted (locked.at 0)
unfolding handle_incoming_server new_client under_lock get_client insert_client begin_task be_bytes
    spy_datagram
locked-IsHalted = deadlocked Cause.client [] (ap after_spying bye_found) refl

halted_forever_example :
    (locked.at 0 ≡ locked.at 0)
    × (get_client (locked.at 0).addr locked.clients ≡ some 0)
    × (0 < (locked.store.at (locked.at 0).server).load)
unfolding new_client under_lock get_client insert_client begin_task
halted_forever_example =
    halted_forever from_str fresh_proxy locked locked 0 fresh_proxy-IsStart to_locked (omega arith)
      locked-IsHalted stay

-- Server 0 is registered twice, and its pings end with different answers; nobody holds server 1.
abbrev checked : Store
checked = (check_health false 0 (check_health true 0 fresh_proxy.store).0).0

round :
    Execute
      (λ id. id == 0)
      (0 ∷ 1 ∷ 0 ∷ [])
      fresh_proxy.store
      ((0, true) ∷ (0, false) ∷ [])
      (0 ∷ 0 ∷ [])
      checked
unfolding retain_held
round = executed (join_next (0 ∷ []) [] 0 true (join_next [] [] 0 false all_joined))

execute_lem_example :
    (◌≡◌ {A = ℕ} 2 2)
    × (◌≡◌ {A = ℕ} 2 2)
    × ((checked.at 0).health ≡ health_after (fresh_proxy.store.at 0).health (true ∷ false ∷ []))
unfolding count
execute_lem_example =
    execute_lem (λ id. id == 0) (0 ∷ 1 ∷ 0 ∷ []) (0 ∷ 0 ∷ []) ((0, true) ∷ (0, false) ∷ [])
      fresh_proxy.store checked 0 round

ends_iff_example : Ends from_str playing 0 ↔ (¬ IsHalted (playing.at 0))
unfolding new_client under_lock get_client insert_client begin_task
ends_iff_example =
    ends_iff from_str fresh_proxy playing fresh_proxy-IsStart to_playing 0 (omega arith)
