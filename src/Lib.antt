-- ===== src/Lib.antt =====
-- trakt: a reverse proxy and load balancer for Minecraft: Bedrock Edition servers.
--
-- Players send UDP datagrams to the proxy (src/proxy.rs). A ping outside a connection is answered by
-- the proxy itself; every other datagram goes to a backend server that the load balancer
-- (src/load_balancer.rs) picked for the player when its connection began. The proxy reads only what
-- it must of RakNet (src/raknet/): the id of a message, and, in datagrams of a connection, the frames,
-- among which it looks for a disconnect notification. The health controller (src/health.rs) pings the
-- servers and keeps the status that the balancer reads.
--
-- The files:
--   Base             names of the libraries, tests on numbers, lists with lengths in native numbers
--   Raknet/Bytes     the `bytes` crate, which is not in this repository: a record of its getters and
--                    putters with their documented laws, an instance argument of all that uses it
--   Raknet/Buf       the reader and writer as state passing: a value and the bytes left, an error, or
--                    a panic, as the getters of the crate have one
--   Raknet/Datatypes src/raknet/datatypes.rs: `ReadBuf::read_*` and `WriteBuf::write_*` under their
--                    names. Children: Laws and Strings (what each read makes of what was written),
--                    Addresses, Guards, Safety and Heads (the reads on any
--                    buffer)
--   Raknet/Version   `ProtocolVersion` of src/raknet/mod.rs
--   Raknet/Message   src/raknet/message/: the trait `Message` as a record, `RaknetMessage`, and the
--                    messages of offline.rs (in Handshake and Offline) and of online.rs as
--                    `serialize_*` and `deserialize_*`; children say what is read back (All) and
--                    what the readers do on any buffer (Offline/Safety, Online/Panics)
--   Raknet/Frame     src/raknet/frame.rs: `serialize_frame`, `deserialize_frame`; children: RoundTrip, and
--                    Panics, Exact and Cut on buffers that end too soon
--   Raknet/Decimal   integers printed and parsed in decimal, as the standard library does
--   Raknet/Motd      src/raknet/ping.rs: `Motd`, `encode_payload`, `decode_payload`; children: RoundTrip,
--                    and Decoded, Strings and Texts on what any payload is decoded to
--   Raknet/Ping      `ping` of the same file: the datagram it sends, and its reading of the answer
--   Config, Server   the records of src/config.rs, and `ConfigProvider` in Config/Provider;
--                    `BackendServer`, and the store that stands for the shared pointers to servers
--   Reflector        src/motd.rs: `execute` as `fetch_round`
--   Scheduler        src/scheduler.rs: `start`, `stop` and `restart`, cut at the points where another
--                    task may run in between, as `perform`, and the steps in Scheduler/Steps
--   Entry            src/main.rs: `startup` is the choice of `main` and `run` between the snapshot and the
--                    configuration file, `command_of` the words of the console, and the steps of
--                    Entry/Steps are the loop over `ctrl_c` and `wait_reload`
--   Balancer         src/load_balancer.rs: `next` with both algorithms, `load_config`, `get_server`
--   Health           src/health.rs: `check_health`, `register_server`, and `execute` as the relation
--                    `Execute`, in which the pings of a round end in any order
--   Proxy/Spy        `spy_datagram` of src/proxy.rs
--   Proxy/Client     `RaknetClient` and `handle_incoming_server`, `handle_incoming_player`
--   Proxy/Clients    the map of clients, `new_client`, and the task of a client as steps of the
--                    relation `Step`; children: Opening and Outcomes (what `new_client` does), Map and
--                    Loads (two invariants), Reach, Distinct, Halt and Ends
--   Proxy/Receive    `handle_recv`: which branch a datagram takes, and the call of `new_client`
--   Proxy/Ping       `handle_unconnected_ping`
--   Proxy/Bind       `RaknetProxy::bind`; children: Start (the state it gives) and Addresses (what the
--                    balancer keeps from then on)
--   Proxy/Snapshot   `load_overview`, `take_snapshot`, `recover_from_snapshot`, and the records of
--                    src/snapshot.rs; children: Recovery and Registered (the recovery as steps), and
--                    Views, Lookups, Joined, Taken, Entries, Recovered and Restored (what comes back
--                    from a snapshot)
--   Examples         concrete inputs for the theorems
--
-- An integer of the source is a native number, its wrap-around and its casts written out; an i64 is
-- the number of its 64 bits. Counters of calls and of tasks (`failed_attempts`, the load of a server,
-- the counts of the overview) have no upper limit: no run brings a `usize` to its end. A string is
-- the list of its UTF-8 bytes. The state that the source keeps behind a mutex is passed along, one
-- method after the other. A shared `Arc<BackendServer>` is a number in a store, so the balancer, the
-- health controller and the clients see each other's writes.
--
-- Loops over lists recurse on the list. The loop of `spy_datagram` has as its fuel the number of
-- bytes; each frame takes at least four, so the fuel is never used up, and the result `stuck` that
-- would say so does not occur. The loop of online.rs over the internal addresses has as much fuel,
-- which does not show in its result.
--
-- The tasks of the proxy are cut at the points where another task may run in between: a step of the
-- relation `Step` of Proxy/Clients is one critical section, and a run is any sequence of steps. A
-- client carries the place where its task is. A channel is the list of what it holds.
--
-- The scheduler's permit is that of a fair semaphore: it goes to the tasks in the order in which they
-- asked for it. A notification of one waiter is kept until it is taken; a notification of all waiters
-- reaches only those that wait.
--
-- Not modelled: sockets, timers, logging, files and their formats, the command line and the reading of
-- the console. What they give is an argument where the code goes on with it.
pub mod Base
pub mod Raknet
pub mod Config
pub mod Reflector
pub mod Server
pub mod Balancer
pub mod Health
pub mod Scheduler
pub mod Proxy
pub mod Entry
pub mod Examples
