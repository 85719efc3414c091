-- ===== src/Lib.antt =====
-- Verification of the Redis server of this repository.
--
-- The program. A connection (handle_client in src/main.rs) reads bytes, splits them into RESP
-- values (src/resp.rs, over the combinators of src/parser.rs), turns each into a Command
-- (src/command.rs) and routes it by the connection's mode (ClientRunMode::run in src/client.rs): it
-- answers by itself, queues the command, or sends it to the one task that owns the Store
-- (src/main.rs), which runs try_execute and answers over a channel. The store holds strings, lists
-- and streams, the clients that blocking commands wait for, the sorted sets (src/sorted_sets.rs)
-- and the subscriptions to channels (src/pubsub.rs).
--
-- The files.
--   Prelude and its children: names passed on, Boolean tests, lists over the native numbers, signed
--     integers by their sign, byte strings, and dictionaries as association lists with their laws.
--   Number: decimal printing and the integer parsers of the standard library, u64 and i64, with
--     overflow as an error. Number.RoundTrip reads back what is printed.
--   Utf8: whether bytes are UTF-8.
--   Parser: ParseResult as the type Outcome (a value with the rest, an error, a panic), Parser as
--     a function. Slices, Combinators, Numeric, Float and LengthEncoded hold the parsers of
--     src/parser.rs by their names; a macro and! of n parsers is and2, and3 or and5, or! is or2,
--     or3 or or4. Reads is about printed input, Shrinks about the length of what parsers leave.
--   Resp: the enum Resp (Resps is its vector). Resp.Encode has encode_resp, Resp.Decode the
--     parsers, Resp.Length, Resp.Progress, Resp.Wire, Resp.Levels and Resp.RoundTrip the theorems.
--   Command: the enum Command, Key, and the methods name, modified_keys, block_timeout and
--     is_replicatable; Command.Wire has to_resp. Command.Read has from_resp: Args reads the words
--     by their index, Ids has the ids of streams, and Basic, Data, Server and Scored have one
--     function for a run of arms of its match, each of which hands the names that it does not know
--     to the next. Command.Read.RoundTrip reads back what to_resp gives.
--   Platform: what the program takes from its platform and from libraries, a record that the
--     definitions take as an argument: the arithmetic and the printing of f64 (Floats),
--     to_uppercase, the {:?} of a key, SHA-256. No law of it is assumed.
--   Client: ClientRunMode::run by its three modes, and session_step, session_trace: the loop of
--     handle_client over the commands of a connection, with the flag need_auth and the mode. A step
--     takes the reply that the store gives to an AUTH. Client.Gate and Client.Transactions prove.
--   Order, Ranges: SafeFloat's order, the index arithmetic that ZRANGE and LRANGE share.
--   SortedSets: the struct by its operations; Entries, Scores and Ranks prove.
--   Store: the struct Store. Store.Strings has SET, GET, INCR, TYPE and KEYS, with Lifetimes and
--     Counters for their theorems. Store.Lists has RPUSH, LPUSH, LPOP, LRANGE, LLEN, BLPOP,
--     fetch_blpop and notify_blpop_waiters, with Slices, Fetches, Blocking, Ends and Taken for
--     their theorems. Store.Watches has WATCH, UNWATCH, DISCARD, InternalExecuteTx and the loop
--     over modified_keys at the start of try_execute; the recursive call of try_execute is an
--     argument of internal_execute_tx. Store.Watches.Members and Conflicts prove.
--     Store.Streams.Entries has a stream's lookups and ranges and next_stream_id, Store.Streams
--     XADD, XRANGE, XREAD, fetch_xread and notify_xread_waiters; Rising, Readers, Ensured, Adds,
--     Ids and Ranges prove. Store.Zsets has the commands on sorted sets and places,
--     Store.Channels SUBSCRIBE, UNSUBSCRIBE and PUBLISH, Store.Users ACL and AUTH, Store.Replicas
--     WAIT, REPLCONF ACK and INFO, Store.Settings CONFIG GET. Store.Execute has try_execute over
--     all commands (handle is its match, without the transaction), where the clock is read once
--     for a command; Store.Execute.Transactions proves.
--   Geocoding: src/geocoding.rs. The bit operations are on natural numbers; Bits splits them into
--     bytes, RoundTrip proves by tables over a byte. The conversions take the Floats.
--   Rdb: src/rdb.rs on bytes; Sizes, Entries, Tables and RoundTrip prove. Store.Saved has to_rdb
--     and from_rdb, which go between a store and an RDB file.
--   Aof: append and get_initial_commands of src/aof.rs on the bytes of the file; Aof.RoundTrip
--     proves. Aof.Files has from_config and the functions that make and find the files, over a
--     FileSystem that is a parameter, with Aof.Manifest for the text of the manifest; Aof.Start
--     states what the calls do when none fails (IsWorking) and proves, Aof.Start.Disk is a disk of
--     this kind.
--   Server: run_store in src/main.rs. A step takes an Envelope; a task that sleeps and then sends
--     an envelope is an entry of `timers`. Server.Durable proves across Server, Aof and Store.
--     Store.Execute.Waiters, Handlers and Unblocking are about the tables of blocked clients under
--     a command; Server.Waiting, Timers, Replies and Expiry about the timers.
--   Connection: handle_client in src/main.rs, over the events that select! gives. The answers on
--     its oneshot channels are a parameter. Rounds, Packets and Transactions prove.
--   Replica: process_replica_message and the loop of run_replica_server over values;
--     Replica.Handshake has the handshake and the whole of run_replica_server over the reads of the
--     stream. Offsets, Hello and Attach prove, with Resp.Greeting for the values that the master
--     writes.
--   Startup: Config::from_args, Store::new, and what main and run_store do before the first
--     envelope. Startup.Restart proves.
--   ClientSets: the sets of clients that watched keys and channels have.
--   PubSub: the struct PubSub by its operations; PubSub.Counts proves.
--   Modules named Examples run the code and apply the theorems at concrete values.
--
-- How the code corresponds. A method with `&mut self` takes the record and returns the new one
-- with its result. A HashMap is an association list; its iteration order is the list's, which the
-- theorems do not constrain. A BTreeSet is a sorted list without repetitions, a proved invariant.
-- An f64 is its 64 bits, compared as f64::total_cmp does. Machine integers are natural numbers
-- with their wrap-around written out, as in the release profile of your_program.sh; in the debug
-- profile the sum or the difference that wraps is a panic, and what is said of wrapping does not
-- apply. The sums of an i32 index and the length of a list or a sorted set are not bounded: the
-- model of LRANGE and ZRANGE is that of the code below 2^31 elements. A oneshot sender is the
-- number of the request that it answers, and what is sent on senders is kept in order in the
-- field `sent`; what is sent to the connections of clients, whose channels are taken to have
-- room, is kept in `pushed`. The clock is an argument. A panic (of unwrap, of an index, of
-- assert!) is a result, the constructor panic of Outcome, which carries no state: what a step has
-- done before it, such as the append to the file before try_execute, is not kept.
--
-- Fuel. parse_nested and resp_loop run on fuel: one more than the length of their input. The
-- entry of parse_resp-AllRead says that this is enough. many_loop, the loop of many0 and many1,
-- runs on the same fuel, enough for a parser that takes a byte in each round; a parser that takes
-- none has no end in the source and out_of_fuel here. On what serialize writes it is enough, by
-- the entry of deserialize-serialize. All other loops are structural.
--
-- Not modelled: the listener and the counter that numbers the connections, tokio's tasks and
-- sockets, and the crate that reads the command line: input and output, and third-party code,
-- around the modelled functions. A read of a stream gives bytes, of which the model leaves the
-- number open where the buffer holds 1024; a write to a stream takes all its bytes. The macro
-- and! of four, six and seven parsers is left out: nothing uses it.
pub mod Prelude
pub mod Number
pub mod Utf8
pub mod Parser
pub mod Resp
pub mod Command
pub mod Client
pub mod Order
pub mod Ranges
pub mod SortedSets
pub mod ClientSets
pub mod PubSub
pub mod Platform
pub mod Geocoding
pub mod Rdb
pub mod Aof
pub mod Store
pub mod Server
pub mod Connection
pub mod Replica
pub mod Startup
