-- ===== src/Lib.antt =====
-- A market data client: it logs in to a broker, opens one or more WebSocket connections, subscribes
-- each to a part of a list of tokens, and keeps the last traded price of every token that the frames
-- report. This library models the path from the settings and the login, with its one-time passwords and
-- requests, to the subscriptions and the stored price.
--
-- The parts and their files. Source paths are from the repository's root.
--   Ingest       src/ingest_queue.cpp: the ring between a connection's thread and a consumer.
--                IngestQueue is the record of buf_, mask_, head_ and tail_; try_push, try_pop, size,
--                empty, full, clear are the member functions, with size_t arithmetic modulo 2 ^ 64.
--                Ingest.Fifo is the bounded queue that the ring is compared with; Ingest.Threads cuts
--                try_push and try_pop at their accesses and interleaves those of two threads, where
--                a load of the other's index may read an older store than the last; Ingest.Threads.Races
--                is about the slots that they use at the same time.
--   Json         what the code uses of nlohmann::json and of double: parameters, without laws.
--   Parser       src/parser.cpp: parse_ltp, cut at its steps (first_of_array, unwrap_data, read_frame,
--                normalize); get_string_any, get_number_any, get_time_any are its three searches, which
--                Parser.Accepted compares with a reading by the types of the values.
--   Store        src/ltp_store.cpp: LTPStore as an association list without repeated keys.
--   Consumer     src/consumer.cpp: ingest and turn are one round of Consumer::run. Consumer.Pipeline
--                puts rounds and arrivals of frames in any order.
--   Batches      the slicing loop of src/sharder.cpp (shard) and src/subscription_manager.cpp
--                (make_batches).
--   Subscription src/subscription_manager.cpp: the desired and the active set and the payloads.
--                Subscription.Order has the sets up to the order of their iteration: lists without
--                repetitions in a quotient by their tokens.
--   Url          the splitting of a URL in src/websocket_client.cpp (parse_wss).
--   WebSocket    src/websocket_client.cpp: Phase says where the connection's thread is in run,
--                read_loop, reconnect_loop and connect_once; step is what it does at the next Moment,
--                with the callbacks it makes as effects; start, stop, join, send_text, send_binary are
--                the public functions. WebSocket.Callbacks has the setters of the callbacks,
--                WebSocket.Protocol the order in which the thread calls them, WebSocket.Handshake the TLS
--                settings and the decorator of connect_once.
--   Sharder      src/sharder.cpp. Sharder.Workers has one worker and its callbacks: on_message pushes
--                into its queue, send_subscribes writes the payloads of its manager. Sharder has the
--                list of workers: build_workers, start, stop, set_tokens and the rest. Sharder.Wiring
--                gives the callbacks to the connection; Sharder.Feeding has all consumers drain
--                their queues into the one store, a round in two parts (Consumer.Halves), and
--                Sharder.Needs and Sharder.Drain leave the consumers to what they have. Sharder.Life is any
--                sequence of the sharder's operations, Sharder.Handshakes the headers of its connections.
--   Totp         src/totp.cpp: the Base32 decoder, the code as text, the counter and the window of
--                verify. HMAC is a parameter. Totp.Rfc compares hotp with RFC 4226.
--   Http         src/http_client.cpp: the encoding of queries, the URL, the headers, the three kinds of
--                request and perform_request; Beast is the record of what it calls.
--   Config       src/config.cpp: load_from_file.
--   Logger       src/logger.cpp: the level, the lines and the two moves; calls is a run of its functions.
--   Auth         src/auth.cpp: the tokens, is_expired and auth_headers. Auth.Reply has the two handlers of
--                responses, Auth.Session login_impl and refresh over Http.
--   Base         lists, texts, words of 64 bits, sets and maps as lists, integers.
--   Samples      a small JSON library that the tests run the definitions on.
-- A sharder builds one worker for each piece of the token list. A worker's connection calls on_message
-- for each frame, its consumer takes frames from the queue, parses them and writes to the one store.
-- The headers of a login's session go to the handshakes of all workers (Auth.Handshake); Auth.Request is
-- the request that a login sends through Http.
--
-- Conventions. A std::string is the list of its bytes. size_t is a native number, with additions and
-- subtractions modulo 2 ^ 64. A time_point is a count of milliseconds. What another thread, the
-- network or the clock does is an argument: a list of events or moments, in the order in which they
-- happen, so that a statement for every list is one for every such order. std::terminate is a result
-- (none, or terminated). An exception is none, or throws where the state that it leaves counts (Auth);
-- undefined behaviour is an outcome of Logger.
--
-- Fuel. The slicing loop has as much fuel as the list has entries; each round takes at least one, and
-- the theorem on the pieces shows that nothing is left. The smearing loop of next_pow2 has its six
-- rounds. The digits of a number are written on ten rounds, enough for 32 bits. All other loops are
-- structural.
--
-- Not modelled: what TLS, Boost, OpenSSL, nlohmann::json and the network do inside a call, the formatting
-- of the time in a log line, which of the two threads' lines comes first in a log, and the programs under
-- tests. A text that goes into a payload of a subscription is UTF-8: the exception that dump throws on
-- any other one is modelled in Auth only, not where it would leave start or the resubscribe hook. A time
-- beyond the range of the system clock's ticks does not overflow. Auth's log is the list of its calls of Logger, and the log of the other parts is left out, save
-- for the warnings of set_tokens and of a dropped frame.
pub mod Base
pub mod Ingest
pub mod Json
pub mod Samples
pub mod Parser
pub mod Store
pub mod Consumer
pub mod Batches
pub mod Subscription
pub mod Url
pub mod WebSocket
pub mod Sharder
pub mod Totp
pub mod Http
pub mod Config
pub mod Logger
pub mod Auth
