-- ===== src/Lib.antt =====
-- A verification of kazoo, a client for ZooKeeper, in files that follow the program's parts.
--
-- A client (kazoo/client.py) turns each operation into a request and an async object and puts both
-- into a queue. The connection (kazoo/protocol/connection.py) takes requests from the queue, writes
-- them to the socket with a running number (the xid) and keeps them as pending; the server answers in
-- order, and each answer sets the async object of the first pending request. Events of watched nodes
-- come in between. When the connection or the session ends, everything that waits is failed.
--
-- Files, and the code that they model:
-- - Base: lists, results and signed integers over the native numbers; Result is the value of code that
--   may raise, and Exn the exceptions that the modelled code raises.
-- - Python: what the code uses of the language: `struct` (Struct), UTF-8 (Utf8), `str` (Text), the
--   order of texts and `sorted` (Ordered), `str` and `int` of numbers (Decimal), `os.path.split`
--   (Path).
-- - Exceptions: the error classes of kazoo/exceptions.py, and EXCEPTIONS (Codes).
-- - Paths: kazoo/protocol/paths.py, and `unchroot` of kazoo/client.py. A text is its code points.
-- - Security: kazoo/security.py.
-- - States: kazoo/protocol/states.py.
-- - Hosts: kazoo/hosts.py, and `set_hosts` of kazoo/client.py.
-- - Protocol: kazoo/protocol/serialization.py. A reader takes the buffer and an offset and returns a
--   value and the next offset, as the `deserialize` methods do (Reader); Strings, Records (headers,
--   ACLs, stats), Requests (`serialize`), Replies (`deserialize`), Multi (`Transaction.deserialize`).
-- - Client: the state of KazooClient as a record. What the code does to the outside (async objects
--   that are set, listeners that are called, watchers that are dispatched) is the list `effects`, in
--   order. Session: `_session_callback`, `_make_state_change`, `_notify_pending`, `_reset`. Calls:
--   `_call`, `stop`. Operations: the `*_async` methods. Transactions: TransactionRequest. Making:
--   `ensure_path`, `create` with `makepath` and `delete` with `recursive`, as what their objects are
--   set to. Watchers: the two dictionaries of watchers.
-- - Connection: the state of ConnectionHandler. Wire: `_read`, `_write`, `_read_header`, `_submit`
--   over explicit sequences of what the socket does. Sending: `_send_request`, `_send_ping`. Watching:
--   `_read_watch_event`. Receiving: `_read_response`, `_read_socket`. Attempt: `_connect`, the loop
--   and the exceptions of `_connect_attempt`, and `zk_loop`, as actions on the connection and what the
--   network does. Steps: a relation of single steps, for any order of calls and events.
-- - AsyncResult: AsyncResult of kazoo/handlers/utils.py. Retry: KazooRetry of kazoo/retry.py, over the
--   sequence of what its tries do.
-- - Recipe: a method of a recipe as an action on the recipe's object and a world, with a result; the
--   operations of the blocking client on the world (the record Zookeeper), `client.retry`, and `try`.
--   Rules: what holds behind each of these if it holds of its parts. Below it, each for its file in
--   kazoo/recipe: Lock (the nodes' names and predecessors; Acquire: the methods), Semaphore (lock.py),
--   Queue and Queue/Locking (queue.py), Counter, Party, Barrier, Lease, Election, Partitioner (States:
--   the state machine of SetPartitioner), Watchers and Cache (the nodes of TreeCache in a store;
--   Tasks: its background thread).
-- - Tests: runs on concrete inputs.
--
-- Parameters: the hash of a digest credential (Security), whether a listener asks to be removed
-- (Session), the clock, the random factors and the interrupt function of a retry (Retry), and
-- `urlsplit` of Python's library (Hosts). Async objects, listeners and watchers are known by numbers;
-- distinct numbers are distinct objects. Callbacks of async objects are not run by the model.
--
-- Of a recipe, the parameters are the world and what the client's operations do to it and answer (any
-- record Zookeeper): that other clients change nodes, that a session is lost, that another thread
-- cancels and how long a wait takes are all in the world's answers. Since the world is any type, one
-- that keeps all that was asked and answered is among them. Further: `str(identifier or "")` of a byte
-- string (Semaphore), the numbers and their formats (Counter), json, datetime and the clock (Lease),
-- the functions of users (Election, Watchers). Watch events that arrive during a call, and what other
-- threads do to a partitioner, are explicit lists. The further patterns of a lock are literal texts,
-- and `\d` is an ASCII digit.
--
-- The loop of a connection and the main loop go over a list of rounds and of attempts; the outcome
-- `running` says that the list was over before the loop.
--
-- Fuel: only `Transaction.deserialize` loops on data; it has as many rounds as the buffer has bytes,
-- and two more, which is enough since every round but the first reads a header of nine bytes. The
-- parts of an interruptible sleep have the time to sleep as fuel, and each part takes some of it. The
-- parents that `ensure_path` makes are each shorter than the path, so a path's length and one more is
-- enough fuel, and a child in a TreeCache has a higher number than its parent, so the number of nodes
-- is enough for going down. `create` with `makepath` and `delete` with `recursive` depend on the
-- servers. The tries of `client.retry` and the rounds of a recipe's waiting loop depend on the servers
-- alone, so their fuel is any number; where it is used up, the result is the exception `out_of_fuel`,
-- and what is stated of a recipe's return holds for every number.
--
-- Not modelled: SASL, logging, the handlers' threads and sockets, the listeners of a TreeCache, the
-- order in which hosts are tried, and the blocking wrappers, which wait for the async object of the
-- operation that they name. The operations' checks of their arguments' types are the types of the
-- arguments here.
pub mod Base
pub mod Exceptions
pub mod Python
pub mod Protocol
pub mod Paths
pub mod States
pub mod Hosts
pub mod Client
pub mod Security
pub mod Connection
pub mod AsyncResult
pub mod Retry
pub mod Recipe
pub mod Tests
