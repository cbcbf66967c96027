-- ===== src/Lib.antt =====
-- HareMQ: a message broker in C++ after RabbitMQ. Clients declare exchanges, queues and bindings,
-- publish messages to an exchange, and consume them from the queues that its bindings choose. This
-- library models the server, HareMQ/mqserver, the client, HareMQ/mqclient, and the parts of
-- HareMQ/mqcommon that they stand on.
--
-- The parts, from the inside out:
--   Proto         HareMQ/mqcommon/msg.proto: the types of the generated code.
--   Files         `file_helper` of HareMQ/mqcommon/helper.hpp, over files in memory;
--                 Files.Directories is `create_dir` and what belongs to it.
--   Split         what `string_helper::split` promises; Split.Sample is a splitter that keeps it.
--   Sqlite        `sqlite_helper` with one table; Sqlite.Memory is a table that keeps the laws,
--                 Sqlite.Connection `sqlite_helper` over the C interface of SQLite.
--   Router        HareMQ/mqserver/route.hpp: legal keys, and the routing of a message.
--   Args          `set_args` and `get_args` of exchange.hpp and queue.hpp.
--   Exchange, Queue, Binding
--                 exchange.hpp, queue.hpp, binding.hpp: the mapper of a table and its manager.
--   Message       message.hpp: Message.Mapper is the record file (`message_mapper`), Message.Queue
--                 the messages of one queue (`queue_message`), Message itself `message_manager`.
--                 Message.Queue.Sound says when the containers of a queue and its data file agree,
--                 Message.Agreement when all queues of a directory and their data files do.
--   Consumer      consumer.hpp: Consumer.Queue is `queue_consumer`, Consumer `consumer_manager`.
--   VirtualHost   virtual_host.hpp: the managers put together.
--   ThreadPool    HareMQ/mqcommon/thread_pool.hpp: the workers and the pushing threads as a step relation.
--   Helper        `map_helper` of helper.hpp; Helper.Uuid is `uuid_helper`.
--   Channel       channel.hpp: the handlers of the requests and the task that pushes a message.
--   Broker        connection.hpp and broker_server.hpp: connections, channels, dispatch, start.
--   Client        HareMQ/mqclient: Client.Channel and Client.Connection are the library, channel.hpp
--                 and connection.hpp; Client.Command is client.cc. Client.Rpc puts a client and the
--                 server together: a request is sent, handled, answered and waited for.
--
-- A function of C++ is a function with the same name, which takes the state and returns it.
-- `__insert` and the like lose their underscores, and `insert` of `queue_message` is split into
-- `insert_body` and `insert_msg`. A `shared_ptr<Message>` is an index into a heap of the queue,
-- since three containers share a message. Maps are association lists; their order stands for the
-- order of iteration, which C++ leaves open. `abort()` and a failed `assert` are `none`.
--
-- Parameters are what the repository does not hold: `boost::split`, SQLite, Protocol Buffers and
-- the random numbers; the host takes `uuid()` as a parameter, too. Their documented behaviour stands
-- in Split.Laws, in `IsTable` of Sqlite and in
-- `IsCodec` of Message.Mapper, and each has a concrete instance.
--
-- Machine integers: `uint32` fields of a message are kept modulo 2 ^ 32, counters of type `size_t`
-- and `uint64_t` modulo 2 ^ 64; a `size_t` is written in eight bytes, the lowest first. The loop of
-- `__load` takes the size of the file as fuel, and each round moves on by eight bytes or more.
--
-- The mappers print names and arguments into the quotes of a statement of at most 4096 characters.
-- The laws of a table speak of statements whose texts are `Printable`, that is, hold no quotation
-- mark and no NUL and fit; the theorems about tables ask it of the calls. A queue makes a data file
-- of its name: the theorems about the whole server and the restart ask that it can be the name of
-- a file (`IsFileName`).
--
-- A method of the client's channel blocks in the middle: it is a value that says what is sent and
-- what the method does with the response. `exchange` and `call` of Client.Rpc run it against the
-- server without other events in between.
--
-- Not modelled: the generated code, logging and what the programs print, the network and its
-- codec, the mappers' calls of `create_dir`, the server's `main`, the two trial programs of the
-- client, the wait of `subscribe`, and futures. A method that holds a mutex is one function;
-- where C++ releases a mutex between a search and its use, the two are one step here. The disk
-- does not fail by itself: data files that cannot be created are left out, and so is the exception
-- that ends the server where a data file holds a length that no string can have.
pub mod Base
pub mod Proto
pub mod Split
pub mod Router
pub mod Args
pub mod Sqlite
pub mod Queue
pub mod Exchange
pub mod Binding
pub mod Consumer
pub mod Files
pub mod Message
pub mod VirtualHost
pub mod ThreadPool
pub mod Helper
pub mod Channel
pub mod Broker
pub mod Client
