-- ===== src/Lib.antt =====
-- The chat service: conversations between two users and in groups, the messages in them with their
-- reactions, read cursors and unread counts, kept in ScyllaDB and Redis and told to other services
-- over Kafka and to clients over Centrifugo.
--
-- Parts and files, with the paths of the code from the repository's root:
--
-- - Domain: internal/domain. Domain/Message.antt is message.go, Domain/Conversation.antt is
--   conversation.go, Domain/Cursor.antt is cursor.go; Result.antt is errors.go with the errors of the
--   libraries that the code compares with. Methods that change their receiver return it. Each time.Now
--   of a method is an argument.
-- - Port: internal/port, the interfaces between the use cases and the adapters, as records of calls.
-- - Service: internal/service. SendMessage.antt is send_message.go, CreateConversation.antt is
--   create_conversation.go, ChatService.antt is chat_service.go; the methods AddParticipant,
--   RemoveParticipant, AddReaction and RemoveReaction of the service have names that end in `_by`.
--   Traced.antt wraps any implementation of the ports in one that keeps a trace of the calls, by which
--   the order of the effects is stated; Rules.antt says how a run of such a service ends, Failures.antt
--   what a failed one has done.
-- - Adapter/Repository: internal/adapter/repository. MessageRepo.antt is message_repo.go,
--   ConversationRepo.antt is conversation_repo.go, with the conversions between the domain's structs and
--   the columns in MessageRows.antt and ConversationRows.antt; AddReaction and RemoveReaction of the message
--   repository are add_reaction_to and remove_reaction_from. Schema.antt is EnsureSchema of
--   schema.go; Session.antt holds its tables and one call for each CQL statement, Codec.antt the
--   interface to encoding/json, Paging.antt what the paged queries have in common, Wiring.antt the
--   repositories as implementations of their ports.
-- - Adapter/Cache: internal/adapter/cache, one file for each of its files; Redis.antt holds one call for
--   each command, Wiring.antt the stores as implementations of their ports. CacheStore/Unread.antt is
--   the abstract view of the unread counts.
-- - Adapter/Handler: internal/adapter/handler. Requests.antt holds the request structs and the page
--   parameters of chat_handler.go, Chat.antt its handlers and their table, Errors.antt and Paging.antt
--   the answers to errors and the text of cursors; Proxy.antt is centrifugo_proxy.go.
-- - Adapter/Handler/Middleware: middleware/auth.go. Claims.antt reads the claims of a token, Keys.antt is
--   parseRSAPublicKey, Jwks.antt the cached key set, Auth.antt the middleware itself.
-- - Adapter/Messaging: internal/adapter/messaging/producer.go.
-- - Kafka: pkg/kafka. Consumer.antt is consumer.go, Headers.antt the header carrier of
--   trace_propagation.go and the prefix of topics.go, Topics.antt the topics; of kafka_service.go,
--   Routing.antt holds the routes of StartConsumer, Polling.antt its loop
--   (Polling/RunConsumer.antt that of consumer.go), Running.antt the flag of the
--   running consumer, Emit.antt the four ways to emit and EnsureTopics.antt the creation of topics.
--   Events.antt is pkg/kafka/events,
--   with its envelope and outbox in Events/Envelope.antt.
-- - Centrifugo: client.go and publisher.go of pkg/centrifugo.
-- - Config: config/config.go, with Load and the defaults in Config/Load.antt. Utils: pkg/utils/id.go.
-- - Server: cmd/server. Application.antt composes the service over its adapters and the routes behind
--   the authentication, as NewApplication does; Application/Inbound.antt is its consumer.
-- - Prelude, Text, Exec: shared helpers, Go's strings as bytes, JSON values, and calls that may fail.
-- - Tests: concrete data and the theorems at it.
--
-- A call is a function from a world to a result and the next world (Exec.antt); the world's type is
-- a parameter, so that the theorems hold for every implementation of the ports, the database
-- session, the Redis, Kafka and HTTP clients and the token library that satisfies the hypotheses
-- they name. Where a call fails, what was done before it stays done. Integers of Go that are
-- lengths, counts and times are natural numbers; a limit and a size are signed. A limit that a
-- client sends is read as strconv.Atoi does, with its bounds of 64 bits. Elsewhere the width is
-- left out: lengths are compared with constants of at most 4096, and the service normalises a limit
-- to at most 100 before a repository adds one to it.
--
-- Loops are structural recursion on the slice that they visit. The walks over all pages run on
-- fuel, one unit for each request (Paging.collect for a repository, Chat/Walk.antt for a client
-- over HTTP); their theorems ask for more units than there are items, which is enough since a page
-- that has a successor is not empty. The loop of a consumer runs on one unit for each poll; it is
-- shown to return for every bound on the polls before its context is cancelled. Text/Decimal.antt
-- writes a number on as much fuel as the number, which has no more digits than that. The order in
-- which Go visits the keys of a map is a parameter. Sorting is by orders that tell all items apart.
--
-- Not modelled: logging; contexts, and their cancellation but in the consumer's loop; locks, since
-- the calls of one handler run one after another; the text of errors beyond their fixed part; the
-- types of the columns in the statements that create the tables; the router's matching of a URL
-- with a route; the decoding of a body, where one that does not decode is `none`; the verification
-- of a signature, which is the token library's; letters other than ASCII where the middleware
-- ignores case; the options of the Kafka client; a consumer whose RetryCount is negative, which
-- makes no attempt; reading and decoding the configuration's file; connecting, starting and
-- stopping the server; the generated API documents.
pub mod Prelude
pub mod Text
pub mod Result
pub mod Exec
pub mod Domain
pub mod Port
pub mod Service
pub mod Adapter
pub mod Centrifugo
pub mod Kafka
pub mod Config
pub mod Utils
pub mod Server
mod Tests
