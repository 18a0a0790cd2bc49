-- ===== src/Lib.antt =====
-- RSB, the Robotics Service Bus, in C++: participants exchange events on hierarchical scopes. An
-- event goes from an informer over a transport to the participants that listen on its scope or on
-- one above it. Modelled are the scopes, the events and their meta data, the routing of events to
-- sinks, the in-process and the socket transport, converters, publication and reception, calls of
-- remote methods, introspection, and the configuration of a participant.
--
-- Scope (src/rsb/Scope.cpp): names of channels, parsed into components. Scope/Syntax and
--   Scope/Printing have reading and printing, Scope/Cache the string that updateStringCache writes
--   into a buffer, Scope/Names and Scope/Covers equality and the order of scopes, Scope/Hierarchy
--   concatenation and super-scopes.
-- MetaData, Event (src/rsb/MetaData.cpp, EventId.cpp, Event.cpp): time stamps, user data, ids and
--   causes. The clock is a parameter: `now` for one reading, `clock i` for the i-th of a call.
-- Notification (src/rsb/transport/socket/Serialization.cpp, src/rsb/protocol/Notification.cpp):
--   events as the fields of the generated message class, written and read: Reading has the loops,
--   RoundTrip the socket transport's pair of functions, Header that of src/rsb/protocol. The bytes
--   of a UUID are parameters.
-- ScopeDispatcher (src/rsb/eventprocessing/ScopeDispatcher.h): sinks by scope, Routing what reaches
--   them; Weak is the variant with weak pointers. A weak pointer is the number of its object,
--   `alive` says which can be locked.
-- InprocessBus (src/rsb/transport/inprocess/Bus.cpp): the map from scopes to the connectors that
--   get the events of the scope, kept up to date by addSink and removeSink and used by handle.
-- Socket (src/rsb/transport/socket): Framing and Connection are BusConnection.cpp, with the
--   handlers of asynchronous reads; Bus is BusImpl.cpp and the relaying of BusServerImpl.cpp;
--   Server is the accepting and the shutdown of BusServerImpl.cpp, as steps of its threads in any
--   order, between which handleAccept is interrupted; Factory is Factory.cpp, which shares buses by endpoint.
-- ParticipantConfig (src/rsb/ParticipantConfig.cpp, QualityOfServiceSpec.cpp): options from files
--   and the environment; Transports is its nested classes. The properties of the RSC library and
--   lexical_cast are the parameter of Library.
-- Converters (src/rsb/converter): Selection and Choice are the strategies that Repository.h builds
--   for either direction, Registry what the repository holds; Basic has the converters of simple
--   types, Integers and Wires their wires.
-- Collections (src/rsb/converter/EventsByScopeMapConverter.cpp, ProtocolBufferConverter.h): maps of
--   events by their scopes as one message, whose events go through the converters; EventIds is
--   EventIdConverter.cpp.
-- SocketConnectors (src/rsb/transport/socket/*Connector.cpp): payloads are converted between the
--   participants and the bus; Delivery joins them with the converters and the notifications.
-- Routes (src/rsb/eventprocessing): OutRouteConfigurator.cpp with its sending strategy, and
--   PullEventReceivingStrategy.cpp.
-- Patterns (src/rsb/patterns): Calls and Local are the two sides of a call, RemoteServer.cpp and
--   LocalServer.cpp, with Callbacks for the templates of LocalServer.h; Methods is what a server
--   keeps; Settling says which replies are accepted; Correlation, RequestReply, Interleaving and
--   Completion relate requests, replies and futures.
-- Factory (src/rsb/Factory.cpp): the choice of converters, the options of connectors, and the
--   transports that the default configuration enables.
-- Introspection (src/rsb/introspection/IntrospectionSender.cpp): what is published about the
--   participants of a process; Listener is the view of one who follows that.
-- Participation: Informer (src/rsb/Informer.cpp) checks and numbers the events that it publishes;
--   Filters (src/rsb/filter) and Receiving
--   (src/rsb/eventprocessing/DirectEventReceivingStrategy.cpp) decide which handlers get an event;
--   EndToEnd relates the two.
-- Maps, Prelude: std::map as a list in the order of the keys, std::string as the list of its bytes,
--   the tests on numbers, and what a call that may throw returns.
--
-- Both buses route by the scopes of events, the socket bus with the dispatcher; a socket connection
-- uses the notifications; a call that throws is an `err`, a `none` or a second component that says
-- so. Numbers are natural numbers; the size of a scope's string, the length of a message and the
-- number of an event keep the wrap-around of their 32 bits. All loops are structural but that of
-- Socket/Connection.receive_loop, which runs on fuel: two rounds for each message and one for the
-- end of the stream are enough.
--
-- Not modelled: logging, printing, the protobuf encoding itself, sockets and name resolution, which
--   are parameters; locks, so that a call is one step but where steps are said; the overloads of
--   the time setters for double and for posix_time; floating-point numbers, whose bytes are the
--   platform's; the thread pool of the parallel strategy; plugins;
--   the life cycle of listeners, readers and participants.
pub mod Prelude
pub mod Maps
pub mod MetaData
pub mod Event
pub mod Notification
pub mod Collections
pub mod Converters
pub mod Socket
pub mod SocketConnectors
pub mod Participation
pub mod Patterns
pub mod Routes
pub mod Factory
pub mod Introspection
pub mod Scope
pub mod ScopeDispatcher
pub mod InprocessBus
pub mod ParticipantConfig
