-- ===== src/Lib.antt =====
-- Verification of GPUSwarm: a network in which nodes with GPUs serve inference requests to each other.
--
-- A node is a client service and, if it has a backend, a provider service. The client service
-- discovers the documents of the other nodes, ranks them, and asks the candidates in turn through
-- their gateways; the provider service checks a request, takes a slot of its limiter and passes the
-- request to the backend. Both hold the credit ledger and the reputation tracker by pointer.
--
-- The files, and the code they model:
--   Model (internal/model/types.go): the documents; supports_requirements is SupportsRequirements.
--   Control (internal/control): Credits (credits.go), Reputation (reputation.go), Limiter
--     (limiter.go), Pow (pow.go) and Policy (policy.go), one function per method.
--   Routing (internal/routing/router.go): score, rank_with_preferences and
--     select_best_with_preferences, with the two loops of RankWithPreferences as functions.
--   App.Capability (internal/app/capability.go): the published document.
--   App.Client (internal/app/services.go, ClientService): the state; App.Client.Inference.infer is
--     Infer, cut at its early returns; App.Client.Peers is ListPeers.
--   App.Provider (internal/app/services.go, ProviderService): infer is Infer, cut where requests of
--     other goroutines can run in between; App.Provider.Slots steps many requests at once.
--   Config (internal/config/config.go): Default, filled and resolve_and_validate (ResolveAndValidate);
--     Config.File: Load and Save.
--   Cmd (cmd/infermeshd/main.go): the lists and model specs of the flags, the setup wizard
--     (Cmd.Wizard), the flags over the saved configuration (Cmd.Flags; runtime_config is main up to the
--     resolved configuration) and what the services are made of (Cmd.Wiring).
--   P2p.Context (internal/p2p/gateway_client.go, libp2p_protocols.go): the peer context on its way.
--   P2p.Gateway (libp2p_protocols.go): Libp2pGatewayClient; gateway_infer is Infer, reach the part
--     after the URL is parsed. P2p.Wire: tryDirect and tryProxy. P2p.Streams: the handlers of streams.
--   P2p.HttpGateway (gateway_client.go): HTTPGatewayClient.
--   P2p.Registry (libp2p_node.go): heartbeats and registry; P2p.Registry.Refines compares
--     what they answer with tables that never forget. P2p.Host (libp2p_node.go, libp2p_protocols.go): the addresses of other
--     nodes, the queries, and in P2p.Host.Options the options of NewLibp2pNode. P2p.Discovery
--     (libp2p_discovery.go): list_capabilities is Libp2pDiscovery.ListCapabilities, loop by loop.
--   P2p.Exchange (libp2p_protocols.go): both ends of the streams for documents. P2p.Identity
--     (libp2p_identity.go, identity.go): the key that a node keeps in a file.
--   P2p.Sources (multi_discovery.go, lan_discovery.go, discovery.go, libp2p_discovery.go): merging,
--     expiry, retries. P2p.Lan (lan_discovery.go): normalizeCapability and the packets.
--   Api (internal/api/server.go): one function per handler, over the services' states.
--   Cli (internal/cli/chat.go): model choices and providers; Cli.Commands: the switches of
--     handleCommand and handleInteractiveCommand; Cli.Selection: the commands that select a
--     model or a peer, over the client's API; Cli.Startup: EnsureModelAvailable; Cli.Repl: RunREPL and
--     RunInteractive with their commands; Cli.Labels: the names that are shown; Cli.Pinned: the API
--     of the chat's daemon over a client service.
--   Backend (internal/backend/ollama_adapter.go, and internal/cli/chat.go where the stream is read);
--     Backend.Adapters: Infer of both adapters; Backend.Mock (cmd/mock-backend/main.go).
--   Common: texts, numbers, maps, sorting and float64, as the code uses them. Examples: test data.
--
-- State is passed explicitly; a method that holds a mutex is one step. An error is a value of a sum.
-- A Go string is its list of code points. int and int64 are integers with the wrap-around written out,
-- a time is a number of nanoseconds since Go's zero time, and a duration an integer of nanoseconds.
-- float64 is the interface Common.Floats.Float64, whose laws hold in IEEE 754 arithmetic, also with
-- NaN; sort.Slice and the order of `range` over a map are interfaces with their documented contracts;
-- the text of fmt.Errorf, what net/http makes of headers and url.JoinPath of a path are arguments too;
-- SHA-256, the gateways, the backend, the clock and the load probe are arguments, and the libp2p host,
-- the file system and the daemon behind the chat are interfaces, whose states pass through the code
-- that calls them.
--
-- SolvePoW recurses on its number of iterations; a number is printed with one unit of fuel for each
-- of its digits, and one more than the number itself is given, which is enough; RunREPL recurses on a
-- number of rounds, for which one more than the lines of its input is enough; every other loop recurses
-- on a list.
--
-- Not modelled: the sockets, streams and HTTP servers themselves, JSON and YAML, libp2p's own part in
-- the construction of a node, the tickers of background loops, the log, and most of what is printed;
-- these call libraries or the terminal. Inside App and P2p, the text of errors and the context's
-- cancellation between the calls of a gateway or of ListCapabilities.
pub mod Common
pub mod Model
pub mod Control
pub mod Routing
pub mod App
pub mod P2p
pub mod Config
pub mod Api
pub mod Backend
pub mod Cli
pub mod Cmd
pub mod Examples
