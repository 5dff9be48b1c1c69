-- ===== src/Lib.antt =====
-- router-ui: the verification library of a BGP edge-routing control plane written in Go.
--
-- The program. A core daemon (cmd/core) owns an IPv4 block and runs a BGP speaker, a WireGuard
-- interface, a registry of edge nodes with an HTTP API, and a health checker. Each edge node runs an
-- agent (cmd/agent) that registers over HTTP, gets a tunnel address and a block of its own, and
-- announces the block over BGP. The registry takes tunnel addresses from a pool and blocks from the
-- subnet allocator, and calls the WireGuard manager and the speaker; the health checker asks the
-- registry for its nodes and marks the silent ones down.
--
-- The files. Each operation is a function from the state and the request to the answer, the state
-- afterwards and the calls of other components, in order. Time is an argument.
--   Base      numbers, lists, results, association lists (for Go's maps), texts, powers of two. Calls
--             is for code that calls other packages one after the other and stops at the first
--             error: `World` answers a call, given the calls before it.
--   Net       what is used of Go's net and encoding/binary: addresses as byte lists, IPv4 blocks.
--             Parsing and printing of texts (net.ParseCIDR, net.ParseIP, String) is the record
--             `Texts`, a parameter of every definition that uses it.
--   Subnet    internal/subnet/allocator.go: NewAllocator, carve, Allocate, AssignSpecific, Release,
--             SubnetForNode, List are new_allocator, carve, allocate, assign_specific, release,
--             subnet_for_node, list. The 32-bit sums of carve are written with `% 2 ^ 32`.
--   WgPool    wgIPAllocator of internal/registry/registry.go: newWGIPAllocator, Allocate, Release,
--             incrementIP are new_wg_ip_allocator, allocate, release, increment_ip.
--   Api       pkg/api/types.go.
--   Registry  internal/registry/registry.go: Store has NewRegistry, MarkDown, RecordHeartbeat and
--             the reads; Register has handleRegister, Delete handleDeleteNode in the two parts
--             between which it lets go of its mutex, Views the other handlers, Serve ServeHTTP.
--             JSON decoding and wgtypes.ParseKey are the record `Env`.
--   Health    internal/health/checker.go: new_checker, sweep over the interface NodeLister, and run
--             over the ticks of its ticker.
--   WireGuard  internal/wireguard/manager.go: setup, add_peer, remove_peer, teardown and the route
--             helpers, with each call of netlink and wgctrl. Device has what is relied on of wgctrl.
--   Policy    internal/bgp/policy.go: apply and add_upstream_export_policy, with the sets, policies
--             and assignments that they hand to GoBGP. Refused has what GoBGP asks of an assignment.
--   Speaker   internal/bgp/speaker.go: AnnounceRoute, WithdrawRoute and the best-path watcher; Rib
--             has ListRIB, AddPeer and RemovePeer, Kernel the kernel's routes, and Server Start and
--             stop. What GoBGP answers is an argument; calls of GoBGP and of netlink are values.
--             Routes has what is relied on of netlink.
--   CoreDaemon  cmd/core/main.go: the callbacks, what the core says of itself, and the adapter from
--             the registry to NodeLister; Start has the start-up in `run`, Running the
--             whole of it, Mux the handlers of the HTTP server.
--             The other children join the components: Tunnels, Peers, Wiring, Network and SharedKey
--             the registry with the WireGuard device; Range and Delivery these with the start and
--             the speaker; Sweep, Shuffled, Timely, Silence, Detection, Parted and Stale the registry
--             with the health checker; Paced and Intervals these with the agent's heartbeats;
--             Bootstrap the core with the agent; Unstarted the start with the policies.
--   Webui     internal/webui/handler.go.
--   Agent     cmd/agent/main.go: doRegister, registerWithRetry, the WireGuard peer of the core; Start
--             has `run` and waitForWGTunnel, Running what comes before, Heartbeat sendHeartbeat and
--             Beating heartbeatLoop.
--   Bgpctl    cmd/bgpctl/main.go: the settings, apiGet, apiDelete and the tables; Commands has the
--             commands, which Served and Routes join with the registry.
--   Config    pkg/config/config.go: the records and their validation; Load has LoadCoreConfig,
--             LoadAgentConfig and the defaults, over the record `Viper`; Documented has what is relied
--             on of viper, and Defaults what a loaded configuration has.
--   Tests     concrete values, at which the theorems are applied.
--
-- Fuel. Two loops run on fuel: that of newWGIPAllocator, for which more than 2 ^ (32 - n) rounds are
-- enough for an IPv4 range of length n at least 1, and that of waitForWGTunnel, for which one round
-- more than the timeout has pauses is enough. The retry loop makes ten attempts; all other loops
-- run over a list.
--
-- Histories. A step of a history is a whole request or a whole call of MarkDown, run on its own. The
-- mutex of the registry does not cover the second part of a DELETE: Registry/Interleaved has the
-- critical sections in any order (a registration counts as one, so that what is freed during it is
-- freed before or after), Registry/Race the order that breaks the invariant, and Registry/Doubled
-- what follows. In the other histories with sweeps a sweep is run on its own;
-- CoreDaemon/Parted has the handlers between its parts, and CoreDaemon/Stale a heartbeat there.
--
-- What other packages do (GoBGP, netlink, wgctrl, net/http, encoding/json) is a parameter, and what
-- is relied on of it is a hypothesis of the theorems that need it: IsWgDevice, WantsTable, IsServed,
-- IsReadable, IsViper, IsNetlink. GoBGP refuses an assignment to no table (WantsTable), and what its
-- policies do to routes is not modelled; the theorems about a core that has started are about a
-- server that accepts what Apply asks for.
--
-- Not modelled: the flags of the commands and the layout of bgpctl's tables, the page of the
-- dashboard, and logging with its adapter for GoBGP. What is started in a goroutine is a call in the
-- order of the code; that it runs beside what follows is seen only in the histories. Ports, times
-- and other integers of the requests are taken as not negative, and the intervals of the tickers
-- as positive: Go's ticker panics for 0.
pub mod Base
pub mod Net
pub mod Subnet
pub mod WgPool
pub mod Api
pub mod Registry
pub mod Health
pub mod CoreDaemon
pub mod Speaker
pub mod Policy
pub mod Webui
pub mod WireGuard
pub mod Bgpctl
pub mod Agent
pub mod Config
pub mod Tests
