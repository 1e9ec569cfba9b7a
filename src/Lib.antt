-- ===== src/Lib.antt =====
-- A verification library of snell.sh, a panel that runs proxy nodes on one Linux host (module
-- github.com/proxy-panel/proxy-panel).
--
-- The program's parts. `cmd/panel` starts one process as a web panel and one, as root, as an agent.
-- The panel (`internal/api`) serves the user interface and an HTTP interface over a SQLite file
-- (`internal/database`): logins and sessions (`internal/auth`), nodes and their secrets
-- (`internal/nodes`, `internal/secrets`), traffic rows (`internal/traffic`), settings, backups,
-- updates and the exchange of nodes between panels (`internal/nodesync`). The agent
-- (`internal/agent`) starts and stops the proxy programs, writes their configurations
-- (`internal/configgen`, `internal/anyconnect`), keeps their nftables rules (`internal/firewall`),
-- and samples the kernel's byte counters, which it hands to the traffic store; the store's verdicts
-- come back as rules that block a node.
--
-- What is modelled, and where.
--   Database               `internal/database/database.go` as the stores use it: a statement takes
--                          the tables and may fail, and a list of Booleans says which statements to
--                          come fail; a transaction that fails puts the tables back. A component
--                          gives the type of its tables.
--   Traffic/Model, /Period, /Sampling, /Store, /Samples
--                          `internal/traffic/store.go`: the rows of the four tables, BillingPeriod,
--                          the arithmetic of Sample, SampleUser and SampleProject, and every operation
--                          of Store that changes rows, statement by statement. Quantities are int64
--                          with their wrap-around (Common/Int).
--   Traffic/Quota, /Ticks, /Flow, /Effects
--                          the proofs about them.
--   AnyConnect/Cidr/Prefix, /Range, /Routes
--                          `internal/anyconnect/network.go`: subtractPrefix, excludeSpecialUsePrefixes,
--                          rangeToPrefixes, normalizePrefixes, collapsePrefixes, largestPrefixes and
--                          ParseChinaCIDRs from the parsed prefixes on. An address is the number that
--                          `binary.BigEndian.Uint32` reads.
--   AnyConnect/Cidr/Blocks, /Subtract, /Cover, /Normal, /Collapse, /China
--                          the proofs about them: blocks of the address tree, and sets of addresses.
--   Auth/Limiter           `internal/auth/limiter.go`, with the moment of each call as an argument.
--   Auth/Model, /Service   `internal/auth/password.go` and `internal/auth/service.go`: the password
--                          policy with its UTF-8 scan, and every operation of Service.
--   Auth/Gate              the middleware of `internal/api/server.go` and how Handler stacks it.
--   Auth/Login             the login handler of the same file as two steps, before and after the
--                          limiter lets a request in, between which other requests run.
--   Auth/Limits, /Window, /Guesses, /Sessions, /Gated
--                          the proofs about them.
--   Firewall/Nft           the `nft` program as `internal/firewall/firewall.go` calls it: an interface
--                          of commands with laws, a parameter of the operations.
--   Firewall/Rules, /Blocking
--                          listTagged, syncTagged, deleteTagged, ensure, validate and SetBlocked.
--   Firewall/Count, /Sync, /Deleted, /Ensured, /Fresh, /Blocked, /Apart
--                          the proofs about them, which count the rules of a tag and tell which of
--                          them are new.
--   Firewall/Table         two chains in memory that fill the interface.
--   Settings/Store, /Kept  `internal/settings/store.go`, and the proofs about it.
--   Nodes/Model, /Patterns, /Validate, /Admit
--                          `internal/nodes/model.go` and `internal/nodes/validate.go`: the records, the
--                          rows, Normalize, and Validate as the first complaint, for which a short code
--                          stands.
--   Nodes/Conflict         protocols, protocolOverlap, checkConflict and checkBackend of
--                          `internal/nodes/store.go`.
--   Nodes/Rows, /Store, /Edit
--                          the statements that write rows, with the keys, the index and the foreign
--                          keys of `internal/database/migrations.go`, and the operations of the same
--                          file: Create, CreateWithID, Get, Secret, Update, Delete, SetDesired and
--                          UpdateRuntime.
--   Nodes/Users            `internal/nodes/anyconnect.go`: the users of a server.
--   Nodes/Admitted, /Apart, /Alike, /Checked, /Reading, /Created, /Kept, /Updated, /Sealed,
--   /Revised, /Sound, /Removed, /Switched, /Names, /Safe, /History
--                          the proofs about them: nodes that do not clash, what each call leaves, and
--                          sequences of calls.
--   Nodes/Find             FindByNameType of the first file and ListAnyConnectUsers of the second.
--   Nodes/UserSteps        what the three calls that change users keep.
--   Upkeep                 Maintain of `internal/database/database.go`, over the tables of the nodes, the
--                          sessions, the audit log and the jobs.
--   Upkeep/Trimmed, /Readable
--                          the proofs about it.
--   Sync/Format            `internal/nodesync/format.go`: the exchange file, Validate, Encode and Decode.
--   Sync/Import, /Checks, /Handler
--                          `internal/api/sync.go`: importSync from the bytes of the file on, with the
--                          calls that it makes of the stores of nodes and of traffic.
--   Sync/Accepted, /Safe, /Passed, /Guarded, /Covered, /Replaced, /Collapsed
--                          the proofs about them.
--   Agent/Lifecycle, /Exit `internal/agent/manager.go`: Start, Stop, the goroutine that waits for an
--                          exit, the delayed restart and Shutdown. The lock makes each a whole step.
--   Agent/Bounds, /Exits, /Steps, /Restarts, /Recovery, /Returns
--                          the proofs about them, over any order of steps.
--   Agent/Logs, /Sweep     appendLog and Logs of the same file, and MaintainLogs.
--   Agent/Rotated, /Journal, /Forgotten, /Refined, /Swept, /Budget
--                          the proofs about them: the files of a log as one list of lines, and
--                          the budget of all files.
--   ConfigGen              `internal/configgen/generate.go`: Generate. A JSON configuration is an object of
--                          keys and values.
--   ConfigGen/Lines        the proofs about the lines of a Snell configuration.
--   Common                 tests, lists, sorting, dictionaries, powers of two, integers, decimals.
-- Each module of tests runs the code on concrete input.
--
-- How the code corresponds. A Go method is a function of the same words, from the state before to
-- the result and the state after; an early return is a branch; an error is a value. The order of
-- statements is the source's. `time.Now` and random bytes are arguments. A sort with a strict order
-- on different elements has one result, so insertion sort stands for `sort.Slice`.
--
-- Fuel and bounds. `GetUser` calls itself once at most, so 2 rounds are enough. `subtractPrefix`
-- halves the prefix in each call, so one round more than the host bits is enough. The block of
-- `rangeToPrefixes` doubles 32 times at most, its bits are counted in as many rounds, and each of its
-- blocks has an address, so the count of addresses is enough for the outer loop. The UTF-8 scan takes
-- a byte in each round. A start of a node calls itself for the backend, on fuel that each result about
-- it names.
--
-- What stands for code that is not here. The hash of a password with its test (argon2) and the
-- digest of a token (sha256) are parameters of Auth/Service; no law is assumed of them but the
-- hypotheses that a result names. The readers that Validate calls (of addresses, prefixes, URLs,
-- Base64 and the JSON of a server's secrets) are a record of functions, Nodes/Model.Readers, of
-- which nothing is assumed. The JSON of an exchange file is a pair of functions, Sync/Format.Codec.
-- How the launch of a program ends is an argument of the step, and so are whether a port is taken, a
-- backup fails or a log file can be opened. SQLite's statements are written as what they do to the
-- rows. `net/netip`, `strings`, `sort`, `bufio`, `net.JoinHostPort` and `unicode/utf8` belong to the
-- language's library and are written out.
--
-- What is not modelled. IPv6 ranges, since every prefix here is IPv4. The texts that parseAPNIC and
-- parseCIDRList read, and the downloads before them. `List` of the traffic store, which only reads,
-- and its column last_sample, which nothing reads. The counters and the forwarding rules of the
-- firewall, and the lines that nft prints. The built-in nodes of a fresh installation and the rows
-- about the downloads of a server. The files that the agent writes but its logs, the cut of captured output and the sampling loops of the agent, and the time that passes
-- between a signal and an exit. The export of nodes, the calls of the agent after an import, the client
-- configurations, the backups and the updates. The user interface, the packaging and the adapters.
pub mod Common
pub mod Database
pub mod Traffic
pub mod AnyConnect
pub mod Auth
pub mod Firewall
pub mod Settings
pub mod Nodes
pub mod Agent
pub mod Upkeep
pub mod Sync
pub mod ConfigGen
