-- ===== src/Lib.antt =====
-- metassh connects to many hosts over SSH, runs commands on them, and serves a ControlMaster socket
-- for each. This library models its core as functions on explicit states.
--
-- The program's parts. The global state (state.go) belongs to one goroutine, the serializer; every
-- other goroutine exchanges messages with it by the methods of `*State`. Connecting (connect.go,
-- resolve.go, proxy.go) looks up targets there, starts one goroutine per connection
-- (remotehost.go) and files its request channel. Disconnecting and running (connect.go, run.go)
-- send requests to those channels. In server mode each such goroutine that is no proxy also serves
-- a ControlMaster socket (controlmux.go). Targets are loaded from JSON (json.go).
--
-- The files.
--   Base      shared notation, tests into Bool, lists, strings, words, maps, outcomes, sorting, and
--             sets of open handles.
--   Store     state.go. Types: the records, requests and replies. Serializer: `serve` has one clause
--             per case of the serializer's switch, `handle` is one round of its loop. Methods: one
--             definition per method of `*State`, a sequence of exchanges (`Act`). View: what each
--             request promises, on maps that are functions; Refinement, History: that one request,
--             and a run of them, keeps it. Invariant, Panics, Waiters, Tally, Races: what else is
--             proved; Races puts other clients' requests between the exchanges of GetHostInfo.
--   Mux       controlmux.go. Wire and Messages: the encoding and parseNewSession. Frames: readMsg
--             and sendMsg. Handler: handleControlMaster and waiter, each branch as the list of
--             actions that it takes. Sockets: NewMux and getFd over the files that the process has
--             open. Lifetime: the goroutines of one Mux as a step relation, and what is proved of
--             it. RoundTrip, Replies, Sessions, Disposal: what is proved of the others.
--   Fleet     connect.go, resolve.go, proxy.go, remotehost.go, json.go. Net: the global state with
--             the listeners of each request channel. Remote, Proxy, Resolve, Disconnect, Connect,
--             Json: resolve, resolveProxies, proxyConnect, remoteHost, connectEverywhere, runOnce,
--             disconnectHost, disconnectEverywhere, LoadFile, LoadBlob. Race and Relay: the
--             goroutines of one direct dial and of one proxyConnect as step relations. Sweeps,
--             Standalone, Manned, Reported, Waits, Returns, Totals, Loading: what is proved of the
--             functions one by one. Steady, Growth, Dials, Links, Chains, Addresses: what a chain
--             of links leaves; Arrivals, Proxies, Attempts, Rounds: what one target and a whole pass
--             leave. Tokens, Stragglers, Receipts, Aftermath: what is proved of the step relations.
--   Run       run.go. Spool, Command, Everywhere: spoolHandles, runCmd, runEverywhere, over Program,
--             which adds the settings that change, what is printed, and the goroutines that a
--             command leaves in the background. Parts, Verdicts, Ends, Steady, Statuses, Reported,
--             Outputs, Quiet: what is proved of them.
--   Output    output.go. Screen: Write, doOutput and the methods on it. Serializer: its goroutine and
--             those that send to it, as a step relation. Counts, Serial, Remaining,
--             Progress: what is proved.
--   Summary   summary.go, sortmap.go. SortMap: the sorted keys. Hosts: what printSummary notes of a
--             target. Report: its loop and what it prints. Balance, Weights, Order: that every
--             target is counted, and what the order of the targets changes.
--   Cli       commands.go. Commands, Quant, Flags: the commands, over Program. Dispatch: the table,
--             runCliCmd and the loop of cli. Clearing, Quits, Session: what is proved of them.
--   Server    server.go. Dims: the sizes of terminals. Accept: the loop of Start, discardRequests.
--             Channel: handleChannel over the list of a channel's requests; Requests: what is
--             proved of it. Sessions: the shells of several channels as a step relation. Windows:
--             setWinSize and getWinSize. Setup: NewSSHServer.
--   SshConfig sshconfig.go. Files: the open files and the temporary keys. Keys: getPrivateKeyFile,
--             with its deferred calls where each return makes them. Configs: makeSigner and the
--             configurations. Leaks: what is proved of them.
--   Readline  readline.go. Memory: the blocks of C's heap and the streams that C holds. Calls: the
--             functions of the binding. Safe: what is proved of them.
--   Start     main.go, signals.go, config.go. Flags: Config, its defaults, and reflectFlags. Launch:
--             main, a definition for each step. Signals: one round of each handler. Daemon,
--             Interrupts: what is proved of them.
--   Examples, in each part, Fleet/Endings, Fleet/Journeys, Fleet/Aborts and Cli/Samples: concrete
--   runs, and theorems at them.
--
-- How Go is read. A string is a list of bytes. A map is an association list in the order in which
-- one `range` meets it. A call ends as an `Outcome`: `ok`, `panic` for a panic or a nil dereference
-- anywhere in the program, `blocked` for a send or receive that waits for good. Values of type
-- error are their messages. Durations, times, channels and pointers to configurations are numbers.
-- Counters of type int are unbounded; the session counter and the words of messages wrap at 2 ^ 32.
-- A slice has no spare capacity. The buffer of a timeoutChan holds one value (`Slots`). A method,
-- and a whole pass of connecting, running or disconnecting, is taken without other goroutines in
-- between, and the goroutines of one pass one after another; where the interleaving is the point it
-- is an argument (Store.Races, the first value that a `select` takes) or a step relation
-- (Output.Serializer, Mux.Lifetime, Fleet.Race, Fleet.Relay, Server.Sessions). Loops are recursion
-- on the list that they range over, so nothing runs on fuel.
--
-- Parameters. What the network, the SSH library, the kernel, the clock and the files do is a record
-- that the definitions take: SessionEnv, Read, FdEnv and Stat (Mux), Weather and ProxyEnv (Fleet),
-- RunEnv and SpoolEnv (Run), KeyEnv (SshConfig), LaunchEnv (Start), Kernel (Server); the writer
-- below `write` is a function, and what is typed at a prompt and whether a stream opens are
-- arguments (Readline). json.Unmarshal's result is the argument of `load_blob`. CliEnv (Cli) has
-- what pflag makes of the arguments, the end of the target program, and the times; its Reals are
-- float64 with strconv.ParseFloat and the package that estimates quantiles. Printed texts keep
-- their `%` verbs, with the arguments beside. sort.Sort is an insertion sort; only the order by
-- which it sorts is the program's.
--
-- Not modelled: what is printed with Debug, but for the server's accept loop; io.Copy, which only
-- moves bytes; what pflag and godaemon do; what GNU Readline does below the calls of readline.go;
-- the terminals behind a session's lines.
pub mod Base
pub mod Store
pub mod Mux
pub mod Fleet
pub mod Run
pub mod Output
pub mod Cli
pub mod Server
pub mod SshConfig
pub mod Start
pub mod Summary
pub mod Readline
