-- ===== src/Lib.antt =====
-- A model of porthawk, a Linux server (Go) that shows the machine's network connections with the
-- processes behind them, in a browser page. Once a second broadcastLoop of main.go scans the socket
-- tables, counts traffic, enriches the rows with names, keeps rows of connections that have gone,
-- applies the user's rules and sends the result to the clients; HTTP handlers change the rules and
-- settings and act on processes and the firewall.
--
-- The files and the code that they model, by paths from the repository's root:
--   Server.antt       main.go: Server/Tick broadcastLoop over all components below, Server/Clients the
--                     clients of handleWS, Server/Auth tokenOK and auth, Server/Routes the routes of
--                     main with all handlers on one state, Server/Listen listen, loadToken, runningURL
--                     and singleInstance; Server/Machine joins Scanner to AppNames and Geo.
--   Conn.antt         conns.go: the row type Conn.
--   Scanner.antt      conns.go: Scanner with Scan, walkProc, unownedReason, App and the caches;
--                     Scanner/Hex parseHexAddr, Scanner/Walk walkProc, Scanner/Age the ageing of
--                     unowned sockets in Scan, Scanner/Rows the rows.
--   AppNames.antt     procinfo.go: appIdentity; AppNames/Words and AppNames/Friendly the names made of
--                     ids, AppNames/Paths install and working directories, AppNames/Units cgroups.
--   Geo.antt          geo.go: geoLookup, routeIsVPN, ifaceIsVPN.
--   Ifaces.antt       iface.go: Ifaces.
--   Traffic.antt      tcpstats.go (Traffic/Tcp, with the lines of ss in Traffic/Tcp/Lines), udpstats.go
--                     (Traffic/Udp, with the keys in Traffic/Udp/Keys and the start in
--                     Traffic/Udp/Start), nethogs.go (Traffic/Hogs, with the waits of Run in
--                     Traffic/Hogs/Backoff and its loop in Traffic/Hogs/Lives).
--   LastOwners.antt   lastowner.go: Record, Resolve, Verify, alive, readProcStatFile.
--   Ghosts.antt       ghosts.go: Track, SetTTL, NewGhosts, clampGhostTTL.
--   Rules.antt        rules.go: the rules; Rules/Match Apply and AliasFor, Rules/Edit the edits, load
--                     and save, Rules/File the JSON document of rules.json, Rules/Api handleRules,
--                     Rules/Races edits and saves of several requests at once.
--   Lookups.antt      dns.go and owner.go: the queue of addresses that both write in the same way.
--   Dns.antt          dns.go: Resolver.
--   Owner.antt        owner.go: Owner; Owner/Cymru the names and answers of the DNS service,
--                     Owner/Query query and the worker's round, Owner/Persist load and Flush.
--   Settings.antt     main.go: loadPrefs, savePref, handleGhostTTL; Settings/Toggles readToggle,
--                     handleDNS, handleOwner.
--   Actions.antt      kill.go and elevate.go: handleKill, handleBlock, handleKillRoot, runElevated.
--   Go.antt, Http.antt  what the source uses of strings, strconv, unicode, float64, encoding/json,
--                     net/netip and net/http.
--   Prelude.antt      shared notation and lemmas: lists and numbers, int64 arithmetic (Int), Go maps
--                     (Dict), loops that keep the best entry (Best).
-- The other children of these modules hold the proofs, and modules called Tests the tests.
--
-- How the source is read. A method that takes a lock is one step of its component's state, which is a
-- record; a handler maps a request and a state to an answer and a state. A text is a list of code
-- points, or of bytes where the source takes bytes apart; what Unicode's tables say of case is a
-- parameter (Unicode in Go/Text), as is strconv.ParseFloat. A Go map is a list of entries that holds
-- each key once; a loop over a map goes through that list in its order, where Go leaves the order
-- open. Times are nanoseconds, and one call reads the clock once; it stands still while the rows of one
-- tick are named. The kernel, the process table, the output of ss, ip and nethogs, the dump of the eBPF
-- map, the DNS service, the table of countries, pkexec and the disk are values or functions that an
-- operation takes (Kernel, World, Procs, ProcFiles, Atlas, Dns, System, Io). Byte counters of the kernel
-- wrap as uint64 where the source subtracts. Counters and rates of a row are exact numbers, not float64;
-- the amounts of nethogs are float64 without rounding: negative numbers, NaN and the infinities are
-- kept (Go/Float), and a snapshot with NaN or an infinity, which json.Marshal refuses, is not sent. The
-- files config.json and rules.json are documents (Go/Json): a key fits a field whatever its case, and
-- the last that fits counts; text that is no JSON is no document. A list that
-- rules.json names twice is taken from the last, and a nil slice, which is written as null, is read back
-- as empty. The body of a request is what encoding/json reads of it, or nothing where it gives an error.
-- A time.Duration wraps as int64 where the source multiplies. Scanner takes appIdentity and geoLookup as
-- functions of its Kernel; Server/Machine gives those of AppNames and Geo.
--
-- Workers, ticker and handlers interleave freely: Dns/Steps and Owner/Steps are step relations, and
-- their results hold in every reachable state. The edits of the rules write the file after the lock is
-- released: Rules/Races takes edit and save apart, while Rules/Api and Server/Routes answer one request
-- to the rules at a time. The channel of addresses holds 1024, as in the source.
--
-- Every loop is a structural recursion, with these exceptions on fuel: itoa in Go/Text/Number takes
-- twenty digits, which suffice for a number below 2 ^ 64; trim_loop in AppNames/Friendly takes the
-- length of the id, and more changes nothing, as AppNames/Trim proves; try_ports in Server/Listen takes
-- the 200 tries of the source.
--
-- Not modelled: the flags, signals and log lines of main; the bytes of the page and of the messages to
-- the clients, and the fields of Snapshot that are constants or copies of other state; the timers of
-- flusher and ownerRateWait (owner.go); the release of the eBPF program; the generated
-- udpbpf_x86_bpfel.go; bpf/udp.c, which runs in the kernel; and the page web/index.html, in another
-- language.
pub mod Prelude
pub mod Go
pub mod Http
pub mod Conn
pub mod Scanner
pub mod Rules
pub mod LastOwners
pub mod Ghosts
pub mod Lookups
pub mod Dns
pub mod Owner
pub mod Settings
pub mod Actions
pub mod Ifaces
pub mod Geo
pub mod AppNames
pub mod Traffic
pub mod Server
