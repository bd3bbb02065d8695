-- ===== src/Lib.antt =====
-- The Go programs of the Telco Helm charts: the phone simulator of the Ella Core chart and the HTTP
-- proxy whose traffic leaves through a UE's interface.
--
-- Program and files
--   ella-core/ue-phones/app is one process with a dashboard of simulated phones. HTTP handlers and
--   goroutines share the dashboard under locks; they call the tester's libraries for calls, short
--   messages and registration; a SOCKS5 proxy lets a browser reach the web through a phone.
--   mode.go, `phoneIDs` of phone_gnb.go: Mode.
--   server.go, the state of the dashboard: Dashboard.State (`phoneMessage`, `phoneEvent`,
--     `dashboardPhone`, `phoneDashboard`, `event`, `fail`, `trim`), Dashboard.Number
--     (`validPhoneNumber`), Dashboard.Messages (the loops over stored messages). Dashboard.Steps is
--     the relation of the atomic sections, each under one lock or one atomic operation;
--     Dashboard.Invariant, Safety, Caps and History say what it preserves.
--   Exec: a handler as a sequence of sections and of calls. `Env` is what a handler asks of the
--     libraries and what the other goroutines do between its sections; Exec.Runs and Exec.Take
--     connect handlers with the step relation, Exec.View with the progress of the set-up.
--   main.go and server.go, `ServePhones`: Serve. `initialize`: Setup.Initialize, which calls
--     `attachInternetUEs` of mode.go (Setup.Registration), `startPhoneGNB` of phone_gnb.go,
--     `attachInternet` of browse.go (Setup.Tunnel) and `startBrowserProxy` of browser.go
--     (Browser.Egress), and starts the receiving goroutines.
--   server.go, `action`: Action. `receiveSMS`, `receiveCalls`, and `trackDelivery` of phone_gnb.go:
--     Receive. `media`: Media. `state`: Snapshot. The routes of `ServePhones` and `browserRoutes` with
--     their handlers: Serve.Routes. Process is the process of all these: requests, goroutines, the
--     goroutines that they start, and what runs between the sections of each.
--   browser.go, `socks`: Socks, and the relay at its end Socks.Relay. `browserRoutes`:
--     Browser.Navigation (POST /api/browser/navigate) and Browser.Viewer (GET /browser/ and
--     /api/browser).
--   browse.go, `publicIP`: Browse.Address; `publicWebURL` and `ueWebClient`: Browse.Client, with its
--     sockets in Browse.Client.Sockets; `mobileReader`: Browse.Reader; `reader`: Browse.Outline;
--     `browse`: Browse.Handler.
--   images/5g-ue-http-proxy/main.go: Proxy (`requestTransport`, `forward`, `connect`, `ServeHTTP`),
--     Proxy.Headers (`removeHopHeaders`, `copyHeaders`), Proxy.Startup (`env`, `waitForInterface`, and
--     what `main` reads), Proxy.Sockets (`socketControl`, `newProxy`), Proxy.Main (`main`) and
--     Proxy.Relay (`transfer`, whose two goroutines are a step relation of their own).
--   Sockets: a dialer and a resolver of the package net as both programs use them, with a list of the
--     sockets that they open; Sockets.Copy is `io.Copy` between two connections, step by step.
--   Common holds the names and lemmas that the modules share, Tests the concrete runs.
--
-- How code becomes definitions
--   A phone is its index in `phones`, a call is a number, a time is a number. A locked section is
--   one function on the dashboard. `locked` first lets the other goroutines run, so a theorem on
--   a handler holds for every interleaving that `Interleaves` allows. The lock `op` of a phone only
--   removes interleavings. `receiveSMS` takes its id within the section that stores the message;
--   the model takes it just before, which allows more interleavings. In Process what runs where a
--   goroutine waits is any list of jobs of the same process, nested to any depth that is given; a
--   goroutine that such a job starts can run on within the same list.
--   An id is `atomic.Uint64`, so it is taken modulo 2 ^ 64; the tickets beside the dashboard record
--   every id that was taken. At most 100 events, and 100 messages of a phone, are kept.
--   `track_delivery` has the number of rounds as an argument, which is 30 in the code. The endless
--   loops (`receive_messages`, `receive_calls`, `media`, `wait_for_interface`) have a number of rounds
--   too, and what is proved of them holds for each number. Other loops are recursion on lists or on
--   the tree of a page, so no fuel is needed.
--   The transports of the HTTP proxy are references into a store (`Proxy.Store`), so that a change of
--   the shared one would be seen by every request.
--   Code that only calls other processes or the kernel (Setup.Tunnel, Browser.Egress,
--   Browser.Navigation) gives the list of its calls, with the errors of the calls as a parameter.
--
-- Parameters, with what is assumed of them in the theorems that need it
--   The tester's libraries, the clock, the radio network (`Env`); url.Parse and the resolution of
--   references; the HTML parser and its escaping; the resolver and the dialer; netlink, the
--   firewall's commands and the network interfaces; net.ParseIP; Chromium; the cleaning of request
--   paths by http.ServeMux; http.Transport.RoundTrip; the hijacker. Of the other goroutines the theorems on the set-up assume that they leave its progress
--   alone (`IsSteady`), and of the tester's library that it attaches the subscribers that it is given
--   in their order (`IsFaithful`). Where a theorem says that the other goroutines leave the dashboard
--   alone, that is `IsIdle`. That the set-up ends with success rests on the calls that do not fail
--   (`IsSmooth`, in Setup.Initialize.Smooth, which speaks of those calls alone). Of net the theorem on
--   the web client's sockets assumes that it splits an address which it joined to a port that it had
--   found (`IsStandard`). The theorem on the packets of a call assumes a log of the radio that nothing
--   else changes (`IsLogged`). What the Go standard library itself computes and the
--   code relies on (predicates of net/netip, canonical header names, the redirects that a client
--   follows) is defined.
--
-- Not modelled
--   Deadlines, log lines, the JSON encoding and the listening servers of net/http; the reverse proxy of the
--   viewer and Chromium, which are parameters;
--   the two files that pass names of the tester's packages on (ims_bridge.go, ran_bridge.go);
--   everything that is not Go.
pub mod Common
pub mod Sockets
pub mod Tests
pub mod Mode
pub mod Dashboard
pub mod Exec
pub mod Action
pub mod Receive
pub mod Setup
pub mod Media
pub mod Snapshot
pub mod Serve
pub mod Socks
pub mod Browse
pub mod Browser
pub mod Process
pub mod Proxy
