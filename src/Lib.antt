-- ===== src/Lib.antt =====
-- cf-app-sd-release: service discovery for applications, in three programs.
--
-- The service discovery controller (src/service-discovery-controller) keeps a table from host names to
-- addresses. Its subscriber takes register and unregister messages from NATS and writes the table; a
-- goroutine of the table prunes entries that were not registered again for too long; its HTTP server
-- answers lookups from the table. The DNS adapter (src/bosh-dns-adapter) turns a DNS question over HTTP
-- into a lookup at the controller, with retries, and answers in the JSON format of DNS over HTTP. The
-- route populator (src/route_populator) is a load generator that publishes register messages for many
-- routes from many goroutines. The example applications (src/example-apps) are what the acceptance
-- tests deploy.
--
-- Files and code:
--   Base             Go's strings as bytes, maps as lists of pairs in the order of a range loop, clock
--                    readings, durations, panics; signed integers; lists; splitting at a byte.
--   Config           src/service-discovery-controller/config/config.go and
--                    src/bosh-dns-adapter/config/config.go. Checks has the tags and what `NewConfig` does
--                    with them, Servers is `NatsServers`, Escapes what it uses of net/url; Reading is a
--                    reader of such URLs.
--   AddressTable     src/service-discovery-controller/addresstable/address_table.go. Table has `Add`,
--                    `Remove`, `Lookup`, `GetAllAddresses` and the switches; Prune the goroutine of
--                    `pruneStaleEntriesOnInterval`; Hostname and Entries the helpers. Calls is the
--                    abstract table, Interleaving the goroutine among concurrent calls, Traces the
--                    same with the calls named, Sections the goroutine as a function; the other files are
--                    proofs, named for their subject.
--   Mbus             src/service-discovery-controller/mbus. Subscriber has `RunOnce`, Handlers the
--                    callbacks that it registers, over the interface in Table, which Implementation fills
--                    with the address table; Start is the start message, Run is `Run`; MetricsRecorder is
--                    metrics_recorder.go.
--   Routes           src/service-discovery-controller/routes. Server has the two handlers of server.go, Mux
--                    the multiplexer of net/http in front of them, Run its `Run`; MetricsRecorder is
--                    metrics_recorder.go.
--   Process          src/service-discovery-controller/main.go, with localip/local_ip.go. Wiring builds the
--                    table and the subscriber from the configuration; Messages is what the subscriber
--                    handles, Events all that happens until a signal, requests, metrics and the sections
--                    of the pruning goroutine included; Main is `mainWithError`. Announced says what the
--                    messages of a run ask of the table. Durations has the wrap-around of 64-bit
--                    integers. The other files are proofs about a run: its states (Runs), its answers
--                    (Answers, Replies, Warmth), its metrics (Counts), its table (Promises, Steps,
--                    Keeping, Losing).
--   Adapter          src/bosh-dns-adapter. Client is `IPs` and Shuffle is `shuffle` of
--                    sdcclient/service_discovery_client.go, Dial its constructor; Requests is the handler of
--                    main.go and Main the rest of it.
--   Populator        src/route_populator. Job and Publisher are publisher/publisher.go, Partition and
--                    Runner are runner/runner.go, Goroutines its goroutines with `Stop`, Waiting its `Wait`,
--                    Sending the goroutines with the messages that they send, which Refining relates to
--                    Goroutines, and Rounds, Progress and Sent keep account of; Flags and Main are
--                    main.go.
--   ExampleApps      src/example-apps. Stats, Proxy and Ping are proxy/handlers, Server is proxy/main.go,
--                    Diglett and Digging are diglett/main.go; Numbers has what they use of strconv and
--                    strings.
--   EndToEnd         from a register message through the controller's multiplexer and handler to `IPs`.
--   Resolving        from the events at the running controller to the adapter's answer to a DNS query.
--   Loading          from the goroutines of the route populator to a lookup at the running controller.
--   Tests            runs at concrete inputs.
--
-- State is passed along explicitly. A method that holds the table's mutex is one step; a tick of the
-- pruning goroutine, which takes the lock three times, is three, and other events may come between them.
-- A request to the controller is one event, answered at one moment. After the signal `mainWithError` does
-- not wait for the members of its group, and the model ends there too. In the populator each call of the
-- `ConnectionCreator` and each publishing succeeds or fails on its own. The clock is a parameter: a function
-- from the number of a reading to its value, in nanoseconds; the table counts its readings. Differences of
-- times saturate at 2^63 - 1 as in Go, and products of durations wrap around. NATS, HTTP, JSON, the
-- validator of the configurations, files, certificates, the random source, the flags' texts and the number
-- of CPUs are parameters, and what a proof needs of them is a named hypothesis.
--
-- Only the loop of `PartitionRange` runs on fuel, since it does not end for the size 0; two more rounds than
-- the number of ranges are enough for a positive size. The retry loop of `IPs` has its four rounds.
--
-- Not modelled: logging, metrics that are only sent, the metrics emitter and the log level server, which are
-- libraries, the timeouts of the HTTP client, the fakes, and the test helpers. The
-- numbers of routes are not negative, as the populator's check of its flags ensures.
pub mod Base
pub mod AddressTable
pub mod Config
pub mod Populator
pub mod Adapter
pub mod Mbus
pub mod Routes
pub mod Process
pub mod ExampleApps
pub mod EndToEnd
pub mod Resolving
pub mod Loading
mod Tests
