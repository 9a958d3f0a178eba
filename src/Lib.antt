-- ===== src/Lib.antt =====
-- autotunnel: on-demand Kubernetes port forwards behind one local port. A request for a hostname,
-- or a connection to a local TCP port, is led to a tunnel, which is made on first use, shared by
-- all later requests and stopped when it has been idle.
--
-- The parts and where they are modelled:
--   * Config (internal/config/types.go, config.go, defaults.go, operations.go): the configuration
--     as records; a Go string is the list of its bytes, an unset one the empty list, `int` and
--     `time.Duration` are integers, a pointer is an option.
--   * Config/Host and Config/Validate (internal/config/validate.go): `IsValidTargetHost`,
--     `IsValidImageName` and `Validate` with its helpers, errors as values in the order of the
--     source; Config/Validate/Spec says what a configuration has to satisfy.
--   * DynamicRoute (internal/tunnelmgr/dynamic_route.go): `ParseDynamicHostname`.
--   * Tunnel (internal/tunnel): the state machine of one tunnel. Each function between a lock and
--     its unlock is one function; `none` is a panic of Go's runtime; an `Attempt` holds what
--     Kubernetes, the forwarder and the timers answer during one start. Tunnel/Await has the wait of a
--     caller that finds a start under way.
--   * ClientFactory (internal/k8sutil/client.go): the cache of clients by context.
--   * Manager (internal/tunnelmgr): the two maps from a hostname or a port to a tunnel. Tunnels are
--     shared by reference in Go, so the maps hold places in a store that only grows. Manager/Idle
--     has the sweep of idle tunnels and the shutdown.
--   * Discovery (internal/k8sutil/pod.go, service.go, `discoverTargetPod` of
--     internal/tunnel/port_forward.go): which pod and which of its ports a route leads to.
--   * JumpCommand (internal/tcpserver/jump_handler.go, `buildForwardCommand`): the command that the
--     shell of a jump pod runs.
--   * Sni (internal/httpserver/tls_passthrough.go): `extractSNI`; an index out of range is an error
--     of its own. Sni/Hello describes a ClientHello independently.
--   * Config/Load (`LoadConfig` and `resolveKubeconfigs` of internal/config/config.go) and ExecPath
--     (internal/config/execpath.go): the file, the environment and path/filepath are arguments.
--   * Handle (internal/tunnelmgr/types.go, `TunnelHandle`): what a handler does with a tunnel that
--     the manager has handed out, at its place in the store; Handle/Sound and Handle/Laws say what
--     this keeps.
--   * HttpHandler (internal/httpserver/http_handler.go), TlsHandler (`handleTLSConnection` of
--     internal/httpserver/tls_passthrough.go) and TcpHandler (`handleConnection` and
--     `handleJumpConnection` of internal/tcpserver/server.go): what happens to one request or
--     connection. What sockets and `httputil.ReverseProxy` answer is an argument.
--   * TlsErrorPage (internal/httpserver/tls_error_handler.go) and CertCache
--     (internal/httpserver/tls_error_cert.go, `GetCertificate`): the page of a TLS error, and the LRU
--     cache of its certificates.
--   * Listener (internal/httpserver/mux_listener.go, `handleConnection` of server.go): which handler
--     a connection goes to, the queue before the HTTP server, and the connections that wait for
--     a place in it.
--   * TcpServer (internal/tcpserver/server.go): the listeners of the local ports, from the start to
--     the shutdown; TcpServer/Accept has the accept loop.
--   * PodWait (`WaitForPodReady` of internal/k8sutil/pod.go) and Jump (internal/tcpserver/
--     jump_handler.go): the wait for a pod, and the jump pod with what runs in it.
--   * Watcher (internal/watcher/watcher.go): when a change of the file leads to a reload. The steps of
--     the watcher are a relation, in which the loop's sleep after a rename is a state, and in which the
--     loop may return by `stopChan` or by a closed channel of fsnotify; Watcher/Debounce has the loop
--     over a sequence of events in time.
--   * App (main.go, `initializeApp` and `shutdownApp`): the parts of one run of the program.
--   * Text and Net/Ip: what the source uses of Go's packages strings, strconv and net. GoMap: Go's
--     map, as the entries in the order of one `range`.
-- The manager asks the client factory for a client and the dynamic routes for a route, and moves
-- its tunnels by the operations of Tunnel. The handlers ask the manager for a place in the store,
-- start, touch or fail the tunnel there, and hand on the bytes; the listeners choose the handler; the
-- start-up makes all of them from a configuration that is loaded, or comes from the watcher.
--
-- Numbers are natural numbers or integers without a bound: `strconv.Atoi` refuses what does not fit
-- 64 bits, and the parser of SNI adds numbers of 16 bits only. The loop of `findSNIInExtensions`
-- runs on the length of its input and one as fuel, and moves on by four bytes a round; that of
-- `net.ParseIP` has at most eight rounds; the decimal print of n has n + 1, and halts at 0. The
-- wait for a pod runs on a number of rounds, and rounds that begin a second apart end it once they
-- exceed the timeout. Every other loop is structural.
--
-- Not modelled: the bytes that are copied between two sockets, the set-up of net/http, crypto/tls and
-- fsnotify, the Kubernetes API, the making of certificates, flags, signals and the loop of main, and
-- logs. Goroutines that run at the same time are sequences of the critical sections of the tunnel and
-- of the cache of certificates; a handler is modelled as it runs with no other one in between, and a
-- reload of the watcher as one step.
pub mod Base
pub mod GoMap
pub mod Text
pub mod Net
pub mod Config
pub mod DynamicRoute
pub mod Sni
pub mod Tunnel
pub mod ClientFactory
pub mod Manager
pub mod CertCache
pub mod Handle
pub mod HttpHandler
pub mod TlsErrorPage
pub mod TlsHandler
pub mod PodWait
pub mod Jump
pub mod TcpHandler
pub mod TcpServer
pub mod ExecPath
pub mod Watcher
pub mod App
pub mod Listener
pub mod Discovery
pub mod JumpCommand
