-- ===== src/Lib.antt =====
-- Verification library of the server of remote-mouse, a program that lets a phone drive the mouse and
-- the keyboard of a computer. The Go code is under server/.
--
-- The program. A phone opens a TCP connection, says hello, proves that it knows the password by an
-- answer to a challenge, and then sends events, one JSON object on each line. On an ordinary desktop
-- the server hands them to the injector of the platform. As a Windows service it hands them to a pipe
-- injector, which writes them again to the agents, one process on each desktop that needs one; an
-- agent applies what it reads to the Windows injector. A monitor stops and starts agents as the
-- session is locked and unlocked. While the service does not run, the control panel serves instead.
--
-- The processes. The panel and the tray start elevated children that install and configure the
-- service, the service starts agents, and a registry entry starts the panel at login: each is this
-- program again, with a command line that CommandLine writes and Flags reads.
--
-- Common: shared names, Boolean tests, lists over the native numbers, Go's integers (Int), strings as
--   lists of characters and strings.TrimSpace (Texts).
-- Decimal: strconv.Itoa, strconv.Atoi and strconv.ParseInt, as server/ uses them.
-- Handles: the Win32 handles that a call opens and closes, for ServiceStatus and Spawn.
-- Proto: server/proto.go (In, encode) and what json.Unmarshal stores; children: round trip, bounds,
--   sizes of the JSON text.
-- Inject: server/injector.go and server/inject_apply.go (applyEvent); Fanout: server/fanout.go;
--   Pipe: server/pipe_inject.go (pipeInjector, runAgentLoop); Transparent, Sizes and Broadcast: what
--   reaches the agents.
-- Clients: server/clients.go (ClientRegistry); Refinement has its abstract specification.
-- Status: server/status.go and the answers of server/status_windows.go.
-- Server: server/server.go; `handle` is a state machine (Phase) whose turns are handle_line and
--   return_from; World holds all connections, and its Action is one event of a history. Handshake and
--   Safety are on authentication, Counts, Turns and Online on the registry.
-- Delivery: the scan of `handle` over a client's lines; Path follows it through the pipe injector and
--   the fan-out to the agents, Visit from the client's first line on.
-- Config: server/config_windows.go (readConfig, writeConfig) and server/main.go (appConfig, mode).
-- CommandLine: elevatedArgLine, autostartCmd and the agent's command line, with syscall.EscapeArg and
--   Go's commandLineToArgv; Reader, Argv, Join, Words and Children lead from the reader's steps to the
--   arguments that each child process gets.
-- Flags: the flags of server/main.go and package flag's parser; Started: what the child processes are
--   configured to do. Run: server/run_windows.go.
-- Serving: server/serving_windows.go (servingController) and the tick of the panel that calls it.
-- StartType: server/starttype_windows.go.
-- ServiceStatus: the queries of server/ui_service_windows.go. Autostart: server/autostart_windows.go.
-- DeviceTable: the table of devices of server/ui_windows.go. Panel: server/ui_panel_windows.go; Buttons,
--   Opening and Ticking are its handlers, its start and its ticker; Fields, Refresh, Saving and Devices
--   its theorems. Tray: the window of server/ui_windows.go.
-- ServiceCore: Execute, runServiceCore and listenTCPRetry of server/service_windows.go.
-- Spawn: server/spawn_windows.go. Agent: server/agent_windows.go.
-- Standalone: serveStandalone of server/serve.go, Listen of server/server.go and the stub injector.
-- NetInfo: server/netinfo.go and the interface choice of server/serve.go.
-- Desktop: server/desktop_windows.go. Monitor: the agentMonitor of server/service_windows.go.
-- Service: the other functions of server/service_windows.go that talk to the service control manager
--   (installService, uninstallService, startService, stopService, restartService, setStartType,
--   applyConfigElevated); the manager is a parameter, since its package is not here.
-- Keys: server/keys.go. WinInjector: server/injector_windows.go, its keyboard part in Keyboard.
-- MacInjector: server/injector_darwin.go, down to its C functions.
--
-- State and calls. A component's state is a record, an operation a function on it. A call that takes
-- the component's lock is one step. What the outside answers (ports, registry calls, processes,
-- tokens, screen metrics, the clock, random bytes) is an argument of the step. The key
-- derivation of the handshake comes from a package that is not here; with the digest and base64,
-- which are kept abstract, it is the parameter Crypto.
--
-- Numbers. Numbers are the native ℕ; Go's int is ℤ of Common.Int, with int32 and uint32 written out
-- where the code converts; the client counter is taken modulo 2^64. Some loops run on fuel: the
-- digits of a number, on the number itself; the polls of stopService, of which 34 outlast its timeout,
-- since each waits 300 ms; the attempts of listenTCPRetry, of which 27 outlast its five seconds, since
-- each waits 200 ms; and commandLineToArgv, each of whose rounds consumes a character.
--
-- Not modelled: the text of JSON (only its size and the object it stands for), logs, write deadlines
-- on the control connections, the widget toolkit and the layout of the windows, the bodies of Win32
-- and registry calls, which are arguments, the listener of the status pipe, runService and the
-- iOS client. Texts are taken to hold no NUL, with which ShellExecute would get no argument line. A
-- serving controller that listens on port 0 is taken to listen on that number, although the system
-- chooses another, and its loop of Serve ends only when its listener is closed.
pub mod Common
pub mod Proto
pub mod Handles
pub mod Inject
pub mod Clients
pub mod Status
pub mod Server
pub mod CommandLine
pub mod Config
pub mod Flags
pub mod Run
pub mod Serving
pub mod Standalone
pub mod StartType
pub mod Service
pub mod ServiceStatus
pub mod ServiceCore
pub mod DeviceTable
pub mod Autostart
pub mod Panel
pub mod NetInfo
pub mod Decimal
pub mod Desktop
pub mod Spawn
pub mod Tray
pub mod Monitor
pub mod Delivery
pub mod Keys
pub mod WinInjector
pub mod Agent
pub mod MacInjector
