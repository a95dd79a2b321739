-- ===== src/Lib.antt =====
-- Datum Connect: a desktop node offers local services as tunnels, a control plane keeps their
-- objects, and a gateway forwards HTTP requests to the nodes. This library models the logic of
-- the crate lib with the logic of the crates cli, n0des-local and ui round it, and proves what
-- makes it correct.
--
-- How the parts interact. The tunnel service (lib/src/tunnels.rs) makes the objects of a tunnel
-- in the control plane and stores a proxy in the local node. The node (lib/src/node.rs) keeps
-- its proxies in a state with a file behind it (lib/src/state.rs, lib/src/repo.rs), and
-- authorizes each request of the gateway by that state. The gateway (lib/src/gateway.rs) takes
-- node and target from headers, forwards the request without them, and counts
-- (lib/src/gateway/metrics.rs). The heartbeat (lib/src/heartbeat.rs) runs one loop for each
-- project, which reports the node's addresses in the connector and renews its lease. The network
-- policy (lib/src/auth.rs) is another decision procedure for requests, read from a file. The
-- cloud client (lib/src/datum_cloud.rs) fetches the user's organizations and projects with the
-- token of the session (lib/src/datum_cloud/auth.rs), keeps the selected context, and opens the
-- clients of a project (lib/src/project_control_plane.rs). All files stand in one directory
-- (lib/src/repo.rs). The update check (lib/src/update.rs) stands alone. The views (ui/src) keep
-- a list of the tunnels and choose the selected context; the agent (cli/src) adds proxies and
-- starts gateways.
--
-- Base passes on the library's names and has the results, Boolean tests and list functions that
-- all share; Text is Rust's str as a list of characters, with split, trim, parse and print.
--
-- State models lib/src/state.rs: TcpProxyData, Advertisment, ProxyState and State are records,
-- set_proxy and remove_proxy the methods. State/Table is about the table of proxies,
-- State/Address about addresses, State/Names about new ids, State/Store about
-- StateWrapper::update and Repo::load_state over a disk.
--
-- Node models the authorization in lib/src/node.rs: strip_host_scheme, tcp_proxy_exists,
-- parse_host_port_from_url and authorize. Request has the requests and verdicts of the proxy
-- library.
--
-- Tunnels models lib/src/tunnels.rs: its helpers there, find_connector and ensure_connector in
-- Tunnels/Connectors, the operations of TunnelService in Tunnels/Service, Tunnels/Removal and
-- Tunnels/Listing. Tunnels/Io has the interface of the control plane; a call may change the
-- plane in any way, may fail, and may return anything. Long handlers are cut into the stages
-- that the source has, such as create_objects or delete_with. The theorems on them are about the
-- local node.
--
-- Gateway models lib/src/gateway.rs and lib/src/gateway/metrics.rs: Gateway/Metrics the
-- counters, Gateway/Metrics/Render the text that Prometheus reads (the print of the metrics of
-- iroh is an argument), Gateway/Resolver HeaderResolver, Gateway/Responder ErrorResponseWriter.
-- The HTTP request of the proxy library is an interface, with the law that a removed header is
-- gone, in any case of its letters, and the others stay.
--
-- Heartbeat models lib/src/heartbeat.rs: the durations in Heartbeat and Heartbeat/Timing,
-- HeartbeatAgent in Heartbeat/Agent as a step function on events, run_project in
-- Heartbeat/Project as a round over the replies of the control plane. Connection has the
-- connection details that lib/src/heartbeat.rs and lib/src/tunnels.rs report, Resources the
-- objects of lib/src/datum_apis.
--
-- Login models lib/src/datum_cloud/auth.rs: tokens and their expiry there, AuthStateWrapper and
-- AuthClient in Login/Client, at one reading of the clock for each operation, parse_user in
-- Login/Profile, the token response in Login/Tokens, and RedirectServer::recv in Login/Redirect.
--
-- Session models lib/src/datum_cloud.rs: data and URLs there with lib/src/datum_cloud/env.rs,
-- the parsing of replies in Session/Parse, SessionStateWrapper in Session/Context,
-- DatumCloudClient in Session/Client and Session/Validation, and ProjectControlPlaneClient of
-- lib/src/project_control_plane.rs in Session/Plane. Json is the interface of the JSON library,
-- Effects are operations that change a world and may fail.
--
-- Repo models lib/src/repo.rs and lib/src/config.rs over a directory: configurations there, the
-- keys in Repo/Keys, the sessions' files in Repo/Oauth, and in Repo/Stores the files as the
-- interfaces that State/Store, Login/Client and Session/Context rely on. Node/Collection has the
-- optional client of n0des, whose library is a parameter. Node/Endpoint has build_endpoint of
-- lib/src/node.rs, which reads the configuration, and Node/Start how a node starts from its
-- directory.
--
-- Tickets models n0des-local/src/lib.rs: server_actor over a list in the order of its keys;
-- Tickets/Refinement is about the table that the list stands for.
--
-- Cli models cli/src: dns_dev.rs in Cli/Dns, tunnel_dev.rs in Cli/Connect, and the commands of
-- main.rs in Cli/Commands. Ui models ui/src: the list of tunnels and the actions on it in
-- Ui/Tunnels, the sampler of views/tunnel_bandwidth.rs in Ui/Bandwidth, views/select_project.rs
-- in Ui/Select, the checks of the forms in Ui/Forms.
--
-- Policy models lib/src/auth.rs. Update models lib/src/update.rs: versions in Update, the
-- checker in Update/Checker, the task of the app that runs it (ui/src/main.rs) in Update/Loop;
-- Update/Releases says which release is offered, in terms of tags and file names.
--
-- Bounds. Numbers are natural numbers, with u16, u32 and u64 bounds and wraps written out. The
-- decimal print runs on fuel of 20 digits, which every u64 has room in. The loop that draws a
-- new id runs over the list of the characters drawn, and is shown to end once enough usable ones
-- are drawn. The heartbeat's loop runs over a list of rounds, one for each pass, of any length.
-- The tasks of the session and of a project's client, the ticket server, the sampler and the
-- update check of the app run over lists of what they are told. The loop that reads the
-- gateway's response runs over the chunks of the stream.
--
-- Parameters are what is not in the repository: the disk and the directory with their YAML
-- files, JSON, kube's clients, floating-point numbers, the HTTP and URL libraries, the control
-- plane and the JSON patches, the identity provider, the random numbers, the clock and the date
-- parser. Their laws, where a theorem needs any, are records named IsLawful.
--
-- Not modelled: sockets, the forwarding loops of iroh, downloads, logging, the web server of the
-- login, the tasks that wait on watch channels and timers (the turns of the loops are
-- functions), the DNS server and its reload, and the markup of the views.
pub mod Base
pub mod Text
pub mod Request
pub mod State
pub mod Node
pub mod Resources
pub mod Connection
pub mod Heartbeat
pub mod Gateway
pub mod Update
pub mod Policy
pub mod Tunnels
pub mod Login
pub mod Ui
pub mod Cli
pub mod Tickets
pub mod Repo
pub mod Effects
pub mod Json
pub mod Session
