-- ===== src/Lib.antt =====
-- Components of UR WebIF: what they do, and what holds of them.
--
-- UR WebIF is a web interface for network devices: an HTTP server whose routers call managers for
-- logins, firmware, network settings and pages. The parts modelled here, and where they are:
--   * Login: mecanisms/login/login_manager.cpp and .hpp. State has the structs and the members of
--     LoginManager with its three mutexes; Attempts has isIpLocked and recordLoginAttempt; Auth has
--     the constructor, authenticate, and how the credentials are stored; Sessions has
--     validateSession, logout and cleanupExpiredSessions; Tokens relates the tokens of a login to
--     the check of the security utilities; Handler has the messages of LoginHandler, in
--     mecanisms/login/login_handler.cpp, with the text that the response callback gets.
--   * Security: mecanisms/login/security_utils.cpp. Address has isValidIPAddress,
--     isPrivateIPAddress and extractClientIP; RateLimit has checkRateLimit over the static table;
--     Input has isValidUsername, isValidSessionToken and sanitizeString; Password has
--     evaluatePasswordStrength.
--   * Tftp: src/firmware-update/tftp_client.cpp. Packet has TftpPacket, Network has
--     TftpClient::Impl, Client has download_file, Commands has test_connection and
--     download_file_to_path, Names has is_valid_tftp_filename.
--   * Sysupgrade: src/sysupgrade-mecanism/sysupgrade_handler.cpp and .h. State has UpgradeProgress
--     and the members of SysupgradeManager; Firmware has validateFirmwareFile; Manager has
--     startUpgrade, cancelUpgrade, getProgress and what reports progress; Worker has upgradeWorker.
--   * Files: src/file_server.cpp and include/file_server.h. Path has sanitizePath and the path that
--     serveFileWithState makes of it; Cache has readFileWithCache and refreshFile; Transactions has
--     the page transactions; Serve has serveFileWithState up to the choice of the response.
--   * NetworkOps: src/network-ops, the handlers of VLANs, bridges, NAT, firewall rules and static
--     routes, which share one structure. Store has the document and its file (loadVlans, saveVlans,
--     saveJsonToFile), Rules getVlans, getVlan, createVlan, updateVlan and toggleVlan, Deletion
--     deleteVlan, Requests handleVlanRequest and the answers; Kind lists what the handlers differ
--     in, and Handlers has a module for each of them. Documents, Entries, Identifiers and Keeping
--     follow the identifiers of the entries through the operations.
--   * Multipart: src/multipart_parser.cpp. Headers has extractHeaderValue and
--     parseContentDisposition, Parser the constructor, parse and the queries of MultipartParser.
--   * Vpn: mecanisms/vpn-parser. Detect has isOpenVPNConfig, isIKEv2Config, isWireGuardConfig and
--     identifyProtocol, Endpoint extractServer and extractPort of WireGuard, OpenVpn the lines of an
--     OpenVPN configuration.
--   * Router: src/dynamic_router.cpp. Registering routes, processRequest and findMatch of
--     DynamicRouter, with std::regex_match as a parameter and without compilePattern.
--   * Credentials: src/credential_manager.cpp and src/password_manager.cpp. Attempts has the failed
--     attempts and the lockout; Manager has authenticate and the sessions; Cipher has encrypt and
--     decrypt; Disk has the credentials file (saveCredentialsToFile, loadCredentials,
--     createDefaultCredentials, updatePassword, the constructor); Password has PasswordManager.
--   * WebSocket: src/websocket_handler.cpp. Connections has on_open, on_close, on_message, the pings,
--     sendMessage and broadcastMessage over the tables of the connections, Locks the shared mutex
--     of these, Events triggerEvent and its callers, Callbacks the registry, matchesFilter and
--     processEvent, Server the handlers as the library calls them.
--   * Config: src/config_parser.cpp and ServerConfig of include/web_server.h. parseConfig with the
--     file's contents as an argument, getDefaultConfig and validateConfig, without saveConfig.
-- Json is the interface of nlohmann json that the handlers use: the calls are a record of functions
-- (JsonLibrary), and what the proofs rely on is a record of laws (JsonLaws), which the library of
-- the examples fulfils.
-- Base has the shared functions on texts, lists, maps and numbers; Run has method calls under
-- mutexes and exceptions; Examples has concrete inputs for the theorems.
--
-- A method is a function from the object to a run: it returns or throws with a new object, or it
-- waits for a mutex that its own thread holds. The C++ standard leaves locking a held std::mutex in
-- the same thread undefined; the model has it wait for ever, as the usual implementations do. The
-- clock readings and the random bytes of a login are arguments (Readings). The TFTP client carries
-- the answers of the network in its state, and the upgrade takes the file system, the shell and the
-- clock as a record of functions (System); the SHA-256 digest and the encrypted JSON text of the
-- credentials are functions of the record Platform, and the file server takes the disk and
-- std::hash as the record Host. Locking a std::shared_mutex as a writer in a thread that holds it
-- as a reader is undefined too, and waits for ever in the model; a second reader is let in. Texts
-- are lists of bytes, maps are association lists, time points are numbers of clock ticks. Words of
-- 16 bits wrap: the block number of a download is taken modulo 65536.
-- The numbers of WebSocket connections wrap after 32 bits; the invariant of the server is shown up
-- to 2 ^ 31 - 1 of them. The flag should_cancel_ of an upgrade is read from the object at each of the
-- four tests, and the destructor may set it before each of them (System); cancelUpgrade in another
-- thread keeps the mutex for ever, and is no part of the runs of the upgrade thread.
--
-- Loops are structural recursion, but for four. transfer consumes one network event in each round,
-- and a receive without an event is a timeout. run_attempts counts the attempts left, which are
-- retries + 1, as the for loop has. erase_loop of sanitizePath gets one more round than the path
-- has characters, and each round erases three of them. read_parts of the multipart parser gets as
-- many rounds as the body has bytes, and each round takes a delimiter out of it.
--
-- Not modelled: the log output, the waits between upgrade stages, the percentage and the elapsed
-- time of a TFTP progress report, negative values of the settings, and calls of OpenSSL, of the
-- JSON library and of the socket library, beyond the answers above. The HTTP glue, the
-- threads and the network side of the WebSocket server, the routers of the pages, the values that
-- the VPN parsers take by regular expressions, their JSON profiles, and the utility engines are not
-- part of this development, nor are the copies of asio, nlohmann json and websocketpp under
-- third_party.
pub mod Base
pub mod Run
pub mod Json
pub mod Login
pub mod Security
pub mod Tftp
pub mod Sysupgrade
pub mod Files
pub mod NetworkOps
pub mod Multipart
pub mod Vpn
pub mod Router
pub mod Credentials
pub mod WebSocket
pub mod Config
pub mod Examples
