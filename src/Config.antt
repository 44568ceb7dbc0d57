-- ===== src/Config.antt =====
-- src/config_parser.cpp, and ServerConfig of include/web_server.h: the settings of the server in a
-- JSON file. A setting is a member of `ServerConfig`, which a call changes as it goes.
pub mod Valid
use ur_webif.Base.{
  ℕ, Bool, true, false, not, Option, none, some, List, [], ◌∷◌, Bytes, codes, ltb, leb, ◌||◌,
  insert, Assoc, is_empty, if◌then◌else◌, ℤ, pos, negsuc,
}
use ur_webif.Run.{Call, ◌>>=◌, ◌>>◌, pure, modify, try_catch}
use ur_webif.Json.{Attempt, done, threw, attempt, JsonLibrary}

pub record ServerConfig : Type 0 where
  pub port : ℤ
  pub host : Bytes
  pub document_root : Bytes
  pub default_file : Bytes
  pub data_directory : Bytes
  pub enable_websocket : Bool
  pub websocket_port : ℤ
  pub enable_ssl : Bool
  pub ssl_cert_file : Bytes
  pub ssl_key_file : Bytes
  pub max_connections : ℤ
  pub connection_timeout : ℤ
  pub enable_cors : Bool
  pub allowed_origins : List Bytes
  pub websocket_debug_enabled : Bool
  pub websocket_debug_connections : Bool
  pub websocket_debug_messages : Bool
  pub websocket_debug_handshakes : Bool
  pub websocket_debug_errors : Bool
  pub websocket_debug_frame_details : Bool
  pub endpoint_logging : Assoc Bool

-- What JSON numbers of type `int` and arrays of strings are read as.
pub record Conversions (J : Type 0) : Type 0 where
  pub to_int : J → Attempt ℤ
  pub to_texts : J → Attempt (List Bytes)

abbrev all_endpoints : Assoc Bool
all_endpoints =
    (codes "auth", true)
    ∷ (codes "dashboard", true)
    ∷ (codes "system", true)
    ∷ (codes "network", true)
    ∷ (codes "cellular", true)
    ∷ (codes "utils", true)
    ∷ (codes "wired", true)
    ∷ (codes "http", true)
    ∷ (codes "websocket", true)
    ∷ (codes "file_server", true)
    ∷ []

abbrev pub get_default_config : ServerConfig
get_default_config = record {
  port = pos 8080;
  host = codes "0.0.0.0";
  document_root = codes "./web";
  default_file = codes "index.html";
  data_directory = codes "./data";
  enable_websocket = true;
  websocket_port = pos 8081;
  enable_ssl = false;
  ssl_cert_file = [];
  ssl_key_file = [];
  max_connections = pos 1000;
  connection_timeout = pos 30;
  enable_cors = true;
  allowed_origins = codes "*" ∷ [];
  websocket_debug_enabled = false;
  websocket_debug_connections = false;
  websocket_debug_messages = false;
  websocket_debug_handshakes = false;
  websocket_debug_errors = true;
  websocket_debug_frame_details = false;
  endpoint_logging = all_endpoints;
}

abbrev pub below_one : ℤ → Bool
below_one (pos n) = ltb n 1
below_one (negsuc n) = true

abbrev pub above_ports : ℤ → Bool
above_ports (pos n) = ltb 65535 n
above_ports (negsuc n) = false

abbrev pub usable_port : ℤ → ℤ → ℤ
usable_port port usual = if below_one port || above_ports port then usual else port

abbrev pub usable_limit : ℤ → ℤ → ℤ
usable_limit limit usual = if below_one limit then usual else limit

abbrev pub usable_text : Bytes → Bytes → Bytes
usable_text text usual = if is_empty text then usual else text

unfoldable pub validate_config : ServerConfig → ServerConfig
validate_config config = record config {
  port = usable_port config.port (pos 8080);
  websocket_port = usable_port config.websocket_port (pos 8081);
  max_connections = usable_limit config.max_connections (pos 1000);
  connection_timeout = usable_limit config.connection_timeout (pos 30);
  document_root = usable_text config.document_root (codes "./web");
  default_file = usable_text config.default_file (codes "index.html");
  data_directory = usable_text config.data_directory (codes "./data");
}

module _ {J : Type 0} (lib : JsonLibrary J) (conversions : Conversions J) where
  -- `if (json_config.contains(key)) config.member = json_config[key]`
  abbrev pub take_over :
      {A : Type 0}
      → J
      → Bytes
      → (J → Attempt A)
      → (A → ServerConfig → ServerConfig)
      → Call ServerConfig (Unit {0})
  take_over json key convert put =
      if lib.contains json key
      then (attempt (lib.member json key) >>= λ found.
          attempt (convert (found.0)) >>= λ value. modify (put value))
      else pure tt

  abbrev pub take_endpoints : List (Bytes × J) → Call ServerConfig (Unit {0})
  take_endpoints [] = pure tt
  take_endpoints ((key, value) ∷ more) = attempt (lib.to_flag value) >>= λ enabled.
      modify (λ c. record c { endpoint_logging = insert key enabled c.endpoint_logging })
      >> take_endpoints more

  unfoldable pub take_endpoint_logging : J → Call ServerConfig (Unit {0})
  take_endpoint_logging json =
      if lib.contains json (codes "endpoint_logging")
      then (modify (λ c. record c { endpoint_logging = [] })
          >> (attempt (lib.member json (codes "endpoint_logging")) >>= λ found.
              take_endpoints (lib.items (found.0))))
      else pure tt

  unfoldable pub take_server : J → Call ServerConfig (Unit {0})
  take_server json = do
    take_over json (codes "port") conversions.to_int (λ v c. record c { port = v })
    take_over json (codes "host") lib.to_text (λ v c. record c { host = v })
    take_over json (codes "document_root") lib.to_text (λ v c. record c { document_root = v })
    take_over json (codes "default_file") lib.to_text (λ v c. record c { default_file = v })
    take_over json (codes "data_directory") lib.to_text (λ v c. record c { data_directory = v })
    take_over json (codes "enable_websocket") lib.to_flag (λ v c. record c { enable_websocket = v })
    take_over json (codes "websocket_port") conversions.to_int
        (λ v c. record c { websocket_port = v })
    take_over json (codes "enable_ssl") lib.to_flag (λ v c. record c { enable_ssl = v })
    take_over json (codes "ssl_cert_file") lib.to_text (λ v c. record c { ssl_cert_file = v })
    take_over json (codes "ssl_key_file") lib.to_text (λ v c. record c { ssl_key_file = v })
    take_over json (codes "max_connections") conversions.to_int
        (λ v c. record c { max_connections = v })
    take_over json (codes "connection_timeout") conversions.to_int
        (λ v c. record c { connection_timeout = v })
    take_over json (codes "enable_cors") lib.to_flag (λ v c. record c { enable_cors = v })
    take_over json (codes "allowed_origins") conversions.to_texts
        (λ v c. record c { allowed_origins = v })

  unfoldable pub take_debugging : J → Call ServerConfig (Unit {0})
  take_debugging json = do
    take_over json (codes "websocket_debug_enabled") lib.to_flag
        (λ v c. record c { websocket_debug_enabled = v })
    take_over json (codes "websocket_debug_connections") lib.to_flag
        (λ v c. record c { websocket_debug_connections = v })
    take_over json (codes "websocket_debug_messages") lib.to_flag
        (λ v c. record c { websocket_debug_messages = v })
    take_over json (codes "websocket_debug_handshakes") lib.to_flag
        (λ v c. record c { websocket_debug_handshakes = v })
    take_over json (codes "websocket_debug_errors") lib.to_flag
        (λ v c. record c { websocket_debug_errors = v })
    take_over json (codes "websocket_debug_frame_details") lib.to_flag
        (λ v c. record c { websocket_debug_frame_details = v })

  -- `file >> json_config`
  abbrev pub read_json : J × Attempt (Unit {0}) → Call ServerConfig J
  read_json (json, result) = attempt result >> pure json

  -- The file is `none` where it cannot be opened.
  unfoldable pub parse_config : Option Bytes → Call ServerConfig Bool
  unfolding take_server take_debugging take_endpoint_logging validate_config
  parse_config none = try_catch (pure false) (λ _. pure false)
  parse_config (some content) =
      try_catch
        (do
          json ← read_json (lib.read_from content lib.null)
          take_server json
          take_debugging json
          take_endpoint_logging json
          modify validate_config
          pure true)
        (λ _. pure false)
