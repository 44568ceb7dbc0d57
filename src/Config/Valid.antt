-- ===== src/Config/Valid.antt =====
-- What validateConfig makes sure of, and what parseConfig leaves.
use ur_webif.Base.{
  ℕ, ◌≤◌, true, false, ◌||◌, Option, none, some, List, [], ◌∷◌, Bytes, codes, ltb, is_empty, ℤ, pos,
  negsuc, ◌≡◌, refl, arith, Bool-cases, inl, inr,
}
use ur_webif.Run.{Call, Ends, modify, Does, Does-bind, Does-try_catch}
use ur_webif.Json.{Attempt, done, threw, attempt, JsonLibrary}
use ur_webif.Config.{
  ServerConfig, Conversions, usable_port, usable_limit, usable_text, validate_config, take_over,
  take_endpoints, take_endpoint_logging, take_server, take_debugging, read_json, parse_config,
}

abbrev pub IsPort : ℤ → Type 0
IsPort port = (n : ℕ) × (port ≡ pos n) × (1 ≤ n) × (n ≤ 65535)

abbrev pub IsLimit : ℤ → Type 0
IsLimit limit = (n : ℕ) × (limit ≡ pos n) × (1 ≤ n)

-- What validateConfig looks after: the two ports, the two limits and three of the texts. It does not
-- look at the certificate files, nor whether the two ports differ.
pub record IsValid (config : ServerConfig) : Type 0 where
  pub port : IsPort config.port
  pub websocket_port : IsPort config.websocket_port
  pub max_connections : IsLimit config.max_connections
  pub connection_timeout : IsLimit config.connection_timeout
  pub document_root : is_empty config.document_root ≡ false
  pub default_file : is_empty config.default_file ≡ false
  pub data_directory : is_empty config.data_directory ≡ false

usable_port-IsPort :
    (port : ℤ) (usual : ℕ) → 1 ≤ usual → usual ≤ 65535 → IsPort (usable_port port (pos usual))
usable_port-IsPort (negsuc n) usual low high = (usual, refl, low, high)
usable_port-IsPort (pos n) usual low high = elim (Bool-cases (ltb n 1 || ltb 65535 n)) [
  | inl out ↦ rw out (usual, refl, low, high)
  | inr inside ↦ rw inside (n, refl, ground (arith, inside), ground (arith, inside))
]

usable_limit-IsLimit :
    (limit : ℤ) (usual : ℕ) → 1 ≤ usual → IsLimit (usable_limit limit (pos usual))
usable_limit-IsLimit (negsuc n) usual low = (usual, refl, low)
usable_limit-IsLimit (pos n) usual low = elim (Bool-cases (ltb n 1)) [
  | inl out ↦ rw out (usual, refl, low)
  | inr inside ↦ rw inside (n, refl, ground (arith, inside))
]

usable_text-filled :
    (text usual : Bytes) → is_empty usual ≡ false → is_empty (usable_text text usual) ≡ false
usable_text-filled [] usual h = h
usable_text-filled (c ∷ cs) usual h = refl

usable_port-same : (port usual : ℤ) → IsPort port → usable_port port usual ≡ port
usable_port-same (pos n) usual (m, e, low, high) = ground (arith, e, low, high)
usable_port-same (negsuc n) usual (m, e, low, high) = ground (arith, e)

usable_limit-same : (limit usual : ℤ) → IsLimit limit → usable_limit limit usual ≡ limit
usable_limit-same (pos n) usual (m, e, low) = ground (arith, e, low)
usable_limit-same (negsuc n) usual (m, e, low) = ground (arith, e)

usable_text-same : (text usual : Bytes) → is_empty text ≡ false → usable_text text usual ≡ text
usable_text-same text usual h = rw h refl

pub validate_config-IsValid : (config : ServerConfig) → IsValid (validate_config config)
unfolding validate_config
validate_config-IsValid config = record {
  port = usable_port-IsPort config.port 8080 (omega arith) (omega arith);
  websocket_port = usable_port-IsPort config.websocket_port 8081 (omega arith) (omega arith);
  max_connections = usable_limit-IsLimit config.max_connections 1000 (omega arith);
  connection_timeout = usable_limit-IsLimit config.connection_timeout 30 (omega arith);
  document_root = usable_text-filled config.document_root (codes "./web") refl;
  default_file = usable_text-filled config.default_file (codes "index.html") refl;
  data_directory = usable_text-filled config.data_directory (codes "./data") refl;
}

-- Settings that pass are left as they are.
pub validate_config-same :
    (config : ServerConfig) → IsValid config → validate_config config ≡ config
unfolding validate_config
validate_config-same config v =
    rw
      (
        usable_port-same config.port (pos 8080) v.port,
        usable_port-same config.websocket_port (pos 8081) v.websocket_port,
        usable_limit-same config.max_connections (pos 1000) v.max_connections,
        usable_limit-same config.connection_timeout (pos 30) v.connection_timeout,
        usable_text-same config.document_root (codes "./web") v.document_root,
        usable_text-same config.default_file (codes "index.html") v.default_file,
        usable_text-same config.data_directory (codes "./data") v.data_directory,
      )
      refl

-- A call that is never blocked.
abbrev Ending : {A : Type 0} → Call ServerConfig A → Type 0
Ending m = Does (λ _. Unit) m (λ _ _. Unit) (λ _. Unit)

attempt-Ending : {A : Type 0} (r : Attempt A) → Ending (attempt r)
attempt-Ending (done a) = record { run = λ _ _. tt }
attempt-Ending (threw e) = record { run = λ _ _. tt }

modify-Ending : (f : ServerConfig → ServerConfig) → Ending (modify f)
modify-Ending f = record { run = λ _ _. tt }

module _ {J : Type 0} (lib : JsonLibrary J) (conversions : Conversions J) where
  take_over-Ending :
      {A : Type 0} (json : J) (key : Bytes) (convert : J → Attempt A)
      (put : A → ServerConfig → ServerConfig)
      → Ending (take_over lib conversions json key convert put)
  take_over-Ending json key convert put = elim (Bool-cases (lib.contains json key)) [
    | inl is ↦ rw is (
        Does-bind (attempt-Ending (lib.member json key)) (λ found.
          Does-bind (attempt-Ending (convert (found.0))) (λ value. modify-Ending (put value))))
    | inr not_there ↦ rw not_there (record { run = λ _ _. tt })
  ]

  take_endpoints-Ending : (items : List (Bytes × J)) → Ending (take_endpoints lib conversions items)
  take_endpoints-Ending [] = record { run = λ _ _. tt }
  take_endpoints-Ending ((key, value) ∷ more) =
      Does-bind (attempt-Ending (lib.to_flag value))
        (λ enabled. Does-bind (modify-Ending _) (λ _. take_endpoints-Ending more))

  take_endpoint_logging-Ending : (json : J) → Ending (take_endpoint_logging lib conversions json)
  unfolding take_endpoint_logging
  take_endpoint_logging-Ending json =
      elim (Bool-cases (lib.contains json (codes "endpoint_logging"))) [
        | inl is ↦ rw is (
            Does-bind (modify-Ending _) (λ _.
              Does-bind (attempt-Ending (lib.member json (codes "endpoint_logging")))
                (λ found. take_endpoints-Ending (lib.items (found.0)))))
        | inr not_there ↦ rw not_there (record { run = λ _ _. tt })
      ]

  take_server-Ending : (json : J) → Ending (take_server lib conversions json)
  unfolding take_server
  take_server-Ending json = Does-bind (take_over-Ending json _ _ _) (λ _.
      Does-bind (take_over-Ending json _ _ _) (λ _. Does-bind (take_over-Ending json _ _ _) (λ _.
        Does-bind (take_over-Ending json _ _ _) (λ _. Does-bind (take_over-Ending json _ _ _) (λ _.
          Does-bind (take_over-Ending json _ _ _) (λ _.
            Does-bind (take_over-Ending json _ _ _) (λ _.
              Does-bind (take_over-Ending json _ _ _) (λ _.
                Does-bind (take_over-Ending json _ _ _) (λ _.
                  Does-bind (take_over-Ending json _ _ _) (λ _.
                    Does-bind (take_over-Ending json _ _ _) (λ _.
                      Does-bind (take_over-Ending json _ _ _) (λ _.
                        Does-bind (take_over-Ending json _ _ _)
                          (λ _. take_over-Ending json _ _ _)))))))))))))

  take_debugging-Ending : (json : J) → Ending (take_debugging lib conversions json)
  unfolding take_debugging
  take_debugging-Ending json = Does-bind (take_over-Ending json _ _ _) (λ _.
      Does-bind (take_over-Ending json _ _ _) (λ _. Does-bind (take_over-Ending json _ _ _) (λ _.
        Does-bind (take_over-Ending json _ _ _)
          (λ _. Does-bind (take_over-Ending json _ _ _) (λ _. take_over-Ending json _ _ _)))))

  read_json-Ending : (read : J × Attempt (Unit {0})) → Ending (read_json lib conversions read)
  read_json-Ending (json, result) =
      Does-bind (attempt-Ending result) (λ _. record { run = λ _ _. tt })

  -- Whatever the file holds, parseConfig returns, and where it answers true both ports are from 1 to
  -- 65535, max_connections and connection_timeout are 1 at least, and document root, default file
  -- and data directory are not empty.
  pub parse_config-IsValid :
      (file : Option Bytes) (config : ServerConfig)
      → Ends
          (parse_config lib conversions file config)
          (λ loaded after. loaded ≡ true → IsValid after)
          (λ _ _. ⊥)
  unfolding parse_config
  parse_config-IsValid none config = λ h. ground (arith, h)
  parse_config-IsValid (some content) config =
      Does-try_catch {P = λ _. Unit} {H = λ _. Unit}
        (Does-bind (read_json-Ending (lib.read_from content lib.null)) (λ json.
          Does-bind (take_server-Ending json) (λ _. Does-bind (take_debugging-Ending json) (λ _.
            Does-bind (take_endpoint_logging-Ending json)
              (λ _. record { run = λ s _ _. validate_config-IsValid s })))))
        (λ t _ h. ground (arith, h)) config tt
