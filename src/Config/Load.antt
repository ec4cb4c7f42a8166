-- ===== src/Config/Load.antt =====
-- config/config.go: Load, from the defaults to the checked configuration.
use be_modami_chat_service.Prelude.{◌≡◌, refl, ◌↔◌, true, false, [], ◌∷◌, inl, inr, arith}
use be_modami_chat_service.Prelude.Int.{pos}
use be_modami_chat_service.Text.{GoString, bytes}
use be_modami_chat_service.Result.{Result, ok, ◌>>=◌, Result-cases}
use be_modami_chat_service.Exec.{wrap_result}
use be_modami_chat_service.Config.{Config, validate}
use be_modami_chat_service.Config.Checked.{IsSound, validate_iff-IsSound}

-- The zero values of the fields without a default, and the values of setDefaults.
abbrev pub defaults : Config
defaults = record {
  app = record {
    name = bytes "chat-service";
    version = bytes "1.0.0";
    environment = bytes "local";
    debug = false;
    port = pos 8090;
    host = bytes "0.0.0.0";
    swagger_host = bytes "localhost:8090";
    shutdown_timeout = bytes "30s";
    read_timeout = bytes "30s";
    write_timeout = bytes "30s";
    idle_timeout = bytes "120s";
    allow_credentials = true;
    allowed_origins = bytes "*" ∷ [];
    cors_max_age = pos 300;
  };
  scylladb = record {
    hosts = bytes "localhost" ∷ [];
    keyspace = bytes "chat";
    num_conns = pos 2;
    datacenter = bytes "datacenter1";
    replication_factor = pos 3;
  };
  redis = record {
    host = bytes "localhost";
    port = pos 6379;
    database = pos 0;
    rate_limit_database = pos 0;
    password = [];
    user_name = [];
    pool_size = pos 10;
    ttl = 0;
    write_timeout = 0;
    read_timeout = 0;
    dial_timeout = 0;
    insecure_skip_verify = false;
  };
  kafka = record {
    broker_list = bytes "localhost:9092";
    enable = false;
    tls_enable = false;
    partition = pos 0;
    partitioner = [];
    consumer_group = bytes "chat-message-processor";
    client_id = bytes "chat-service";
    environment = bytes "local";
    sasl_producer_username = [];
    sasl_producer_password = [];
    sasl_consumer_username = [];
    sasl_consumer_password = [];
  };
  centrifugo = record { api_url = bytes "http://localhost:8000/api"; api_key = [] };
  keycloak = record { jwks_url = [] };
  observability = record {
    service_name = bytes "chat-service";
    service_version = [];
    environment = bytes "local";
    log_level = bytes "info";
    otlp_endpoint = [];
    otlp_insecure = true;
  };
}

-- The configuration package: `read_in_config` reads the file, and `unmarshal` puts the values of the
-- file and of the environment over those that it is given.
pub record Viper (E : Type 0) : Type 0 where
  pub read_in_config : (path : GoString) → Result E
  pub unmarshal : E → Config → Result Config

unfoldable pub load : {E : Type 0} → Viper E → (path : GoString) → Result Config
load viper path = do
  e ← wrap_result "read config" (viper.read_in_config path)
  c ← wrap_result "unmarshal config" (viper.unmarshal e defaults)
  u ← wrap_result "invalid config" (validate c)
  ok c

-- Load gives exactly the configurations that the values of the file and of the environment make of
-- the defaults and that are sound.
load_iff :
    {E : Type 0} (viper : Viper E) (path : GoString) (c : Config)
    → (load viper path ≡ ok c) ↔ (
        (e : E) × (viper.read_in_config path ≡ ok e)
        × (viper.unmarshal e defaults ≡ ok c)
        × IsSound c)
unfolding load
load_iff viper path c = (
  λ h. elim (Result-cases (viper.read_in_config path)) [
    | inr (e, bad) ↦ cc (rw bad at h)
    | inl (e, read) ↦ elim (Result-cases (viper.unmarshal e defaults)) [
      | inr (e', bad) ↦ cc (rw (read, bad) at h)
      | inl (c', decoded) ↦ elim (Result-cases (validate c')) [
        | inr (e', bad) ↦ cc (rw (read, decoded, bad) at h)
        | inl (u, valid) ↦
            let same : c' ≡ c = cc (rw (read, decoded, valid) at h) in
            let sound : IsSound c = rw same at ((validate_iff-IsSound c').0 valid) in
            (e, read, rw same at decoded, sound)
      ]
    ]
  ],
  λ (e, read, decoded, sound). rw (read, decoded, (validate_iff-IsSound c).1 sound) refl,
)

-- The defaults alone are sound.
defaults-IsSound : IsSound defaults
defaults-IsSound = ground arith
