-- ===== src/Config.antt =====
-- config/config.go: the parts of the configuration that the code computes with.
pub mod Checked
pub mod Load
use be_modami_chat_service.Prelude.{
  ℕ, zero, suc, ◌+◌, Bool, true, false, not, ◌&&◌, ◌||◌, List, [], ◌∷◌, ◌++◌, Option, none, some,
  ltb, leb, eqb, if◌then◌else◌, Time, drop, length, String,
}
use be_modami_chat_service.Prelude.Int.{ℤ, pos, negsuc, int_leb, int_gtb, to_nat}
use be_modami_chat_service.Text.Decimal.{decimal}
use be_modami_chat_service.Text.{GoString, bytes, is_empty}
use be_modami_chat_service.Result.{Result, ok, err, external, ◌>>=◌}

pub record AppConfig : Type 0 where
  pub name : GoString
  pub version : GoString
  pub environment : GoString
  pub debug : Bool
  pub port : ℤ
  pub host : GoString
  pub swagger_host : GoString
  pub shutdown_timeout : GoString
  pub read_timeout : GoString
  pub write_timeout : GoString
  pub idle_timeout : GoString
  pub allow_credentials : Bool
  pub allowed_origins : List GoString
  pub cors_max_age : ℤ

pub record ScyllaDbConfig : Type 0 where
  pub hosts : List GoString
  pub keyspace : GoString
  pub num_conns : ℤ
  pub datacenter : GoString
  pub replication_factor : ℤ

pub record RedisConfig : Type 0 where
  pub host : GoString
  pub port : ℤ
  pub database : ℤ
  pub rate_limit_database : ℤ
  pub password : GoString
  pub user_name : GoString
  pub pool_size : ℤ
  pub ttl : Time
  pub write_timeout : Time
  pub read_timeout : Time
  pub dial_timeout : Time
  pub insecure_skip_verify : Bool

pub record KafkaConfig : Type 0 where
  pub broker_list : GoString
  pub enable : Bool
  pub tls_enable : Bool
  pub partition : ℤ
  pub partitioner : GoString
  pub consumer_group : GoString
  pub client_id : GoString
  pub environment : GoString
  pub sasl_producer_username : GoString
  pub sasl_producer_password : GoString
  pub sasl_consumer_username : GoString
  pub sasl_consumer_password : GoString

pub record CentrifugoConfig : Type 0 where
  pub api_url : GoString
  pub api_key : GoString

pub record KeycloakConfig : Type 0 where
  pub jwks_url : GoString

pub record ObservabilityConfig : Type 0 where
  pub service_name : GoString
  pub service_version : GoString
  pub environment : GoString
  pub log_level : GoString
  pub otlp_endpoint : GoString
  pub otlp_insecure : Bool

pub record Config : Type 0 where
  pub app : AppConfig
  pub scylladb : ScyllaDbConfig
  pub redis : RedisConfig
  pub kafka : KafkaConfig
  pub centrifugo : CentrifugoConfig
  pub keycloak : KeycloakConfig
  pub observability : ObservabilityConfig

-- %d
unfoldable pub format_int : ℤ → GoString
format_int (pos n) = decimal n n
format_int (negsuc n) = bytes "-" ++ decimal (suc n) (suc n)

-- strings.TrimSpace of an ASCII text.
abbrev is_space : ℕ → Bool
is_space c = eqb c 32 || (leb 9 c && leb c 13)

trim_left : GoString → GoString
trim_left [] = []
trim_left (c ∷ s) = let rest = trim_left s in if is_space c then rest else c ∷ s

abbrev cons_trimmed : ℕ → GoString → GoString
cons_trimmed c [] = if is_space c then [] else c ∷ []
cons_trimmed c (d ∷ s) = c ∷ d ∷ s

trim_right : GoString → GoString
trim_right [] = []
trim_right (c ∷ s) = cons_trimmed c (trim_right s)

unfoldable pub trim_space : GoString → GoString
unfolding trim_left trim_right
trim_space s = trim_right (trim_left s)

unfoldable pub listen_addr : AppConfig → GoString
unfolding trim_space
listen_addr a =
    let host = trim_space a.host in
    let host' = if is_empty host then bytes "0.0.0.0" else host in
    let port = if int_leb a.port 0 then pos 8080 else a.port in
    host' ++ bytes ":" ++ format_int port

-- Addr
unfoldable pub addr : RedisConfig → GoString
addr r = r.host ++ bytes ":" ++ format_int r.port

abbrev second : Time
second = 1_000_000_000

abbrev or_default : Result Time → Time → Time
or_default (ok d) default = d
or_default (err e) default = default

-- `parse_duration` is time.ParseDuration.
module _ (parse_duration : GoString → Result Time) where
  unfoldable pub get_shutdown_timeout : AppConfig → Time
  get_shutdown_timeout a = or_default (parse_duration a.shutdown_timeout) 30_000_000_000

  unfoldable pub get_read_timeout : AppConfig → Time
  get_read_timeout a = or_default (parse_duration a.read_timeout) 30_000_000_000

  unfoldable pub get_write_timeout : AppConfig → Time
  get_write_timeout a = or_default (parse_duration a.write_timeout) 30_000_000_000

  unfoldable pub get_idle_timeout : AppConfig → Time
  get_idle_timeout a = or_default (parse_duration a.idle_timeout) 120_000_000_000

-- strings.Split(s, ","), with the part that is open.
abbrev cons_part : ℕ → List GoString → List GoString
cons_part c [] = (c ∷ []) ∷ []
cons_part c (part ∷ parts) = (c ∷ part) ∷ parts

unfoldable pub split_commas : GoString → List GoString
split_commas [] = [] ∷ []
split_commas (c ∷ s) =
    let parts = split_commas s in if eqb c 44 then [] ∷ parts else cons_part c parts

unfoldable pub brokers : KafkaConfig → List GoString
brokers k = split_commas k.broker_list

-- if b { return fmt.Errorf(message) }
abbrev refuse_if : Bool → String → Result (Unit {0})
refuse_if b message = if b then err (external message) else ok tt

abbrev no_hosts : List GoString → Bool
no_hosts [] = true
no_hosts (h ∷ hs) = false

infixl 10 ◌>>◌
abbrev ◌>>◌ : Result (Unit {0}) → Result (Unit {0}) → Result (Unit {0})
m >> n = m >>= λ u. n

unfoldable pub validate : Config → Result (Unit {0})
validate c = do
  refuse_if (no_hosts c.scylladb.hosts) "scylladb.hosts is required"
  refuse_if (is_empty c.scylladb.keyspace) "scylladb.keyspace is required"
  refuse_if (is_empty c.redis.host) "redis.host is required"
  refuse_if (is_empty c.kafka.broker_list) "kafka.broker_list is required"
  refuse_if (int_leb c.app.port 0 || int_gtb c.app.port 65535)
      "app.port must be between 1 and 65535"
