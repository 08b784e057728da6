-- ===== src/Discovery/Model.antt =====
-- The names, keys and instances of server/discovery/discovery_model.go. An int64 is its 64 bits;
-- floating-point weights and the label lock are not modelled.
use pole.Prelude.{
  ℕ, zero, suc, ◌+◌, ◌-◌, ◌/◌, ◌%◌, ◌^◌, Bool, false, [], ◌∷◌, ◌++◌, Text, codes, str_eq, Dict,
  Outcome, returned, panicked, ltb, if◌then◌else◌, ◌&&◌, ◌==◌,
}

unfoldable pub parse_service_name : Text → Text → Text
parse_service_name name group = name ++ (codes "@@" ++ group)

unfoldable pub parse_cluster_name : Text → Text → Text
parse_cluster_name service_name cluster_name = service_name ++ (codes "$$" ++ cluster_name)

unfoldable pub parse_service_cluster_list : Text → Text
parse_service_cluster_list name = name ++ codes "_cluster_list"

unfoldable pub parse_service_cluster_instance_list : Text → Text
parse_service_cluster_instance_list name = name ++ codes "_instance_list"

-- `%d` of a number with at most `fuel` digits.
unfoldable pub decimal : ℕ → ℕ → Text
decimal zero n = []
decimal (suc fuel) n =
    let more = decimal fuel (n / 10) in
    if ltb n 10 then (48 + n) ∷ [] else more ++ (48 + n % 10) ∷ []

-- `%d` of an int32, given by its 32 bits; ten digits are enough.
unfoldable pub decimal_int32 : ℕ → Text
unfolding decimal
decimal_int32 bits =
    if ltb bits (2 ^ 31) then decimal 10 bits else codes "-" ++ decimal 10 (2 ^ 32 - bits)

-- The port is an `int32`, by its 32 bits.
unfoldable pub parse_instance_key : Text → Text → Text → ℕ → Text
unfolding parse_cluster_name decimal_int32
parse_instance_key service_name cluster_name host port =
    parse_cluster_name service_name cluster_name
    ++ (codes "=>" ++ (host ++ (codes ":" ++ decimal_int32 port)))

-- `int32(x)` of an int64.
abbrev pub to_int32 : ℕ → ℕ
to_int32 x = x % 2 ^ 32

pub data InstanceHealthCheckType : Type 0 where
  health_check_by_heartbeat health_check_by_agent : InstanceHealthCheckType

pub data CheckType : Type 0 where
  heart_beat tcp http customer : CheckType

pub data CInstanceType : Type 0 where
  c_instance_un_know c_instance_persist c_instance_temporary : CInstanceType

-- What the server reads of a `pojo.Instance`.
pub record OriginInstance : Type 0 where
  pub service_name : Text
  pub group : Text
  pub cluster_name : Text
  pub ip : Text
  pub port : ℕ  -- int64
  pub ephemeral : Bool
  pub enabled : Bool
  pub health_check_type : CheckType
  pub metadata : Dict Text

pub record Instance : Type 0 where
  pub key : Text
  pub health : Bool
  pub origin_instance : OriginInstance
  pub hc_type : InstanceHealthCheckType

pub record InstanceMetadata : Type 0 where
  pub key : Text
  pub origin_metadata : Dict Text

unfoldable pub hc_type_of : CheckType → InstanceHealthCheckType
hc_type_of heart_beat = health_check_by_heartbeat
hc_type_of _ = health_check_by_agent

unfoldable pub parse_to_instance : Text → OriginInstance → Instance × InstanceMetadata
unfolding hc_type_of
parse_to_instance key i = (
  record {
    key = key;
    health = false;
    origin_instance = i;
    hc_type = hc_type_of i.health_check_type;
  },
  record { key = key; origin_metadata = i.metadata },
)

-- `Instance.GetKey`
unfoldable pub get_key : Instance → Outcome Text
get_key i = if str_eq i.key [] then panicked else returned i.key

-- `utils.IF(instance.IsTemporary(), CInstanceTemporary, CInstancePersist)`
unfoldable pub c_instance_type_of : Instance → CInstanceType
c_instance_type_of i =
    if i.origin_instance.ephemeral then c_instance_temporary else c_instance_persist

-- -1, as an int64.
abbrev pub minus_one : ℕ
minus_one = 2 ^ 64 - 1

unfoldable pub is_empty_instance : Instance → Bool
is_empty_instance i =
    str_eq i.key [] && (str_eq i.origin_instance.ip [] && i.origin_instance.port == minus_one)
