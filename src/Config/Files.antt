-- ===== src/Config/Files.antt =====
-- The files, events and requests of server/config/config_model.go and of the messages that the server
-- gets. An int64 is its 64 bits; a file type is its number.
use pole.Prelude.{ℕ, Bool, false, Option, List, [], Text, Dict}

pub record ConfigMetadata : Type 0 where
  pub namespace : Text
  pub group : Text
  pub file_name : Text
  pub is_encrypt : Bool
  pub solt : Text

pub record ConfigFile : Type 0 where
  pub metadata : ConfigMetadata
  pub f_type : ℕ
  pub version : ℕ
  pub desc : Text
  pub last_modify_user : Text
  pub content : Text

abbrev pub zero_metadata : ConfigMetadata
zero_metadata = record { namespace = []; group = []; file_name = []; is_encrypt = false; solt = [] }

-- `&ConfigFile{FType: t, Version: v}`
abbrev pub file_with : ℕ → ℕ → ConfigFile
file_with t v = record {
  metadata = zero_metadata;
  f_type = t;
  version = v;
  desc = [];
  last_modify_user = [];
  content = [];
}

pub record ConfigBetaFile : Type 0 where
  pub cfg : ConfigFile
  pub beta_clients : List Text

pub record ConfigChangeEvent : Type 0 where
  pub namespace : Text
  pub group : Text
  pub file_name : Text
  pub content : Text
  pub version : ℕ
  pub is_encrypt : Bool
  pub solt : Text
  pub f_type : ℕ

pub record ConfigBetaChangeEvent : Type 0 where
  pub inner_event : ConfigChangeEvent
  pub client_ids : List Text

-- The events that a subscriber may get.
pub data ChangeEvent : Type 0 where
  normal_change : ConfigChangeEvent → ChangeEvent
  beta_change : ConfigBetaChangeEvent → ChangeEvent
  other_event : ChangeEvent

-- `pojo.ConfigBetaInfo`, and what is read of a `pojo.ConfigRequest`; `none` is a nil message.
pub record BetaInfo : Type 0 where
  pub is_open : Bool
  pub client_ids : List Text

pub record ConfigRequest : Type 0 where
  pub file_name : Text
  pub content : Text
  pub file_type : ℕ
  pub beta_info : Option BetaInfo

-- `watch_item_map` has the file names of each group.
pub record ConfigWatchRequest : Type 0 where
  pub id : Text
  pub namespace : Text
  pub watch_item_map : Dict (List Text)

-- The `pojo.ConfigFile` that a client is sent.
pub record SentFile : Type 0 where
  pub namespace_id : Text
  pub group : Text
  pub encrypt : Bool
  pub file_type : ℕ
  pub file_name : Text
  pub content : Text
  pub version : ℕ

pub record ServerResponse : Type 0 where
  pub code : ℕ
  pub msg : Text
  pub body : Option SentFile
