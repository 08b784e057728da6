-- ===== src/Discovery/Samples.antt =====
-- Instances for the tests of discovery.
use pole.Prelude.{◌≡◌, refl, true, false, none, [], Text, codes, str_eq, returned}
use pole.Discovery.Lessor.{Lessor}
use pole.Discovery.Model.{Instance, OriginInstance, heart_beat, health_check_by_heartbeat, get_key}

abbrev pub origin : OriginInstance
origin = record {
  service_name = codes "s";
  group = codes "g";
  cluster_name = codes "c";
  ip = codes "h";
  port = 80;
  ephemeral = true;
  enabled = true;
  health_check_type = heart_beat;
  metadata = [];
}

abbrev pub key : Text
key = codes "k"

abbrev pub instance_a : Instance
instance_a = record {
  key = key;
  health = false;
  origin_instance = origin;
  hc_type = health_check_by_heartbeat;
}

abbrev pub instance_b : Instance
instance_b = record instance_a { key = codes "b" }

pub keyed : get_key instance_a ≡ returned key
unfolding get_key str_eq
keyed = refl

-- A lessor as `NewLessor` makes it.
abbrev pub lessor : Lessor
lessor = record {
  less_rep = [];
  expire_keys = none;
  watchers = [];
  timer = [];
  notified = [];
  blocked = [];
}
