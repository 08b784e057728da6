-- ===== src/Cluster/Lookups/Examples.antt =====
-- The theorems on lookups at concrete inputs.
use pole.Prelude.{
  ◌≡◌, refl, true, false, none, some, [], ◌∷◌, Dict, Text, codes, lookup, returned, panicked,
  str_eq,
}
use pole.Cluster.Lookups.{
  LookupConfig, Outside, AddressServer, MemberLookup, address_server_member_lookup,
  create_lookup_by_name, create_member_lookup, handle_switch, refresh,
}
use pole.Cluster.Lookups.Switching.{handle_switch_shuts_down, create_member_lookup_panics}

abbrev config : Text → LookupConfig
config type = record {
  standalone_mode = false;
  member_lookup_type = type;
  server_addr = codes "h";
  server_port = 80;
  server_path = codes "p";
  conf_path = codes "/c";
}

abbrev outside : Outside
outside = record {
  self_ip = codes "i";
  as_watcher = record { id = 1; file_name = codes "cluster.conf"; fails_on = λ e. false };
  added = none;
  removed = none;
  watched = returned none;
}

abbrev server : AddressServer
server = record {
  address_server = codes "h";
  address_port = 80;
  url_path = codes "p";
  is_scheduled = true;
  is_shutdown = false;
}

abbrev by_server : MemberLookup
by_server = address_server_member_lookup (some 7) server

abbrev params : Dict Text
params = (codes "lookType", codes "x") ∷ []

handle_switch_shuts_down_example :
    (handle_switch (config (codes "address-server")) outside (some params) 7 (by_server, none) ≡ (
      returned 500,
      (address_server_member_lookup (some 7) (record server { is_shutdown = true }), none),
    ))
    × (refresh
          (some (codes "l" ∷ []))
          (handle_switch
            (config (codes "address-server"))
            outside
            (some params)
            7
            (by_server, none)).1.0
        ≡ none)
unfolding lookup str_eq create_lookup_by_name
handle_switch_shuts_down_example =
    handle_switch_shuts_down (config (codes "address-server")) outside params (codes "x") 7 server
      none (some (codes "l" ∷ [])) refl refl refl refl

create_member_lookup_panics_example :
    create_member_lookup (config (codes "file")) outside 7 none ≡ (panicked, none)
create_member_lookup_panics_example =
    create_member_lookup_panics (config (codes "file")) outside 7 refl refl
