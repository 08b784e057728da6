-- ===== src/Config/Filters.antt =====
-- The filters of server/config/config_actor.go. The three filters do nothing yet.
use pole.Prelude.{
  ◌≡◌, refl, Option, none, some, List, [], ◌∷◌, ◌++◌, Text, codes, Outcome, returned, panicked,
}
use pole.Config.Files.{ConfigFile, ConfigBetaFile}

pub data ConfigFilter : Type 0 where
  capacity_config_filter audit_config_filter encrypt_config_filter : ConfigFilter

unfoldable pub do_filter : ConfigFilter → ConfigFile → ConfigFile
do_filter capacity_config_filter cfg = cfg
do_filter audit_config_filter cfg = cfg
do_filter encrypt_config_filter cfg = cfg

unfoldable pub do_beta_filter : ConfigFilter → ConfigBetaFile → ConfigBetaFile
do_beta_filter capacity_config_filter cfg = cfg
do_beta_filter audit_config_filter cfg = cfg
do_beta_filter encrypt_config_filter cfg = cfg

abbrev pub HandlerChain : Type 0
HandlerChain = List ConfigFilter

-- `HandlerChain.Init`
unfoldable pub init_chain : HandlerChain → HandlerChain
init_chain filters =
    filters ++ capacity_config_filter ∷ audit_config_filter ∷ encrypt_config_filter ∷ []

-- What the chain is given.
pub data Implement : Type 0 where
  normal_config : ConfigFile → Implement
  beta_config : ConfigBetaFile → Implement
  other_config : Implement

unfoldable pub filter_all : HandlerChain → ConfigFile → ConfigFile
unfolding do_filter
filter_all [] cfg = cfg
filter_all (filter ∷ filters) cfg = filter_all filters (do_filter filter cfg)

unfoldable pub filter_all_beta : HandlerChain → ConfigBetaFile → ConfigBetaFile
unfolding do_beta_filter
filter_all_beta [] cfg = cfg
filter_all_beta (filter ∷ filters) cfg = filter_all_beta filters (do_beta_filter filter cfg)

-- `HandlerChain.Do`, with its error and what it makes of the file. The chain may be a nil pointer.
unfoldable pub do_chain : Option HandlerChain → Implement → Outcome (Option Text) × Implement
unfolding filter_all filter_all_beta
do_chain none (normal_config c) = (panicked, normal_config c)
do_chain (some filters) (normal_config c) = (returned none, normal_config (filter_all filters c))
do_chain none (beta_config c) = (panicked, beta_config c)
do_chain (some filters) (beta_config c) = (returned none, beta_config (filter_all_beta filters c))
do_chain chain other_config = (returned (some (codes "unsupport config implement")), other_config)

pub filter_all_lem : (filters : HandlerChain) (cfg : ConfigFile) → filter_all filters cfg ≡ cfg
unfolding filter_all
filter_all_lem [] cfg = refl
filter_all_lem (capacity_config_filter ∷ filters) cfg = filter_all_lem filters cfg
filter_all_lem (audit_config_filter ∷ filters) cfg = filter_all_lem filters cfg
filter_all_lem (encrypt_config_filter ∷ filters) cfg = filter_all_lem filters cfg
