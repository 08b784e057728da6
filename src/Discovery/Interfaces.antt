-- ===== src/Discovery/Interfaces.antt =====
-- What the discovery core takes from its storage: a `DiscoveryStorage`, each of whose calls runs its
-- callback once before it returns.
use pole.Prelude.{Option, Text}
use pole.Discovery.Model.{Instance}

-- `SaveService` and `SaveInstance` on a state of the storage: the error given to the callback.
pub record DiscoveryStorage : Type 1 where
  pub State : Type 0
  pub save_service : Text → State → Option Text × State
  pub save_instance : Instance → State → Option Text × State
