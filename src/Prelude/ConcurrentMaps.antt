-- ===== src/Prelude/ConcurrentMaps.antt =====
-- The concurrent map of the rpc library, `polerpc.ConcurrentMap`.
use Prim.Native.Nat.{ℕ}
use mathlib.Core.Path.{◌≡◌}
use mathlib.Core.Option.{Option, none}
use mathlib.Core.List.{List, []}
use pole.Prelude.Strings.{Text}
use pole.Prelude.Outcomes.{Outcome, panicked}

-- `polerpc.ConcurrentMap` with string keys; `zero` is the struct's zero value, with which the
-- program starts. A `Put` may panic.
pub record ConcurrentMapApi : Type 1 where
  pub Map : Type 0 → Type 0
  pub zero : (V : Type 0) → Map V
  pub get : (V : Type 0) → Text → Map V → Option V
  pub put : (V : Type 0) → Text → V → Map V → Outcome (Map V)
  pub remove : (V : Type 0) → Text → Map V → Map V
  pub keys : (V : Type 0) → Map V → List Text
  pub values : (V : Type 0) → Map V → List V
  pub size : (V : Type 0) → Map V → ℕ

-- What the zero value does: it holds a nil Go map, from which everything can be read, as from an empty
-- one, while the assignment of a `Put` is a panic.
pub record IsNilMap (api : ConcurrentMapApi) : Type 1 where
  pub get-zero : (V : Type 0) (k : Text) → api.get V k (api.zero V) ≡ none
  pub put-zero : (V : Type 0) (k : Text) (v : V) → api.put V k v (api.zero V) ≡ panicked
  pub keys-zero : (V : Type 0) → api.keys V (api.zero V) ≡ []
  pub values-zero : (V : Type 0) → api.values V (api.zero V) ≡ []
