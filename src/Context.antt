-- ===== src/Context.antt =====
-- `ContextPole` of common/pole_ctx.go. The contexts lie in a store, the latest first; a context is named by
-- the number of those that were made before it, and keeps the name of its parent. Go's context below each
-- is one that `WithCancel` makes of its parent's: it has no values, and is done when it or one above it
-- is cancelled. A value that is nil is `none`.
pub mod Chains
pub mod Cancelling
mod Examples
use pole.Prelude.{
  ℕ, suc, Bool, true, false, ◌||◌, ◌==◌, Option, none, some, List, [], ◌∷◌, length, Text, Dict,
  lookup, insert, if◌then◌else◌,
}

-- What the parent gives, if there is one.
abbrev pub from_parent : {A : Type 0} → Option ℕ → A → (ℕ → A) → A
from_parent none a f = a
from_parent (some p) a f = f p

module _ (V : Type 0) where
  pub record ContextPole : Type 0 where
    pub parent : Option ℕ
    pub values : Dict (Option V)
    pub cancelled : Bool

  abbrev pub Contexts : Type 0
  Contexts = List ContextPole

  -- `NewCtxPole`; the name of what is made is the length of the store before.
  unfoldable pub new_ctx_pole : Contexts → Contexts
  new_ctx_pole cs = record { parent = none; values = []; cancelled = false } ∷ cs

  unfoldable pub new_sub_ctx : ℕ → Contexts → Contexts
  new_sub_ctx c cs = record { parent = some c; values = []; cancelled = false } ∷ cs

  -- A change of the context of a name.
  unfoldable pub change : (ContextPole → ContextPole) → ℕ → Contexts → Contexts
  change f c [] = []
  change f c (ctx ∷ cs) =
      let rest = change f c cs in if length cs == c then f ctx ∷ cs else ctx ∷ rest

  unfoldable pub write_value : Text → Option V → ℕ → Contexts → Contexts
  unfolding change
  write_value key value c cs =
      change (λ ctx. record ctx { values = insert key value ctx.values }) c cs

  -- `Cancel`; those below find it by their parents.
  unfoldable pub cancel : ℕ → Contexts → Contexts
  unfolding change
  cancel c cs = change (λ ctx. record ctx { cancelled = true }) c cs

  abbrev pub or_parent : Option (Option V) → Option V → Option V
  or_parent (some v) above = v
  or_parent none above = above

  -- `Value`. A parent was made before its children, so that it is among the contexts after theirs.
  unfoldable pub value_of : Text → ℕ → Contexts → Option V
  value_of key c [] = none
  value_of key c (ctx ∷ cs) =
      let here = value_of key c cs in
      let above = from_parent ctx.parent none (λ p. value_of key p cs) in
      if length cs == c then or_parent (lookup key ctx.values) above else here

  -- Whether `Err` gives an error: `Done` is closed.
  unfoldable pub is_done : ℕ → Contexts → Bool
  is_done c [] = false
  is_done c (ctx ∷ cs) =
      let here = is_done c cs in
      let above = from_parent ctx.parent false (λ p. is_done p cs) in
      if length cs == c then ctx.cancelled || above else here
