-- ===== src/Discovery/Selector.antt =====
-- The operators of server/discovery/label_selector.go. A Go interface value is a `Value`; floating
-- point numbers and the objects that implement `utils.Comparator` are parameters.
mod Examples
use Prim.Native.Nat.{Ordering}
use pole.Prelude.{
  ℕ, suc, ap, ltb, ◌==◌, ◌+◌, ◌%◌, ◌^◌, ◌≡◌, refl, ◌↔◌, Bool, true, false, arith, Text, str_compare,
  Outcome, returned, panicked,
}

pub data OpType : Type 0 where
  op_for_and op_for_or op_for_eq op_for_lt op_for_gt op_for_in op_for_no_in : OpType

abbrev is_lt : Ordering → Bool
is_lt Ordering.lt = true
is_lt _ = false

abbrev is_eq : Ordering → Bool
is_eq Ordering.eq = true
is_eq _ = false

abbrev is_gt : Ordering → Bool
is_gt Ordering.gt = true
is_gt _ = false

-- `<` on two's complement numbers of `w + 1` bits.
abbrev signed_ltb : ℕ → ℕ → ℕ → Bool
signed_ltb w a b = ltb ((a + 2 ^ w) % 2 ^ suc w) ((b + 2 ^ w) % 2 ^ suc w)

-- What Go compares without the source's help: floating point numbers by `<` and `==`, and an object
-- by its own `Compare` with any value, of which the sign counts.
pub record Comparisons : Type 1 where
  pub Float : Type 0
  pub Object : Type 0
  pub Other : Type 0
  pub float_lt : Float → Float → Bool
  pub float_eq : Float → Float → Bool

module _ (cs : Comparisons) where
  open cs use {Float, Object, Other, float_lt, float_eq}

  pub data Value : Type 0 where
    byte_value : ℕ → Value
    rune_value : ℕ → Value  -- int32, by its bits
    int_value : ℕ → Value  -- int64, by its bits
    float32_value : Float → Value
    float64_value : Float → Value
    string_value : Text → Value
    bool_value : Bool → Value
    object_value : Object → Value
    other_value : Other → Value

  pub record Record : Type 0 where
    pub operator : OpType
    pub value_a : Value
    pub value_b : Value

  unfoldable pub new_record : OpType → Value → Value → Record
  new_record op a b = record { operator = op; value_a = a; value_b = b }

  -- `a.(bool) && b.(bool)`: `b` is asserted only where `a` is true.
  unfoldable pub exec_and : Value → Value → Outcome Bool
  exec_and (bool_value false) b = returned false
  exec_and (bool_value true) (bool_value b) = returned b
  exec_and _ _ = panicked

  unfoldable pub exec_or : Value → Value → Outcome Bool
  exec_or (bool_value true) b = returned true
  exec_or (bool_value false) (bool_value b) = returned b
  exec_or _ _ = panicked

  -- `init` registers the operator AND alone.
  unfoldable pub exec_operate : Record → Outcome Bool
  unfolding exec_and
  exec_operate r = elim r.operator [
    | op_for_and ↦ exec_and r.value_a r.value_b
    | _ ↦ returned false
  ]

  both_true :
      (a b : Value) → exec_and a b ≡ returned true → (a ≡ bool_value true) × (b ≡ bool_value true)
  unfolding exec_and
  both_true (bool_value true) (bool_value true) e = (refl, refl)
  both_true (bool_value true) (bool_value false) e = absurd (ground arith)
  both_true (bool_value true) (byte_value _) e = absurd (ground arith)
  both_true (bool_value true) (rune_value _) e = absurd (ground arith)
  both_true (bool_value true) (int_value _) e = absurd (ground arith)
  both_true (bool_value true) (float32_value _) e = absurd (ground arith)
  both_true (bool_value true) (float64_value _) e = absurd (ground arith)
  both_true (bool_value true) (string_value _) e = absurd (ground arith)
  both_true (bool_value true) (object_value _) e = absurd (ground arith)
  both_true (bool_value true) (other_value _) e = absurd (ground arith)
  both_true (bool_value false) b e = absurd (ground arith)
  both_true (byte_value _) b e = absurd (ground arith)
  both_true (rune_value _) b e = absurd (ground arith)
  both_true (int_value _) b e = absurd (ground arith)
  both_true (float32_value _) b e = absurd (ground arith)
  both_true (float64_value _) b e = absurd (ground arith)
  both_true (string_value _) b e = absurd (ground arith)
  both_true (object_value _) b e = absurd (ground arith)
  both_true (other_value _) b e = absurd (ground arith)

  only_and :
      (op : OpType) (a b : Value)
      → exec_operate (new_record op a b) ≡ returned true
      → new_record op a b ≡ new_record op_for_and (bool_value true) (bool_value true)
  unfolding exec_operate new_record
  only_and op_for_and a b e = let h = both_true a b e in rw (h.0, h.1) refl
  only_and op_for_or a b e = absurd (ground arith)
  only_and op_for_eq a b e = absurd (ground arith)
  only_and op_for_lt a b e = absurd (ground arith)
  only_and op_for_gt a b e = absurd (ground arith)
  only_and op_for_in a b e = absurd (ground arith)
  only_and op_for_no_in a b e = absurd (ground arith)

  -- A record is true exactly if its operator is AND and both its values are true, whatever the other
  -- operators are made for.
  pub exec_operate_iff :
      (r : Record)
      → (exec_operate r ≡ returned true)
        ↔ (r ≡ new_record op_for_and (bool_value true) (bool_value true))
  unfolding exec_operate exec_and new_record
  exec_operate_iff r = (λ e. only_and r.operator r.value_a r.value_b e, λ e. ap exec_operate e)

  module _ (object_compare : Object → Value → Ordering) where
    unfoldable pub exec_eq : Value → Value → Outcome Bool
    exec_eq (byte_value a) (byte_value b) = returned (a == b)
    exec_eq (rune_value a) (rune_value b) = returned (a == b)
    exec_eq (int_value a) (int_value b) = returned (a == b)
    exec_eq (float32_value a) (float32_value b) = returned (float_eq a b)
    exec_eq (float64_value a) (float64_value b) = returned (float_eq a b)
    exec_eq (string_value a) (string_value b) = returned (is_eq (str_compare a b))
    exec_eq (object_value a) b = returned (is_eq (object_compare a b))
    exec_eq (bool_value _) b = returned false
    exec_eq (other_value _) b = returned false
    exec_eq _ _ = panicked

    unfoldable pub exec_lt : Value → Value → Outcome Bool
    exec_lt (byte_value a) (byte_value b) = returned (ltb a b)
    exec_lt (rune_value a) (rune_value b) = returned (signed_ltb 31 a b)
    exec_lt (int_value a) (int_value b) = returned (signed_ltb 63 a b)
    exec_lt (float32_value a) (float32_value b) = returned (float_lt a b)
    exec_lt (float64_value a) (float64_value b) = returned (float_lt a b)
    exec_lt (string_value a) (string_value b) = returned (is_lt (str_compare a b))
    exec_lt (object_value a) b = returned (is_lt (object_compare a b))
    exec_lt (bool_value _) b = returned false
    exec_lt (other_value _) b = returned false
    exec_lt _ _ = panicked

    unfoldable pub exec_gt : Value → Value → Outcome Bool
    exec_gt (byte_value a) (byte_value b) = returned (ltb b a)
    exec_gt (rune_value a) (rune_value b) = returned (signed_ltb 31 b a)
    exec_gt (int_value a) (int_value b) = returned (signed_ltb 63 b a)
    exec_gt (float32_value a) (float32_value b) = returned (float_lt b a)
    exec_gt (float64_value a) (float64_value b) = returned (float_lt b a)
    exec_gt (string_value a) (string_value b) = returned (is_gt (str_compare a b))
    exec_gt (object_value a) b = returned (is_gt (object_compare a b))
    exec_gt (bool_value _) b = returned false
    exec_gt (other_value _) b = returned false
    exec_gt _ _ = panicked
