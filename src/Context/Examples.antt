-- ===== src/Context/Examples.antt =====
-- A chain of three contexts on which the theorems about common/pole_ctx.go are applied.
use pole.Prelude.{ℕ, true, some, [], codes, ◌≡◌, lookup, str_eq}
use pole.Context.{Contexts, new_ctx_pole, new_sub_ctx, write_value, cancel, value_of, is_done}
use pole.Context.Chains.{reaches, value_of-write_value}
use pole.Context.Cancelling.{is_under, is_done-cancel}

abbrev chain : Contexts ℕ
unfolding new_ctx_pole new_sub_ctx
chain = new_sub_ctx ℕ 1 (new_sub_ctx ℕ 0 (new_ctx_pole ℕ []))

value_of-write_value_example :
    value_of ℕ (codes "k") 2 (write_value ℕ (codes "k") (some 5) 0 chain) ≡ some 5
unfolding value_of reaches chain lookup str_eq
value_of-write_value_example = value_of-write_value (codes "k") (codes "k") (some 5) 0 chain 2

is_done-cancel_example : is_done ℕ 2 (cancel ℕ 1 chain) ≡ true
unfolding is_under is_done chain
is_done-cancel_example = is_done-cancel 1 chain 2
