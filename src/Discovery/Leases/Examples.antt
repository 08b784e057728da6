-- ===== src/Discovery/Leases/Examples.antt =====
-- The theorems on leases at concrete inputs: a lessor with one lease.
use pole.Prelude.{◌+◌, ◌*◌, ◌≡◌, refl, none, some, [], ◌∷◌, arith, lookup, insert, str_eq, returned}
use pole.Discovery.Model.{get_key}
use pole.Discovery.Lessor.{
  Lessor, second, new_lessor, expire_at, grant_less, renew_less, revoke_less, run, Reach, here,
  next, grants,
}
use pole.Discovery.Leases.{nobody_notified, renew_less_lasts, run-revoke_less}
use pole.Discovery.Samples.{key, instance_a, keyed, lessor}

abbrev leased : Lessor
leased = (grant_less 0 instance_a lessor).0

granted : Reach lessor leased
granted = next here (grants 0 instance_a refl)

held : lookup key leased.less_rep ≡ some (15 * second)
unfolding grant_less get_key str_eq expire_at lookup insert
held = refl

nobody_notified_example : (leased.notified ≡ []) × (leased.expire_keys ≡ none)
unfolding new_lessor
nobody_notified_example = nobody_notified (returned tt) lessor leased refl granted

renew_less_lasts_example :
    run 5 key (renew_less instance_a leased).0 ≡ record (renew_less instance_a leased).0 {
      timer = (key, 15 * second + 15 * second) ∷ (renew_less instance_a leased).0.timer;
    }
renew_less_lasts_example =
    renew_less_lasts (15 * second) 5 instance_a key leased keyed held (omega arith) (omega arith)

run-revoke_less_example :
    run 5 key (revoke_less instance_a leased).0 ≡ (revoke_less instance_a leased).0
run-revoke_less_example = run-revoke_less 5 instance_a key leased keyed
