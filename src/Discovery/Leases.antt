-- ===== src/Discovery/Leases.antt =====
-- What becomes of the leases of a `Lessor`.
mod Examples
use pole.Prelude.{
  ℕ, ◌+◌, ◌*◌, ◌%◌, ◌^◌, ◌<◌, ◌≡◌, refl, true, none, some, [], ◌∷◌, ◌++◌, arith, Text, lookup,
  Outcome, returned, panicked,
}
use pole.Prelude.Maps.{lookup-insert_self, lookup-erase_self}
use pole.Discovery.Model.{Instance, get_key}
use pole.Discovery.Lessor.{
  Lessor, int64_mod, le_int64, second, new_lessor, expire_at, grant_less, renew_less, revoke_less,
  add_expire_watcher, run, Step, grants, renews, revokes, watches, runs, receives, Reach, here,
  next,
}

-- The channel is nil, and no watcher has been called.
record IsSilent (lh : Lessor) : Type 0 where
  unmade : lh.expire_keys ≡ none
  unheard : lh.notified ≡ []

grant_less-IsSilent :
    (now : ℕ) (i : Instance) (lh : Lessor) → IsSilent lh → IsSilent (grant_less now i lh).0
unfolding grant_less
grant_less-IsSilent now i lh h = ground arith

renew_less-IsSilent : (i : Instance) (lh : Lessor) → IsSilent lh → IsSilent (renew_less i lh).0
unfolding renew_less
renew_less-IsSilent i lh h = ground arith

revoke_less-IsSilent : (i : Instance) (lh : Lessor) → IsSilent lh → IsSilent (revoke_less i lh).0
unfolding revoke_less
revoke_less-IsSilent i lh h = ground arith

run-IsSilent : (now : ℕ) (key : Text) (lh : Lessor) → IsSilent lh → IsSilent (run now key lh)
unfolding run
run-IsSilent now key lh h = ground (arith, h.unmade, h.unheard)

watcher-IsSilent :
    (w : ℕ) (s t : Lessor) → add_expire_watcher w s ≡ some t → IsSilent s → IsSilent t
unfolding add_expire_watcher
watcher-IsSilent w s t e h = ground (arith, h.unmade, h.unheard)

Step-IsSilent : {s t : Lessor} → Step s t → IsSilent s → IsSilent t
Step-IsSilent {s} (grants now i e) h = rw e (grant_less-IsSilent now i s h)
Step-IsSilent {s} (renews i e) h = rw e (renew_less-IsSilent i s h)
Step-IsSilent {s} (revokes i e) h = rw e (revoke_less-IsSilent i s h)
Step-IsSilent {s} {t} (watches w e) h = watcher-IsSilent w s t e h
Step-IsSilent {s} (runs now key delay before after _ e) h = rw e (
    run-IsSilent now key (record s { timer = before ++ after })
      (record { unmade = h.unmade; unheard = h.unheard }))
Step-IsSilent {s} (receives keys waiting e _) h = absurd (ground (arith, h.unmade))

Reach-IsSilent : {s t : Lessor} → IsSilent s → Reach s t → IsSilent t
Reach-IsSilent h here = h
Reach-IsSilent h (next r st) = Step-IsSilent st (Reach-IsSilent h r)

new_lessor-IsSilent :
    (wheel : Outcome (Unit {0})) (made : Lessor) → new_lessor wheel ≡ returned made → IsSilent made
unfolding new_lessor
new_lessor-IsSilent panicked made e = absurd (ground (arith, e))
new_lessor-IsSilent (returned _) made e = ground (arith, e)

-- Whatever is granted, renewed, revoked or watched, and whatever tasks run: no watcher of a lessor
-- that `NewLessor` made, where the time wheel could be made, is ever called, and its channel stays nil.
pub nobody_notified :
    (wheel : Outcome (Unit {0})) (made lh : Lessor)
    → new_lessor wheel ≡ returned made
    → Reach made lh
    → (lh.notified ≡ []) × (lh.expire_keys ≡ none)
nobody_notified wheel made lh e r =
    let silent : IsSilent lh = Reach-IsSilent (new_lessor-IsSilent wheel made e) r in
    (silent.unheard, silent.unmade)

-- A lease granted at `now` milliseconds is not found expired before (15 + now) * 10 ^ 9
-- milliseconds, where that fits in an int64: its task goes back to the wheel.
pub grant_less_lasts :
    (now later : ℕ) (i : Instance) (key : Text) (lh : Lessor)
    → get_key i ≡ returned key
    → (15 + now) * second < 2 ^ 63
    → later < (15 + now) * second
    → (run later key (grant_less now i lh).0 ≡ record (grant_less now i lh).0 {
      timer = (key, (15 + now) * second) ∷ (grant_less now i lh).0.timer;
    })
      × ((grant_less now i lh).1 ≡ returned tt)
unfolding run grant_less expire_at
grant_less_lasts now later i key lh e fits early =
    ground (arith, lookup-insert_self key ((15 + now) * second % int64_mod) lh.less_rep)

-- A lease renewed when its deadline is `v` is not found expired before v + 15 * 10 ^ 9, where that
-- fits in an int64.
pub renew_less_lasts :
    (v later : ℕ) (i : Instance) (key : Text) (lh : Lessor)
    → get_key i ≡ returned key
    → lookup key lh.less_rep ≡ some v
    → 15 * second + v < 2 ^ 63
    → later < 15 * second + v
    → run later key (renew_less i lh).0
      ≡ record (renew_less i lh).0 { timer = (key, 15 * second + v) ∷ (renew_less i lh).0.timer }
unfolding run renew_less
renew_less_lasts v later i key lh e held fits early =
    ground (arith, lookup-insert_self key ((15 * second + v) % int64_mod) lh.less_rep)

-- The task of a revoked lease changes nothing and is not put back, at whatever time it runs.
pub run-revoke_less :
    (now : ℕ) (i : Instance) (key : Text) (lh : Lessor)
    → get_key i ≡ returned key
    → run now key (revoke_less i lh).0 ≡ (revoke_less i lh).0
unfolding run revoke_less
run-revoke_less now i key lh e = ground (arith, lookup-erase_self key lh.less_rep)
