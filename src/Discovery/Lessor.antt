-- ===== src/Discovery/Lessor.antt =====
-- `Lessor` of server/discovery/discovery_less.go: leases with a deadline, and the tasks that check
-- them. The time wheel of the rpc library is the list of tasks that it was given; which task runs
-- next, and when, is the choice of the environment. Times are int64, by their 64 bits.
use pole.Prelude.{
  ℕ, ◌+◌, ◌*◌, ◌%◌, ◌^◌, ◌≡◌, Bool, Option, none, some, List, [], ◌∷◌, ◌++◌, map, Text, Dict,
  lookup, insert, erase, Outcome, returned, panicked, leb, if◌then◌else◌,
}
use pole.Discovery.Model.{Instance, get_key}

abbrev pub int64_mod : ℕ
int64_mod = 2 ^ 64

-- `a <= b` on int64.
unfoldable pub le_int64 : ℕ → ℕ → Bool
le_int64 a b = leb ((a + 2 ^ 63) % int64_mod) ((b + 2 ^ 63) % int64_mod)

abbrev pub second : ℕ
second = 1_000_000_000

pub record Lessor : Type 0 where
  pub less_rep : Dict ℕ
  -- `none` is the nil channel; otherwise the values that wait for the reader
  pub expire_keys : Option (List (List Text))
  pub watchers : List ℕ
  -- the tasks of the wheel: a key and the delay that the task was handed over with
  pub timer : List (Text × ℕ)
  -- the calls of watchers so far, latest first
  pub notified : List (ℕ × List Text)
  -- the tasks that wait for ever in a send; each holds the read half of `rwLock`
  pub blocked : List Text

-- `NewLessor`, which makes no channel, by what the making of the library's time wheel comes to.
unfoldable pub new_lessor : Outcome (Unit {0}) → Outcome Lessor
new_lessor panicked = panicked
new_lessor (returned _) = returned (record {
  less_rep = [];
  expire_keys = none;
  watchers = [];
  timer = [];
  notified = [];
  blocked = [];
})

-- What a call on an instance's key does; a panic leaves the lessor as it was.
abbrev pub on_key : Outcome Text → Lessor → (Text → Lessor) → Lessor × Outcome (Unit {0})
on_key panicked lh f = (lh, panicked)
on_key (returned key) lh f = (f key, returned tt)

-- `time.Duration(15+utils.GetCurrentTimeMs()) * time.Second`
unfoldable pub expire_at : ℕ → ℕ
expire_at now = (15 + now) * second % int64_mod

unfoldable pub grant_less : ℕ → Instance → Lessor → Lessor × Outcome (Unit {0})
unfolding get_key expire_at
grant_less now instance lh = on_key (get_key instance) lh λ key. record lh {
  less_rep = insert key (expire_at now) lh.less_rep;
  timer = (key, expire_at now) ∷ lh.timer;
}

unfoldable pub renew_less : Instance → Lessor → Lessor × Outcome (Unit {0})
unfolding get_key
renew_less instance lh = on_key (get_key instance) lh λ key. elim (lookup key lh.less_rep) [
  | some v ↦ record lh { less_rep = insert key ((15 * second + v) % int64_mod) lh.less_rep }
  | none ↦ lh
]

unfoldable pub revoke_less : Instance → Lessor → Lessor × Outcome (Unit {0})
unfolding get_key
revoke_less instance lh =
    on_key (get_key instance) lh λ key. record lh { less_rep = erase key lh.less_rep }

-- `none` means that the call waits for ever, for a lock that a blocked task holds.
unfoldable pub add_expire_watcher : ℕ → Lessor → Option Lessor
add_expire_watcher observer lh = elim lh.blocked [
  | [] ↦ some (record lh { watchers = lh.watchers ++ observer ∷ [] })
  | _ ∷ _ ↦ none
]

unfoldable pub notify_expire : List Text → Lessor → Lessor
notify_expire keys lh = record lh { notified = map (λ w. (w, keys)) lh.watchers ++ lh.notified }

-- `less.Run` for a task of the wheel, at the time `now`.
unfoldable pub run : ℕ → Text → Lessor → Lessor
unfolding le_int64
run now key lh = elim (lookup key lh.less_rep) [
  | none ↦ lh
  | some v ↦
      if le_int64 v now
      then elim lh.expire_keys [
        | none ↦ record lh { blocked = key ∷ lh.blocked }
        | some waiting ↦ record lh { expire_keys = some (waiting ++ (key ∷ []) ∷ []) }
      ]
      else record lh { timer = (key, v) ∷ lh.timer }
]

-- What may happen to a lessor: the calls, a task of the wheel that runs, and the reader of
-- `expireKeys`.
pub data Step (s : Lessor) (t : Lessor) : Type 0 where
  grants : (now : ℕ) (i : Instance) → t ≡ (grant_less now i s).0 → Step s t
  renews : (i : Instance) → t ≡ (renew_less i s).0 → Step s t
  revokes : (i : Instance) → t ≡ (revoke_less i s).0 → Step s t
  watches : (observer : ℕ) → add_expire_watcher observer s ≡ some t → Step s t
  runs :
      (now : ℕ) (key : Text) (delay : ℕ) (before after : List (Text × ℕ))
      → s.timer ≡ before ++ (key, delay) ∷ after
      → t ≡ run now key (record s { timer = before ++ after })
      → Step s t
  receives :
      (keys : List Text) (waiting : List (List Text))
      → s.expire_keys ≡ some (keys ∷ waiting)
      → t ≡ notify_expire keys (record s { expire_keys = some waiting })
      → Step s t

pub data Reach (s : Lessor) : Lessor → Type 0 where
  here : Reach s s
  next : {t u : Lessor} → Reach s t → Step t u → Reach s u
