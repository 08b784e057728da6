-- ===== src/Notify/Events.antt =====
-- Events, subscribers and channels of notify/msg_notify_center.go.
use pole.Prelude.{
  ℕ, ◌+◌, ◌%◌, ◌^◌, Bool, ◌&&◌, ◌||◌, not, Option, List, [], ◌∷◌, ◌++◌, Text, length, ltb,
  if◌then◌else◌,
}

-- A `FastEvent` has a sequence number, an int64 by its bits; an event without one is a `SlowEvent`.
pub record Event : Type 0 where
  pub name : Text
  pub sequence : Option ℕ
  pub body : ℕ

pub data NotifyError : Type 0 where
  event_not_support event_not_register event_register wrong_subscriber_type : NotifyError
  no_publisher : Event → NotifyError
  context_done : NotifyError

-- What a subscriber says it subscribes to: `SubscribeType`, else `SubscribeTypes`. A nil event is
-- `none`.
pub data Topics : Type 0 where
  single : Option Event → Topics
  multi : List (Option Event) → Topics
  neither : Topics

-- A subscriber by its identity; `fails_on` says on which events its `OnEvent` panics.
pub record Subscriber : Type 0 where
  pub id : ℕ
  pub ignore_expire_event : Bool
  pub topics : Topics
  pub fails_on : Event → Bool

-- `a < b` on int64.
abbrev pub signed : ℕ → ℕ
signed a = (a + 2 ^ 63) % 2 ^ 64

abbrev pub lt_int64 : ℕ → ℕ → Bool
lt_int64 a b = ltb (signed a) (signed b)

-- -1, as an int64.
abbrev pub before_all : ℕ
before_all = 18446744073709551615

pub record Channel : Type 0 where
  pub capacity : ℕ
  pub items : List Event
  pub closed : Bool

pub data Sent : Type 0 where
  sent cancelled waits crashed : Sent

-- The `select` of `PublishEvent`: it sends, or it sees that the context is done. Where both can
-- happen, `first` says that the send is chosen. A send on a closed channel panics.
unfoldable pub send : Bool → Bool → Event → Channel → Sent × Channel
send done first e ch =
    let ready : Bool = ch.closed || ltb (length ch.items) ch.capacity in
    if ready && (not done || first)
    then (if ch.closed then (crashed, ch) else (sent, record ch { items = ch.items ++ e ∷ [] }))
    else if done
    then (cancelled, ch)
    else (waits, ch)
