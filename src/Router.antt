-- ===== src/Router.antt =====
-- crates/dash-router-core/src/router.rs: one node's protocol as a state machine. It decides
-- ranges; the ops themselves are the stores'. Times are numbers of some unit.
pub mod Folds
pub mod Step
use dash_router.Base.{
  ℕ, ◌+◌, ◌-◌, ◌≤◌, ◌≡◌, Bool, true, false, not, ◌&&◌, ◌||◌, Option, none, some, List, [], ◌∷◌,
  ◌++◌, map, ltb, leb, ◌==◌, if◌then◌else◌,
}
use dash_router.Base.Order.{nat_ord}
use dash_router.BtreeMap
use dash_router.BtreeMap.{BtreeMap}
use dash_router.Log.{Log, Authors}
use dash_router.Ranges
use dash_router.Ranges.{Ranges}
use dash_router.LogRanges
use dash_router.LogRanges.{LogRanges}
use dash_router.Interest
use dash_router.Interest.{Interest, Entry}

pub record Config : Type 0 where
  pub want_ttl : ℕ
  pub have_ttl : ℕ
  pub heard_ttl : ℕ

pub record Timer : Type 0 where
  pub remaining : ℕ

pub record Record : Type 0 where
  pub ranges : LogRanges
  pub ttl_left : ℕ

pub record SeenWant : Type 0 where
  pub interest : Interest
  pub ttl_left : ℕ

-- `opened` is the field `open`: the subscriptions, by channel.
pub record State : Type 0 where
  pub id : ℕ
  pub held : LogRanges
  pub seen : List SeenWant
  pub heard : BtreeMap ℕ ℕ
  pub haves : BtreeMap ℕ Record
  pub relayed_haves : List Record
  pub opened : List ℕ
  pub want_timer : Option Timer
  pub have_timer : Option Timer

pub data Action : Type 0 where
  tick : ℕ → Action
  arm_want_timer : ℕ → Action
  arm_have_timer : ℕ → Action
  fire_want : Action
  fire_have : Action
  opens : List ℕ → Action
  recv_want : ℕ → Interest → Action
  recv_have : ℕ → LogRanges → Action
  holds : LogRanges → Action
  push : LogRanges → Action

pub data Effect : Type 0 where
  send_want : Interest → Effect
  send_have : LogRanges → Effect
  accept : LogRanges → Effect

pub data Error : Type 0 where
  zero_tick past_due want_armed have_armed nothing_asked : Error
  want_not_armed want_not_due have_not_armed have_not_due empty_push own_message : Error

pub data Result : Type 0 where
  ok : State → List Effect → Result
  err : Error → Result

pub new : ℕ → LogRanges → State
new id held = record {
  id = id;
  held = held;
  seen = [];
  heard = [];
  haves = [];
  relayed_haves = [];
  opened = [];
  want_timer = none;
  have_timer = none;
}

-- `min` over the timers that are armed.
unfoldable pub earlier : Option Timer → Option Timer → Option ℕ
earlier none none = none
earlier none (some b) = some b.remaining
earlier (some a) none = some a.remaining
earlier (some a) (some b) = some (if ltb b.remaining a.remaining then b.remaining else a.remaining)

unfoldable pub next_due : State → Option ℕ
next_due s = earlier s.want_timer s.have_timer

unfoldable pub is_due : Option Timer → Bool
is_due none = false
is_due (some t) = t.remaining == 0

unfoldable pub want_due : State → Bool
want_due s = is_due s.want_timer

unfoldable pub have_due : State → Bool
have_due s = is_due s.have_timer

any_nonempty : List (Log × Ranges) → Bool
any_nonempty [] = false
any_nonempty ((l, r) ∷ ps) = not (Ranges.is_empty r) || any_nonempty ps

pub holds_under : LogRanges → ℕ → Bool
holds_under held c = any_nonempty (LogRanges.channel held c)

-- `BTreeSet::extend`
extend : List ℕ → List ℕ → List ℕ
extend set [] = set
extend set (c ∷ cs) = extend (BtreeMap.set_insert set c) cs

held_channels : LogRanges → List ℕ → List ℕ
held_channels held [] = []
held_channels held (c ∷ cs) =
    if holds_under held c then c ∷ held_channels held cs else held_channels held cs

pub channels_of_interest : State → List ℕ
channels_of_interest s =
    extend (extend s.opened (held_channels s.held (LogRanges.channels s.held)))
      (BtreeMap.keys s.heard)

pub interests : List SeenWant → List Interest
interests [] = []
interests (w ∷ ws) = w.interest ∷ interests ws

-- `records.fold(empty, |acc, r| acc.union(&r.ranges))`
pub union_all : LogRanges → List Record → LogRanges
union_all acc [] = acc
union_all acc (r ∷ rs) = union_all (LogRanges.union acc r.ranges) rs

pub recent_haves : State → LogRanges
recent_haves s = union_all LogRanges.empty (BtreeMap.values s.haves)

pub relayed_have_ranges : State → LogRanges
relayed_have_ranges s = union_all LogRanges.empty s.relayed_haves

pub note_relayed_haves : State → LogRanges → ℕ → State
note_relayed_haves s ranges ttl = record s {
  relayed_haves = s.relayed_haves ++ record { ranges = ranges; ttl_left = ttl } ∷ [];
}

pub note_have : State → ℕ → LogRanges → ℕ → State
note_have s key ranges ttl = record s {
  haves = BtreeMap.insert s.haves key (record { ranges = ranges; ttl_left = ttl });
}

note_seen : State → Interest → ℕ → State
note_seen s interest ttl = record s {
  seen = s.seen ++ record { interest = interest; ttl_left = ttl } ∷ [];
}

module _ ⦃t : Authors⦄ where
  pub my_interest : State → Interest
  my_interest s = Interest.from_held s.held (channels_of_interest s)

  pub next_want : State → Interest
  next_want s = Interest.uncovered_by (my_interest s) (interests s.seen)

  ask_all : LogRanges → LogRanges → List SeenWant → LogRanges
  ask_all held acc [] = acc
  ask_all held acc (w ∷ ws) =
      ask_all held (LogRanges.union acc (Interest.interest_ask_within w.interest held)) ws

  pub network_ask : State → LogRanges
  network_ask s = ask_all s.held LogRanges.empty s.seen

  pub next_have : State → LogRanges
  next_have s = LogRanges.difference (network_ask s) (recent_haves s)

  pub network_ask_with : State → Interest → LogRanges
  network_ask_with s interest =
      LogRanges.union (network_ask s) (Interest.interest_ask_within interest s.held)
