-- ===== src/Router/Step.antt =====
-- crates/dash-router-core/src/router.rs: `transition`, one function for each action.
pub mod Accepts
pub mod Sends
pub mod Timers
pub mod Haves
pub mod Flood
pub mod Own
pub mod Wants
mod Tests
use dash_router.Base.{
  ℕ, ◌+◌, ◌-◌, ◌≤◌, ◌≡◌, Bool, true, false, not, ◌&&◌, ◌||◌, Option, none, some, List, [], ◌∷◌,
  ◌++◌, map, ltb, leb, ◌==◌, if◌then◌else◌,
}
use dash_router.Base.Order.{nat_ord}
use dash_router.BtreeMap
use dash_router.BtreeMap.{BtreeMap}
use dash_router.Log.{Log, Authors}
use dash_router.Ranges
use dash_router.Ranges.{Ranges}
use dash_router.LogRanges
use dash_router.LogRanges.{LogRanges}
use dash_router.Interest
use dash_router.Interest.{Interest, Entry}
use dash_router.Router.{
  Config, Timer, Record, SeenWant, State, Action, tick, arm_want_timer, arm_have_timer, fire_want,
  fire_have, opens, recv_want, recv_have, holds, push, Effect, send_want, send_have, accept, Error,
  zero_tick, past_due, want_armed, have_armed, nothing_asked, want_not_armed, want_not_due,
  have_not_armed, have_not_due, empty_push, own_message, Result, ok, err, next_due, holds_under,
  interests, relayed_have_ranges, note_relayed_haves, note_have, note_seen, next_want, network_ask,
  next_have,
}

-- What `Tick` does to a timer, and to the records: those that run out are forgotten.
unfoldable pub count_down : ℕ → Option Timer → Option Timer
count_down dur none = none
count_down dur (some t) = some (record { remaining = t.remaining - dur })

age_haves : ℕ → BtreeMap ℕ Record → BtreeMap ℕ Record
age_haves dur haves =
    BtreeMap.map_values (λ _ r. record r { ttl_left = r.ttl_left - dur })
      (BtreeMap.retain (λ _ r. ltb dur r.ttl_left) haves)

age_records : ℕ → List Record → List Record
age_records dur [] = []
age_records dur (r ∷ rs) =
    if ltb dur r.ttl_left
    then record r { ttl_left = r.ttl_left - dur } ∷ age_records dur rs
    else age_records dur rs

age_seen : ℕ → List SeenWant → List SeenWant
age_seen dur [] = []
age_seen dur (w ∷ ws) =
    if ltb dur w.ttl_left
    then record w { ttl_left = w.ttl_left - dur } ∷ age_seen dur ws
    else age_seen dur ws

age_heard : ℕ → BtreeMap ℕ ℕ → BtreeMap ℕ ℕ
age_heard dur heard =
    BtreeMap.map_values (λ _ t. t - dur) (BtreeMap.retain (λ _ t. ltb dur t) heard)

-- `s.next_due().is_none_or(|due| dur <= due)`
unfoldable pub in_time : ℕ → Option ℕ → Bool
in_time dur none = true
in_time dur (some due) = leb dur due

do_tick : State → ℕ → Result
do_tick s dur =
    if dur == 0
    then err zero_tick
    else if not (in_time dur (next_due s))
    then err past_due
    else ok
        (record s {
          want_timer = count_down dur s.want_timer;
          have_timer = count_down dur s.have_timer;
          haves = age_haves dur s.haves;
          relayed_haves = age_records dur s.relayed_haves;
          seen = age_seen dur s.seen;
          heard = age_heard dur s.heard;
        })
        []

do_arm_want_timer : State → ℕ → Result
do_arm_want_timer s interval = elim s.want_timer [
  | some _ ↦ err want_armed
  | none ↦ ok (record s { want_timer = some (record { remaining = interval }) }) []
]

-- The floods of `Push` and `RecvHave`.
do_push : Config → State → LogRanges → Result
do_push config s ranges =
    if LogRanges.is_empty ranges
    then err empty_push
    else let s1 = record s { held = LogRanges.union s.held ranges } in
      let relay = LogRanges.difference ranges (relayed_have_ranges s1) in
      if LogRanges.is_empty relay
      then ok s1 []
      else ok (note_relayed_haves (note_have s1 s1.id relay config.have_ttl) relay config.have_ttl)
          (send_have relay ∷ [])

-- The state and the effects of the first half of `RecvHave`.
pub learn : State → LogRanges → State × List Effect
learn s ranges =
    let novel = LogRanges.difference ranges s.held in
    if LogRanges.is_empty novel
    then (s, [])
    else (record s { held = LogRanges.union s.held novel }, accept novel ∷ [])

-- The second half: the relay, on what the first left.
pub flood : Config → LogRanges → State × List Effect → State × List Effect
flood config ranges (s, fx) =
    let relay = LogRanges.difference ranges (relayed_have_ranges s) in
    if LogRanges.is_empty relay
    then (s, fx)
    else (note_relayed_haves s relay config.have_ttl, fx ++ send_have relay ∷ [])

do_recv_have : Config → State → ℕ → LogRanges → Result
do_recv_have config s from ranges =
    if from == s.id
    then err own_message
    else let (s', fx) = flood config ranges (learn s ranges) in
      ok (note_have s' from ranges config.have_ttl) fx

-- The loop that adopts the channels wanted by a holder.
adopt : ℕ → LogRanges → BtreeMap ℕ ℕ → Interest → BtreeMap ℕ ℕ
adopt ttl held heard [] = heard
adopt ttl held heard ((c, e) ∷ i) =
    adopt ttl held
      (if not (Interest.is_pure e) && not (holds_under held c)
        then BtreeMap.insert heard c ttl
        else heard)
      i

module _ ⦃t : Authors⦄ where
  do_arm_have_timer : State → ℕ → Result
  do_arm_have_timer s interval = elim s.have_timer [
    | some _ ↦ err have_armed
    | none ↦
        if LogRanges.is_empty (network_ask s)
        then err nothing_asked
        else ok (record s { have_timer = some (record { remaining = interval }) }) []
  ]

  emit_want : Config → State → Result
  emit_want config s =
      let out = next_want s in
      if Interest.is_empty out
      then ok s []
      else ok (note_seen s out config.want_ttl) (send_want out ∷ [])

  do_fire_want : Config → State → Result
  do_fire_want config s = elim s.want_timer [
    | none ↦ err want_not_armed
    | some timer ↦
        if timer.remaining == 0
        then emit_want config (record s { want_timer = none })
        else err want_not_due
  ]

  emit_have : Config → State → Result
  emit_have config s =
      let ranges = next_have s in
      if LogRanges.is_empty ranges
      then ok s []
      else ok (note_relayed_haves (note_have s s.id ranges config.have_ttl) ranges config.have_ttl)
          (send_have ranges ∷ [])

  do_fire_have : Config → State → Result
  do_fire_have config s = elim s.have_timer [
    | none ↦ err have_not_armed
    | some timer ↦
        if timer.remaining == 0
        then emit_have config (record s { have_timer = none })
        else err have_not_due
  ]

  do_recv_want : Config → State → ℕ → Interest → Result
  do_recv_want config s from interest =
      if from == s.id
      then err own_message
      else ok
          (note_seen (record s { heard = adopt config.heard_ttl s.held s.heard interest }) interest
            config.want_ttl)
          (if Interest.any_uncovered_by interest (interests s.seen)
            then send_want interest ∷ []
            else [])

  pub transition : Config → State → Action → Result
  transition config s (tick dur) = do_tick s dur
  transition config s (arm_want_timer interval) = do_arm_want_timer s interval
  transition config s (arm_have_timer interval) = do_arm_have_timer s interval
  transition config s fire_want = do_fire_want config s
  transition config s fire_have = do_fire_have config s
  transition config s (opens channels) = ok (record s { opened = channels }) []
  transition config s (recv_want from interest) = do_recv_want config s from interest
  transition config s (recv_have from ranges) = do_recv_have config s from ranges
  transition config s (holds ranges) = ok (record s { held = ranges }) []
  transition config s (push ranges) = do_push config s ranges
