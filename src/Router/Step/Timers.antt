-- ===== src/Router/Step/Timers.antt =====
-- The passing of time: when `Tick` is enabled, and that the size of its steps does not matter.
use dash_router.Base.{
  ℕ, ◌+◌, ◌-◌, ◌≤◌, ◌≡◌, Bool, true, false, ◌&&◌, Option, none, some, List, [], ◌∷◌, ◌++◌, refl,
  sym, arith, ap, ◌∙◌, ltb, leb, ◌==◌, Bool-cases, inl, inr, if◌then◌else◌,
}
use dash_router.BtreeMap
use dash_router.BtreeMap.{BtreeMap}
use dash_router.Log.{Authors}
use dash_router.Router.{
  Config, Timer, Record, SeenWant, State, tick, Effect, zero_tick, past_due, Result, ok, err,
  earlier, next_due,
}
use dash_router.Router.Step.{
  count_down, age_haves, age_records, age_seen, age_heard, in_time, do_tick, transition,
}

-- One step, then another from the state that it left, with the effects of both.
abbrev pub prepend : List Effect → Result → Result
prepend fx (ok s fx') = ok s (fx ++ fx')
prepend fx (err e) = err e

abbrev pub and_then : Result → (State → Result) → Result
and_then (ok s fx) k = prepend fx (k s)
and_then (err e) k = err e

-- The armed timer has at least so much left.
abbrev fits : ℕ → Option Timer → Bool
fits dur none = true
fits dur (some t) = leb dur t.remaining

in_time-earlier :
    (dur : ℕ) (a b : Option Timer) → in_time dur (earlier a b) ≡ (fits dur a && fits dur b)
unfolding in_time earlier
in_time-earlier dur none none = refl
in_time-earlier dur none (some b) = refl
in_time-earlier dur (some a) none = ground arith
in_time-earlier dur (some a) (some b) = ground arith

count_down_add : (a b : ℕ) (o : Option Timer) → count_down b (count_down a o) ≡ count_down (a + b) o
unfolding count_down
count_down_add a b none = refl
count_down_add a b (some t) = ap (λ n. some (record { remaining = n })) (omega arith)

fits_add : (a b : ℕ) (o : Option Timer) → fits a o ≡ true → fits b (count_down a o) ≡ fits (a + b) o
unfolding count_down
fits_add a b none h = refl
fits_add a b (some t) h = ground arith

later : (a b t : ℕ) → ltb a t ≡ true → ltb b (t - a) ≡ ltb (a + b) t
later a b t h = ground arith

sooner : (a b t : ℕ) → ltb a t ≡ false → ltb (a + b) t ≡ false
sooner a b t h = ground arith

age_records_add :
    (a b : ℕ) (rs : List Record) → age_records b (age_records a rs) ≡ age_records (a + b) rs
unfolding age_records
age_records_add a b [] = refl
age_records_add a b (r ∷ rs) = elim (Bool-cases (ltb a r.ttl_left)) [
  | inl live ↦ elim (Bool-cases (ltb b (r.ttl_left - a))) [
    | inl live' ↦
        rw (live, live', sym (later a b r.ttl_left live), live', age_records_add a b rs)
          (ap (λ n. record r { ttl_left = n } ∷ age_records (a + b) rs) (omega arith))
    | inr dead' ↦ rw (live, dead', sym (later a b r.ttl_left live), dead') (age_records_add a b rs)
  ]
  | inr dead ↦ rw (dead, sooner a b r.ttl_left dead) (age_records_add a b rs)
]

age_seen_add : (a b : ℕ) (ws : List SeenWant) → age_seen b (age_seen a ws) ≡ age_seen (a + b) ws
unfolding age_seen
age_seen_add a b [] = refl
age_seen_add a b (r ∷ ws) = elim (Bool-cases (ltb a r.ttl_left)) [
  | inl live ↦ elim (Bool-cases (ltb b (r.ttl_left - a))) [
    | inl live' ↦
        rw (live, live', sym (later a b r.ttl_left live), live', age_seen_add a b ws)
          (ap (λ n. record r { ttl_left = n } ∷ age_seen (a + b) ws) (omega arith))
    | inr dead' ↦ rw (live, dead', sym (later a b r.ttl_left live), dead') (age_seen_add a b ws)
  ]
  | inr dead ↦ rw (dead, sooner a b r.ttl_left dead) (age_seen_add a b ws)
]

age_haves_add :
    (a b : ℕ) (m : BtreeMap ℕ Record) → age_haves b (age_haves a m) ≡ age_haves (a + b) m
unfolding age_haves BtreeMap.retain BtreeMap.map_values
age_haves_add a b [] = refl
age_haves_add a b ((k, r) ∷ m) = elim (Bool-cases (ltb a r.ttl_left)) [
  | inl live ↦ elim (Bool-cases (ltb b (r.ttl_left - a))) [
    | inl live' ↦
        rw (live, live', sym (later a b r.ttl_left live), live', age_haves_add a b m)
          (ap (λ n. (k, record r { ttl_left = n }) ∷ age_haves (a + b) m) (omega arith))
    | inr dead' ↦ rw (live, dead', sym (later a b r.ttl_left live), dead') (age_haves_add a b m)
  ]
  | inr dead ↦ rw (dead, sooner a b r.ttl_left dead) (age_haves_add a b m)
]

age_heard_add : (a b : ℕ) (m : BtreeMap ℕ ℕ) → age_heard b (age_heard a m) ≡ age_heard (a + b) m
unfolding age_heard BtreeMap.retain BtreeMap.map_values
age_heard_add a b [] = refl
age_heard_add a b ((k, t) ∷ m) = elim (Bool-cases (ltb a t)) [
  | inl live ↦ elim (Bool-cases (ltb b (t - a))) [
    | inl live' ↦
        rw (live, live', sym (later a b t live), live', age_heard_add a b m)
          (ap (λ n. (k, n) ∷ age_heard (a + b) m) (omega arith))
    | inr dead' ↦ rw (live, dead', sym (later a b t live), dead') (age_heard_add a b m)
  ]
  | inr dead ↦ rw (dead, sooner a b t dead) (age_heard_add a b m)
]

-- The state after `Tick(dur)`.
aged : State → ℕ → State
aged s dur = record s {
  want_timer = count_down dur s.want_timer;
  have_timer = count_down dur s.have_timer;
  haves = age_haves dur s.haves;
  relayed_haves = age_records dur s.relayed_haves;
  seen = age_seen dur s.seen;
  heard = age_heard dur s.heard;
}

aged_add : (s : State) (a b : ℕ) → aged (aged s a) b ≡ aged s (a + b)
unfolding aged
aged_add s a b =
    rw
      (
        count_down_add a b s.want_timer,
        count_down_add a b s.have_timer,
        age_haves_add a b s.haves,
        age_records_add a b s.relayed_haves,
        age_seen_add a b s.seen,
        age_heard_add a b s.heard,
      )
      refl

-- No armed timer is carried past due.
all_fit : State → ℕ → Bool
all_fit s dur = fits dur s.want_timer && fits dur s.have_timer

all_fit_add : (s : State) (a b : ℕ) → all_fit s a ≡ true → all_fit (aged s a) b ≡ all_fit s (a + b)
unfolding all_fit aged
all_fit_add s a b h = ground (arith, fits_add a b s.want_timer, fits_add a b s.have_timer)

all_fit_less : (s : State) (a b : ℕ) → all_fit s a ≡ false → all_fit s (a + b) ≡ false
unfolding all_fit
all_fit_less s a b h = ground (arith, fits_less s.want_timer, fits_less s.have_timer)
  where
    fits_less : (o : Option Timer) → fits a o ≡ false → fits (a + b) o ≡ false
    fits_less none h = h
    fits_less (some t) h = ground arith

module _ ⦃t : Authors⦄ where
  -- `Tick` of zero is an error, and so is one that would carry an armed timer past due; any
  -- other ages every timer and record by the same time and emits nothing.
  tick-branches :
      (config : Config) (s : State) (dur : ℕ)
      → transition config s (tick dur) ≡ (
          if dur == 0
          then err zero_tick
          else if fits dur s.want_timer && fits dur s.have_timer
          then ok (aged s dur) []
          else err past_due)
  unfolding transition do_tick aged next_due
  tick-branches config s dur = elim (Bool-cases (dur == 0)) [
    | inl zero' ↦ rw zero' refl
    | inr some' ↦ rw (some', in_time-earlier dur s.want_timer s.have_timer) ground arith
  ]

  tick-ok :
      (config : Config) (s : State) (dur : ℕ)
      → 1 ≤ dur
      → all_fit s dur ≡ true
      → transition config s (tick dur) ≡ ok (aged s dur) []
  unfolding all_fit
  tick-ok config s dur p fit = tick-branches config s dur ∙ rw (fit, nonzero dur p) refl
    where
      nonzero : (n : ℕ) → 1 ≤ n → (n == 0) ≡ false
      nonzero n p = ground arith

  tick-late :
      (config : Config) (s : State) (dur : ℕ)
      → 1 ≤ dur
      → all_fit s dur ≡ false
      → transition config s (tick dur) ≡ err past_due
  unfolding all_fit
  tick-late config s dur p late = tick-branches config s dur ∙ rw (late, nonzero dur p) refl
    where
      nonzero : (n : ℕ) → 1 ≤ n → (n == 0) ≡ false
      nonzero n p = ground arith

  -- Two ticks that are not zero, one after the other, do what one tick of the sum does, both
  -- where they succeed and where a timer would be carried past due: the size of the steps in
  -- which time passes does not matter.
  pub tick_add :
      (config : Config) (s : State) (a b : ℕ)
      → 1 ≤ a
      → 1 ≤ b
      → and_then (transition config s (tick a)) (λ s'. transition config s' (tick b))
        ≡ transition config s (tick (a + b))
  tick_add config s a b p q = elim (Bool-cases (all_fit s a)) [
    | inl fit ↦ elim (Bool-cases (all_fit s (a + b))) [
      | inl fit' ↦
          rw
            (
              tick-ok config s a p fit,
              tick-ok config s (a + b) (omega arith) fit',
              tick-ok config (aged s a) b q (all_fit_add s a b fit ∙ fit'),
            )
            (ap (λ x. ok x []) (aged_add s a b))
      | inr late' ↦
          rw
            (
              tick-ok config s a p fit,
              tick-late config s (a + b) (omega arith) late',
              tick-late config (aged s a) b q (all_fit_add s a b fit ∙ late'),
            )
            refl
    ]
    | inr late ↦
        rw
          (
            tick-late config s a p late,
            tick-late config s (a + b) (omega arith) (all_fit_less s a b late),
          )
          refl
  ]
