-- ===== src/Router/Folds.antt =====
-- The unions over records: what they contain.
use dash_router.Base.{ℕ, ◌≡◌, Bool, false, not, ◌&&◌, ◌||◌, List, [], ◌∷◌, arith, ap, ◌∙◌, All}
use dash_router.Base.Order.{nat_ord}
use dash_router.BtreeMap
use dash_router.BtreeMap.{BtreeMap, IsSorted, AllValues}
use dash_router.Log.{Log, Authors}
use dash_router.LogRanges
use dash_router.LogRanges.{LogRanges}
use dash_router.LogRanges.Shape.{union-IsValid_log, empty-IsValid, difference-IsValid_log}
use dash_router.LogRanges.Sets.{contains-union_log, contains-difference_log}
use dash_router.LogRanges.Empty.{contains-empty_log}
use dash_router.Interest
use dash_router.Interest.{Interest}
use dash_router.Interest.Asks
use dash_router.Interest.Asks.{asks_log, contains-interest_ask_within, interest_ask_within-IsValid}
use dash_router.Interest.Covering.{some_asks_log}
use dash_router.Router.{
  State, Record, SeenWant, union_all, recent_haves, relayed_have_ranges, interests, ask_all,
  network_ask, next_have,
}

abbrev pub IsRecord : Record → Type 0
IsRecord r = LogRanges.IsValid r.ranges

-- Some record has the number.
abbrev pub some_record : List Record → Log → ℕ → Bool
some_record [] l s = false
some_record (r ∷ rs) l s = LogRanges.contains r.ranges l s || some_record rs l s

union_all-IsValid :
    (acc : LogRanges) (rs : List Record)
    → LogRanges.IsValid acc
    → All IsRecord rs
    → LogRanges.IsValid (union_all acc rs)
unfolding union_all
union_all-IsValid acc [] v w = v
union_all-IsValid acc (r ∷ rs) v w =
    union_all-IsValid (LogRanges.union acc r.ranges) rs (union-IsValid_log acc r.ranges v w.0) w.1

contains-union_all :
    (acc : LogRanges) (rs : List Record) (l : Log) (s : ℕ)
    → LogRanges.IsValid acc
    → All IsRecord rs
    → LogRanges.contains (union_all acc rs) l s ≡ (LogRanges.contains acc l s || some_record rs l s)
unfolding union_all
contains-union_all acc [] l s v w = ground arith
contains-union_all acc (r ∷ rs) l s v w =
    contains-union_all (LogRanges.union acc r.ranges) rs l s (union-IsValid_log acc r.ranges v w.0)
      w.1
    ∙ ground (arith, contains-union_log acc r.ranges v w.0 l s)

-- A state whose parts keep their invariants.
pub record IsValid ⦃t : Authors⦄ (s : State) : Type 0 where
  pub held : LogRanges.IsValid s.held
  pub seen : All (λ i. IsSorted i × AllValues Asks.IsValid i) (interests s.seen)
  pub haves : AllValues IsRecord s.haves
  pub relayed : All IsRecord s.relayed_haves

pub values-All : (m : BtreeMap ℕ Record) → AllValues IsRecord m → All IsRecord (BtreeMap.values m)
unfolding BtreeMap.values
values-All [] v = tt
values-All ((k, r) ∷ m) v = (v.0, values-All m v.1)

module _ ⦃t : Authors⦄ where
  ask_all-IsValid :
      (held acc : LogRanges) (ws : List SeenWant)
      → LogRanges.IsValid held
      → LogRanges.IsValid acc
      → All (λ i. IsSorted i × AllValues Asks.IsValid i) (interests ws)
      → LogRanges.IsValid (ask_all held acc ws)
  unfolding ask_all interests
  ask_all-IsValid held acc [] h v w = v
  ask_all-IsValid held acc (x ∷ ws) h v w =
      ask_all-IsValid held (LogRanges.union acc (Interest.interest_ask_within x.interest held)) ws h
        (union-IsValid_log acc (Interest.interest_ask_within x.interest held) v
          (interest_ask_within-IsValid x.interest held w.0.1 h))
        w.1

  contains-ask_all :
      (held acc : LogRanges) (ws : List SeenWant) (l : Log) (s : ℕ)
      → LogRanges.IsValid held
      → LogRanges.IsValid acc
      → All (λ i. IsSorted i × AllValues Asks.IsValid i) (interests ws)
      → LogRanges.contains (ask_all held acc ws) l s ≡ (
          LogRanges.contains acc l s
          || (LogRanges.contains held l s && some_asks_log (interests ws) l s))
  unfolding ask_all interests
  contains-ask_all held acc [] l s h v w = ground arith
  contains-ask_all held acc (x ∷ ws) l s h v w =
      let ask : LogRanges = Interest.interest_ask_within x.interest held in
      let va : LogRanges.IsValid ask = interest_ask_within-IsValid x.interest held w.0.1 h in
      contains-ask_all held (LogRanges.union acc ask) ws l s h (union-IsValid_log acc ask v va) w.1
      ∙ once (LogRanges.contains (LogRanges.union acc ask) l s) (LogRanges.contains acc l s)
          (LogRanges.contains held l s) (asks_log x.interest l s) (some_asks_log (interests ws) l s)
          (contains-union_log acc ask v va l s
            ∙ ap (λ b. LogRanges.contains acc l s || b)
                (contains-interest_ask_within x.interest held l s w.0.0 w.0.1 h))
    where
      once :
          (new acc' held' one rest : Bool)
          → new ≡ (acc' || (held' && one))
          → (new || (held' && rest)) ≡ (acc' || (held' && (one || rest)))
      once new acc' held' one rest e = ground arith

  network_ask-IsValid : (s : State) → IsValid s → LogRanges.IsValid (network_ask s)
  unfolding network_ask
  network_ask-IsValid s v =
      ask_all-IsValid s.held LogRanges.empty s.seen v.held empty-IsValid v.seen

  -- In a valid state, the network asks for a number of a log exactly when the node holds it
  -- and some seen Want asks for it.
  pub contains-network_ask :
      (s : State) (l : Log) (q : ℕ)
      → IsValid s
      → LogRanges.contains (network_ask s) l q
        ≡ (LogRanges.contains s.held l q && some_asks_log (interests s.seen) l q)
  unfolding network_ask
  contains-network_ask s l q v =
      contains-ask_all s.held LogRanges.empty s.seen l q v.held empty-IsValid v.seen
      ∙ ground (arith, contains-empty_log l q)

  pub recent_haves-IsValid : (s : State) → IsValid s → LogRanges.IsValid (recent_haves s)
  unfolding recent_haves
  recent_haves-IsValid s v =
      union_all-IsValid LogRanges.empty (BtreeMap.values s.haves) empty-IsValid
        (values-All s.haves v.haves)

  pub relayed_have_ranges-IsValid :
      (s : State) → IsValid s → LogRanges.IsValid (relayed_have_ranges s)
  unfolding relayed_have_ranges
  relayed_have_ranges-IsValid s v =
      union_all-IsValid LogRanges.empty s.relayed_haves empty-IsValid v.relayed

  pub contains-recent_haves :
      (s : State) (l : Log) (q : ℕ)
      → IsValid s
      → LogRanges.contains (recent_haves s) l q ≡ some_record (BtreeMap.values s.haves) l q
  unfolding recent_haves
  contains-recent_haves s l q v =
      contains-union_all LogRanges.empty (BtreeMap.values s.haves) l q empty-IsValid
        (values-All s.haves v.haves)
      ∙ ground (arith, contains-empty_log l q)

  pub contains-relayed_have_ranges :
      (s : State) (l : Log) (q : ℕ)
      → IsValid s
      → LogRanges.contains (relayed_have_ranges s) l q ≡ some_record s.relayed_haves l q
  unfolding relayed_have_ranges
  contains-relayed_have_ranges s l q v =
      contains-union_all LogRanges.empty s.relayed_haves l q empty-IsValid v.relayed
      ∙ ground (arith, contains-empty_log l q)

  pub next_have-IsValid : (s : State) → IsValid s → LogRanges.IsValid (next_have s)
  unfolding next_have
  next_have-IsValid s v =
      difference-IsValid_log (network_ask s) (recent_haves s) (network_ask-IsValid s v)
        (recent_haves-IsValid s v)

  -- The next Have is what this node holds and some seen Want asks for, and no recent Have had.
  pub contains-next_have :
      (s : State) (l : Log) (q : ℕ)
      → IsValid s
      → LogRanges.contains (next_have s) l q ≡ (
          LogRanges.contains s.held l q
          && (some_asks_log (interests s.seen) l q
              && not (some_record (BtreeMap.values s.haves) l q)))
  unfolding next_have
  contains-next_have s l q v =
      contains-difference_log (network_ask s) (recent_haves s) (network_ask-IsValid s v)
        (recent_haves-IsValid s v) l q
      ∙ ground (arith, contains-network_ask s l q v, contains-recent_haves s l q v)
