-- ===== src/Router/Step/Tests.antt =====
-- Instances of the theorems on a node that holds part of a log and has seen a Want for all of it.
use dash_router.Base.{
  ℕ, ◌≡◌, true, false, ◌||◌, ◌&&◌, not, none, some, List, [], ◌∷◌, refl, arith, if◌then◌else◌,
}
use dash_router.Base.Order.{nat_ord}
use dash_router.BtreeMap
use dash_router.Log.{Log, Authors, pair_authors}
use dash_router.Ranges
use dash_router.LogRanges
use dash_router.LogRanges.{LogRanges}
use dash_router.Interest
use dash_router.Interest.{Interest, Entry, any_uncovered_by}
use dash_router.Interest.Asks.{asks_log}
use dash_router.Interest.Covering.{some_asks_log}
use dash_router.Router.{
  Config, State, tick, fire_want, fire_have, recv_want, recv_have, push, Effect, send_want, ok,
  interests, note_have, my_interest, next_want, next_have, network_ask,
}
use dash_router.Router.Folds.{IsValid, some_record, contains-network_ask, next_have-IsValid}
use dash_router.Router.Step.{transition}
use dash_router.Router.Step.Haves.{sent, accepted}
use dash_router.Router.Step.Flood.{Received, recv_have-floods_once}
use dash_router.Router.Step.Own.{fire_have-answers, push-floods_once}
use dash_router.Router.Step.Wants.{IsInterest, recv_want-relays_once, fire_want-asks_once}
use dash_router.Router.Step.Timers.{and_then, tick_add}

instance abbrev authors : Authors
authors = pair_authors

abbrev config : Config
config = record { want_ttl = 10; have_ttl = 5; heard_ttl = 60 }

abbrev held : LogRanges
held = (1, (1, 0 ∷ 3 ∷ []) ∷ []) ∷ []

abbrev log11 : Log
log11 = record { channel = 1; author = 1 }

abbrev want_entry : Entry
want_entry = record { lo = 0; hi = 4294967295; have = [] }

abbrev want : Interest
want = (1, want_entry) ∷ []

-- Both timers are due.
abbrev node : State
node = record {
  id = 1;
  held = held;
  seen = record { interest = want; ttl_left = 10 } ∷ [];
  heard = [];
  haves = [];
  relayed_haves = [];
  opened = 1 ∷ [];
  want_timer = some (record { remaining = 0 });
  have_timer = some (record { remaining = 0 });
}

-- The same node before its timers are due.
abbrev waiting : State
waiting = record node {
  want_timer = some (record { remaining = 6 });
  have_timer = some (record { remaining = 5 });
}

held-IsValid : LogRanges.IsValid held
held-IsValid = record {
  sorted = tt;
  channels = (record { sorted = tt; nonempty = λ e. cc; ranges = omega arith }, tt);
}

-- Numbers 2 to 4; the node holds 0 to 2.
abbrev news : LogRanges
news = (1, (1, 2 ∷ 5 ∷ []) ∷ []) ∷ []

news-IsValid : LogRanges.IsValid news
news-IsValid = record {
  sorted = tt;
  channels = (record { sorted = tt; nonempty = λ e. cc; ranges = omega arith }, tt);
}

news-some : LogRanges.is_empty news ≡ false
unfolding LogRanges.is_empty LogRanges.all_empty Ranges.is_empty
news-some = refl

want-IsInterest : IsInterest want
unfolding BtreeMap.keys
want-IsInterest =
    (tt, (record { scope = omega arith; sorted = tt; ranges = tt; within = λ a h. cc }, tt))

node-IsValid : IsValid node
unfolding interests
node-IsValid = record {
  held = held-IsValid;
  seen = (want-IsInterest, tt);
  haves = tt;
  relayed = tt;
}

contains-network_ask_example :
    LogRanges.contains (network_ask node) log11 2
    ≡ (LogRanges.contains held log11 2 && some_asks_log (interests node.seen) log11 2)
contains-network_ask_example = contains-network_ask node log11 2 node-IsValid

recv_have-floods_once_example :
    (s' : State) × (fx : List Effect) × (transition config node (recv_have 2 news) ≡ ok s' fx)
    × Received node news s' fx
    × (transition config s' (recv_have 3 news) ≡ ok (note_have s' 3 news 5) [])
recv_have-floods_once_example =
    recv_have-floods_once config node 2 news 3 news node-IsValid news-IsValid news-IsValid
      (ground arith) (ground arith) (λ l q e. e)

push-floods_once_example :
    (s' : State) × (fx : List Effect) × (transition config node (push news) ≡ ok s' fx)
    × ((l : Log) (q : ℕ)
        → LogRanges.contains s'.held l q
          ≡ (LogRanges.contains held l q || LogRanges.contains news l q))
    × ((l : Log) (q : ℕ) → accepted fx l q ≡ false)
    × ((l : Log) (q : ℕ)
        → sent fx l q ≡ (LogRanges.contains news l q && not (some_record node.relayed_haves l q)))
    × (transition config s' (recv_have 3 news) ≡ ok (note_have s' 3 news 5) [])
push-floods_once_example =
    push-floods_once config node news 3 news node-IsValid news-IsValid news-IsValid news-some
      (ground arith) (λ l q e. e)

fire_have-answers_example :
    (s' : State) × (fx : List Effect) × (transition config node fire_have ≡ ok s' fx)
    × (s'.have_timer ≡ none)
    × ((l : Log) (q : ℕ)
        → sent fx l q ≡ (
            LogRanges.contains held l q
            && (some_asks_log (interests node.seen) l q
                && not (some_record (BtreeMap.values node.haves) l q))))
    × (transition config s' (recv_have 3 (next_have node))
        ≡ ok (note_have s' 3 (next_have node) 5) [])
fire_have-answers_example =
    fire_have-answers config node 3 (next_have node) node-IsValid refl
      (next_have-IsValid node node-IsValid) (ground arith) (λ l q e. e)

recv_want-relays_once_example :
    (s' : State) × (s'' : State) × (transition config node (recv_want 2 want)
      ≡ ok s' (if any_uncovered_by want (interests node.seen) then send_want want ∷ [] else []))
    × IsValid s'
    × (transition config s' (recv_want 3 want) ≡ ok s'' [])
recv_want-relays_once_example =
    recv_want-relays_once config node 2 3 want node-IsValid want-IsInterest (ground arith)
      (ground arith)

fire_want-asks_once_example :
    (s' : State) × (transition config node fire_want
      ≡ ok s' (if Interest.is_empty (next_want node) then [] else send_want (next_want node) ∷ []))
    × (s'.want_timer ≡ none)
    × (next_want s' ≡ [])
    × ((not (asks_log (my_interest node) log11 7) || some_asks_log (interests s'.seen) log11 7)
        ≡ true)
fire_want-asks_once_example =
    fire_want-asks_once config node log11 7 node-IsValid refl (omega arith)

tick_add_example :
    and_then (transition config waiting (tick 2)) (λ s'. transition config s' (tick 3))
    ≡ transition config waiting (tick 5)
tick_add_example = tick_add config waiting 2 3 (omega arith) (omega arith)
