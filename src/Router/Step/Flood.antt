-- ===== src/Router/Step/Flood.antt =====
-- Whole Have transitions: what a node holds, accepts and sends, and that its flood ends.
use dash_router.Base.{ℕ, ◌≡◌, ◌≢◌, true, false, not, ◌&&◌, ◌||◌, List, [], refl, arith, ◌∙◌, ◌==◌}
use dash_router.Base.Order.{nat_ord}
use dash_router.Log.{Log, Authors}
use dash_router.LogRanges
use dash_router.LogRanges.{LogRanges}
use dash_router.LogRanges.Shape.{difference-IsValid_log}
use dash_router.LogRanges.Sets.{contains-difference_log}
use dash_router.LogRanges.Empty.{is_empty_of_contains}
use dash_router.Router.{Config, State, recv_have, holds, Effect, ok, relayed_have_ranges, note_have}
use dash_router.Router.Folds.{
  IsValid, some_record, relayed_have_ranges-IsValid, contains-relayed_have_ranges,
}
use dash_router.Router.Step.{learn, flood, do_recv_have, transition}
use dash_router.Router.Step.Haves.{sent, accepted, note_have-IsValid, learn-Grown, flood-Flooded}

module _ ⦃t : Authors⦄ where
  -- What a node is and emitted after it took `ranges` in from the state `s`.
  pub record Received (s : State) (ranges : LogRanges) (s' : State) (fx : List Effect)
      : Type 0 where
    pub valid : IsValid s'
    pub id : s'.id ≡ s.id
    pub held :
        (l : Log) (q : ℕ)
        → LogRanges.contains s'.held l q
          ≡ (LogRanges.contains s.held l q || LogRanges.contains ranges l q)
    pub accepts :
        (l : Log) (q : ℕ)
        → accepted fx l q ≡ (LogRanges.contains ranges l q && not (LogRanges.contains s.held l q))
    pub sends :
        (l : Log) (q : ℕ)
        → sent fx l q ≡ (LogRanges.contains ranges l q && not (some_record s.relayed_haves l q))
    pub relayed :
        (l : Log) (q : ℕ)
        → some_record s'.relayed_haves l q
          ≡ (some_record s.relayed_haves l q || LogRanges.contains ranges l q)

  pub recv_have_state : Config → State → ℕ → LogRanges → State
  recv_have_state config s from ranges =
      note_have (flood config ranges (learn s ranges)).0 from ranges config.have_ttl

  pub recv_have_effects : Config → State → LogRanges → List Effect
  recv_have_effects config s ranges = (flood config ranges (learn s ranges)).1

  other_id : (a b : ℕ) → a ≢ b → (a == b) ≡ false
  other_id a b n = ground arith

  pub recv_have-ok :
      (config : Config) (s : State) (from : ℕ) (ranges : LogRanges)
      → from ≢ s.id
      → transition config s (recv_have from ranges)
        ≡ ok (recv_have_state config s from ranges) (recv_have_effects config s ranges)
  unfolding transition do_recv_have recv_have_state recv_have_effects
  recv_have-ok config s from ranges n = rw (other_id from s.id n) refl

  recv_have-Received :
      (config : Config) (s : State) (from : ℕ) (ranges : LogRanges)
      → IsValid s
      → LogRanges.IsValid ranges
      → Received s ranges (recv_have_state config s from ranges) (recv_have_effects config s ranges)
  unfolding recv_have_state recv_have_effects note_have
  recv_have-Received config s from ranges v w =
      let (g, accepts, silent) = learn-Grown config s ranges v w in
      let s1 : State = (learn s ranges).0 in
      let f = flood-Flooded config s1 ranges g.valid w (learn s ranges).1 in
      record {
        valid =
            note_have-IsValid (flood config ranges (learn s ranges)).0 from ranges config.have_ttl
              f.grown.valid w;
        id = f.grown.id ∙ g.id;
        held = λ l q. ground (arith, f.grown.held l q, g.held l q);
        accepts = λ l q. f.accepts l q ∙ accepts l q;
        sends = λ l q. ground (arith, f.sends l q, silent l q, g.relayed l q);
        relayed = λ l q. ground (arith, f.grown.relayed l q, g.relayed l q);
      }

  -- What was held and relayed already changes nothing but the record of the sender's Have.
  pub recv_have-known :
      (config : Config) (s : State) (from : ℕ) (ranges : LogRanges)
      → from ≢ s.id
      → IsValid s
      → LogRanges.IsValid ranges
      → ((l : Log) (q : ℕ)
          → LogRanges.contains ranges l q ≡ true
          → LogRanges.contains s.held l q ≡ true)
      → ((l : Log) (q : ℕ)
          → LogRanges.contains ranges l q ≡ true
          → some_record s.relayed_haves l q ≡ true)
      → transition config s (recv_have from ranges)
        ≡ ok (note_have s from ranges config.have_ttl) []
  unfolding transition do_recv_have learn flood
  recv_have-known config s from ranges n v w in_held in_relayed =
      let novel : LogRanges = LogRanges.difference ranges s.held in
      let fresh : LogRanges = LogRanges.difference ranges (relayed_have_ranges s) in
      let none_novel : LogRanges.is_empty novel ≡ true =
        is_empty_of_contains novel (difference-IsValid_log ranges s.held w v.held) (λ l q _.
          ground (arith, contains-difference_log ranges s.held w v.held l q, in_held l q)) in
      let none_fresh : LogRanges.is_empty fresh ≡ true =
        is_empty_of_contains fresh
          (difference-IsValid_log ranges (relayed_have_ranges s) w
            (relayed_have_ranges-IsValid s v))
          (λ l q _. ground (
            arith,
            contains-difference_log ranges (relayed_have_ranges s) w
                (relayed_have_ranges-IsValid s v) l q,
            contains-relayed_have_ranges s l q v,
            in_relayed l q,
          )) in
      rw (other_id from s.id n, none_novel, none_fresh) refl

  -- In a valid state, taking a valid Have in from another node always succeeds. The node then
  -- holds what it held and the Have's numbers, hands up to be stored exactly those it did not
  -- hold, and sends on exactly those it had not relayed; all of them then count as relayed. A
  -- repetition of the Have, or of a part of it, by another node right after makes it accept
  -- and send nothing, and only sets the record of that node's last Have.
  pub recv_have-floods_once :
      (config : Config) (s : State) (from : ℕ) (ranges : LogRanges) (from' : ℕ)
      (ranges' : LogRanges)
      → IsValid s
      → LogRanges.IsValid ranges
      → LogRanges.IsValid ranges'
      → from ≢ s.id
      → from' ≢ s.id
      → ((l : Log) (q : ℕ)
          → LogRanges.contains ranges' l q ≡ true
          → LogRanges.contains ranges l q ≡ true)
      → (s' : State) × (fx : List Effect) × (transition config s (recv_have from ranges) ≡ ok s' fx)
        × Received s ranges s' fx
        × (transition config s' (recv_have from' ranges')
            ≡ ok (note_have s' from' ranges' config.have_ttl) [])
  recv_have-floods_once config s from ranges from' ranges' v w w' n n' part =
      let r = recv_have-Received config s from ranges v w in
      (
        recv_have_state config s from ranges,
        recv_have_effects config s ranges,
        recv_have-ok config s from ranges n,
        r,
        recv_have-known config (recv_have_state config s from ranges) from' ranges'
            (λ e. n' (e ∙ r.id)) r.valid w' (λ l q e. ground (arith, r.held l q, part l q e))
            (λ l q e. ground (arith, r.relayed l q, part l q e)),
      )

  -- A snapshot of the stores replaces what is held.
  pub holds-ok :
      (config : Config) (s : State) (ranges : LogRanges)
      → transition config s (holds ranges) ≡ ok (record s { held = ranges }) []
  unfolding transition
  holds-ok config s ranges = refl
