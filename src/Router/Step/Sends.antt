-- ===== src/Router/Step/Sends.antt =====
-- router.rs: the Wants that the router sends when it takes a message in.
use dash_router.Base.{ℕ, List, [], ◌∷◌, ◌++◌, ◌==◌, Bool-cases, inl, inr}
use dash_router.Log.{Authors}
use dash_router.LogRanges
use dash_router.LogRanges.{LogRanges}
use dash_router.Interest
use dash_router.Interest.{Interest}
use dash_router.Router
use dash_router.Router.{
  Config, State, Effect, Result, send_want, send_have, accept, recv_want, recv_have, interests,
  relayed_have_ranges,
}
use dash_router.Router.Step.{transition, do_recv_want, do_recv_have, learn, flood}

-- Every Want that is sent has the property.
abbrev pub AllWants : (Interest → Type 0) → List Effect → Type 0
AllWants P [] = Unit {0}
AllWants P (send_want i ∷ fx) = P i × AllWants P fx
AllWants P (send_have r ∷ fx) = AllWants P fx
AllWants P (accept r ∷ fx) = AllWants P fx

abbrev pub Sends : (Interest → Type 0) → Result → Type 0
Sends P (Router.ok s fx) = AllWants P fx
Sends P (Router.err e) = Unit {0}

module _ ⦃t : Authors⦄ (config : Config) (s : State) (P : Interest → Type 0) where
  -- What is relayed is the Want that came in.
  pub recv_want-Sends :
      (from : ℕ) (i : Interest) → P i → Sends P (transition config s (recv_want from i))
  unfolding transition do_recv_want
  recv_want-Sends from i p = elim (Bool-cases (from == s.id)) [
    | inl own ↦ rw (own, do_recv_want) tt
    | inr other ↦ elim (Bool-cases (Interest.any_uncovered_by i (interests s.seen))) [
      | inl news ↦ rw (other, news, do_recv_want) (p, tt)
      | inr known ↦ rw (other, known, do_recv_want) tt
    ]
  ]

  learns : (r : LogRanges) → AllWants P (learn s r).1
  unfolding learn
  learns r = elim (Bool-cases (LogRanges.is_empty (LogRanges.difference r s.held))) [
    | inl nothing ↦ rw (nothing, learn) tt
    | inr novel ↦ rw (novel, learn) tt
  ]

  AllWants-append :
      (fx : List Effect) (r : LogRanges) → AllWants P fx → AllWants P (fx ++ send_have r ∷ [])
  AllWants-append [] r v = tt
  AllWants-append (send_want i ∷ fx) r v = (v.0, AllWants-append fx r v.1)
  AllWants-append (send_have r' ∷ fx) r v = AllWants-append fx r v
  AllWants-append (accept r' ∷ fx) r v = AllWants-append fx r v

  floods :
      (r : LogRanges) (x : State × List Effect) → AllWants P x.1 → AllWants P (flood config r x).1
  unfolding flood
  floods r (s', fx) v =
      elim (Bool-cases (LogRanges.is_empty (LogRanges.difference r (relayed_have_ranges s')))) [
        | inl nothing ↦ rw (nothing, flood) v
        | inr relay ↦ rw (relay, flood) (AllWants-append fx _ v)
      ]

  -- A Have has no Want sent.
  pub recv_have-Sends :
      (from : ℕ) (r : LogRanges) → Sends P (transition config s (recv_have from r))
  unfolding transition do_recv_have
  recv_have-Sends from r = elim (Bool-cases (from == s.id)) [
    | inl own ↦ rw (own, do_recv_have) tt
    | inr other ↦ rw (other, do_recv_have) (floods r (learn s r) (learns r))
  ]
