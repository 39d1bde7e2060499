-- ===== src/Shell/Glue/Still.antt =====
-- shell.rs: the glue panics on no Want whose entries are valid, and nothing else of it panics.
use dash_router.Base.{
  ℕ, ◌≡◌, Bool, Option, none, some, List, [], ◌∷◌, refl, ◌∙◌, Bool-cases, Option-cases, inl, inr,
  elem, ltb, ◌+◌,
}
use dash_router.Base.Order.{nat_ord}
use dash_router.BtreeMap.{AllValues}
use dash_router.Log.{Log, Authors}
use dash_router.LogRanges.{LogRanges}
use dash_router.Storage.{Op}
use dash_router.Interest.{Interest}
use dash_router.Interest.Asks.{IsValid}
use dash_router.Wire.{WireMessage}
use dash_router.Router
use dash_router.Router.{State, Action, Effect, Result, send_want, send_have, accept}
use dash_router.Router.Step.{transition}
use dash_router.Router.Step.Sends.{AllWants, Sends}
use dash_router.Node.{Parked}
use dash_router.Pack.Slices.{pack_want}
use dash_router.Pack.Slices.Wants.{pack_want-Returns}
use dash_router.Shell.{
  AsyncStorage, AsyncEvictableStorage, CoreConfig, wire_bytes_of, Out, Io, Core, Outcome,
  router_refused,
}
use dash_router.Shell.Glue.{
  Ingesting, ingest_ext, ingest_if_room, ingest_relay, ingest_op, ingest_loop, ingest_parked,
  relay_error, relay_fetch, ext_fetch, hydrate, route_one, route_fx, on_answer, step_router,
  reconcile_held, reconcile_logs, reconcile_all, tell_router, relay_failed, with_ext, with_relay,
}
use dash_router.Shell.Glue.Succeeds.{Succeeds}
use dash_router.Shell.Glue.Truthful.{Yields, on_answer-Yields, step_router-Yields}

-- The entries of the Want are valid.
abbrev pub ValidEntries : ⦃t : Authors⦄ → Interest → Type 0
ValidEntries i = AllValues IsValid i

module _ {E R : Type 0} (exts : AsyncStorage E) (relays : AsyncEvictableStorage R) where
  ingest_ext-panicked :
      (s : Ingesting exts relays) (l : Log) (q : ℕ) (op : Op)
      → (ingest_ext exts relays s l q op).io.panicked ≡ s.io.panicked
  unfolding ingest_ext
  ingest_ext-panicked s l q op = elim (Bool-cases (exts.ingest s.io.ext l q op).0) [
    | inl ok ↦ rw ok refl
    | inr err ↦ rw err refl
  ]

  ingest_if_room-panicked :
      (cap : ℕ) (s : Ingesting exts relays) (l : Log) (q : ℕ) (op : Op) (units current : ℕ)
      → (ingest_if_room exts relays cap s l q op units current).io.panicked ≡ s.io.panicked
  unfolding ingest_if_room relay_error
  ingest_if_room-panicked cap s l q op units current =
      elim (Bool-cases (ltb cap (current + units))) [
        | inl full ↦ rw full refl
        | inr room ↦ elim (Bool-cases (relays.storage.ingest s.io.relay l q op).0) [
          | inl ok ↦ rw (room, ok) refl
          | inr err ↦ rw (room, err) refl
        ]
      ]

  ingest_relay-panicked :
      (cap : ℕ) (s : Ingesting exts relays) (l : Log) (q : ℕ) (op : Op)
      → (ingest_relay exts relays cap s l q op).io.panicked ≡ s.io.panicked
  unfolding ingest_relay relay_error
  ingest_relay-panicked cap s l q op =
      let d : Option ℕ × R = relays.ingest_delta s.io.relay l q op in
      elim (Option-cases d.0) [
        | inl none' ↦ rw (none', ingest_relay) refl
        | inr (units, some') ↦ elim (Option-cases s.usage) [
          | inr (current, known) ↦
              rw (some', known, ingest_relay) (ingest_if_room-panicked cap _ l q op units current)
          | inl unknown' ↦ elim (Option-cases (relays.usage d.1).0) [
            | inl none'' ↦ rw (some', unknown', none'', ingest_relay) refl
            | inr (current, used) ↦
                rw (some', unknown', used, ingest_relay)
                  (ingest_if_room-panicked cap _ l q op units current)
          ]
        ]
      ]

  ingest_op-panicked :
      (subscriptions : List ℕ) (cap : ℕ) (s : Ingesting exts relays) (l : Log) (q : ℕ) (op : Op)
      → (ingest_op exts relays subscriptions cap s l q op).io.panicked ≡ s.io.panicked
  unfolding ingest_op
  ingest_op-panicked subscriptions cap s l q op = elim (Bool-cases (elem l.channel subscriptions)) [
    | inl own ↦ rw own (ingest_ext-panicked s l q op)
    | inr parked ↦ rw parked (ingest_relay-panicked cap s l q op)
  ]

  ingest_loop-panicked :
      (subscriptions : List ℕ) (cap : ℕ) (s : Ingesting exts relays) (parked : Parked)
      → (ingest_loop exts relays subscriptions cap s parked).io.panicked ≡ s.io.panicked
  unfolding ingest_loop
  ingest_loop-panicked subscriptions cap s [] = refl
  ingest_loop-panicked subscriptions cap s (((l, q), op) ∷ parked) =
      ingest_loop-panicked subscriptions cap (ingest_op exts relays subscriptions cap s l q op)
        parked
      ∙ ingest_op-panicked subscriptions cap s l q op

  pub ingest_parked-panicked :
      (subscriptions : List ℕ) (cap : ℕ) (io : Io E R) (parked : Parked)
      → (ingest_parked exts relays subscriptions cap io parked).io.panicked ≡ io.panicked
  unfolding ingest_parked
  ingest_parked-panicked subscriptions cap io parked =
      ingest_loop-panicked subscriptions cap
        (record { io = io; usage = none; failed = []; outs = [] }) parked

  relay_fetch-panicked :
      (io : Io E R) (r : LogRanges) → (relay_fetch exts relays io r).0.panicked ≡ io.panicked
  unfolding relay_fetch relay_error
  relay_fetch-panicked io r = elim (Option-cases (relays.storage.fetch io.relay r).0) [
    | inl none' ↦ rw (none', relay_fetch) refl
    | inr (ops, some') ↦ rw (some', relay_fetch) refl
  ]

  ext_fetch-panicked :
      (io : Io E R) (r : LogRanges) → (ext_fetch exts relays io r).0.panicked ≡ io.panicked
  unfolding ext_fetch
  ext_fetch-panicked io r = elim (Option-cases (exts.fetch io.ext r).0) [
    | inl none' ↦ rw (none', ext_fetch) refl
    | inr (ops, some') ↦ rw (some', ext_fetch) refl
  ]

  module _ (encoded_len : WireMessage → ℕ) (config : CoreConfig) (id : ℕ) where
    hydrate-panicked :
        (io : Io E R) (r : LogRanges)
        → (hydrate exts relays encoded_len config id io r).0.panicked ≡ io.panicked
    unfolding hydrate
    hydrate-panicked io r =
        ext_fetch-panicked (relay_fetch exts relays io r).0 r ∙ relay_fetch-panicked io r

    module _ ⦃t : Authors⦄ where
      send_want-panicked :
          (subscriptions : List ℕ) (parked : Parked) (failed : List (Log × ℕ)) (io : Io E R)
          (i : Interest)
          → ValidEntries i
          → (route_one exts relays encoded_len config id subscriptions parked failed io
              (send_want i)).0.panicked
            ≡ io.panicked
      unfolding route_one
      send_want-panicked subscriptions parked failed io i v =
          let budget : ℕ = wire_bytes_of config.max_wire_bytes in
          elim (Option-cases (pack_want encoded_len id budget i)) [
            | inl panic ↦ absurd (cc (rw panic at (pack_want-Returns encoded_len id budget i v)))
            | inr (out, packed) ↦ rw (packed, route_one) refl
          ]

      pub route_fx-panicked :
          (subscriptions : List ℕ) (parked : Parked) (failed : List (Log × ℕ)) (io : Io E R)
          (fx : List Effect)
          → AllWants ValidEntries fx
          → (route_fx exts relays encoded_len config id subscriptions parked failed io
              fx).0.panicked
            ≡ io.panicked
      unfolding route_fx route_one
      route_fx-panicked subscriptions parked failed io [] v = refl
      route_fx-panicked subscriptions parked failed io (accept r ∷ fx) v =
          route_fx-panicked subscriptions parked failed io fx v
      route_fx-panicked subscriptions parked failed io (send_have r ∷ fx) v =
          route_fx-panicked subscriptions parked failed
            (hydrate exts relays encoded_len config id io r).0 fx v
          ∙ hydrate-panicked io r
      route_fx-panicked subscriptions parked failed io (send_want i ∷ fx) v =
          route_fx-panicked subscriptions parked failed
            (route_one exts relays encoded_len config id subscriptions parked failed io
              (send_want i)).0
            fx v.1
          ∙ send_want-panicked subscriptions parked failed io i v.0

module _ {E R I : Type 0} where
  -- The program has panicked just where it is said.
  abbrev pub Still : Bool → Core E R I → List Out → Type 0
  Still b c outs = c.io.panicked ≡ b

  -- With an answer, what is known of it is known of what comes after.
  pub on_answer-each :
      {A : Type 0} (P : Core E R I → List Out → Type 0) (o : Option A) (failed : Outcome E R I)
      (next : A → Outcome E R I)
      → Yields P failed
      → ((a : A) → o ≡ some a → Yields P (next a))
      → Yields P (on_answer o failed next)
  unfolding on_answer
  on_answer-each P none failed next h k = h
  on_answer-each P (some a) failed next h k = k a refl

  -- An outcome without an error has what it would have if it had none.
  pub Succeeds-Yields :
      (P : Core E R I → Type 0) (Q : Core E R I → List Out → Type 0) (R' : Core E R I → Type 0)
      (o : Outcome E R I)
      → ((c : Core E R I) (outs : List Out) → Q c outs → R' c)
      → Succeeds P o
      → Yields Q o
      → Succeeds R' o
  Succeeds-Yields P Q R' (Outcome.ok c outs) k h y = k c outs y
  Succeeds-Yields P Q R' (Outcome.err f c) k h y = h

  module _ ⦃t : Authors⦄ (config : CoreConfig) where
    -- A step of the router, where what it sends has a property.
    pub step_router-Sends :
        (P : Interest → Type 0) (Q : Core E R I → List Out → Type 0) (c : Core E R I) (a : Action)
        (next : Core E R I → List Effect → Outcome E R I)
        → Sends P (transition config.router c.router a)
        → ((s : State) (fx : List Effect)
            → AllWants P fx
            → Yields Q (next (record c { router = s }) fx))
        → Yields Q (step_router config c a next)
    unfolding step_router
    step_router-Sends P Q c a next v k = go (transition config.router c.router a) v
      where
        go :
            (r : Result)
            → Sends P r
            → Yields Q (elim r [
              | Router.ok s fx ↦ next (record c { router = s }) fx
              | Router.err e ↦ Outcome.err (router_refused e) c
            ])
        go (Router.ok s fx) w = k s fx w
        go (Router.err e) w = tt

    module _ (exts : AsyncStorage E) (relays : AsyncEvictableStorage R) where
      pub reconcile_held-Still :
          (b : Bool) (c : Core E R I) (touched : Option (List Log)) (outs : List Out)
          → Still b c outs
          → Yields (Still b) (reconcile_held config exts relays c touched outs)
      unfolding reconcile_held reconcile_logs reconcile_all relay_failed with_ext with_relay
          tell_router relay_error
      reconcile_held-Still b c (some logs) outs h =
          on_answer-Yields (Still b) (exts.held_of c.io.ext logs).0 _ _ h λ ext_held.
            on_answer-Yields (Still b) (relays.storage.held_of c.io.relay logs).0 _ _ h
              λ relay_held. step_router-Yields config (Still b) _ _ _ (λ s fx. h)
      reconcile_held-Still b c none outs h =
          on_answer-Yields (Still b) (exts.held_all c.io.ext).0 _ _ h λ ext_all.
            on_answer-Yields (Still b) (relays.storage.held_all c.io.relay).0 _ _ h
              λ relay_all. step_router-Yields config (Still b) _ _ _ (λ s fx. h)
