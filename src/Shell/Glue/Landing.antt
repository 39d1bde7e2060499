-- ===== src/Shell/Glue/Landing.antt =====
-- shell.rs: what `ingest_parked` gave to the application's store is there, and only that is reported.
use dash_router.Base.{
  ℕ, ◌≡◌, Bool, true, false, not, ◌&&◌, none, List, [], ◌∷◌, ◌++◌, arith, elem, Bool-cases,
  Option-cases, inl, inr,
}
use dash_router.Base.Order.{same, nat_ord}
use dash_router.Log.{Log, Authors, log_ord}
use dash_router.Ranges
use dash_router.Ranges.{Ranges}
use dash_router.LogRanges
use dash_router.LogRanges.{LogRanges}
use dash_router.Storage.{Op}
use dash_router.Wire.{WireMessage}
use dash_router.Router.{Effect, send_want, send_have, accept}
use dash_router.Node.{Parked, key_ord}
use dash_router.Pack.Slices.{pack_want}
use dash_router.Shell.{
  AsyncStorage, AsyncEvictableStorage, CoreConfig, wire_bytes_of, Out, broadcast, delivered,
  storage_error, parked_ingest, Io,
}
use dash_router.Shell.Glue.{
  is_failed, deliveries, deliver_all, broadcasts, Ingesting, ingest_ext, ingest_if_room,
  ingest_relay, ingest_op, ingest_loop, ingest_parked, relay_error, relay_fetch, ext_fetch, hydrate,
  route_one, route_fx,
}

-- What the node relies on of the application's store: an ingest that is answered with success has
-- put the op there, and no other operation of the node takes an op away.
pub record Keeps {S : Type 0} (st : AsyncStorage S) : Type 1 where
  pub has : S → Log → ℕ → Bool
  pub ingest-has :
      (s : S) (l : Log) (q : ℕ) (op : Op)
      → (st.ingest s l q op).0 ≡ true
      → has (st.ingest s l q op).1 l q ≡ true
  pub ingest-keeps :
      (s : S) (l k : Log) (q p : ℕ) (op : Op)
      → has s k p ≡ true
      → has (st.ingest s l q op).1 k p ≡ true
  pub held_of-keeps :
      (s : S) (logs : List Log) (k : Log) (p : ℕ)
      → has s k p ≡ true
      → has (st.held_of s logs).1 k p ≡ true
  pub held_all-keeps :
      (s : S) (k : Log) (p : ℕ) → has s k p ≡ true → has (st.held_all s).1 k p ≡ true
  pub fetch-keeps :
      (s : S) (r : LogRanges) (k : Log) (p : ℕ) → has s k p ≡ true → has (st.fetch s r).1 k p ≡ true

module _ {E R : Type 0} (exts : AsyncStorage E) (relays : AsyncEvictableStorage R)
    (keeps : Keeps exts) where
  -- The op landed, or its key is among the failed.
  abbrev Landed : Log → ℕ → Ingesting exts relays → Type 0
  Landed l q s = is_failed s.failed l q ≡ false → keeps.has s.io.ext l q ≡ true

  ingest_relay-ext :
      (cap : ℕ) (s : Ingesting exts relays) (l : Log) (q : ℕ) (op : Op)
      → let s' = ingest_relay exts relays cap s l q op in
        (s'.io.ext ≡ s.io.ext) × (s'.failed ≡ s.failed)
  unfolding ingest_relay ingest_if_room relay_error
  ingest_relay-ext cap s l q op = ground arith

  ingest_op-Landed :
      (subscriptions : List ℕ) (cap : ℕ) (s : Ingesting exts relays) (l k : Log) (q p : ℕ) (op : Op)
      → Landed k p s
      → Landed k p (ingest_op exts relays subscriptions cap s l q op)
  unfolding ingest_op ingest_ext
  ingest_op-Landed subscriptions cap s l k q p op h =
      ground (arith, ingest_relay-ext cap s l q op, keeps.ingest-keeps s.io.ext l k q p op)

  ingest_op-lands :
      (subscriptions : List ℕ) (cap : ℕ) (s : Ingesting exts relays) (l : Log) (q : ℕ) (op : Op)
      → elem l.channel subscriptions ≡ true
      → Landed l q (ingest_op exts relays subscriptions cap s l q op)
  unfolding ingest_op ingest_ext
  ingest_op-lands subscriptions cap s l q op h =
      ground (arith, keeps.ingest-has s.io.ext l q op, key_ord.cmp_flip (l, q) (l, q))

  -- Every op of a log subscribed to landed in the store, or its key is among the failed.
  abbrev pub AllLanded : List ℕ → List (Log × ℕ) → E → Parked → Type 0
  AllLanded subscriptions failed e [] = Unit {0}
  AllLanded subscriptions failed e (((l, q), op) ∷ parked) =
      (elem l.channel subscriptions ≡ true → is_failed failed l q ≡ false → keeps.has e l q ≡ true)
      × AllLanded subscriptions failed e parked

  ingest_loop-Landed :
      (subscriptions : List ℕ) (cap : ℕ) (s : Ingesting exts relays) (k : Log) (p : ℕ)
      (parked : Parked)
      → Landed k p s
      → Landed k p (ingest_loop exts relays subscriptions cap s parked)
  unfolding ingest_loop
  ingest_loop-Landed subscriptions cap s k p [] h = h
  ingest_loop-Landed subscriptions cap s k p (((l, q), op) ∷ parked) h =
      ingest_loop-Landed subscriptions cap (ingest_op exts relays subscriptions cap s l q op) k p
        parked (ingest_op-Landed subscriptions cap s l k q p op h)

  ingest_loop-AllLanded :
      (subscriptions : List ℕ) (cap : ℕ) (s : Ingesting exts relays) (parked : Parked)
      → let s' = ingest_loop exts relays subscriptions cap s parked in
        AllLanded subscriptions s'.failed s'.io.ext parked
  unfolding ingest_loop
  ingest_loop-AllLanded subscriptions cap s [] = tt
  ingest_loop-AllLanded subscriptions cap s (((l, q), op) ∷ parked) =
      let s1 : Ingesting exts relays = ingest_op exts relays subscriptions cap s l q op in
      (
        (λ h.
            ingest_loop-Landed subscriptions cap s1 l q parked
              (ingest_op-lands subscriptions cap s l q op h)),
        ingest_loop-AllLanded subscriptions cap s1 parked,
      )

  pub ingest_parked-AllLanded :
      (subscriptions : List ℕ) (cap : ℕ) (io : Io E R) (parked : Parked)
      → let s' = ingest_parked exts relays subscriptions cap io parked in
        AllLanded subscriptions s'.failed s'.io.ext parked
  unfolding ingest_parked
  ingest_parked-AllLanded subscriptions cap io parked =
      ingest_loop-AllLanded subscriptions cap
        (record { io = io; usage = none; failed = []; outs = [] }) parked

  -- The store has all that it had.
  abbrev pub Grows : E → E → Type 0
  Grows e e' = (k : Log) (p : ℕ) → keeps.has e k p ≡ true → keeps.has e' k p ≡ true

  pub AllLanded-Grows :
      (subscriptions : List ℕ) (failed : List (Log × ℕ)) (e e' : E) (parked : Parked)
      → Grows e e'
      → AllLanded subscriptions failed e parked
      → AllLanded subscriptions failed e' parked
  AllLanded-Grows subscriptions failed e e' [] g v = tt
  AllLanded-Grows subscriptions failed e e' (((l, q), op) ∷ parked) g v =
      ((λ h k. g l q (v.0 h k)), AllLanded-Grows subscriptions failed e e' parked g v.1)

  -- What is reported as delivered is in the store.
  abbrev pub Honest : E → List Out → Type 0
  Honest e [] = Unit {0}
  Honest e (delivered l q ∷ outs) = (keeps.has e l q ≡ true) × Honest e outs
  Honest e (broadcast m ∷ outs) = Honest e outs
  Honest e (storage_error x ∷ outs) = Honest e outs

  pub Honest-append :
      (e : E) (outs more : List Out) → Honest e outs → Honest e more → Honest e (outs ++ more)
  Honest-append e [] more v w = w
  Honest-append e (delivered l q ∷ outs) more v w = (v.0, Honest-append e outs more v.1 w)
  Honest-append e (broadcast m ∷ outs) more v w = Honest-append e outs more v w
  Honest-append e (storage_error x ∷ outs) more v w = Honest-append e outs more v w

  pub Honest-Grows : (e e' : E) (outs : List Out) → Grows e e' → Honest e outs → Honest e' outs
  Honest-Grows e e' [] g v = tt
  Honest-Grows e e' (delivered l q ∷ outs) g v = (g l q v.0, Honest-Grows e e' outs g v.1)
  Honest-Grows e e' (broadcast m ∷ outs) g v = Honest-Grows e e' outs g v
  Honest-Grows e e' (storage_error x ∷ outs) g v = Honest-Grows e e' outs g v

  broadcasts-Honest : (e : E) (msgs : List WireMessage) → Honest e (broadcasts msgs)
  unfolding broadcasts
  broadcasts-Honest e [] = tt
  broadcasts-Honest e (m ∷ msgs) = broadcasts-Honest e msgs

  ingest_op-Honest :
      (e : E) (subscriptions : List ℕ) (cap : ℕ) (s : Ingesting exts relays) (l : Log) (q : ℕ)
      (op : Op)
      → Honest e s.outs
      → Honest e (ingest_op exts relays subscriptions cap s l q op).outs
  unfolding ingest_op ingest_ext ingest_relay ingest_if_room
  ingest_op-Honest e subscriptions cap s l q op h =
      ground (arith, Honest-append e s.outs (storage_error parked_ingest ∷ []) h tt)

  ingest_loop-Honest :
      (e : E) (subscriptions : List ℕ) (cap : ℕ) (s : Ingesting exts relays) (parked : Parked)
      → Honest e s.outs
      → Honest e (ingest_loop exts relays subscriptions cap s parked).outs
  unfolding ingest_loop
  ingest_loop-Honest e subscriptions cap s [] h = h
  ingest_loop-Honest e subscriptions cap s (((l, q), op) ∷ parked) h =
      ingest_loop-Honest e subscriptions cap (ingest_op exts relays subscriptions cap s l q op)
        parked (ingest_op-Honest e subscriptions cap s l q op h)

  pub ingest_parked-Honest :
      (e : E) (subscriptions : List ℕ) (cap : ℕ) (io : Io E R) (parked : Parked)
      → Honest e (ingest_parked exts relays subscriptions cap io parked).outs
  unfolding ingest_parked
  ingest_parked-Honest e subscriptions cap io parked =
      ingest_loop-Honest e subscriptions cap
        (record { io = io; usage = none; failed = []; outs = [] }) parked tt

  ingest_op-Grows :
      (subscriptions : List ℕ) (cap : ℕ) (s : Ingesting exts relays) (l : Log) (q : ℕ) (op : Op)
      → Grows s.io.ext (ingest_op exts relays subscriptions cap s l q op).io.ext
  unfolding ingest_op ingest_ext
  ingest_op-Grows subscriptions cap s l q op k p h =
      ground (arith, ingest_relay-ext cap s l q op, keeps.ingest-keeps s.io.ext l k q p op h)

  ingest_loop-Grows :
      (subscriptions : List ℕ) (cap : ℕ) (s : Ingesting exts relays) (parked : Parked)
      → Grows s.io.ext (ingest_loop exts relays subscriptions cap s parked).io.ext
  unfolding ingest_loop
  ingest_loop-Grows subscriptions cap s [] k p h = h
  ingest_loop-Grows subscriptions cap s (((l, q), op) ∷ parked) k p h =
      ingest_loop-Grows subscriptions cap (ingest_op exts relays subscriptions cap s l q op) parked
        k p (ingest_op-Grows subscriptions cap s l q op k p h)

  pub ingest_parked-Grows :
      (subscriptions : List ℕ) (cap : ℕ) (io : Io E R) (parked : Parked)
      → Grows io.ext (ingest_parked exts relays subscriptions cap io parked).io.ext
  unfolding ingest_parked
  ingest_parked-Grows subscriptions cap io parked =
      ingest_loop-Grows subscriptions cap (record { io = io; usage = none; failed = []; outs = [] })
        parked

  deliveries-Honest :
      (subscriptions : List ℕ) (failed : List (Log × ℕ)) (e : E) (l : Log) (r : Ranges)
      (parked : Parked)
      → elem l.channel subscriptions ≡ true
      → AllLanded subscriptions failed e parked
      → Honest e (deliveries l r failed parked)
  unfolding deliveries
  deliveries-Honest subscriptions failed e l r [] h v = tt
  deliveries-Honest subscriptions failed e l r (((k, q), op) ∷ parked) h v =
      let rest = deliveries-Honest subscriptions failed e l r parked h v.1 in
      elim (Bool-cases (same k l && (Ranges.contains r q && not (is_failed failed k q)))) [
        | inl reported ↦
            let here : k ≡ l = log_ord.eq_of_cmp k l (ground arith) in
            rw (reported, deliveries) (rw here at (v.0 (rw here h) (ground arith)), rest)
        | inr silent ↦ rw (silent, deliveries) rest
      ]

  deliver_all-Honest :
      (subscriptions : List ℕ) (failed : List (Log × ℕ)) (e : E) (parked : Parked)
      (novel : List (Log × Ranges))
      → AllLanded subscriptions failed e parked
      → Honest e (deliver_all subscriptions failed parked novel)
  unfolding deliver_all
  deliver_all-Honest subscriptions failed e parked [] v = tt
  deliver_all-Honest subscriptions failed e parked ((l, r) ∷ novel) v =
      let rest = deliver_all-Honest subscriptions failed e parked novel v in
      elim (Bool-cases (elem l.channel subscriptions)) [
        | inl subscribed ↦
            rw (subscribed, deliver_all)
              (Honest-append e (deliveries l r failed parked)
                (deliver_all subscriptions failed parked novel)
                (deliveries-Honest subscriptions failed e l r parked subscribed v) rest)
        | inr other ↦ rw (other, deliver_all) rest
      ]

  ext_fetch-Honest :
      (e : E) (io : Io E R) (r : LogRanges)
      → Grows io.ext (ext_fetch exts relays io r).0.ext × Honest e (ext_fetch exts relays io r).2
  unfolding ext_fetch
  ext_fetch-Honest e io r = elim (Option-cases (exts.fetch io.ext r).0) [
    | inl none' ↦ rw (none', ext_fetch) (keeps.fetch-keeps io.ext r, tt)
    | inr (ops, some') ↦ rw (some', ext_fetch) (keeps.fetch-keeps io.ext r, tt)
  ]

  relay_fetch-ext : (io : Io E R) (r : LogRanges) → (relay_fetch exts relays io r).0.ext ≡ io.ext
  unfolding relay_fetch relay_error
  relay_fetch-ext io r = ground arith

  module _ (encoded_len : WireMessage → ℕ) (config : CoreConfig) (id : ℕ) where
    hydrate-Honest :
        (e : E) (io : Io E R) (r : LogRanges)
        → Grows io.ext (hydrate exts relays encoded_len config id io r).0.ext
          × Honest e (hydrate exts relays encoded_len config id io r).2
    unfolding hydrate
    hydrate-Honest e io r =
        rw (relay_fetch-ext io r) at (ext_fetch-Honest e (relay_fetch exts relays io r).0 r)

    module _ ⦃t : Authors⦄ where
      route_one-Honest :
          (subscriptions : List ℕ) (parked : Parked) (failed : List (Log × ℕ)) (io : Io E R)
          (x : Effect)
          → AllLanded subscriptions failed io.ext parked
          → let r = route_one exts relays encoded_len config id subscriptions parked failed io x in
            Grows io.ext r.0.ext × Honest r.0.ext r.1
      unfolding route_one
      route_one-Honest subscriptions parked failed io (accept novel) v = (
        (λ k p h. h),
        deliver_all-Honest subscriptions failed io.ext parked (LogRanges.iter novel) v,
      )
      route_one-Honest subscriptions parked failed io (send_want interest) v =
          elim (Option-cases
            (pack_want encoded_len id (wire_bytes_of config.max_wire_bytes) interest)) [
              | inl panic ↦ rw (panic, route_one) ((λ k p h. h), tt)
              | inr (out, packed) ↦
                  rw (packed, route_one) ((λ k p h. h), broadcasts-Honest io.ext _)
            ]
      route_one-Honest subscriptions parked failed io (send_have r) v =
          let e : E = (hydrate exts relays encoded_len config id io r).0.ext in
          let h = hydrate-Honest e io r in
          (
            h.0,
            Honest-append e (hydrate exts relays encoded_len config id io r).2 _ h.1
                (broadcasts-Honest e _),
          )

      pub route_fx-Honest :
          (subscriptions : List ℕ) (parked : Parked) (failed : List (Log × ℕ)) (io : Io E R)
          (fx : List Effect)
          → AllLanded subscriptions failed io.ext parked
          → let r = route_fx exts relays encoded_len config id subscriptions parked failed io fx in
            Grows io.ext r.0.ext × Honest r.0.ext r.1
      unfolding route_fx
      route_fx-Honest subscriptions parked failed io [] v = ((λ k p h. h), tt)
      route_fx-Honest subscriptions parked failed io (x ∷ fx) v =
          let io1 : Io E R =
            (route_one exts relays encoded_len config id subscriptions parked failed io x).0 in
          let outs : List Out =
            (route_one exts relays encoded_len config id subscriptions parked failed io x).1 in
          let one = route_one-Honest subscriptions parked failed io x v in
          let rest =
            route_fx-Honest subscriptions parked failed io1 fx
              (AllLanded-Grows subscriptions failed io.ext io1.ext parked one.0 v) in
          let e : E =
            (route_fx exts relays encoded_len config id subscriptions parked failed io1 fx).0.ext in
          (
            (λ k p h. rest.0 k p (one.0 k p h)),
            Honest-append e outs _ (Honest-Grows io1.ext e outs rest.0 one.1) rest.1,
          )
