-- ===== src/Shell/Glue/Cap.antt =====
-- shell.rs: `ingest_parked` keeps to the relay's cap, with a usage that it reads once and tracks.
use dash_router.Base.{
  ℕ, ◌+◌, ◌≤◌, ◌≡◌, Option, none, some, List, [], ◌∷◌, arith, ltb, elem, Bool-cases, Option-cases,
  inl, inr,
}
use dash_router.Log.{Log, log_ord}
use dash_router.Storage.{Op}
use dash_router.Node.{Parked}
use dash_router.Shell.{AsyncStorage, AsyncEvictableStorage, Io}
use dash_router.Shell.Glue.{
  Ingesting, ingest_ext, ingest_if_room, ingest_relay, ingest_op, ingest_loop, ingest_parked,
  relay_error,
}

-- What the node relies on of the relay's store: the usage that it answers is its size or more, so is
-- the delta that it answers for an op what an ingest of that op can add, or more; an ingest adds no
-- more than that even where it fails, and the two reads change neither.
pub record Meters {S : Type 0} (st : AsyncEvictableStorage S) : Type 1 where
  pub size : S → ℕ
  pub delta : S → Log → ℕ → Op → ℕ
  pub usage-size : (s : S) (n : ℕ) → (st.usage s).0 ≡ some n → size s ≤ n
  pub usage-keeps_size : (s : S) → size (st.usage s).1 ≡ size s
  pub usage-keeps_delta :
      (s : S) (l : Log) (q : ℕ) (op : Op) → delta (st.usage s).1 l q op ≡ delta s l q op
  pub ingest_delta-delta :
      (s : S) (l : Log) (q : ℕ) (op : Op) (n : ℕ)
      → (st.ingest_delta s l q op).0 ≡ some n
      → delta s l q op ≤ n
  pub ingest_delta-keeps_size :
      (s : S) (l : Log) (q : ℕ) (op : Op) → size (st.ingest_delta s l q op).1 ≡ size s
  pub ingest_delta-keeps_delta :
      (s : S) (l : Log) (q : ℕ) (op : Op)
      → delta (st.ingest_delta s l q op).1 l q op ≡ delta s l q op
  pub ingest-size :
      (s : S) (l : Log) (q : ℕ) (op : Op)
      → size (st.storage.ingest s l q op).1 ≤ size s + delta s l q op

module _ {E R : Type 0} (exts : AsyncStorage E) (relays : AsyncEvictableStorage R)
    (meters : Meters relays) (cap bound : ℕ) (room : cap ≤ bound) where
  -- The relay is within the bound, and no larger than the usage tracked.
  record IsMetered (s : Ingesting exts relays) : Type 0 where
    within : meters.size s.io.relay ≤ bound
    tracked : (u : ℕ) → s.usage ≡ some u → meters.size s.io.relay ≤ u

  ingest_if_room-IsMetered :
      (s : Ingesting exts relays) (l : Log) (q : ℕ) (op : Op) (units current : ℕ)
      → meters.size s.io.relay ≤ bound
      → meters.size s.io.relay ≤ current
      → meters.delta s.io.relay l q op ≤ units
      → IsMetered (ingest_if_room exts relays cap s l q op units current)
  unfolding ingest_if_room relay_error
  ingest_if_room-IsMetered s l q op units current w c d =
      elim (Bool-cases (ltb cap (current + units))) [
        | inl full ↦ rw full (record { within = w; tracked = λ u e. ground arith })
        | inr fits ↦ elim (Bool-cases (relays.storage.ingest s.io.relay l q op).0) [
          | inl done ↦
              rw (fits, done)
                (record {
                  within = ground (arith, meters.ingest-size s.io.relay l q op);
                  tracked = λ u e. ground (arith, meters.ingest-size s.io.relay l q op);
                })
          | inr failed ↦
              rw (fits, failed)
                (record {
                  within = ground (arith, meters.ingest-size s.io.relay l q op);
                  tracked = λ u e. absurd (cc e);
                })
        ]
      ]

  ingest_relay-IsMetered :
      (s : Ingesting exts relays) (l : Log) (q : ℕ) (op : Op)
      → IsMetered s
      → IsMetered (ingest_relay exts relays cap s l q op)
  unfolding ingest_relay relay_error
  ingest_relay-IsMetered s l q op v =
      let d : Option ℕ × R = relays.ingest_delta s.io.relay l q op in
      let same_size : meters.size d.1 ≡ meters.size s.io.relay =
        meters.ingest_delta-keeps_size s.io.relay l q op in
      elim (Option-cases d.0) [
        | inl none' ↦
            rw (none', ingest_relay)
              (record { within = rw same_size v.within; tracked = λ u e. absurd (cc e) })
        | inr (units, some') ↦
            let fine : meters.delta d.1 l q op ≤ units =
              rw (meters.ingest_delta-keeps_delta s.io.relay l q op)
                (meters.ingest_delta-delta s.io.relay l q op units some') in
            elim (Option-cases s.usage) [
              | inr (current, known) ↦
                  rw (some', known, ingest_relay)
                    (ingest_if_room-IsMetered _ l q op units current (rw same_size v.within)
                      (rw same_size (v.tracked current known)) fine)
              | inl unknown' ↦
                  let u : Option ℕ × R = relays.usage d.1 in
                  let size' : meters.size u.1 ≡ meters.size d.1 = meters.usage-keeps_size d.1 in
                  elim (Option-cases u.0) [
                    | inl none'' ↦
                        rw (some', unknown', none'', ingest_relay)
                          (record {
                            within = rw (size', same_size) v.within;
                            tracked = λ x e. rw (size', same_size) (v.tracked x e);
                          })
                    | inr (current, read) ↦
                        rw (some', unknown', read, ingest_relay)
                          (ingest_if_room-IsMetered _ l q op units current
                            (rw (size', same_size) v.within)
                            (rw size' (meters.usage-size d.1 current read))
                            (rw (meters.usage-keeps_delta d.1 l q op) fine))
                  ]
            ]
      ]

  ingest_op-IsMetered :
      (subscriptions : List ℕ) (s : Ingesting exts relays) (l : Log) (q : ℕ) (op : Op)
      → IsMetered s
      → IsMetered (ingest_op exts relays subscriptions cap s l q op)
  unfolding ingest_op ingest_ext
  ingest_op-IsMetered subscriptions s l q op v = elim (Bool-cases (elem l.channel subscriptions)) [
    | inr other ↦ rw other (ingest_relay-IsMetered s l q op v)
    | inl subscribed ↦ elim (Bool-cases (exts.ingest s.io.ext l q op).0) [
      | inl done ↦ rw (subscribed, done) (record { within = v.within; tracked = v.tracked })
      | inr failed ↦ rw (subscribed, failed) (record { within = v.within; tracked = v.tracked })
    ]
  ]

  ingest_loop-IsMetered :
      (subscriptions : List ℕ) (s : Ingesting exts relays) (parked : Parked)
      → IsMetered s
      → IsMetered (ingest_loop exts relays subscriptions cap s parked)
  unfolding ingest_loop
  ingest_loop-IsMetered subscriptions s [] v = v
  ingest_loop-IsMetered subscriptions s (((l, q), op) ∷ parked) v =
      ingest_loop-IsMetered subscriptions (ingest_op exts relays subscriptions cap s l q op) parked
        (ingest_op-IsMetered subscriptions s l q op v)

  -- With a relay's store whose usage, when it answers, is at least its size, whose delta, when it
  -- answers, is at least what the ingest adds to that size, and whose answers change neither, ingesting
  -- what is parked leaves the store within any bound that it was within before and that is at least the
  -- cap, whichever operations fail.
  pub ingest_parked-IsMetered :
      (subscriptions : List ℕ) (io : Io E R) (parked : Parked)
      → meters.size io.relay ≤ bound
      → meters.size (ingest_parked exts relays subscriptions cap io parked).io.relay ≤ bound
  unfolding ingest_parked
  ingest_parked-IsMetered subscriptions io parked h =
      let start : Ingesting exts relays = record {
        io = io;
        usage = none;
        failed = [];
        outs = [];
      } in
      (ingest_loop-IsMetered subscriptions start parked
        (record { within = h; tracked = λ u e. absurd (cc e) })).within
