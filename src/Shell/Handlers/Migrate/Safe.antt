-- ===== src/Shell/Handlers/Migrate/Safe.antt =====
-- shell.rs: the migration of `on_subscribe` takes nothing out of both stores.
use dash_router.Base.{
  ℕ, ◌≤◌, ◌≡◌, Bool, true, false, ◌&&◌, ◌||◌, Option, some, List, [], ◌∷◌, sym, ◌∙◌, arith, ◌==◌,
  elem, All, Bool-cases, Option-cases, inl, inr,
}
use dash_router.Base.Order.{same, nat_ord}
use dash_router.BtreeMap.{IsSorted, AllValues}
use dash_router.BtreeMap.Laws.{insert-IsSorted, AllValues-insert}
use dash_router.Log.{Log, Authors, log_ord}
use dash_router.Ranges.{seq_max}
use dash_router.Ranges.FromSeqs.{AreSeqs}
use dash_router.LogRanges
use dash_router.LogRanges.{LogRanges}
use dash_router.Storage.{Op}
use dash_router.Node.{from_seqs_each}
use dash_router.Node.Collected.{
  seqs_at, contains-collected, nothing_collected, pushed_to-AreSeqs, elem-seqs_at-insert,
}
use dash_router.Shell.{
  AsyncStorage, AsyncEvictableStorage, IntervalSource, CoreConfig, Out, Io, Core,
}
use dash_router.Wire.{WireMessage}
use dash_router.Shell.Glue.{
  relay_error, reconcile_held, reconcile_logs, relay_failed, with_ext, with_relay, tell_router,
}
use dash_router.Shell.Glue.Truthful.{Yields, on_answer-Yields, step_router-Yields}
use dash_router.Shell.Handlers.{reopen}
use dash_router.Shell.Glue.Landing.{Keeps}
use dash_router.Shell.Handlers.Migrate.{
  Migrating, migrate_op, migrate_loop, evict_landed, migrate, under_channel, subscribe,
}

-- What the node relies on of the relay's store: no operation but `evict` takes an op away, and that
-- takes none outside the ranges, whether it succeeds or not. The numbers fetched are `u32`s.
pub record KeepsRest {S : Type 0} (st : AsyncEvictableStorage S) : Type 1 where
  pub has_op : S → Log → ℕ → Bool
  pub held_all-keeps_op :
      (s : S) (k : Log) (p : ℕ) → has_op s k p ≡ true → has_op (st.storage.held_all s).1 k p ≡ true
  pub held_of-keeps_op :
      (s : S) (logs : List Log) (k : Log) (p : ℕ)
      → has_op s k p ≡ true
      → has_op (st.storage.held_of s logs).1 k p ≡ true
  pub fetch-keeps_op :
      (s : S) (r : LogRanges) (k : Log) (p : ℕ)
      → has_op s k p ≡ true
      → has_op (st.storage.fetch s r).1 k p ≡ true
  pub evict-keeps_op :
      (s : S) (r : LogRanges) (k : Log) (p : ℕ)
      → has_op s k p ≡ true
      → LogRanges.contains r k p ≡ false
      → has_op (st.evict s r).1 k p ≡ true
  pub fetch-seqs :
      (s : S) (r : LogRanges) (ops : List (Log × ℕ × Op))
      → (st.storage.fetch s r).0 ≡ some ops
      → All (λ x. x.1 ≤ seq_max) ops

module _ {E R : Type 0} (exts : AsyncStorage E) (relays : AsyncEvictableStorage R)
    (keeps : Keeps exts) (rest : KeepsRest relays) where
  -- What is collected landed, and what was in the application's store still is.
  record IsLanded (before : E) (s : Migrating exts relays) : Type 0 where
    sorted : IsSorted s.ingested
    seqs : AllValues AreSeqs s.ingested
    landed : (l : Log) (q : ℕ) → elem q (seqs_at s.ingested l) ≡ true → keeps.has s.ext l q ≡ true
    kept : (l : Log) (q : ℕ) → keeps.has before l q ≡ true → keeps.has s.ext l q ≡ true

  migrate_op-IsLanded :
      (before : E) (s : Migrating exts relays) (l : Log) (q : ℕ) (op : Op)
      → q ≤ seq_max
      → IsLanded before s
      → IsLanded before (migrate_op exts relays s l q op)
  unfolding migrate_op
  migrate_op-IsLanded before s l q op h v = elim (Bool-cases (exts.ingest s.ext l q op).0) [
    | inl taken ↦ rw taken (record {
      sorted = insert-IsSorted s.ingested l _ v.sorted;
      seqs =
          AllValues-insert AreSeqs s.ingested l _ (pushed_to-AreSeqs s.ingested l q h v.seqs)
            v.seqs;
      landed = λ k p m. go taken k p (sym (elem-seqs_at-insert s.ingested l k q p) ∙ m);
      kept = λ k p m. keeps.ingest-keeps s.ext l k q p op (v.kept k p m);
    })
    | inr refused ↦ rw refused (record {
      sorted = v.sorted;
      seqs = v.seqs;
      landed = λ k p m. keeps.ingest-keeps s.ext l k q p op (v.landed k p m);
      kept = λ k p m. keeps.ingest-keeps s.ext l k q p op (v.kept k p m);
    })
  ]
    where
      go :
          (exts.ingest s.ext l q op).0 ≡ true
          → (k : Log) (p : ℕ) → (elem p (seqs_at s.ingested k) || (same k l && (p == q))) ≡ true
          → keeps.has (exts.ingest s.ext l q op).1 k p ≡ true
      go taken k p m = elim (Bool-cases (elem p (seqs_at s.ingested k))) [
        | inl old ↦ keeps.ingest-keeps s.ext l k q p op (v.landed k p old)
        | inr new' ↦
            let here : k ≡ l = log_ord.eq_of_cmp k l (ground arith) in
            let number : p ≡ q = ground arith in
            rw (here, number) (keeps.ingest-has s.ext l q op taken)
      ]

  migrate_loop-IsLanded :
      (before : E) (s : Migrating exts relays) (ops : List (Log × ℕ × Op))
      → All (λ x. x.1 ≤ seq_max) ops
      → IsLanded before s
      → IsLanded before (migrate_loop exts relays s ops)
  unfolding migrate_loop
  migrate_loop-IsLanded before s [] h v = v
  migrate_loop-IsLanded before s ((l, q, op) ∷ ops) h v =
      migrate_loop-IsLanded before (migrate_op exts relays s l q op) ops h.1
        (migrate_op-IsLanded before s l q op h.0 v)

  -- One of the two stores has the op.
  abbrev pub has_either : Io E R → Log → ℕ → Bool
  has_either io l q = keeps.has io.ext l q || rest.has_op io.relay l q

  evict_landed_keeps :
      (io : Io E R) (landed : LogRanges) (l : Log) (q : ℕ)
      → (LogRanges.contains landed l q ≡ true → keeps.has io.ext l q ≡ true)
      → has_either io l q ≡ true
      → has_either (evict_landed exts relays io landed) l q ≡ true
  unfolding evict_landed relay_error
  evict_landed_keeps io landed l q h k = ground (arith, rest.evict-keeps_op io.relay landed l q)

  -- The migration leaves every op in one of the two stores, if one of them had it: whichever ingests
  -- fail, and whether the relay's fetch and its eviction fail or not.
  pub migrate_loses_nothing :
      (io : Io E R) (under : LogRanges) (outs : List Out) (l : Log) (q : ℕ)
      → q ≤ seq_max
      → has_either io l q ≡ true
      → has_either (migrate exts relays io under outs).0 l q ≡ true
  unfolding migrate relay_error
  migrate_loses_nothing io under outs l q h k = elim (Bool-cases (LogRanges.is_empty under)) [
    | inl nothing ↦ rw nothing k
    | inr something ↦ elim (Option-cases (relays.storage.fetch io.relay under).0) [
      | inl none' ↦ rw (something, none') (ground (arith, rest.fetch-keeps_op io.relay under l q))
      | inr (ops, some') ↦
          let start : Migrating exts relays = record { ext = io.ext; ingested = []; outs = outs } in
          let s : Migrating exts relays = migrate_loop exts relays start ops in
          let v : IsLanded io.ext s =
            migrate_loop-IsLanded io.ext start ops (rest.fetch-seqs io.relay under ops some')
              (record {
                sorted = tt;
                seqs = tt;
                landed = λ k p m. absurd (nothing_collected k p m);
                kept = λ k p m. m;
              }) in
          rw (something, some')
            (evict_landed_keeps
              (record io { ext = s.ext; relay = (relays.storage.fetch io.relay under).1 })
              (LogRanges.from_pairs (from_seqs_each s.ingested)) l q
              (λ m. v.landed l q (sym (contains-collected s.ingested l q v.sorted v.seqs h) ∙ m))
              (ground (arith, v.kept l q, rest.fetch-keeps_op io.relay under l q)))
    ]
  ]

  under_channel_keeps :
      (io : Io E R) (channel : ℕ) (l : Log) (q : ℕ)
      → has_either io l q ≡ true
      → has_either (under_channel exts relays io channel).0 l q ≡ true
  unfolding under_channel relay_error
  under_channel_keeps io channel l q h = ground (arith, rest.held_all-keeps_op io.relay l q)

  module _ {I : Type 0} ⦃t : Authors⦄ (intervals : IntervalSource I) (encoded_len : WireMessage → ℕ)
      (config : CoreConfig) (l : Log) (q : ℕ) where
    abbrev pub StillHas : Core E R I → List Out → Type 0
    StillHas c outs = has_either c.io l q ≡ true

    reconcile_held-StillHas :
        (c : Core E R I) (logs : List Log) (outs : List Out)
        → has_either c.io l q ≡ true
        → Yields StillHas (reconcile_held config exts relays c (some logs) outs)
    unfolding reconcile_held reconcile_logs relay_failed with_ext with_relay tell_router relay_error
    reconcile_held-StillHas c logs outs h =
        let in_ext : Option LogRanges × E = exts.held_of c.io.ext logs in
        let in_relay : Option LogRanges × R = relays.storage.held_of c.io.relay logs in
        on_answer-Yields StillHas in_ext.0 _ _
          (ground (arith, keeps.held_of-keeps c.io.ext logs l q))
          λ ext_held.
            on_answer-Yields StillHas in_relay.0 _ _
              (ground (
                arith,
                keeps.held_of-keeps c.io.ext logs l q,
                rest.held_of-keeps_op c.io.relay logs l q,
              ))
              λ relay_held. step_router-Yields config StillHas _ _ _ (λ s fx. ground (
                arith,
                keeps.held_of-keeps c.io.ext logs l q,
                rest.held_of-keeps_op c.io.relay logs l q,
              ))

    -- Subscribing leaves every op in one of the two stores, if one of them had it, whichever of the
    -- stores' operations fail.
    pub subscribe_loses_nothing :
        (channel : ℕ) (c : Core E R I) (outs : List Out)
        → q ≤ seq_max
        → has_either c.io l q ≡ true
        → Yields StillHas (subscribe exts relays intervals encoded_len config channel c outs)
    unfolding subscribe reopen
    subscribe_loses_nothing channel c outs h k =
        let x : Io E R × LogRanges = under_channel exts relays c.io channel in
        step_router-Yields config StillHas _ _ _ λ s fx.
          reconcile_held-StillHas _ _ _
            (migrate_loses_nothing x.0 x.1 outs l q h (under_channel_keeps c.io channel l q k))
