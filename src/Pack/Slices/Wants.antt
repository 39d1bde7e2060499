-- ===== src/Pack/Slices/Wants.antt =====
-- pack.rs: `pack_want` does not panic on a valid interest and never under-asks: a cut may list less
-- than is held, so ask for more, but what the interest asked for is still asked for by some message.
use dash_router.Base.{
  ℕ, ◌≤◌, ◌≡◌, ◌≢◌, Bool, true, false, not, ◌&&◌, ◌||◌, some, List, [], ◌∷◌, ◌++◌, refl, arith, leb,
  ◌==◌, Bool-cases, inl, inr,
}
use dash_router.Base.Order.{nat_ord}
use dash_router.BtreeMap
use dash_router.BtreeMap.{BtreeMap, IsSorted, Above, AllValues}
use dash_router.BtreeMap.Laws.{Above-weaken, IsSorted_of_Above}
use dash_router.BtreeMap.Entries.{AllEntries}
use dash_router.Log.{Log, Authors}
use dash_router.Interest
use dash_router.Interest.{Interest, Entry, single, is_pure}
use dash_router.Interest.Asks.{IsValid, asks, asks_log, asks_log-cons}
use dash_router.Interest.Build.{single-asks_log, asks_log-insert}
use dash_router.Wire
use dash_router.Wire.{WireMessage, WireBody, message_want}
use dash_router.Pack.Slices.{
  bind, interest_len, Wanting, flush_want, slice_messages, slice_entry, pack_entry, want_loop,
  pack_want,
}
use dash_router.Pack.Slices.Shrink.{Returns, Returns-map, bind-Returns}
use dash_router.Pack.Slices.Cuts.{some_slice_asks, Slices, slice_entry-Returns}

module _ ⦃t : Authors⦄ where
  -- Some message is a Want that asks for the number of the log.
  abbrev pub message_asks : WireBody → Log → ℕ → Bool
  message_asks (Wire.want i) l q = asks_log i l q
  message_asks (Wire.have ops) l q = false

  abbrev pub some_message_asks : List WireMessage → Log → ℕ → Bool
  some_message_asks [] l q = false
  some_message_asks (m ∷ msgs) l q = message_asks m.body l q || some_message_asks msgs l q

  some_message_asks-append :
      (msgs more : List WireMessage) (l : Log) (q : ℕ)
      → some_message_asks (msgs ++ more) l q
        ≡ (some_message_asks msgs l q || some_message_asks more l q)
  some_message_asks-append [] more l q = refl
  some_message_asks-append (m ∷ msgs) more l q =
      ground (arith, some_message_asks-append msgs more l q)

  module _ (encoded_len : WireMessage → ℕ) (sender : ℕ) (budget : ℕ) where
    nothing_asked : (l : Log) (q : ℕ) → asks_log [] l q ≢ true
    unfolding BtreeMap.get
    nothing_asked l q = cc

    flush_want-asks :
        (msgs : List WireMessage) (cur : Interest) (l : Log) (q : ℕ)
        → some_message_asks (flush_want encoded_len sender budget msgs cur) l q
          ≡ (some_message_asks msgs l q || asks_log cur l q)
    unfolding flush_want message_want BtreeMap.get
    flush_want-asks msgs [] l q = ground arith
    flush_want-asks msgs (x ∷ cur) l q =
        ground (arith, some_message_asks-append msgs (message_want sender (x ∷ cur) ∷ []) l q)

    slice_messages-asks :
        (c : ℕ) (es : List Entry) (l : Log) (q : ℕ)
        → l.channel ≡ c
        → some_message_asks (slice_messages encoded_len sender budget c es) l q
          ≡ some_slice_asks es l.author q
    unfolding slice_messages message_want
    slice_messages-asks c [] l q h = refl
    slice_messages-asks c (e ∷ es) l q h =
        ground (arith, slice_messages-asks c es l q h, single-asks_log c e l q h)

    -- What is asked for so far, by the messages and by the interest that grows.
    abbrev asked : Wanting → Log → ℕ → Bool
    asked s l q = some_message_asks s.msgs l q || asks_log s.cur l q

    -- A pure entry has nothing to cut: alone it has to fit.
    abbrev pub PureFits : ℕ → Entry → Type 0
    PureFits c e = is_pure e ≡ true → interest_len encoded_len sender budget (single c e) ≤ budget

    -- After an entry is packed, all is asked for that the entry asks for under its channel, and under
    -- another that was asked for before.
    abbrev Packed : Wanting → ℕ → Entry → Log → ℕ → Wanting → Type 0
    Packed s c e l q s' =
        (l.channel ≢ c → asked s l q ≡ true → asked s' l q ≡ true)
        × (l.channel ≡ c → PureFits c e → asks e l.author q ≡ true → asked s' l q ≡ true)

    -- An entry that does not fit alone is cut.
    pack_sliced-Returns :
        (s : Wanting) (c : ℕ) (e : Entry) (l : Log) (q : ℕ)
        → IsValid e
        → leb (interest_len encoded_len sender budget (single c e)) budget ≡ false
        → Returns (Packed s c e l q) (
            bind (slice_entry encoded_len sender budget c e s.truncated) λ out. some (record {
              msgs =
                  flush_want encoded_len sender budget s.msgs s.cur
                  ++ slice_messages encoded_len sender budget c out.0;
              truncated = out.1;
              cur = [];
            }))
    pack_sliced-Returns s c e l q v over =
        bind-Returns (Slices encoded_len sender budget e l.author q) (Packed s c e l q)
          (slice_entry encoded_len sender budget c e s.truncated) _
          (slice_entry-Returns encoded_len sender budget c e s.truncated l.author q v)
          (λ out k.
            let flushed = flush_want-asks s.msgs s.cur l q in
            let appended =
              some_message_asks-append (flush_want encoded_len sender budget s.msgs s.cur)
                (slice_messages encoded_len sender budget c out.0) l q in
            (
              (λ n h. ground (arith, flushed, appended)),
              λ n p h. ground (arith, flushed, appended, slice_messages-asks c out.0 l q n, k),
            ))

    pack_entry-Returns :
        (s : Wanting) (c : ℕ) (e : Entry) (l : Log) (q : ℕ)
        → IsValid e
        → Returns (Packed s c e l q) (pack_entry encoded_len sender budget s (c, e))
    unfolding pack_entry
    pack_entry-Returns s c e l q v =
        elim (Bool-cases (leb (interest_len encoded_len sender budget (single c e)) budget)) [
          | inl fits ↦
              elim (Bool-cases
                (leb (interest_len encoded_len sender budget (Interest.insert s.cur c e)) budget)) [
                  | inl room ↦
                      let added = asks_log-insert s.cur c e l q in
                      rw (fits, room, pack_entry)
                        ((λ n h. ground (arith, added)), λ n p h. ground (arith, added))
                  | inr full ↦
                      let flushed = flush_want-asks s.msgs s.cur l q in
                      rw (fits, full, pack_entry)
                        (
                          (λ n h. ground (arith, flushed)),
                          λ n p h. ground (arith, single-asks_log c e l q n),
                        )
                ]
          | inr over ↦ rw (over, pack_entry) (pack_sliced-Returns s c e l q v over)
        ]

    want_loop-keeps :
        (s : Wanting) (i : Interest) (l : Log) (q : ℕ)
        → Above l.channel i
        → AllValues IsValid i
        → asked s l q ≡ true
        → Returns (λ s'. asked s' l q ≡ true) (want_loop encoded_len sender budget s i)
    unfolding want_loop
    want_loop-keeps s [] l q a v h = h
    want_loop-keeps s ((c, e) ∷ i) l q a v h =
        bind-Returns (Packed s c e l q) (λ s'. asked s' l q ≡ true)
          (pack_entry encoded_len sender budget s (c, e)) _ (pack_entry-Returns s c e l q v.0)
          (λ s' k.
            want_loop-keeps s' i l q (Above-weaken l.channel c i a.0 a.1) v.1
              (k.0 (ground arith) h))

    want_loop-asks :
        (s : Wanting) (i : Interest) (l : Log) (q : ℕ)
        → IsSorted i
        → AllValues IsValid i
        → AllEntries PureFits i
        → Returns
            (λ s'. (not (asks_log i l q) || asked s' l q) ≡ true)
            (want_loop encoded_len sender budget s i)
    unfolding want_loop
    want_loop-asks s [] l q o v p = ground (arith, nothing_asked l q)
    want_loop-asks s ((c, e) ∷ i) l q o v p =
        bind-Returns (Packed s c e l q)
          (λ s'. (not (asks_log ((c, e) ∷ i) l q) || asked s' l q) ≡ true)
          (pack_entry encoded_len sender budget s (c, e)) _ (pack_entry-Returns s c e l q v.0)
          (λ s' k. elim (Bool-cases (l.channel == c && asks e l.author q)) [
            | inl here ↦
                let same : l.channel ≡ c = ground arith in
                let above : Above l.channel i = rw same o in
                Returns-map (λ w. asked w l q ≡ true) _ (want_loop encoded_len sender budget s' i)
                  (λ w h. ground (arith, h))
                  (want_loop-keeps s' i l q above v.1 (k.1 same p.0 (ground arith)))
            | inr other ↦
                Returns-map (λ w. (not (asks_log i l q) || asked w l q) ≡ true) _
                  (want_loop encoded_len sender budget s' i)
                  (λ w h. ground (arith, h, not_here c e i l q o other))
                  (want_loop-asks s' i l q (IsSorted_of_Above c i o) v.1 p.1)
          ])
      where
        not_here :
            (c : ℕ) (e : Entry) (i : Interest) (l : Log) (q : ℕ)
            → IsSorted ((c, e) ∷ i)
            → (l.channel == c && asks e l.author q) ≡ false
            → asks_log ((c, e) ∷ i) l q ≡ true
            → asks_log i l q ≡ true
        not_here c e i l q o other h = ground (arith, asks_log-cons c e i l q o)

    want_loop-Returns :
        (s : Wanting) (i : Interest)
        → AllValues IsValid i
        → Returns (λ s'. Unit {0}) (want_loop encoded_len sender budget s i)
    unfolding want_loop
    want_loop-Returns s [] v = tt
    want_loop-Returns s ((c, e) ∷ i) v =
        let l : Log = record { channel = c; author = 0 } in
        bind-Returns (Packed s c e l 0) (λ s'. Unit {0})
          (pack_entry encoded_len sender budget s (c, e)) _ (pack_entry-Returns s c e l 0 v.0)
          (λ s' k. want_loop-Returns s' i v.1)

    -- Valid entries are packed without a panic.
    pub pack_want-Returns :
        (i : Interest)
        → AllValues IsValid i
        → Returns (λ out. Unit {0}) (pack_want encoded_len sender budget i)
    unfolding pack_want
    pack_want-Returns i v =
        let start : Wanting = record { msgs = []; truncated = 0; cur = Interest.empty } in
        bind-Returns (λ s. Unit {0}) (λ out. Unit {0}) (want_loop encoded_len sender budget start i)
          _ (want_loop-Returns start i v) (λ s k. tt)

    -- On a sorted interest of valid entries `pack_want` does not panic, and what the interest asks for,
    -- some Want that it returns asks for, if every entry that lists no author fits the budget alone.
    pub pack_want-asks :
        (i : Interest) (l : Log) (q : ℕ)
        → IsSorted i
        → AllValues IsValid i
        → AllEntries PureFits i
        → Returns
            (λ out. (not (asks_log i l q) || some_message_asks out.0 l q) ≡ true)
            (pack_want encoded_len sender budget i)
    unfolding pack_want
    pack_want-asks i l q o v p =
        let start : Wanting = record { msgs = []; truncated = 0; cur = Interest.empty } in
        bind-Returns (λ s. (not (asks_log i l q) || asked s l q) ≡ true) _
          (want_loop encoded_len sender budget start i) _ (want_loop-asks start i l q o v p)
          (λ s h. ground (arith, flush_want-asks s.msgs s.cur l q))
