-- ===== src/Pack/Haves.antt =====
-- What `pack_have` promises: no message over the budget, and every op in order in some message,
-- save what is counted.
use dash_router.Base.{
  ℕ, suc, ◌≢◌, ◌+◌, ◌≤◌, ◌≡◌, Bool, false, List, [], ◌∷◌, ◌++◌, refl, sym, ap, ◌∙◌, arith, leb, All,
  Bool-cases, inl, inr,
}
use mathlib.Core.List.{append_assoc, append-nil}
use dash_router.Log.{Log}
use dash_router.Storage.{Op}
use dash_router.Wire.{WireBody, WireMessage, want, have, message_have}
use dash_router.Node.{group_ops}
use dash_router.Node.Groups.{ungroup, ungroup-group_ops}
use dash_router.Pack.{
  Packing, without_payload, have_len, flush, pack_alone, pack_op, pack_loop, pack_have,
}

-- The ops that a message carries, and those of several, one after the other.
abbrev pub body_ops : WireBody → List (Log × ℕ × Op)
body_ops (want i) = []
body_ops (have groups) = ungroup groups

pub ops_of : List WireMessage → List (Log × ℕ × Op)
ops_of [] = []
ops_of (m ∷ msgs) = body_ops m.body ++ ops_of msgs

ops_of-append : (xs ys : List WireMessage) → ops_of (xs ++ ys) ≡ ops_of xs ++ ops_of ys
unfolding ops_of
ops_of-append [] ys = refl
ops_of-append (m ∷ xs) ys =
    ap (λ l. body_ops m.body ++ l) (ops_of-append xs ys)
    ∙ sym (append_assoc (body_ops m.body) (ops_of xs) (ops_of ys))

All-append {ℓ} :
    {A : Type ℓ} (P : A → Type 0) (xs ys : List A) → All P xs → All P ys → All P (xs ++ ys)
All-append P [] ys v w = w
All-append P (x ∷ xs) ys v w = (v.0, All-append P xs ys v.1 w)

module _ (encoded_len : WireMessage → ℕ) (sender : ℕ) (budget : ℕ) where
  abbrev fits_alone : Log × ℕ × Op → Bool
  fits_alone op = leb (have_len encoded_len sender budget (op ∷ [])) budget

  -- What is sent of the ops, in their order: each is kept; or, where it does not fit alone, goes
  -- without its payload; or, where that does not fit alone either, is left out and counted.
  pub data Packs : List (Log × ℕ × Op) → List (Log × ℕ × Op) → ℕ → Type 0 where
    nothing : Packs [] [] 0
    whole :
        {ops out : List (Log × ℕ × Op)} {n : ℕ} (op : Log × ℕ × Op)
        → Packs ops out n
        → Packs (op ∷ ops) (op ∷ out) n
    stripped :
        {ops out : List (Log × ℕ × Op)} {n : ℕ} (op : Log × ℕ × Op)
        → fits_alone op ≡ false
        → Packs ops out n
        → Packs (op ∷ ops) (without_payload op ∷ out) n
    left_out :
        {ops out : List (Log × ℕ × Op)} {n : ℕ} (op : Log × ℕ × Op)
        → fits_alone op ≡ false
        → fits_alone (without_payload op) ≡ false
        → Packs ops out n
        → Packs (op ∷ ops) out (suc n)

  abbrev pub Fits : WireMessage → Type 0
  Fits m = encoded_len m ≤ budget

  -- The messages so far fit, and so does the batch, if it has an op.
  record IsPacked (s : Packing) : Type 0 where
    msgs : All Fits s.msgs
    batch : s.batch ≢ [] → have_len encoded_len sender budget s.batch ≤ budget

  flush-Fits :
      (msgs : List WireMessage) (batch : List (Log × ℕ × Op))
      → All Fits msgs
      → (batch ≢ [] → have_len encoded_len sender budget batch ≤ budget)
      → All Fits (flush encoded_len sender budget msgs batch)
  unfolding flush have_len
  flush-Fits msgs [] v w = v
  flush-Fits msgs (op ∷ ops) v w = All-append Fits msgs (_ ∷ []) v (w (λ e. cc), tt)

  ops_of-flush :
      (msgs : List WireMessage) (batch : List (Log × ℕ × Op))
      → ops_of (flush encoded_len sender budget msgs batch) ≡ ops_of msgs ++ batch
  unfolding flush ops_of message_have
  ops_of-flush msgs [] = sym (append-nil (ops_of msgs))
  ops_of-flush msgs (op ∷ ops) =
      ops_of-append msgs (message_have sender (group_ops (op ∷ ops)) ∷ [])
      ∙ ap (λ l. ops_of msgs ++ l)
          (append-nil (ungroup (group_ops (op ∷ ops))) ∙ ungroup-group_ops (op ∷ ops))

  -- The ops of the messages and of the batch of a state.
  abbrev sent_so_far : Packing → List (Log × ℕ × Op)
  sent_so_far s = ops_of s.msgs ++ s.batch

  pack_op-IsPacked :
      (s : Packing) (item : Log × ℕ × Op)
      → IsPacked s
      → IsPacked (pack_op encoded_len sender budget s item)
  unfolding pack_op pack_alone
  pack_op-IsPacked s item v =
      elim (Bool-cases (leb (have_len encoded_len sender budget (s.batch ++ item ∷ [])) budget)) [
        | inl fits ↦ rw fits (record { msgs = v.msgs; batch = λ e. ground (arith, fits) })
        | inr over ↦ rw over (
            alone (flush encoded_len sender budget s.msgs s.batch) s.dropped item
              (flush-Fits s.msgs s.batch v.msgs v.batch))
      ]
    where
      alone :
          (msgs : List WireMessage) (n : ℕ) (op : Log × ℕ × Op)
          → All Fits msgs
          → IsPacked (pack_alone encoded_len sender budget msgs n op)
      alone msgs n op w = elim (Bool-cases (fits_alone op)) [
        | inl fits ↦ rw fits (record { msgs = w; batch = λ e. ground (arith, fits) })
        | inr over ↦ elim (Bool-cases (fits_alone (without_payload op))) [
          | inl fits ↦ rw (over, fits) (record { msgs = w; batch = λ e. ground (arith, fits) })
          | inr over' ↦ rw (over, over') (record { msgs = w; batch = λ e. absurd (e refl) })
        ]
      ]

  pack_loop-IsPacked :
      (s : Packing) (ops : List (Log × ℕ × Op))
      → IsPacked s
      → IsPacked (pack_loop encoded_len sender budget s ops)
  unfolding pack_loop
  pack_loop-IsPacked s [] v = v
  pack_loop-IsPacked s (item ∷ ops) v =
      pack_loop-IsPacked (pack_op encoded_len sender budget s item) ops (pack_op-IsPacked s item v)

  -- What the loop adds to a state.
  record Adds (s s' : Packing) (ops : List (Log × ℕ × Op)) : Type 0 where
    out : List (Log × ℕ × Op)
    left : ℕ
    packs : Packs ops out left
    sent : sent_so_far s' ≡ sent_so_far s ++ out
    dropped : s'.dropped ≡ s.dropped + left

  pack_loop-Adds :
      (s : Packing) (ops : List (Log × ℕ × Op))
      → Adds s (pack_loop encoded_len sender budget s ops) ops
  unfolding pack_loop pack_op pack_alone
  pack_loop-Adds s [] = record {
    out = [];
    left = 0;
    packs = nothing;
    sent = sym (append-nil (sent_so_far s));
    dropped = omega arith;
  }
  pack_loop-Adds s (item ∷ ops) =
      elim (Bool-cases (leb (have_len encoded_len sender budget (s.batch ++ item ∷ [])) budget)) [
        | inl fits ↦
            let r = pack_loop-Adds (record s { batch = s.batch ++ item ∷ [] }) ops in
            rw fits (record {
              out = item ∷ r.out;
              left = r.left;
              packs = whole item r.packs;
              sent = r.sent ∙ simp append_assoc;
              dropped = r.dropped;
            })
        | inr over ↦
            let msgs : List WireMessage = flush encoded_len sender budget s.msgs s.batch in
            elim (Bool-cases (fits_alone item)) [
              | inl fits ↦
                  let r =
                    pack_loop-Adds (record { msgs = msgs; dropped = s.dropped; batch = item ∷ [] })
                      ops in
                  rw (over, fits)
                    (record {
                      out = item ∷ r.out;
                      left = r.left;
                      packs = whole item r.packs;
                      sent = r.sent ∙ simp (ops_of-flush, append_assoc);
                      dropped = r.dropped;
                    })
              | inr big ↦ elim (Bool-cases (fits_alone (without_payload item))) [
                | inl fits ↦
                    let r =
                      pack_loop-Adds
                        (record {
                          msgs = msgs;
                          dropped = s.dropped;
                          batch = without_payload item ∷ [];
                        })
                        ops in
                    rw (over, big, fits)
                      (record {
                        out = without_payload item ∷ r.out;
                        left = r.left;
                        packs = stripped item big r.packs;
                        sent = r.sent ∙ simp (ops_of-flush, append_assoc);
                        dropped = r.dropped;
                      })
                | inr huge ↦
                    let r =
                      pack_loop-Adds (record { msgs = msgs; dropped = s.dropped + 1; batch = [] })
                        ops in
                    rw (over, big, huge)
                      (record {
                        out = r.out;
                        left = suc r.left;
                        packs = left_out item big huge r.packs;
                        sent = r.sent ∙ simp (ops_of-flush, append_assoc);
                        dropped = r.dropped ∙ omega arith;
                      })
              ]
            ]
      ]

  -- Every message of `pack_have` encodes to at most the budget, whatever the encoder is. Together
  -- they carry the given ops in their order, save that an op that does not fit alone may go without
  -- its payload, and one that does not fit alone even so is left out: the count is of those.
  pub pack_have_lem :
      (ops : List (Log × ℕ × Op))
      → All Fits (pack_have encoded_len sender budget ops).0
        × Packs ops
            (ops_of (pack_have encoded_len sender budget ops).0)
            (pack_have encoded_len sender budget ops).1
  unfolding pack_have ops_of
  pack_have_lem ops =
      let start : Packing = record { msgs = []; dropped = 0; batch = [] } in
      let s : Packing = pack_loop encoded_len sender budget start ops in
      let v = pack_loop-IsPacked start ops (record { msgs = tt; batch = λ e. absurd (e refl) }) in
      let r = pack_loop-Adds start ops in
      let plus : 0 + r.left ≡ r.left = omega arith in
      (
        flush-Fits s.msgs s.batch v.msgs v.batch,
        rw (ops_of-flush s.msgs s.batch, r.sent, r.dropped, plus) r.packs,
      )
