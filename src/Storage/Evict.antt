-- ===== src/Storage/Evict.antt =====
-- What a store holds after an eviction.
use dash_router.Base.{
  ℕ, ◌≡◌, Bool, not, ◌&&◌, Option, none, some, List, [], ◌∷◌, refl, arith, ap, ◌∙◌, Option-cases,
  inl, inr, if◌then◌else◌,
}
use dash_router.Base.Order.{nat_ord, same}
use dash_router.BtreeMap
use dash_router.BtreeMap.{BtreeMap, IsSorted, Above, AllValues}
use dash_router.BtreeMap.Laws.{
  get-insert, get-remove, get-retain, get-map_values, get-Above, Above-weaken, IsSorted_of_Above,
  insert-IsSorted, remove-IsSorted, retain-IsSorted, map_values-IsSorted, AllValues-insert,
  AllValues-remove, AllValues-get,
}
use dash_router.Log.{Log, log_ord}
use dash_router.Ranges
use dash_router.Ranges.{Ranges}
use dash_router.LogRanges
use dash_router.LogRanges.{LogRanges}
use dash_router.LogRanges.Lookup.{get-iter, iter-IsSorted}
use dash_router.LogRanges.Sets.{has, contains-has}
use dash_router.Storage.{
  Op, Ops, OpsMap, or_default, get, drop_payload, evict_payloads_loop, evict_payloads, put_back,
  evict_loop, evict,
}

-- The logs and the numbers of each are in order.
pub record IsOrdered (m : OpsMap) : Type 0 where
  pub sorted : IsSorted m
  pub logs : AllValues IsSorted m

put_back-IsOrdered :
    (m : OpsMap) (l : Log) (ops : Ops) → IsOrdered m → IsSorted ops → IsOrdered (put_back m l ops)
unfolding put_back
put_back-IsOrdered m l [] o s = record {
  sorted = remove-IsSorted m l o.sorted;
  logs = AllValues-remove IsSorted m l o.logs;
}
put_back-IsOrdered m l (x ∷ ops) o s = record {
  sorted = insert-IsSorted m l (x ∷ ops) o.sorted;
  logs = AllValues-insert IsSorted m l (x ∷ ops) s o.logs;
}

or_default-put_back :
    (m : OpsMap) (l k : Log) (ops : Ops)
    → IsOrdered m
    → or_default (BtreeMap.get (put_back m l ops) k)
      ≡ (if same k l then ops else or_default (BtreeMap.get m k))
unfolding put_back
or_default-put_back m l k [] o = ground (arith, get-remove m l k o.sorted)
or_default-put_back m l k (x ∷ ops) o = ground (arith, get-insert m l k (x ∷ ops))

get-nil : (q : ℕ) → BtreeMap.get {V = Op} [] q ≡ none
get-nil q = get-Above [] q tt

evict_one : OpsMap → Log → Ranges → OpsMap
evict_one m l r = elim (BtreeMap.get m l) [
  | none ↦ m
  | some ops ↦ put_back m l (BtreeMap.retain (λ s _. not (Ranges.contains r s)) ops)
]

evict_one-IsOrdered :
    (m : OpsMap) (l : Log) (r : Ranges) → IsOrdered m → IsOrdered (evict_one m l r)
unfolding evict_one
evict_one-IsOrdered m l r o = elim (Option-cases (BtreeMap.get m l)) [
  | inl e ↦ rw (e, evict_one) o
  | inr (ops, e) ↦
      rw (e, evict_one)
        (put_back-IsOrdered m l _ o (
          retain-IsSorted (λ s _. not (Ranges.contains r s)) ops
            (AllValues-get IsSorted m l ops o.logs e)))
]

get-evict_one :
    (m : OpsMap) (l k : Log) (r : Ranges) (q : ℕ)
    → IsOrdered m
    → get (evict_one m l r) k q ≡ (if same k l && Ranges.contains r q then none else get m k q)
unfolding get evict_one
get-evict_one m l k r q o = elim (Option-cases (BtreeMap.get m l)) [
  | inl e ↦ rw (e, evict_one) (ground (arith, log_ord.eq_of_cmp k l, get-nil q))
  | inr (ops, e) ↦
      let p : ℕ → Op → Bool = λ s _. not (Ranges.contains r s) in
      rw (e, evict_one)
        (ground (
          arith,
          log_ord.eq_of_cmp k l,
          or_default-put_back m l k (BtreeMap.retain p ops) o,
          get-retain p ops q (AllValues-get IsSorted m l ops o.logs e),
        ))
]

evict_loop-cons :
    (m : OpsMap) (l : Log) (r : Ranges) (ps : List (Log × Ranges))
    → evict_loop m ((l, r) ∷ ps) ≡ evict_loop (evict_one m l r) ps
unfolding evict_loop evict_one
evict_loop-cons m l r ps = refl

get-evict_loop :
    (m : OpsMap) (ps : List (Log × Ranges)) (k : Log) (q : ℕ)
    → IsOrdered m
    → IsSorted ps
    → get (evict_loop m ps) k q ≡ (if has (BtreeMap.get ps k) q then none else get m k q)
get-evict_loop m [] k q o s = unfold evict_loop BtreeMap.get in refl
get-evict_loop m ((l, r) ∷ ps) k q o s =
    ap (λ n. get n k q) (evict_loop-cons m l r ps)
    ∙ get-evict_loop (evict_one m l r) ps k q (evict_one-IsOrdered m l r o)
        (IsSorted_of_Above l ps s)
    ∙ once (get (evict_one m l r) k q) (get m k q) (get-evict_one m l k r q o)
  where
    once :
        (new old : Option Op)
        → new ≡ (if same k l && Ranges.contains r q then none else old)
        → (if has (BtreeMap.get ps k) q then none else new)
          ≡ (if has (BtreeMap.get ((l, r) ∷ ps) k) q then none else old)
    once new old e =
        unfold BtreeMap.get in
        ground (arith, get-Above ps k, Above-weaken k l ps, log_ord.eq_of_cmp k l)

-- In a store in order, evicting valid ranges removes the ops in the ranges, and leaves every
-- other op as it was.
pub get-evict :
    (m : OpsMap) (ranges : LogRanges) (l : Log) (s : ℕ)
    → IsOrdered m
    → LogRanges.IsValid ranges
    → get (evict m ranges) l s ≡ (if LogRanges.contains ranges l s then none else get m l s)
unfolding evict
get-evict m ranges l s o v =
    get-evict_loop m (LogRanges.iter ranges) l s o (iter-IsSorted ranges v)
    ∙ rw (get-iter ranges l v, contains-has ranges l s)

evict_loop-IsOrdered :
    (m : OpsMap) (ps : List (Log × Ranges)) → IsOrdered m → IsOrdered (evict_loop m ps)
evict_loop-IsOrdered m [] o = unfold evict_loop in o
evict_loop-IsOrdered m ((l, r) ∷ ps) o =
    rw (evict_loop-cons m l r ps)
      (evict_loop-IsOrdered (evict_one m l r) ps (evict_one-IsOrdered m l r o))

strip_one : OpsMap → Log → Ranges → OpsMap
strip_one m l r = elim (BtreeMap.get m l) [
  | none ↦ m
  | some ops ↦ BtreeMap.insert m l (BtreeMap.map_values (drop_payload r) ops)
]

-- An op without its payload.
abbrev pub strip : Option Op → Option Op
strip none = none
strip (some op) = some (record op { payload = none })

strip_one-IsOrdered :
    (m : OpsMap) (l : Log) (r : Ranges) → IsOrdered m → IsOrdered (strip_one m l r)
unfolding strip_one
strip_one-IsOrdered m l r o = elim (Option-cases (BtreeMap.get m l)) [
  | inl e ↦ rw (e, strip_one) o
  | inr (ops, e) ↦
      rw (e, strip_one)
        (record {
          sorted = insert-IsSorted m l (BtreeMap.map_values (drop_payload r) ops) o.sorted;
          logs =
              AllValues-insert IsSorted m l (BtreeMap.map_values (drop_payload r) ops)
                (map_values-IsSorted (drop_payload r) ops (AllValues-get IsSorted m l ops o.logs e))
                o.logs;
        })
]

get-strip_one :
    (m : OpsMap) (l k : Log) (r : Ranges) (q : ℕ)
    → get (strip_one m l r) k q
      ≡ (if same k l && Ranges.contains r q then strip (get m k q) else get m k q)
unfolding get strip_one drop_payload
get-strip_one m l k r q = elim (Option-cases (BtreeMap.get m l)) [
  | inl e ↦ rw (e, strip_one) (ground (arith, log_ord.eq_of_cmp k l, get-nil q))
  | inr (ops, e) ↦
      rw (e, strip_one)
        (ground (
          arith,
          log_ord.eq_of_cmp k l,
          get-insert m l k (BtreeMap.map_values (drop_payload r) ops),
          get-map_values (drop_payload r) ops q,
        ))
]

evict_payloads_loop-cons :
    (m : OpsMap) (l : Log) (r : Ranges) (ps : List (Log × Ranges))
    → evict_payloads_loop m ((l, r) ∷ ps) ≡ evict_payloads_loop (strip_one m l r) ps
unfolding evict_payloads_loop strip_one
evict_payloads_loop-cons m l r ps = refl

get-evict_payloads_loop :
    (m : OpsMap) (ps : List (Log × Ranges)) (k : Log) (q : ℕ)
    → IsSorted ps
    → get (evict_payloads_loop m ps) k q
      ≡ (if has (BtreeMap.get ps k) q then strip (get m k q) else get m k q)
get-evict_payloads_loop m [] k q s = unfold evict_payloads_loop BtreeMap.get in refl
get-evict_payloads_loop m ((l, r) ∷ ps) k q s =
    ap (λ n. get n k q) (evict_payloads_loop-cons m l r ps)
    ∙ get-evict_payloads_loop (strip_one m l r) ps k q (IsSorted_of_Above l ps s)
    ∙ once (get (strip_one m l r) k q) (get m k q) (get-strip_one m l k r q)
  where
    once :
        (new old : Option Op)
        → new ≡ (if same k l && Ranges.contains r q then strip old else old)
        → (if has (BtreeMap.get ps k) q then strip new else new)
          ≡ (if has (BtreeMap.get ((l, r) ∷ ps) k) q then strip old else old)
    once new old e =
        unfold BtreeMap.get in
        ground (arith, get-Above ps k, Above-weaken k l ps, log_ord.eq_of_cmp k l)

-- Evicting the payloads of valid ranges takes the payload off the ops in the ranges, keeps
-- their headers, and leaves every other op as it was.
pub get-evict_payloads :
    (m : OpsMap) (ranges : LogRanges) (l : Log) (s : ℕ)
    → LogRanges.IsValid ranges
    → get (evict_payloads m ranges) l s
      ≡ (if LogRanges.contains ranges l s then strip (get m l s) else get m l s)
unfolding evict_payloads
get-evict_payloads m ranges l s v =
    get-evict_payloads_loop m (LogRanges.iter ranges) l s (iter-IsSorted ranges v)
    ∙ rw (get-iter ranges l v, contains-has ranges l s)
