-- ===== src/Node/Groups.antt =====
-- `group_ops` loses no op and keeps their order.
use dash_router.Base.{ℕ, ◌≡◌, List, [], ◌∷◌, ◌++◌, refl, sym, ap, ◌∙◌, arith, Bool-cases, inl, inr}
use mathlib.Core.List.{append_assoc, append-nil}
use dash_router.Base.Order.{same}
use dash_router.Log.{Log, log_ord}
use dash_router.Storage.{Op}
use dash_router.Node.{push_op, group_loop, reverse_onto, group_ops}

-- The ops of one log, each with the log.
pub with_log : Log → List (ℕ × Op) → List (Log × ℕ × Op)
with_log l [] = []
with_log l ((s, op) ∷ seqs) = (l, s, op) ∷ with_log l seqs

-- The groups as one list.
pub ungroup : List (Log × List (ℕ × Op)) → List (Log × ℕ × Op)
ungroup [] = []
ungroup ((l, seqs) ∷ gs) = with_log l seqs ++ ungroup gs

-- The ops of groups that stand in reverse.
back : List (Log × List (ℕ × Op)) → List (Log × ℕ × Op)
back [] = []
back ((l, seqs) ∷ gs) = back gs ++ with_log l seqs

with_log-append :
    (l : Log) (xs ys : List (ℕ × Op)) → with_log l (xs ++ ys) ≡ with_log l xs ++ with_log l ys
unfolding with_log
with_log-append l [] ys = refl
with_log-append l ((s, op) ∷ xs) ys = ap (λ r. (l, s, op) ∷ r) (with_log-append l xs ys)

back-push_op :
    (out : List (Log × List (ℕ × Op))) (l : Log) (s : ℕ) (op : Op)
    → back (push_op out l s op) ≡ back out ++ (l, s, op) ∷ []
unfolding back push_op with_log
back-push_op [] l s op = refl
back-push_op ((k, seqs) ∷ out) l s op = elim (Bool-cases (same k l)) [
  | inl same' ↦
      rw
        (
          same',
          with_log-append k seqs ((s, op) ∷ []),
          ← append_assoc (back out) (with_log k seqs) ((k, s, op) ∷ []),
          log_ord.eq_of_cmp k l (ground arith),
        )
        refl
  | inr other ↦ rw other refl
]

back-group_loop :
    (out : List (Log × List (ℕ × Op))) (ops : List (Log × ℕ × Op))
    → back (group_loop out ops) ≡ back out ++ ops
unfolding group_loop
back-group_loop out [] = sym (append-nil (back out))
back-group_loop out ((l, s, op) ∷ ops) =
    back-group_loop (push_op out l s op) ops
    ∙ rw (back-push_op out l s op) (append_assoc (back out) ((l, s, op) ∷ []) ops)

ungroup-reverse_onto :
    (acc gs : List (Log × List (ℕ × Op))) → ungroup (reverse_onto acc gs) ≡ back gs ++ ungroup acc
unfolding reverse_onto back ungroup
ungroup-reverse_onto acc [] = refl
ungroup-reverse_onto acc ((l, seqs) ∷ gs) =
    ungroup-reverse_onto ((l, seqs) ∷ acc) gs
    ∙ sym (append_assoc (back gs) (with_log l seqs) (ungroup acc))

-- Grouping and taking the groups apart again gives the same ops in the same order.
pub ungroup-group_ops : (ops : List (Log × ℕ × Op)) → ungroup (group_ops ops) ≡ ops
unfolding group_ops back ungroup
ungroup-group_ops ops =
    ungroup-reverse_onto [] (group_loop [] ops)
    ∙ append-nil (back (group_loop [] ops))
    ∙ back-group_loop [] ops
