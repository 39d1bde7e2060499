-- ===== src/Net/Flights.antt =====
-- net.rs: the messages in flight stay within the cap, and are on their way to nodes that hear another.
use dash_router.Base.{
  ℕ, zero, suc, ◌≤◌, ◌≡◌, Bool, true, Option, none, some, List, [], ◌∷◌, refl, arith, ltb, length,
  elem, All, Bool-cases, Option-cases, inl, inr,
}
use dash_router.Base.Order.{nat_ord}
use dash_router.BtreeMap
use dash_router.Log.{Authors}
use dash_router.Wire.{WireMessage}
use dash_router.Node.{NodeAction, NodeEffect, NodeResult, broadcast, deliver, recv}
use dash_router.Node.Step.{node_transition}
use dash_router.Topology.{Topology, neighbors}
use dash_router.Topology.Symmetric.{hears}
use dash_router.Net
use dash_router.Net.{
  Flight, NetState, NetMachine, NetAction, acts, deliver_at, drop_at, duplicate_at, NetError,
  NetResult, take_at, insert_sorted, send_to, absorb, settle, apply, do_node, do_deliver, do_drop,
  do_duplicate, net_transition,
}

-- The network takes the action, and the state after it has the property; or the network refuses.
abbrev pub Lands : (NetState → Type 0) → NetResult → Type 0
Lands P (Net.ok s fx) = P s
Lands P (Net.err e) = Unit {0}

-- The target of the flight hears some node.
abbrev pub IsAddressed : Topology → Flight → Type 0
IsAddressed topo f = (x : ℕ) × (hears topo x f.to ≡ true)

-- The flights are at most as many as the cap, and each is addressed to a node that hears another.
pub record IsSound (m : NetMachine) (inflight : List Flight) : Type 0 where
  pub bounded : length inflight ≤ m.inflight_cap
  pub addressed : All (IsAddressed m.topology) inflight

-- What is taken at a position, and the rest.
abbrev AllTaken : (Flight → Type 0) → ℕ → Option (Flight × List Flight) → Type 0
AllTaken P n none = Unit {0}
AllTaken P n (some (f, rest)) = P f × (suc (length rest) ≡ n) × All P rest

take_at-AllTaken :
    (P : Flight → Type 0) (fs : List Flight) (i : ℕ)
    → All P fs
    → AllTaken P (length fs) (take_at fs i)
unfolding take_at
take_at-AllTaken P [] i v = tt
take_at-AllTaken P (f ∷ fs) zero v = (v.0, refl, v.1)
take_at-AllTaken P (f ∷ fs) (suc i) v = elim (Option-cases (take_at fs i)) [
  | inl none' ↦ rw (none', take_at) tt
  | inr ((x, rest), some') ↦
      let w : AllTaken P (length fs) (some (x, rest)) = rw some' at (take_at-AllTaken P fs i v.1) in
      rw (some', take_at) (w.0, ground arith, (v.0, w.2))
]

module _ (before : Flight → Flight → Bool) where
  insert_sorted-All :
      (P : Flight → Type 0) (fs : List Flight) (x : Flight)
      → P x
      → All P fs
      → (length (insert_sorted before fs x) ≡ suc (length fs)) × All P (insert_sorted before fs x)
  unfolding insert_sorted
  insert_sorted-All P [] x p v = (refl, (p, tt))
  insert_sorted-All P (f ∷ fs) x p v = elim (Bool-cases (before f x)) [
    | inl later ↦
        let rest = insert_sorted-All P fs x p v.1 in
        rw (later, insert_sorted) (ground arith, (v.0, rest.1))
    | inr here ↦ rw (here, insert_sorted) (refl, (p, v))
  ]

  -- The flights, if there are any, are sound.
  abbrev Sent : NetMachine → Option (List Flight) → Type 0
  Sent m none = Unit {0}
  Sent m (some inflight) = IsSound m inflight

  send_to-Sent :
      (m : NetMachine) (id : ℕ) (tos : List ℕ) (message : WireMessage) (inflight : List Flight)
      → All (λ to. hears m.topology id to ≡ true) tos
      → IsSound m inflight
      → Sent m (send_to before m.inflight_cap tos message inflight)
  unfolding send_to
  send_to-Sent m id [] message inflight h v = v
  send_to-Sent m id (to ∷ tos) message inflight h v =
      elim (Bool-cases (ltb (length inflight) m.inflight_cap)) [
        | inr full ↦ rw (full, send_to) tt
        | inl room ↦
            let x : Flight = record { to = to; message = message } in
            let w = insert_sorted-All (IsAddressed m.topology) inflight x (id, h.0) v.addressed in
            rw (room, send_to)
              (send_to-Sent m id tos message (insert_sorted before inflight x) h.1
                (record { bounded = ground arith; addressed = w.1 }))
      ]

  all_heard :
      (m : NetMachine) (id : ℕ)
      → All (λ to. hears m.topology id to ≡ true) (neighbors m.topology id)
  all_heard m id = each (neighbors m.topology id) (neighbors m.topology id) (λ to h. h)
    where
      each :
          (xs ys : List ℕ)
          → ((to : ℕ) → elem to xs ≡ true → elem to ys ≡ true)
          → All (λ to. elem to ys ≡ true) xs
      each [] ys h = tt
      each (x ∷ xs) ys h = (h x (ground arith), each xs ys (λ to k. h to (ground arith)))

  abbrev Absorbed : NetMachine → Option (List Flight × List (ℕ × NodeEffect)) → Type 0
  Absorbed m none = Unit {0}
  Absorbed m (some (inflight, out)) = IsSound m inflight

  absorb-Absorbed :
      (m : NetMachine) (id : ℕ) (fx : List NodeEffect) (inflight : List Flight)
      → IsSound m inflight
      → Absorbed m (absorb before m id fx inflight)
  unfolding absorb
  absorb-Absorbed m id [] inflight v = v
  absorb-Absorbed m id (broadcast message ∷ fx) inflight v =
      elim (Option-cases
        (send_to before m.inflight_cap (neighbors m.topology id) message inflight)) [
          | inl none' ↦ rw (none', absorb) tt
          | inr (more, some') ↦
              let sound : IsSound m more =
                rw some' at (
                  send_to-Sent m id (neighbors m.topology id) message inflight (all_heard m id)
                    v) in
              rw (some', absorb) (absorb-Absorbed m id fx more sound)
        ]
  absorb-Absorbed m id (deliver l q ∷ fx) inflight v =
      elim (Option-cases (absorb before m id fx inflight)) [
        | inl none' ↦ rw (none', absorb) tt
        | inr ((more, out), some') ↦
            let sound : Absorbed m (some (more, out)) =
              rw some' at (absorb-Absorbed m id fx inflight v) in
            rw (some', absorb) sound
      ]

  module _ ⦃t : Authors⦄ where
    abbrev pub Sound : NetMachine → NetState → Type 0
    Sound m s = IsSound m s.inflight

    settle-Lands :
        (m : NetMachine) (s : NetState) (id : ℕ) (r : NodeResult)
        → IsSound m s.inflight
        → Lands (Sound m) (settle before m s id r)
    unfolding settle
    settle-Lands m s id (NodeResult.err e) v = tt
    settle-Lands m s id (NodeResult.ok n fx) v =
        elim (Option-cases (absorb before m id fx s.inflight)) [
          | inl none' ↦ rw (none', settle) tt
          | inr ((more, out), some') ↦
              let sound : Absorbed m (some (more, out)) =
                rw some' at (absorb-Absorbed m id fx s.inflight v) in
              rw (some', settle) sound
        ]

    apply-Lands :
        (m : NetMachine) (s : NetState) (id : ℕ) (a : NodeAction)
        → IsSound m s.inflight
        → Lands (Sound m) (apply before m s id a)
    unfolding apply
    apply-Lands m s id a v = elim (Option-cases (BtreeMap.get s.nodes id)) [
      | inl none' ↦ rw (none', apply) tt
      | inr (n, some') ↦
          rw (some', apply) (settle-Lands m s id (node_transition m.node_machine n a) v)
    ]

    do_node-Lands :
        (m : NetMachine) (s : NetState) (id : ℕ) (a : NodeAction)
        → IsSound m s.inflight
        → Lands (Sound m) (do_node before m s id a)
    unfolding do_node
    do_node-Lands m s id (recv message) v = tt
    do_node-Lands m s id (NodeAction.router a) v = apply-Lands m s id (NodeAction.router a) v
    do_node-Lands m s id (NodeAction.authored l q op) v =
        apply-Lands m s id (NodeAction.authored l q op) v
    do_node-Lands m s id (NodeAction.subscribe c) v = apply-Lands m s id (NodeAction.subscribe c) v
    do_node-Lands m s id (NodeAction.unsubscribe c) v =
        apply-Lands m s id (NodeAction.unsubscribe c) v
    do_node-Lands m s id (NodeAction.native_syncs l q op) v =
        apply-Lands m s id (NodeAction.native_syncs l q op) v
    do_node-Lands m s id (NodeAction.app_gcs r) v = apply-Lands m s id (NodeAction.app_gcs r) v
    do_node-Lands m s id (NodeAction.relay_evict r) v =
        apply-Lands m s id (NodeAction.relay_evict r) v
    do_node-Lands m s id (NodeAction.relay_evict_payloads r) v =
        apply-Lands m s id (NodeAction.relay_evict_payloads r) v

    do_duplicate-Lands :
        (m : NetMachine) (s : NetState) (o : Option (Flight × List Flight))
        → IsSound m s.inflight
        → AllTaken (IsAddressed m.topology) (length s.inflight) o
        → Lands (Sound m) (do_duplicate before m s o)
    unfolding do_duplicate
    do_duplicate-Lands m s o v w = elim (Bool-cases (ltb (length s.inflight) m.inflight_cap)) [
      | inr full ↦ rw (full, do_duplicate) tt
      | inl room ↦ rw (room, do_duplicate) (copied (ground arith) o w)
    ]
      where
        copied :
            suc (length s.inflight) ≤ m.inflight_cap
            → (o : Option (Flight × List Flight))
            → AllTaken (IsAddressed m.topology) (length s.inflight) o
            → Lands (Sound m) (elim o [
              | none ↦ Net.err Net.no_flight
              | some (f, rest) ↦
                  Net.ok (record s { inflight = insert_sorted before s.inflight f }) []
            ])
        copied k none w = tt
        copied k (some (f, rest)) w =
            let x = insert_sorted-All (IsAddressed m.topology) s.inflight f w.0 v.addressed in
            record { bounded = rw x.0 k; addressed = x.1 }

    -- Every action that the network takes leaves at most as many messages in flight as the cap, each
    -- addressed to a node that hears some node, if it was so before.
    pub net_transition-IsSound :
        (m : NetMachine) (s : NetState) (a : NetAction)
        → IsSound m s.inflight
        → Lands (Sound m) (net_transition before m s a)
    unfolding net_transition do_deliver do_drop
    net_transition-IsSound m s (acts id a) v = do_node-Lands m s id a v
    net_transition-IsSound m s (deliver_at i) v =
        taken (take_at s.inflight i)
          (take_at-AllTaken (IsAddressed m.topology) s.inflight i v.addressed)
      where
        taken :
            (o : Option (Flight × List Flight))
            → AllTaken (IsAddressed m.topology) (length s.inflight) o
            → Lands (Sound m) (do_deliver before m s o)
        taken none w = tt
        taken (some (f, rest)) w =
            apply-Lands m (record s { inflight = rest }) f.to (recv f.message)
              (record { bounded = ground (arith, v.bounded, w.1); addressed = w.2 })
    net_transition-IsSound m s (drop_at i) v =
        taken (take_at s.inflight i)
          (take_at-AllTaken (IsAddressed m.topology) s.inflight i v.addressed)
      where
        taken :
            (o : Option (Flight × List Flight))
            → AllTaken (IsAddressed m.topology) (length s.inflight) o
            → Lands (Sound m) (do_drop before s o)
        taken none w = tt
        taken (some (f, rest)) w = record {
          bounded = ground (arith, v.bounded, w.1);
          addressed = w.2;
        }
    net_transition-IsSound m s (duplicate_at i) v =
        do_duplicate-Lands m s (take_at s.inflight i) v
          (take_at-AllTaken (IsAddressed m.topology) s.inflight i v.addressed)
