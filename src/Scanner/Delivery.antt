-- ===== src/Scanner/Delivery.antt =====
-- Live events: what `publish` delivers, and what it counts as dropped.
use layerscope.Base.{
  ℕ, ◌+◌, ◌≤◌, ◌≡◌, refl, ap, Bool, true, false, leb, ◌⊎◌, inl, inr, Bool-cases, List, [], ◌∷◌,
  ◌++◌, arith, length, length-append, select,
}
use layerscope.Scanner.{Event, Subscriber, ScanManager}
use layerscope.Scanner.Events.{deliver, publish}

-- No client's queue is longer than its bound.
abbrev pub Bounded : List Subscriber → Type 0
Bounded [] = Unit
Bounded (q ∷ qs) = (length q.events ≤ q.maxsize) × Bounded qs

abbrev pub is_full : Subscriber → Bool
is_full q = leb q.maxsize (length q.events)

-- One client's queue before and after an event: the event waits last, or the queue was full.
abbrev pub Receives : Event → Subscriber → Subscriber → Type 0
Receives e q q' =
    ((is_full q ≡ false) × (q' ≡ record q { events = q.events ++ (e ∷ []) }))
    ⊎ ((is_full q ≡ true) × (q' ≡ q))

abbrev pub AllReceive : Event → List Subscriber → List Subscriber → Type 0
AllReceive e [] [] = Unit
AllReceive e (q ∷ qs) (q' ∷ qs') = Receives e q q' × AllReceive e qs qs'
AllReceive e [] (q' ∷ qs') = ⊥
AllReceive e (q ∷ qs) [] = ⊥

-- The events that wait in all queues.
abbrev pub waiting : List Subscriber → ℕ
waiting [] = 0
waiting (q ∷ qs) = length q.events + waiting qs

deliver-Bounded : (e : Event) (qs : List Subscriber) → Bounded qs → Bounded (deliver e qs).0
unfolding deliver
deliver-Bounded e [] h = tt
deliver-Bounded e (q ∷ qs) h =
    ground (arith, deliver-Bounded e qs h.1, length-append q.events (e ∷ []))

deliver_counts :
    (e : Event) (qs : List Subscriber)
    → (waiting (deliver e qs).0 + (deliver e qs).1 ≡ waiting qs + length qs)
      × (length (deliver e qs).0 ≡ length qs)
unfolding deliver
deliver_counts e [] = (refl, refl)
deliver_counts e (q ∷ qs) = ground (arith, deliver_counts e qs, length-append q.events (e ∷ []))

deliver-AllReceive : (e : Event) (qs : List Subscriber) → AllReceive e qs (deliver e qs).0
unfolding deliver
deliver-AllReceive e [] = tt
deliver-AllReceive e (q ∷ qs) = elim (Bool-cases (is_full q)) [
  | inl f ↦ rw f (inr (refl, refl), deliver-AllReceive e qs)
  | inr f ↦ rw f (inl (refl, refl), deliver-AllReceive e qs)
]

deliver-full : (e : Event) (qs : List Subscriber) → (deliver e qs).1 ≡ length (select is_full qs)
unfolding deliver
deliver-full e [] = refl
deliver-full e (q ∷ qs) = ground (arith, deliver-full e qs)

-- Publishing keeps every client's queue within its bound and loses no client. Each client in turn gets
-- the event behind those that wait, or, if its queue is full, keeps its queue as it is, and the
-- clients with a full queue are counted as dropped events.
pub publish_conserves :
    (e : Event) (m : ScanManager)
    → Bounded m.subscribers
    → Bounded (publish e m).subscribers
      × (length (publish e m).subscribers ≡ length m.subscribers)
      × AllReceive e m.subscribers (publish e m).subscribers
      × ((publish e m).dropped_events ≡ m.dropped_events + length (select is_full m.subscribers))
      × (waiting (publish e m).subscribers + (publish e m).dropped_events
          ≡ waiting m.subscribers + m.dropped_events + length m.subscribers)
unfolding publish
publish_conserves e m h =
    let counts = deliver_counts e m.subscribers in
    (
      deliver-Bounded e m.subscribers h,
      counts.1,
      deliver-AllReceive e m.subscribers,
      ap (λ k. m.dropped_events + k) (deliver-full e m.subscribers),
      omega (arith, counts.0),
    )
