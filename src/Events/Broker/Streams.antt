-- ===== src/Events/Broker/Streams.antt =====
-- What a subscriber receives, after any calls.
use spark_server.Base.{
  ℕ, zero, suc, ◌≤◌, ◌≡◌, refl, sym, ap, ◌∙◌, subst, List, [], ◌∷◌, ◌++◌, append_assoc, append-nil,
  Option, none, some, if◌then◌else◌, ltb, ◌==◌, length, length-append, take, take-append, arith,
  Bool-cases, inl, inr,
}
use spark_server.Events.Models.{Event, Filter, Subscription, Broker}
use spark_server.Events.Broker.{
  capacity, allows, new_broker, subscribe, without, unsubscribe, add_sink, offer, offer_to,
  publish_to_subscribers, deliver_to_sinks, take_first, receive_in, receive,
}

-- A list that another becomes when elements are left out.
pub data IsSublist {A : Type 0} : List A → List A → Type 0 where
  ends : IsSublist [] []
  keeps : (x : A) (xs ys : List A) → IsSublist xs ys → IsSublist (x ∷ xs) (x ∷ ys)
  leaves : (x : A) (xs ys : List A) → IsSublist xs ys → IsSublist xs (x ∷ ys)

module _ {A : Type 0} where
  IsSublist-nil : (ys : List A) → IsSublist [] ys
  IsSublist-nil [] = ends
  IsSublist-nil (y ∷ ys) = leaves y [] ys (IsSublist-nil ys)

  IsSublist-snoc :
      (x : A) (xs ys : List A) → IsSublist xs ys → IsSublist (xs ++ x ∷ []) (ys ++ x ∷ [])
  IsSublist-snoc x _ _ ends = keeps x [] [] ends
  IsSublist-snoc x _ _ (keeps y xs ys h) =
      keeps y (xs ++ x ∷ []) (ys ++ x ∷ []) (IsSublist-snoc x xs ys h)
  IsSublist-snoc x _ _ (leaves y xs ys h) =
      leaves y (xs ++ x ∷ []) (ys ++ x ∷ []) (IsSublist-snoc x xs ys h)

  IsSublist-left : (x : A) (xs ys : List A) → IsSublist xs ys → IsSublist xs (ys ++ x ∷ [])
  IsSublist-left x _ _ ends = leaves x [] [] ends
  IsSublist-left x _ _ (keeps y xs ys h) = keeps y xs (ys ++ x ∷ []) (IsSublist-left x xs ys h)
  IsSublist-left x _ _ (leaves y xs ys h) = leaves y xs (ys ++ x ∷ []) (IsSublist-left x xs ys h)

-- The events that a filter allows.
abbrev pub allowed : Filter → List Event → List Event
allowed filter [] = []
allowed filter (e ∷ more) =
    let rest = allowed filter more in if allows filter e then e ∷ rest else rest

allowed-snoc :
    (filter : Filter) (es : List Event) (e : Event)
    → allowed filter (es ++ e ∷ []) ≡ allowed filter es ++ (if allows filter e then e ∷ [] else [])
allowed-snoc filter [] e = refl
allowed-snoc filter (d ∷ es) e = ground (arith, allowed-snoc filter es e)

-- What a subscriber has got and what waits for it are of the published events that its filter allows,
-- each once and in order; as many wait as the channel holds at most.
pub record IsStream (log : List Event) (s : Subscription) : Type 0 where
  pub in_order : IsSublist (s.taken ++ s.queue) (allowed s.filter log)
  pub bounded : length s.queue ≤ capacity

abbrev pub AreStreams : List Event → List (ℕ × Subscription) → Type 0
AreStreams log [] = Unit
AreStreams log ((i, s) ∷ more) = IsStream log s × AreStreams log more

-- The calls of a broker, with the events that were published so far.
pub data Reachable : List Event → Broker → Type 0 where
  start : Reachable [] new_broker
  subscribes :
      (log : List Event) (b : Broker) (filter : Filter)
      → Reachable log b
      → Reachable log (subscribe filter b)
  leaves_off :
      (log : List Event) (b : Broker) (id : ℕ) → Reachable log b → Reachable log (unsubscribe id b)
  adds_sink :
      (log : List Event) (b : Broker) (sink : Option ℕ)
      → Reachable log b
      → Reachable log (add_sink sink b)
  publishes :
      (log : List Event) (b : Broker) (e : Event)
      → Reachable log b
      → Reachable (log ++ e ∷ []) (deliver_to_sinks e (publish_to_subscribers e b))
  receives :
      (log : List Event) (b : Broker) (id : ℕ) → Reachable log b → Reachable log (receive id b)

-- An event that is published and not put into the channel.
passed-IsStream :
    (log : List Event) (e : Event) (s : Subscription) → IsStream log s → IsStream (log ++ e ∷ []) s
passed-IsStream log e s h = record {
  in_order = elim (Bool-cases (allows s.filter e)) [
    | inl same ↦
        subst (IsSublist (s.taken ++ s.queue)) (sym (allowed-snoc s.filter log e ∙ rw same refl))
          (IsSublist-left e (s.taken ++ s.queue) (allowed s.filter log) h.in_order)
    | inr other ↦
        subst (IsSublist (s.taken ++ s.queue))
          (sym (allowed-snoc s.filter log e ∙ rw other (append-nil (allowed s.filter log))))
          h.in_order
  ];
  bounded = h.bounded;
}

offer-IsStream :
    (log : List Event) (e : Event) (s : Subscription)
    → IsStream log s
    → IsStream (log ++ e ∷ []) (offer e s)
offer-IsStream log e s h = elim (Bool-cases (allows s.filter e)) [
  | inr other ↦ rw other (passed-IsStream log e s h)
  | inl same ↦ elim (Bool-cases (ltb (length s.queue) capacity)) [
    | inr full ↦ rw (same, full) (passed-IsStream log e s h)
    | inl room ↦
        rw (same, room)
          (record {
            in_order =
                subst (λ xs. IsSublist xs (allowed s.filter (log ++ e ∷ [])))
                  (append_assoc s.taken s.queue (e ∷ []))
                  (subst (IsSublist ((s.taken ++ s.queue) ++ e ∷ []))
                    (sym (allowed-snoc s.filter log e ∙ rw same refl))
                    (IsSublist-snoc e (s.taken ++ s.queue) (allowed s.filter log) h.in_order));
            bounded = ground (arith, length-append s.queue (e ∷ []), room);
          })
  ]
]

take_first-IsStream :
    (log : List Event) (s : Subscription) (queue : List Event)
    → s.queue ≡ queue
    → IsStream log s
    → IsStream log (take_first s queue)
take_first-IsStream log s [] is h = h
take_first-IsStream log s (e ∷ more) is h = record {
  in_order =
      subst (λ xs. IsSublist xs (allowed s.filter log))
        (ap (λ q. s.taken ++ q) is ∙ sym (append_assoc s.taken (e ∷ []) more)) h.in_order;
  bounded = omega (arith, h.bounded, ap length is);
}

offer_to-AreStreams :
    (log : List Event) (e : Event) (m : List (ℕ × Subscription))
    → AreStreams log m
    → AreStreams (log ++ e ∷ []) (offer_to e m)
offer_to-AreStreams log e [] h = tt
offer_to-AreStreams log e ((i, s) ∷ m) (h, k) =
    (offer-IsStream log e s h, offer_to-AreStreams log e m k)

without-AreStreams :
    (log : List Event) (id : ℕ) (m : List (ℕ × Subscription))
    → AreStreams log m
    → AreStreams log (without id m)
without-AreStreams log id [] h = tt
without-AreStreams log id ((i, s) ∷ m) (h, k) = elim (Bool-cases (i == id)) [
  | inl same ↦ rw same (without-AreStreams log id m k)
  | inr other ↦ rw other (h, without-AreStreams log id m k)
]

receive_in-AreStreams :
    (log : List Event) (id : ℕ) (m : List (ℕ × Subscription))
    → AreStreams log m
    → AreStreams log (receive_in id m)
receive_in-AreStreams log id [] h = tt
receive_in-AreStreams log id ((i, s) ∷ m) (h, k) = elim (Bool-cases (i == id)) [
  | inl same ↦ rw same (take_first-IsStream log s s.queue refl h, k)
  | inr other ↦ rw other (h, receive_in-AreStreams log id m k)
]

-- After any calls of a broker, what each subscriber has got and what waits for it are of the events
-- that were published and that its filter allows, each once and in the order of publication, and at
-- most sixteen wait.
pub Reachable-AreStreams :
    (log : List Event) (b : Broker) → Reachable log b → AreStreams log b.subscribers
Reachable-AreStreams _ _ start = tt
Reachable-AreStreams _ _ (subscribes log b filter r) = (
  record { in_order = IsSublist-nil (allowed filter log); bounded = omega arith },
  Reachable-AreStreams log b r,
)
Reachable-AreStreams _ _ (leaves_off log b id r) =
    without-AreStreams log id b.subscribers (Reachable-AreStreams log b r)
Reachable-AreStreams _ _ (adds_sink log b none r) = Reachable-AreStreams log b r
Reachable-AreStreams _ _ (adds_sink log b (some sink) r) = Reachable-AreStreams log b r
Reachable-AreStreams _ _ (publishes log b e r) =
    offer_to-AreStreams log e b.subscribers (Reachable-AreStreams log b r)
Reachable-AreStreams _ _ (receives log b id r) =
    receive_in-AreStreams log id b.subscribers (Reachable-AreStreams log b r)

-- The events that a subscriber is offered one after the other.
abbrev pub offered : List Event → Subscription → Subscription
offered [] s = s
offered (e ∷ more) s = offered more (offer e s)

take-all : {A : Type 0} (n : ℕ) (xs : List A) → length xs ≤ n → take n xs ≡ xs
take-all zero [] h = refl
take-all zero (x ∷ xs) h = absurd (omega arith)
take-all (suc n) [] h = refl
take-all (suc n) (x ∷ xs) h = ap (λ ys. x ∷ ys) (take-all n xs (omega arith))

offered-take :
    (es : List Event) (s : Subscription)
    → length s.queue ≤ capacity
    → (offered es s).queue ≡ take capacity (s.queue ++ allowed s.filter es)
offered-take [] s h = sym (ap (take capacity) (append-nil s.queue) ∙ take-all capacity s.queue h)
offered-take (e ∷ es) s h = elim (Bool-cases (allows s.filter e)) [
  | inr other ↦
      let none_more : allowed s.filter (e ∷ es) ≡ allowed s.filter es = rw other refl in
      let is : offer e s ≡ s = rw other refl in
      ap (λ t. (offered es t).queue) is
      ∙ offered-take es s h
      ∙ ap (λ xs. take capacity (s.queue ++ xs)) (sym none_more)
  | inl same ↦
      let more : allowed s.filter (e ∷ es) ≡ e ∷ allowed s.filter es = rw same refl in
      elim (Bool-cases (ltb (length s.queue) capacity)) [
        | inl room ↦
            let longer = record s { queue = s.queue ++ e ∷ [] } in
            let is : offer e s ≡ longer = rw (same, room) refl in
            ap (λ t. (offered es t).queue) is
            ∙ offered-take es longer (ground (arith, length-append s.queue (e ∷ []), room))
            ∙ ap (take capacity) (
                append_assoc s.queue (e ∷ []) (allowed s.filter es)
                ∙ ap (λ xs. s.queue ++ xs) (sym more))
        | inr full ↦
            let is : offer e s ≡ s = rw (same, full) refl in
            let size : capacity ≡ length s.queue = ground (arith, h, full) in
            ap (λ t. (offered es t).queue) is
            ∙ offered-take es s h
            ∙ take-append capacity s.queue (allowed s.filter es) size
            ∙ sym (take-append capacity s.queue (allowed s.filter (e ∷ es)) size)
      ]
]

-- A new subscriber that reads nothing holds the first sixteen of the events that its filter allows,
-- in the order of publication, whatever else is published; the later ones are lost.
pub offered_first_sixteen :
    (filter : Filter) (es : List Event)
    → (offered es (record { filter = filter; queue = []; taken = [] })).queue
      ≡ take 16 (allowed filter es)
offered_first_sixteen filter es =
    offered-take es (record { filter = filter; queue = []; taken = [] }) (omega arith)
