-- ===== src/Callbacks/Quotas.antt =====
-- The depth that each entity asks for bounds its waiting samples, along any sequence of callbacks.
use rmw_microxrcedds.Prelude.{
  ℕ, ◌≤◌, ◌≡◌, ◌≢◌, inl, inr, Bool, true, Option, none, some, List, [], ◌∷◌, arith, ==_iff,
  Bool-cases, Option-cases, ◌==◌, has, Apart,
}
use rmw_microxrcedds.Prelude.Int.{ℤ, pos}
use rmw_microxrcedds.Types.{
  Ptr, ObjectId, QosProfile, EntityType, Related, SampleIdentity, Buffers, Owners, GraphInfo,
}
use rmw_microxrcedds.StaticBuffer.Quota.{owned}
use rmw_microxrcedds.Callbacks.{
  Reader, Inbox, first_fit, same_id, subscription_of, service_of, client_of, on_subscription_topic,
  on_topic, on_request, on_reply,
}
use rmw_microxrcedds.Callbacks.Receive.{IsSound, Received, receive-Received}

-- The entity's samples are within its depth. Depth 0 sets no bound.
abbrev pub Within : Buffers → Ptr → QosProfile → Type 0
Within b x qos = qos.depth ≢ 0 → owned b.slot x b.memory.allocated ≤ qos.depth

-- No two pools of owners have an allocated item at one address.
pub record IsApart (o : Owners) : Type 0 where
  pub subscription_service : Apart o.subscriptions.memory.allocated o.services.memory.allocated
  pub subscription_client : Apart o.subscriptions.memory.allocated o.clients.memory.allocated
  pub service_client : Apart o.services.memory.allocated o.clients.memory.allocated

pub record Quotas (o : Owners) (b : Buffers) : Type 0 where
  pub sound : IsSound b.memory
  pub subscriptions :
      (x : Ptr)
      → has x o.subscriptions.memory.allocated ≡ true
      → Within b x (o.subscriptions.at x).qos
  pub services :
      (x : Ptr) → has x o.services.memory.allocated ≡ true → Within b x (o.services.at x).qos
  pub clients :
      (x : Ptr) → has x o.clients.memory.allocated ≡ true → Within b x (o.clients.at x).qos

first_fit-has :
    (fits : Ptr → Bool) (xs : List Ptr) (x : Ptr) → first_fit fits xs ≡ some x → has x xs ≡ true
unfolding first_fit
first_fit-has fits [] x e = absurd (ground arith)
first_fit-has fits (y ∷ xs) x e = ground (arith, first_fit-has fits xs x)

Within-other :
    (entity x : Ptr) (qos own : QosProfile) (b c : Buffers)
    → Received entity qos b c
    → x ≢ entity
    → Within b x own
    → Within c x own
Within-other entity x qos own b c r ne h d = omega (arith, h d, r.others x ne)

Within-self :
    (entity : Ptr) (qos : QosProfile) (b c : Buffers)
    → Received entity qos b c
    → Within b entity qos
    → Within c entity qos
Within-self entity qos b c r h d = r.quota d (h d)

-- All entities of one pool at once.
Within-all :
    (qos_at : Ptr → QosProfile) (s x : Ptr) (b c : Buffers)
    → Received s (qos_at s) b c
    → Within b x (qos_at x)
    → Within c x (qos_at x)
Within-all qos_at s x b c r h = elim (Bool-cases (x == s)) [
  | inl hit ↦
      let e : x ≡ s = (==_iff x s).0 hit in rw e (Within-self s (qos_at s) b c r (rw e at h))
  | inr miss ↦ Within-other s x (qos_at s) (qos_at x) b c r (ground arith) h
]

module _ (o : Owners) (apart : IsApart o) (b c : Buffers) (w : Quotas o b) (s : Ptr) where
  subscription-Quotas :
      has s o.subscriptions.memory.allocated ≡ true
      → Received s (o.subscriptions.at s).qos b c
      → Quotas o c
  subscription-Quotas held r = record {
    sound = r.sound;
    subscriptions =
        λ x i. Within-all (λ y. (o.subscriptions.at y).qos) s x b c r (w.subscriptions x i);
    services = λ x i.
        Within-other s x (o.subscriptions.at s).qos (o.services.at x).qos b c r
          (ground (arith, apart.subscription_service s held)) (w.services x i);
    clients = λ x i.
        Within-other s x (o.subscriptions.at s).qos (o.clients.at x).qos b c r
          (ground (arith, apart.subscription_client s held)) (w.clients x i);
  }

  service-Quotas :
      has s o.services.memory.allocated ≡ true → Received s (o.services.at s).qos b c → Quotas o c
  service-Quotas held r = record {
    sound = r.sound;
    subscriptions = λ x i.
        Within-other s x (o.services.at s).qos (o.subscriptions.at x).qos b c r
          (ground (arith, apart.subscription_service x i)) (w.subscriptions x i);
    services = λ x i. Within-all (λ y. (o.services.at y).qos) s x b c r (w.services x i);
    clients = λ x i.
        Within-other s x (o.services.at s).qos (o.clients.at x).qos b c r
          (ground (arith, apart.service_client s held)) (w.clients x i);
  }

  client-Quotas :
      has s o.clients.memory.allocated ≡ true → Received s (o.clients.at s).qos b c → Quotas o c
  client-Quotas held r = record {
    sound = r.sound;
    subscriptions = λ x i.
        Within-other s x (o.clients.at s).qos (o.subscriptions.at x).qos b c r
          (ground (arith, apart.subscription_client x i)) (w.subscriptions x i);
    services = λ x i.
        Within-other s x (o.clients.at s).qos (o.services.at x).qos b c r
          (ground (arith, apart.service_client x i)) (w.services x i);
    clients = λ x i. Within-all (λ y. (o.clients.at y).qos) s x b c r (w.clients x i);
  }

-- What the XRCE client hands over: a sample for a data reader, a request, or a reply.
pub data Event : Type 0 where
  topic : ObjectId → Reader → ℕ → ℤ → Event
  request : ℕ → SampleIdentity → Reader → ℕ → ℤ → Event
  reply : ℕ → ℕ → Reader → ℕ → ℤ → Event

pub handle : Owners → Event → Inbox → Inbox
handle o (topic id read length now_ns) i = on_topic o id read length now_ns i
handle o (request id sample read length now_ns) i = record i {
  buffers = on_request o id sample read length now_ns i.buffers;
}
handle o (reply id reply_id read length now_ns) i = record i {
  buffers = on_reply o id reply_id read length now_ns i.buffers;
}

pub handle_all : Owners → List Event → Inbox → Inbox
handle_all o [] i = i
handle_all o (e ∷ es) i = handle_all o es (handle o e i)

module _ (o : Owners) (apart : IsApart o) where
  on_subscription_topic-Quotas :
      (id : ObjectId) (read : Reader) (length : ℕ) (now_ns : ℤ) (b : Buffers)
      → Quotas o b
      → Quotas o (on_subscription_topic o id read length now_ns b)
  unfolding on_subscription_topic
  on_subscription_topic-Quotas id read length now_ns b w =
      elim (Option-cases (subscription_of o id)) [
        | inl e ↦ rw (e, on_subscription_topic) w
        | inr (s, e) ↦
            rw (e, on_subscription_topic)
              (subscription-Quotas o apart b _ w s
                (unfold subscription_of in (first_fit-has _ _ s e))
                (receive-Received s (o.subscriptions.at s).qos EntityType.subscription (λ r. r) read
                  length now_ns b w.sound))
      ]

  on_request-Quotas :
      (id : ℕ) (sample : SampleIdentity) (read : Reader) (length : ℕ) (now_ns : ℤ) (b : Buffers)
      → Quotas o b
      → Quotas o (on_request o id sample read length now_ns b)
  unfolding on_request
  on_request-Quotas id sample read length now_ns b w = elim (Option-cases (service_of o id)) [
    | inl e ↦ rw (e, on_request) w
    | inr (s, e) ↦
        rw (e, on_request)
          (service-Quotas o apart b _ w s (unfold service_of in (first_fit-has _ _ s e)) (
            receive-Received s (o.services.at s).qos EntityType.service
              (λ _. Related.sample_id sample) read length now_ns b w.sound))
  ]

  on_reply-Quotas :
      (id reply_id : ℕ) (read : Reader) (length : ℕ) (now_ns : ℤ) (b : Buffers)
      → Quotas o b
      → Quotas o (on_reply o id reply_id read length now_ns b)
  unfolding on_reply
  on_reply-Quotas id reply_id read length now_ns b w = elim (Option-cases (client_of o id)) [
    | inl e ↦ rw (e, on_reply) w
    | inr (c, e) ↦
        rw (e, on_reply)
          (client-Quotas o apart b _ w c (unfold client_of in (first_fit-has _ _ c e)) (
            receive-Received c (o.clients.at c).qos EntityType.client
              (λ _. Related.reply_id (pos reply_id)) read length now_ns b w.sound))
  ]

  -- A sample for the reader of the graph leaves the buffers alone.
  on_topic-Quotas :
      (id : ObjectId) (read : Reader) (length : ℕ) (now_ns : ℤ) (g : Option GraphInfo) (b : Buffers)
      → Quotas o b
      → Quotas o (on_topic o id read length now_ns (record { graph_info = g; buffers = b })).buffers
  unfolding on_topic
  on_topic-Quotas id read length now_ns none b w =
      on_subscription_topic-Quotas id read length now_ns b w
  on_topic-Quotas id read length now_ns (some g) b w =
      elim (Bool-cases (same_id id g.datareader_id)) [
        | inl hit ↦ rw hit w
        | inr miss ↦ rw miss (on_subscription_topic-Quotas id read length now_ns b w)
      ]

  handle-Quotas : (e : Event) (i : Inbox) → Quotas o i.buffers → Quotas o (handle o e i).buffers
  unfolding handle
  handle-Quotas (topic id read length now_ns) i w =
      on_topic-Quotas id read length now_ns i.graph_info i.buffers w
  handle-Quotas (request id sample read length now_ns) i w =
      on_request-Quotas id sample read length now_ns i.buffers w
  handle-Quotas (reply id reply_id read length now_ns) i w =
      on_reply-Quotas id reply_id read length now_ns i.buffers w

  -- If the pools of owners are apart, then whatever samples, requests and replies arrive, the pool
  -- of buffers stays sound, and no subscription, service or client with a depth has more waiting
  -- samples than its depth, if that is so at first.
  pub handle_all-Quotas :
      (es : List Event) (i : Inbox) → Quotas o i.buffers → Quotas o (handle_all o es i).buffers
  unfolding handle_all
  handle_all-Quotas [] i w = w
  handle_all-Quotas (e ∷ es) i w = handle_all-Quotas es (handle o e i) (handle-Quotas e i w)
