-- ===== src/Send/Publish.antt =====
-- What the answer of `rmw_publish` says (rmw_microxrcedds_c/src/rmw_publish.c).
use rmw_microxrcedds.Prelude.{
  ℕ, ◌≡◌, refl, ap, ◌&&◌, ◌⊎◌, ◌↔◌, inl, inr, Bool, true, false, arith, Bool-cases, ◌==◌,
  if◌then◌else◌,
}
use mathlib.Core.Path.{subst}
use rmw_microxrcedds.Prelude.Int.{ℤ}
use rmw_microxrcedds.Types.{Ptr, StreamType, best_effort_stream, reliable_stream, ret_ok, ret_error}
use rmw_microxrcedds.Entity.Claim.{IsHandle}
use rmw_microxrcedds.Xrce.{Publisher, World}
use rmw_microxrcedds.Send.{
  SendLibrary, deliver, topic_length, write_message, publish_message, rmw_publish,
}

module _ {Agent Message : Type 0} (send : SendLibrary Agent Message) where
  -- The length that is asked for: of the serialized message, or what the publisher's callback makes
  -- of it.
  abbrev pub asked_length : Publisher → Message → ℕ
  asked_length d message =
      let size = send.get_serialized_size d.members message in
      if d.cs_cb_size == 0 then size else send.call_size d.cs_cb_size size

  -- The state `a` has a buffer for the message: one for the whole of it, or one for its fragments
  -- where there is no room for the whole.
  abbrev pub HasRoom : Ptr → Publisher → Message → Agent → Agent → Type 0
  HasRoom context d message agent a =
      let length = asked_length d message in
      let whole = send.prepare_output_stream context d.stream_id d.datawriter_id length agent in
      let parts =
        send.prepare_output_stream_fragmented context d.stream_id d.datawriter_id length
          d.session_timeout whole.1 in
      (((whole.0 == 0) ≡ false) × (a ≡ whole.1))
      ⊎ (((whole.0 == 0) ≡ true) × ((parts.0 == 0) ≡ false) × (a ≡ parts.1))

  -- From `b` to `end` a best-effort stream is flushed, which nothing confirms, and a session with a
  -- reliable stream runs and the delivery is confirmed.
  abbrev pub Delivered : StreamType → Ptr → ℤ → Agent → Agent → Type 0
  Delivered best_effort_stream context timeout b end = end ≡ send.flash_output_streams context b
  Delivered reliable_stream context timeout b end =
      send.run_session_until_confirm_delivery context timeout b ≡ (true, end)

  deliver-Delivered :
      (type : StreamType) (context : Ptr) (timeout : ℤ) (b : Agent)
      → let r = deliver send context type timeout b in
        (r.0 ≡ true) ↔ Delivered type context timeout b r.1
  unfolding deliver
  deliver-Delivered best_effort_stream context timeout b = (λ h. refl, λ h. refl)
  deliver-Delivered reliable_stream context timeout b =
      let r = send.run_session_until_confirm_delivery context timeout b in
      (λ h. ap (λ (confirmed : Bool). (confirmed, r.1)) h, λ h. ap (λ (q : Bool × Agent). q.0) h)

  -- The message was serialized into the buffer of `a`, and delivered; the state is then `end`.
  abbrev pub Written : Ptr → Publisher → Message → Agent → Agent → Type 0
  Written context d message a end =
      let (written, b) = send.cdr_serialize d.members message a in
      (written ≡ true)
      × Delivered d.stream_id.type context d.session_timeout
          (if d.cs_cb_serialization == 0
            then b
            else send.call_serialization d.cs_cb_serialization b)
          end

  both_iff : {X : Type 0} (b c : Bool) → ((c ≡ true) ↔ X) → ((b && c) ≡ true) ↔ ((b ≡ true) × X)
  both_iff true c h = (λ k. (refl, h.0 k), λ k. h.1 k.1)
  both_iff false c h = (λ k. absurd (ground (arith, k)), λ k. absurd (ground (arith, k.0)))

  write-Written :
      (context : Ptr) (d : Publisher) (message : Message) (a : Agent)
      → let r = write_message send context d message a in
        (r.0 ≡ true) ↔ Written context d message a r.1
  unfolding write_message
  write-Written context d message a =
      let (written, b) = send.cdr_serialize d.members message a in
      let extended =
        if d.cs_cb_serialization == 0 then b else send.call_serialization d.cs_cb_serialization b in
      both_iff written (deliver send context d.stream_id.type d.session_timeout extended).0
        (deliver-Delivered d.stream_id.type context d.session_timeout extended)

  -- There is room for the message, and it is written there; the state is then `end`.
  abbrev pub Sent : Ptr → Publisher → Message → Agent → Agent → Type 0
  Sent context d message agent end =
      (a : Agent) × HasRoom context d message agent a × Written context d message a end

  -- What is known of a buffer that was written, wherever it is.
  write-same :
      (context : Ptr) (d : Publisher) (message : Message) (a b : Agent)
      → a ≡ b
      → Written context d message a (write_message send context d message b).1
      → (write_message send context d message b).0 ≡ true
  write-same context d message a b same w =
      (write-Written context d message b).1
        (subst (λ x. Written context d message x (write_message send context d message b).1) same w)

  publish-Sent :
      (context : Ptr) (d : Publisher) (message : Message) (agent : Agent)
      → let r = publish_message send context d message agent in
        (r.0 ≡ true) ↔ Sent context d message agent r.1
  unfolding publish_message topic_length
  publish-Sent context d message agent =
      let length = asked_length d message in
      let whole = send.prepare_output_stream context d.stream_id d.datawriter_id length agent in
      let parts =
        send.prepare_output_stream_fragmented context d.stream_id d.datawriter_id length
          d.session_timeout whole.1 in
      elim (Bool-cases (whole.0 == 0)) [
        | inr e ↦ rw e (
          λ h. (whole.1, inl (refl, refl), (write-Written context d message whole.1).0 h),
          λ s. elim s.1 [
            | inl r ↦ write-same context d message s.0 whole.1 r.1 s.2
            | inr r ↦ absurd (ground (arith, r.0))
          ],
        )
        | inl e ↦ elim (Bool-cases (parts.0 == 0)) [
          | inr f ↦
              rw (e, f)
                (
                  λ h. (
                    parts.1,
                    inr (refl, refl, refl),
                    (write-Written context d message parts.1).0 h,
                  ),
                  λ s. elim s.1 [
                    | inl r ↦ absurd (ground (arith, r.0))
                    | inr r ↦ write-same context d message s.0 parts.1 r.2 s.2
                  ],
                )
          | inl f ↦
              rw (e, f)
                (
                  λ h. absurd (ground (arith, h)),
                  λ s. elim s.1 [
                    | inl r ↦ absurd (ground (arith, r.0))
                    | inr r ↦ absurd (ground (arith, r.1))
                  ],
                )
        ]
      ]

  answer-true : (b : Bool) → ((if b then ret_ok else ret_error) ≡ ret_ok) ↔ (b ≡ true)
  answer-true true = (λ h. refl, λ h. refl)
  answer-true false = (λ h. absurd (ground (arith, h)), λ h. absurd (ground (arith, h)))

  -- On a publisher with its handle, `rmw_publish` answers RMW_RET_OK exactly when there was room
  -- for the length that the publisher's callback makes of the message, whole or else in fragments,
  -- it was serialized, and it was delivered: a best-effort stream was then flushed, and a session
  -- with a reliable stream ran until the delivery was confirmed within the timeout.
  pub rmw_publish_iff :
      (p : Ptr) (message : Message) (w : World Agent)
      → IsHandle (w.publishers.at p).handle
      → let d = w.publishers.at p in
        let (ret, end) = rmw_publish send p message w in
        (ret ≡ ret_ok) ↔ Sent (w.nodes.at d.owner_node).context d message w.agent end.agent
  unfolding rmw_publish
  rmw_publish_iff p message w i =
      let d = w.publishers.at p in
      let context = (w.nodes.at d.owner_node).context in
      let sent = publish-Sent context d message w.agent in
      let answer = answer-true (publish_message send context d message w.agent).0 in
      rw (i.valid, i.set) (λ h. sent.0 (answer.0 h), λ s. answer.1 (sent.1 s))
