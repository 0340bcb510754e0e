-- ===== src/Names/Complete.antt =====
-- Names that are generated with success are complete, and tell their topics apart.
use rmw_microxrcedds.Prelude.{
  ℕ, zero, suc, ◌-◌, ◌≤◌, ◌≡◌, refl, sym, ap, ◌∙◌, true, List, [], ◌∷◌, ◌++◌, arith, length, take,
  drop, get_or, ◌≢◌,
}
use rmw_microxrcedds.Names.{
  generate, generate_topic_name, generate_service_topics, ros_topic_prefix, ros_request_prefix,
  ros_reply_prefix, ros_request_subfix, ros_reply_subfix,
}

pub take-most : (n : ℕ) (xs : List ℕ) → length xs ≤ n → take n xs ≡ xs
take-most zero [] h = refl
take-most zero (x ∷ xs) h = absurd (omega arith)
take-most (suc n) [] h = refl
take-most (suc n) (x ∷ xs) h = ap (◌∷◌ x) (take-most n xs (omega arith))

generate_complete :
    (text : List ℕ) (size : ℕ) → (generate text size).0 ≡ true → (generate text size).1 ≡ text
unfolding generate
generate_complete text size done = take-most (size - 1) text (ground arith)

-- If `generate_topic_name` succeeds for two names with the same text, the names are the same.
pub generate_topic_name-injective :
    (a b : List ℕ) (size : ℕ)
    → (generate_topic_name a size).0 ≡ true
    → (generate_topic_name b size).0 ≡ true
    → (generate_topic_name a size).1 ≡ (generate_topic_name b size).1
    → a ≡ b
unfolding generate_topic_name
generate_topic_name-injective a b size da db e = ap (drop 2) (
    sym (generate_complete (ros_topic_prefix ++ a) size da)
    ∙ e
    ∙ generate_complete (ros_topic_prefix ++ b) size db)

generate-apart :
    (x y : List ℕ) (size : ℕ)
    → get_or x 1 0 ≢ get_or y 1 0
    → (generate x size).0 ≡ true
    → (generate y size).0 ≡ true
    → (generate x size).1 ≢ (generate y size).1
generate-apart x y size ne dx dy e = ne (
    ap (λ (l : List ℕ). get_or l 1 0)
      (sym (generate_complete x size dx) ∙ e ∙ generate_complete y size dy))

-- If the names of a service and of a topic are generated with success, the topic's name is neither
-- the service's request topic nor its reply topic, and these two differ.
pub generate_service_topics-apart :
    (service topic : List ℕ) (size : ℕ)
    → (generate_service_topics service size).0 ≡ true
    → (generate_topic_name topic size).0 ≡ true
    → let (done, request, reply) = generate_service_topics service size in
      let name = (generate_topic_name topic size).1 in
      (name ≢ request) × (name ≢ reply) × (request ≢ reply)
unfolding generate_service_topics generate_topic_name
generate_service_topics-apart service topic size ds dt =
    let request = ros_request_prefix ++ service ++ ros_request_subfix in
    let reply = ros_reply_prefix ++ service ++ ros_reply_subfix in
    let name = ros_topic_prefix ++ topic in
    let dq : (generate request size).0 ≡ true = ground (arith, ds) in
    let dr : (generate reply size).0 ≡ true = ground (arith, ds) in
    (
      generate-apart name request size (ground arith) dt dq,
      generate-apart name reply size (ground arith) dt dr,
      generate-apart request reply size (ground arith) dq dr,
    )
