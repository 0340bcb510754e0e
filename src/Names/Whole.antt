-- ===== src/Names/Whole.antt =====
-- The texts of utils.c are whole when their names fit, but for the last buffer, and profiles tell
-- their topics apart but for the first byte (rmw_microxrcedds_c/src).
use rmw_microxrcedds.Prelude.{
  ℕ, ◌+◌, ◌-◌, ◌≤◌, ◌≡◌, ◌≢◌, ◌↔◌, refl, sym, ap, ◌∙◌, Bool, true, false, List, [], ◌∷◌, ◌++◌,
  length, length-append, take, drop, ltb, leb, arith, if◌then◌else◌,
}
use mathlib.Core.List.{append_cancel_right}
use mathlib.Core.Path.{subst⁻¹}
use rmw_microxrcedds.Types.{Members, ServiceMembers, QosProfile}
use rmw_microxrcedds.Xrce.{Config}
use rmw_microxrcedds.Names.{
  ros_topic_prefix, ros_request_prefix, ros_reply_prefix, ros_request_subfix, ros_reply_subfix,
  generate_type_name,
}
use rmw_microxrcedds.Names.Complete.{take-most}
use rmw_microxrcedds.Names.Xml.{
  codes, too_large, print_xml, topic_with_prefix, topic_text, data_text, reliability_text,
  full_topic_name_size, print_topic, build_topic_xml, build_xml, build_datawriter_xml,
  build_datareader_xml, service_topic_names, service_text, build_service_xml, profile_of,
  build_topic_profile, build_datawriter_profile, build_datareader_profile,
}

-- The test after `snprintf` is never true.
never_too_large : (ret size : ℕ) → too_large ret size ≡ false
never_too_large ret size = ground arith

-- The length of the text, which is not 0 because of the size, and what the buffer has of it.
abbrev pub Written : ℕ → List ℕ → ℕ × List ℕ → Type 0
Written size text r = (r.0 ≡ length text) × (r.1 ≡ take (size - 1) text)

print_xml-Written : (size : ℕ) (text : List ℕ) → Written size text (print_xml size text)
unfolding print_xml
print_xml-Written size text = (rw (never_too_large (length text) size) refl, refl)

prefixed_length :
    (plain : Bool) (name : List ℕ) (n : ℕ)
    → length name ≤ n
    → length (if plain then name else ros_topic_prefix ++ name) ≤ n + 1 + 3 - 1
prefixed_length true name n h = omega arith
prefixed_length false name n h = omega arith

module _ (config : Config) where
  -- A name within the limit fits its buffer with the prefix.
  print_topic-Written :
      (text : List ℕ → List ℕ) (qos : QosProfile) (name xml : List ℕ) (size : ℕ)
      → length name ≤ config.topic_name_max_length
      → Written size (text (topic_with_prefix qos name)) (print_topic config text qos name xml size)
  unfolding print_topic topic_with_prefix
  print_topic-Written text qos name xml size h =
      let full = topic_with_prefix qos name in
      let fits =
        take-most (full_topic_name_size config - 1) full (
          prefixed_length qos.avoid_ros_namespace_conventions name config.topic_name_max_length
            h) in
      rw (never_too_large (length full) size) (
        subst⁻¹ (λ (t : List ℕ). Written size (text full) (print_xml size (text t))) fits
          (print_xml-Written size (text full)))

  -- If the name of a topic is within RMW_UXRCE_TOPIC_NAME_MAX_LENGTH and the name of its type fits
  -- its buffer, `build_topic_xml`, `build_datawriter_xml` and `build_datareader_xml` return the
  -- length of a text with both names whole, and the buffer has the part of that text that its size
  -- allows. So it is for every size: a text that is cut is not told from one that is whole by an
  -- answer of 0.
  pub build_xml-Written :
      (name : List ℕ) (members : Members) (qos : QosProfile) (xml : List ℕ) (size : ℕ)
      → length name ≤ config.topic_name_max_length
      → (generate_type_name members config.type_name_max_length).0 ≡ true
      → let type = (generate_type_name members config.type_name_max_length).1 in
        let full = topic_with_prefix qos name in
        let kind = reliability_text qos.reliability in
        Written size (topic_text full type) (build_topic_xml config name members qos xml size)
        × Written size
            (data_text (codes "data_writer") kind full type)
            (build_datawriter_xml config name members qos xml size)
        × Written size
            (data_text (codes "data_reader") kind full type)
            (build_datareader_xml config name members qos xml size)
  unfolding build_topic_xml build_datawriter_xml build_datareader_xml build_xml
  build_xml-Written name members qos xml size h done =
      let type = (generate_type_name members config.type_name_max_length).1 in
      let kind = reliability_text qos.reliability in
      let short : leb (length name) config.topic_name_max_length ≡ true = ground arith in
      rw (short, done)
        (
          print_topic-Written (λ full. topic_text full type) qos name xml size h,
          print_topic-Written (λ full. data_text (codes "data_writer") kind full type) qos name xml
              size h,
          print_topic-Written (λ full. data_text (codes "data_reader") kind full type) qos name xml
              size h,
        )

  service_topic_names-fit :
      (plain : Bool) (name : List ℕ)
      → length name ≤ config.topic_name_max_length
      → service_topic_names config plain name ≡ (
        true,
        if plain then name else ros_request_prefix ++ name ++ ros_request_subfix,
        if plain then name else ros_reply_prefix ++ name ++ ros_reply_subfix,
      )
  unfolding service_topic_names
  service_topic_names-fit true name h =
      let n = config.topic_name_max_length in
      let short : ltb (length name) (n + 1 + 3 + 1 + 8) ≡ true = ground arith in
      let request : take (n + 1 + 3 + 1 + 8 - 1) name ≡ name = take-most _ name (omega arith) in
      let reply : take (n + 1 + 3 + 1 + 6 - 1) name ≡ name = take-most _ name (omega arith) in
      rw (short, request, reply) refl
  service_topic_names-fit false name h =
      let n = config.topic_name_max_length in
      let q = ros_request_prefix ++ name ++ ros_request_subfix in
      let p = ros_reply_prefix ++ name ++ ros_reply_subfix in
      let long_q : length q ≡ length name + 9 =
        omega (arith, length-append name ros_request_subfix) in
      let long_p : length p ≡ length name + 7 =
        omega (arith, length-append name ros_reply_subfix) in
      let short_q : ltb (length q) (n + 1 + 3 + 1 + 8) ≡ true = ground arith in
      let short_p : ltb (length p) (n + 1 + 3 + 1 + 6) ≡ true = ground arith in
      let request : take (n + 1 + 3 + 1 + 8 - 1) q ≡ q = take-most _ q (omega arith) in
      let reply : take (n + 1 + 3 + 1 + 6 - 1) p ≡ p = take-most _ p (omega arith) in
      rw (short_q, short_p, request, reply) refl

  -- The names of a service's topics, in the text of its requester and replier, are whole too.
  pub build_service_xml-Written :
      (id name : List ℕ) (requester : Bool) (members : ServiceMembers) (qos : QosProfile)
      (xml : List ℕ) (size : ℕ)
      → length name ≤ config.topic_name_max_length
      → let plain = qos.avoid_ros_namespace_conventions in
        Written size
          (service_text config
            (if requester then codes "requester" else codes "replier")
            id
            name
            (generate_type_name members.request_members config.type_name_max_length).1
            (generate_type_name members.response_members config.type_name_max_length).1
            (if plain then name else ros_request_prefix ++ name ++ ros_request_subfix)
            (if plain then name else ros_reply_prefix ++ name ++ ros_reply_subfix))
          (build_service_xml config id name requester members qos xml size)
  unfolding build_service_xml
  build_service_xml-Written id name requester members qos xml size h =
      let plain = qos.avoid_ros_namespace_conventions in
      let q = if plain then name else ros_request_prefix ++ name ++ ros_request_subfix in
      let p = if plain then name else ros_reply_prefix ++ name ++ ros_reply_subfix in
      let text : List ℕ → List ℕ → List ℕ = λ q p.
        service_text config (if requester then codes "requester" else codes "replier") id name
          (generate_type_name members.request_members config.type_name_max_length).1
          (generate_type_name members.response_members config.type_name_max_length).1 q p in
      subst⁻¹
        (λ (r : Bool × List ℕ × List ℕ).
          Written size (text q p) (if r.0 then print_xml size (text r.1 r.2) else (0, xml)))
        (service_topic_names-fit plain name h) (print_xml-Written size (text q p))

last_of : List ℕ → ℕ
last_of [] = 0
last_of (x ∷ []) = x
last_of (x ∷ y ∷ ys) = last_of (y ∷ ys)

last_of-append : (xs : List ℕ) (y : ℕ) (ys : List ℕ) → last_of (xs ++ y ∷ ys) ≡ last_of (y ∷ ys)
unfolding last_of
last_of-append [] y ys = refl
last_of-append (x ∷ []) y ys = refl
last_of-append (x ∷ z ∷ xs) y ys = last_of-append (z ∷ xs) y ys

profile_of_whole :
    (suffix name : List ℕ) (size : ℕ)
    → (profile_of suffix name size).0 ≡ true
    → (profile_of suffix name size).1 ≡ drop 1 name ++ suffix
unfolding profile_of
profile_of_whole suffix name size done =
    let text = drop 1 name ++ suffix in
    let fits : ltb (length text) size ≡ true = ground (arith, done) in
    take-most (size - 1) text (ground (arith, fits))

profile_of-apart :
    (s t : List ℕ) (c d : ℕ) (a b : List ℕ) (size : ℕ)
    → last_of (c ∷ s) ≢ last_of (d ∷ t)
    → (profile_of (c ∷ s) a size).0 ≡ true
    → (profile_of (d ∷ t) b size).0 ≡ true
    → (profile_of (c ∷ s) a size).1 ≢ (profile_of (d ∷ t) b size).1
profile_of-apart s t c d a b size ne da db e = ne (
    sym (last_of-append (drop 1 a) c s)
    ∙ ap last_of (sym (profile_of_whole (c ∷ s) a size da) ∙ e ∙ profile_of_whole (d ∷ t) b size db)
    ∙ last_of-append (drop 1 b) d t)

-- If the profiles of a topic, and of a data writer and a data reader on another topic or the same,
-- are built with success, their names differ. The profiles of two topics have the same name exactly
-- when the names of the topics differ at most in the first byte.
pub build_topic_profile_iff :
    (a b : List ℕ) (size : ℕ)
    → (build_topic_profile a size).0 ≡ true
    → (build_topic_profile b size).0 ≡ true
    → (build_datawriter_profile b size).0 ≡ true
    → (build_datareader_profile b size).0 ≡ true
    → (((build_topic_profile a size).1 ≡ (build_topic_profile b size).1) ↔ (drop 1 a ≡ drop 1 b))
      × ((build_topic_profile a size).1 ≢ (build_datawriter_profile b size).1)
      × ((build_topic_profile a size).1 ≢ (build_datareader_profile b size).1)
      × ((build_datawriter_profile b size).1 ≢ (build_datareader_profile b size).1)
unfolding build_topic_profile build_datawriter_profile build_datareader_profile last_of
build_topic_profile_iff a b size ta tb wb rb =
    let t = codes "__t" in
    (
      (
        λ e.
            append_cancel_right (drop 1 a) (drop 1 b) t
              (sym (profile_of_whole t a size ta) ∙ e ∙ profile_of_whole t b size tb),
        λ e.
            profile_of_whole t a size ta
            ∙ ap (λ (l : List ℕ). l ++ t) e
            ∙ sym (profile_of_whole t b size tb),
      ),
      profile_of-apart (95 ∷ 116 ∷ []) (95 ∷ 100 ∷ 119 ∷ []) 95 95 a b size (λ e. ground (arith, e))
          ta wb,
      profile_of-apart (95 ∷ 116 ∷ []) (95 ∷ 100 ∷ 114 ∷ []) 95 95 a b size (λ e. ground (arith, e))
          ta rb,
      profile_of-apart (95 ∷ 100 ∷ 119 ∷ []) (95 ∷ 100 ∷ 114 ∷ []) 95 95 b b size
          (λ e. ground (arith, e)) wb rb,
    )
