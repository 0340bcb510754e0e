-- ===== src/Names/Xml.antt =====
-- The XML texts that utils.c builds for the graph and for the build with RMW_UXRCE_USE_REFS, and
-- the names of profiles for that build (rmw_microxrcedds_c/src). `snprintf` does not fail, and a
-- size is below 2 ^ 31.
use Prim.Native.String.{String}
use Prim.Native.Char.{code}
use rmw_microxrcedds.Prelude.{
  ℕ, zero, suc, ◌+◌, ◌/◌, ◌%◌, Bool, true, false, ◌&&◌, List, [], ◌∷◌, ◌++◌, length, drop, ltb, leb,
  if◌then◌else◌,
}
use rmw_microxrcedds.Types.{ObjectId, Members, ServiceMembers, QosProfile, ReliabilityPolicy}
use rmw_microxrcedds.Xrce.{Config}
use rmw_microxrcedds.Names.{
  snprintf, ros_topic_prefix, ros_request_prefix, ros_reply_prefix, ros_request_subfix,
  ros_reply_subfix, generate_type_name,
}

-- The bytes of a literal in the source.
abbrev pub codes : String → List ℕ
codes String.[] = []
codes (String.◌∷◌ c s) = code c ∷ codes s

-- `(ret < 0) && (ret >= (int)buffer_size)`
abbrev pub too_large : ℕ → ℕ → Bool
too_large ret size = ltb ret 0 && leb size ret

-- `snprintf` into a buffer, with the test that the XML functions make after it.
unfoldable pub print_xml : ℕ → List ℕ → ℕ × List ℕ
print_xml size text =
    let (ret, xml) = snprintf size text in (if too_large ret size then 0 else ret, xml)

-- `build_participant_xml`: what it returns, and what the buffer has.
unfoldable pub build_participant_xml : List ℕ → ℕ → ℕ × List ℕ
unfolding print_xml
build_participant_xml participant_name size = print_xml size (
    codes "<dds><participant><rtps><name>"
    ++ participant_name
    ++ codes "</name></rtps></participant></dds>")

-- `build_publisher_xml`
unfoldable pub build_publisher_xml : List ℕ → ℕ → ℕ × List ℕ
build_publisher_xml publisher_name size = (1, [])

-- `build_subscriber_xml`
unfoldable pub build_subscriber_xml : List ℕ → ℕ → ℕ × List ℕ
build_subscriber_xml subscriber_name size = (1, [])

-- A number in decimal, of at most `width` digits.
unfoldable pub decimal : ℕ → ℕ → List ℕ
decimal zero n = []
decimal (suc width) n =
    let rest = decimal width (n / 10) in
    if ltb n 10 then (48 + n) ∷ [] else rest ++ (48 + n % 10) ∷ []

-- `generate_name`: "%hu_%hi" of an `uint16_t` and an `uint8_t`.
unfoldable pub generate_name : ObjectId → ℕ → ℕ × List ℕ
unfolding print_xml decimal
generate_name id size = print_xml size (decimal 5 id.id ++ codes "_" ++ decimal 3 id.type)

-- The name of a topic with the prefix, if the conventions ask for it.
unfoldable pub topic_with_prefix : QosProfile → List ℕ → List ℕ
topic_with_prefix qos topic_name =
    if qos.avoid_ros_namespace_conventions then topic_name else ros_topic_prefix ++ topic_name

-- The text of a topic.
abbrev pub topic_text : List ℕ → List ℕ → List ℕ
topic_text name type =
    codes "<dds><topic><name>"
    ++ name
    ++ codes "</name><dataType>"
    ++ type
    ++ codes "</dataType></topic></dds>"

-- The text of a data writer or reader: the names of its element, the reliability, the topic and the
-- type.
abbrev pub data_text : List ℕ → List ℕ → List ℕ → List ℕ → List ℕ
data_text element kind name type =
    codes "<dds><"
    ++ element
    ++ codes
        "><historyMemoryPolicy>PREALLOCATED_WITH_REALLOC</historyMemoryPolicy><qos><reliability><kind>"
    ++ kind
    ++ codes "</kind></reliability></qos><topic><kind>NO_KEY</kind><name>"
    ++ name
    ++ codes "</name><dataType>"
    ++ type
    ++ codes "</dataType><historyQos><kind>KEEP_ALL</kind></historyQos></topic></"
    ++ element
    ++ codes "></dds>"

unfoldable pub reliability_text : ReliabilityPolicy → List ℕ
reliability_text ReliabilityPolicy.best_effort = codes "BEST_EFFORT"
reliability_text _ = codes "RELIABLE"

module _ (config : Config) where
  -- RMW_UXRCE_TOPIC_NAME_MAX_LENGTH + 1 + sizeof(ros_topic_prefix)
  abbrev pub full_topic_name_size : ℕ
  full_topic_name_size = config.topic_name_max_length + 1 + 3

  -- The part of `build_topic_xml` and `build_xml` from `full_topic_name` on, for a text of that
  -- name.
  unfoldable pub print_topic : (List ℕ → List ℕ) → QosProfile → List ℕ → List ℕ → ℕ → ℕ × List ℕ
  unfolding print_xml topic_with_prefix
  print_topic text qos topic_name xml size =
      let (ret, full) = snprintf full_topic_name_size (topic_with_prefix qos topic_name) in
      if too_large ret size then (0, xml) else print_xml size (text full)

  -- `build_topic_xml`, with what the buffer had before.
  unfoldable pub build_topic_xml : List ℕ → Members → QosProfile → List ℕ → ℕ → ℕ × List ℕ
  unfolding print_topic
  build_topic_xml topic_name members qos xml size =
      let (done, type) = generate_type_name members config.type_name_max_length in
      if leb (length topic_name) config.topic_name_max_length && done
      then print_topic (λ full. topic_text full type) qos topic_name xml size
      else (0, xml)

  -- `build_xml`; the format is a function of the three texts that it takes.
  unfoldable pub build_xml :
      (List ℕ → List ℕ → List ℕ → List ℕ) → List ℕ → Members → QosProfile → List ℕ → ℕ → ℕ × List ℕ
  unfolding print_topic reliability_text
  build_xml format topic_name members qos xml size =
      let (done, type) = generate_type_name members config.type_name_max_length in
      if done
      then print_topic (λ full. format (reliability_text qos.reliability) full type) qos topic_name
          xml size
      else (0, xml)

  -- `build_datawriter_xml`
  unfoldable pub build_datawriter_xml : List ℕ → Members → QosProfile → List ℕ → ℕ → ℕ × List ℕ
  build_datawriter_xml = build_xml (data_text (codes "data_writer"))

  -- `build_datareader_xml`
  unfoldable pub build_datareader_xml : List ℕ → Members → QosProfile → List ℕ → ℕ → ℕ × List ℕ
  build_datareader_xml = build_xml (data_text (codes "data_reader"))

  -- The names of the request and reply topics, if they fit their buffers. The buffer of
  -- the reply is two bytes shorter, which the last test does not look at.
  unfoldable pub service_topic_names : Bool → List ℕ → Bool × List ℕ × List ℕ
  service_topic_names avoid_conventions service_name =
      let request_size = config.topic_name_max_length + 1 + 3 + 1 + 8 in
      let reply_size = config.topic_name_max_length + 1 + 3 + 1 + 6 in
      let (ret_req, request) = snprintf request_size (
        if avoid_conventions
        then service_name
        else ros_request_prefix ++ service_name ++ ros_request_subfix) in
      let (ret_rep, reply) = snprintf reply_size (
        if avoid_conventions
        then service_name
        else ros_reply_prefix ++ service_name ++ ros_reply_subfix) in
      (
        ltb ret_req request_size
            && ltb ret_rep (if avoid_conventions then request_size else reply_size),
        request,
        reply,
      )

  -- The text of a requester or replier.
  abbrev pub service_text : List ℕ → List ℕ → List ℕ → List ℕ → List ℕ → List ℕ → List ℕ → List ℕ
  service_text element id name request_type reply_type request reply =
      codes "<dds><"
      ++ element
      ++ codes " profile_name=\""
      ++ id
      ++ codes "\" service_name=\""
      ++ name
      ++ codes "\" request_type=\""
      ++ request_type
      ++ codes "\" reply_type=\""
      ++ reply_type
      ++ codes "\"><request_topic_name>"
      ++ request
      ++ codes "</request_topic_name><reply_topic_name>"
      ++ reply
      ++ codes "</reply_topic_name></"
      ++ element
      ++ codes "></dds>"

  -- `build_service_xml`
  unfoldable pub build_service_xml :
      List ℕ → List ℕ → Bool → ServiceMembers → QosProfile → List ℕ → ℕ → ℕ × List ℕ
  unfolding service_topic_names print_xml
  build_service_xml id service_name requester members qos xml size =
      let request_type =
        (generate_type_name members.request_members config.type_name_max_length).1 in
      let reply_type =
        (generate_type_name members.response_members config.type_name_max_length).1 in
      let (done, request, reply) =
        service_topic_names qos.avoid_ros_namespace_conventions service_name in
      if done
      then print_xml size (
          service_text (if requester then codes "requester" else codes "replier") id service_name
            request_type reply_type request reply)
      else (0, xml)

-- `build_participant_profile`, with what the buffer had before.
unfoldable pub build_participant_profile : List ℕ → ℕ → Bool × List ℕ
build_participant_profile profile_name size =
    let profile = codes "participant_profile" in
    if leb (length profile + 1) size then (true, profile) else (false, profile_name)

-- The name of a profile: the topic without its first byte, and a suffix. The functions that create
-- entities refuse the empty name, for which the source reads beyond its end.
unfoldable pub profile_of : List ℕ → List ℕ → ℕ → Bool × List ℕ
profile_of suffix topic_name size =
    let (written, profile_name) = snprintf size (drop 1 topic_name ++ suffix) in
    (ltb 0 written && ltb written size, profile_name)

-- `build_topic_profile`
unfoldable pub build_topic_profile : List ℕ → ℕ → Bool × List ℕ
unfolding profile_of
build_topic_profile = profile_of (codes "__t")

-- `build_datawriter_profile`
unfoldable pub build_datawriter_profile : List ℕ → ℕ → Bool × List ℕ
unfolding profile_of
build_datawriter_profile = profile_of (codes "__dw")

-- `build_datareader_profile`
unfoldable pub build_datareader_profile : List ℕ → ℕ → Bool × List ℕ
unfolding profile_of
build_datareader_profile = profile_of (codes "__dr")
