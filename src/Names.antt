-- ===== src/Names.antt =====
-- The names of utils.c (rmw_microxrcedds_c/src): `generate_topic_name`, `generate_type_name`,
-- `generate_service_topics` and `generate_service_types`. Texts are lists of bytes without the
-- terminating 0, and buffer sizes are below 2 ^ 31, so that the casts to `int` keep them.
pub mod Complete
pub mod Xml
pub mod Whole
pub mod Decimal
mod Tests
use rmw_microxrcedds.Types.{Members, ServiceMembers}
use rmw_microxrcedds.Prelude.{
  ℕ, ◌-◌, Bool, ◌&&◌, Option, none, some, List, [], ◌∷◌, ◌++◌, length, take, ltb,
}

-- `snprintf` of a text into a buffer: the number of bytes of the whole text, and what the buffer
-- has.
abbrev pub snprintf : ℕ → List ℕ → ℕ × List ℕ
snprintf size text = (length text, take (size - 1) text)

-- "rt", "rq", "rr", "Request", "Reply"
abbrev pub ros_topic_prefix : List ℕ
ros_topic_prefix = 114 ∷ 116 ∷ []

abbrev pub ros_request_prefix : List ℕ
ros_request_prefix = 114 ∷ 113 ∷ []

abbrev pub ros_reply_prefix : List ℕ
ros_reply_prefix = 114 ∷ 114 ∷ []

abbrev pub ros_request_subfix : List ℕ
ros_request_subfix = 82 ∷ 101 ∷ 113 ∷ 117 ∷ 101 ∷ 115 ∷ 116 ∷ []

abbrev pub ros_reply_subfix : List ℕ
ros_reply_subfix = 82 ∷ 101 ∷ 112 ∷ 108 ∷ 121 ∷ []

-- "::", "dds", "_"
abbrev pub sep : List ℕ
sep = 58 ∷ 58 ∷ []

abbrev pub protocol : List ℕ
protocol = 100 ∷ 100 ∷ 115 ∷ []

abbrev pub suffix : List ℕ
suffix = 95 ∷ []

-- Whether the text was complete, and what the buffer has.
unfoldable pub generate : List ℕ → ℕ → Bool × List ℕ
generate text size = let (ret, buffer) = snprintf size text in (ltb ret size, buffer)

unfoldable pub generate_topic_name : List ℕ → ℕ → Bool × List ℕ
unfolding generate
generate_topic_name topic_name size = generate (ros_topic_prefix ++ topic_name) size

unfoldable pub namespace_of : Option (List ℕ) → List ℕ
namespace_of none = []
namespace_of (some ns) = ns ++ sep

unfoldable pub generate_type_name : Members → ℕ → Bool × List ℕ
unfolding generate namespace_of
generate_type_name members size =
    generate
      (namespace_of members.message_namespace
        ++ protocol
        ++ suffix
        ++ sep
        ++ members.message_name
        ++ suffix)
      size

-- The names of the request and of the reply.
unfoldable pub generate_service_topics : List ℕ → ℕ → Bool × List ℕ × List ℕ
unfolding generate
generate_service_topics service_name size =
    let (req, request) = generate (ros_request_prefix ++ service_name ++ ros_request_subfix) size in
    let (rep, reply) = generate (ros_reply_prefix ++ service_name ++ ros_reply_subfix) size in
    (req && rep, request, reply)

-- The names of the types of the request and of the reply.
unfoldable pub generate_service_types : ServiceMembers → ℕ → Bool × List ℕ × List ℕ
generate_service_types members size =
    let (req, request) = generate_type_name members.request_members size in
    let (rep, reply) = generate_type_name members.response_members size in
    (req && rep, request, reply)
