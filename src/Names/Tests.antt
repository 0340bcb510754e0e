-- ===== src/Names/Tests.antt =====
-- The theorems on names at short ones.
use rmw_microxrcedds.Prelude.{ℕ, ◌≡◌, ◌≢◌, ◌↔◌, arith, refl, true, List, [], ◌∷◌}
use rmw_microxrcedds.Samples.{qos_of, ten_seconds}
use rmw_microxrcedds.Samples.Network.{config, members}
use rmw_microxrcedds.Names.Xml.{
  codes, topic_with_prefix, topic_text, data_text, reliability_text, build_topic_xml,
  build_datawriter_xml, build_datareader_xml, profile_of, build_topic_profile,
  build_datawriter_profile, build_datareader_profile,
}
use rmw_microxrcedds.Names.Whole.{Written, build_xml-Written, build_topic_profile_iff}
use rmw_microxrcedds.Names.{
  generate, generate_type_name, namespace_of, generate_topic_name, generate_service_topics,
}
use rmw_microxrcedds.Names.Complete.{generate_service_topics-apart}

abbrev ab : List ℕ
ab = 97 ∷ 98 ∷ []

generated : (generate_topic_name ab 8).0 ≡ true
unfolding generate_topic_name generate
generated = refl

generated_service : (generate_service_topics (97 ∷ []) 16).0 ≡ true
unfolding generate_service_topics generate
generated_service = refl

generated_topic : (generate_topic_name (97 ∷ []) 16).0 ≡ true
unfolding generate_topic_name generate
generated_topic = refl

generate_service_topics-apart_example :
    let (done, request, reply) = generate_service_topics (97 ∷ []) 16 in
    let name = (generate_topic_name (97 ∷ []) 16).1 in
    (name ≢ request) × (name ≢ reply) × (request ≢ reply)
generate_service_topics-apart_example =
    generate_service_topics-apart (97 ∷ []) (97 ∷ []) 16 generated_service generated_topic

built_type : (generate_type_name members config.type_name_max_length).0 ≡ true
unfolding generate_type_name namespace_of generate
built_type = refl

-- A buffer of 10 bytes does not hold the text, and still the answer is not 0.
build_xml-Written_example :
    let type = (generate_type_name members config.type_name_max_length).1 in
    let qos = qos_of ten_seconds in
    let full = topic_with_prefix qos ab in
    let kind = reliability_text qos.reliability in
    Written 10 (topic_text full type) (build_topic_xml config ab members qos [] 10)
    × Written 10
        (data_text (codes "data_writer") kind full type)
        (build_datawriter_xml config ab members qos [] 10)
    × Written 10
        (data_text (codes "data_reader") kind full type)
        (build_datareader_xml config ab members qos [] 10)
build_xml-Written_example =
    build_xml-Written config ab members (qos_of ten_seconds) [] 10 (omega arith) built_type

topic_built : (build_topic_profile ab 9).0 ≡ true
unfolding build_topic_profile profile_of
topic_built = refl

writer_built : (build_datawriter_profile ab 9).0 ≡ true
unfolding build_datawriter_profile profile_of
writer_built = refl

reader_built : (build_datareader_profile ab 9).0 ≡ true
unfolding build_datareader_profile profile_of
reader_built = refl

other_built : (build_topic_profile (47 ∷ 98 ∷ []) 9).0 ≡ true
unfolding build_topic_profile profile_of
other_built = refl

-- Topics "/b" and "ab" have the same profile.
build_topic_profile_iff_example :
    (((build_topic_profile (47 ∷ 98 ∷ []) 9).1 ≡ (build_topic_profile ab 9).1)
      ↔ ◌≡◌ {A = List ℕ} (98 ∷ []) (98 ∷ []))
    × ((build_topic_profile (47 ∷ 98 ∷ []) 9).1 ≢ (build_datawriter_profile ab 9).1)
    × ((build_topic_profile (47 ∷ 98 ∷ []) 9).1 ≢ (build_datareader_profile ab 9).1)
    × ((build_datawriter_profile ab 9).1 ≢ (build_datareader_profile ab 9).1)
build_topic_profile_iff_example =
    build_topic_profile_iff (47 ∷ 98 ∷ []) ab 9 other_built topic_built writer_built reader_built
