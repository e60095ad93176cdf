-- ===== src/Topics/Tests.antt =====
-- Topics of one message type, and the theorems about them at concrete dictionaries.
use cbuf.Base.{◌+◌, ◌%◌, ◌^◌, ◌<◌, ◌≡◌, ◌≢◌, ◌↔◌, refl, some, [], ◌∷◌, arith}
use cbuf.Base.Map.{lookup}
use cbuf.Preamble.{Preamble, has_variant, size, variant, set_variant, cbuf_magic}
use cbuf.Topics.{VariantDictionary, index_of, get_or_make_topic_variant}
use cbuf.Topics.Laws.{
  IsKnown, topics, numbers_differ, numbers_stable, logged-IsKnown, packet_variant,
}

-- Message 5 has the topics 100 and 200.
abbrev two_topics : VariantDictionary
two_topics = (5, 100 ∷ 200 ∷ []) ∷ []

abbrev packet : Preamble
packet = record { magic = cbuf_magic; size_word = 24; hash = 5; packet_timest = 0 }

third_topic : (get_or_make_topic_variant 5 300 two_topics).0 ≡ 3
unfolding get_or_make_topic_variant lookup index_of
third_topic = refl

numbers_differ_example :
    (get_or_make_topic_variant 5 100 two_topics).0 ≢ (get_or_make_topic_variant 5 200 two_topics).0
unfolding lookup index_of
numbers_differ_example =
    numbers_differ 5 100 200 two_topics (omega arith) (omega arith) (omega arith)

numbers_stable_example :
    let d = (get_or_make_topic_variant 5 300 two_topics).1 in
    ((get_or_make_topic_variant 5 200 d).0 ≡ (get_or_make_topic_variant 5 200 two_topics).0)
    × IsKnown 5 200 d
unfolding lookup index_of
numbers_stable_example = numbers_stable 5 200 5 300 two_topics (omega arith)

logged-IsKnown_example : IsKnown 5 300 (get_or_make_topic_variant 5 300 two_topics).1
logged-IsKnown_example = logged-IsKnown 5 300 two_topics

-- The first topic of a message type that the log has not seen.
first_variant :
    set_variant ((get_or_make_topic_variant 6 100 two_topics).0 % 2 ^ 8) packet
    ≡ some (record packet { size_word = 2 ^ 31 + 2 ^ 27 + 24 })
unfolding set_variant has_variant size get_or_make_topic_variant lookup
first_variant = refl

packet_variant_example :
    let q = record packet { size_word = 2 ^ 31 + 2 ^ 27 + 24 } in
    (variant q ≡ (get_or_make_topic_variant 6 100 two_topics).0 % 16)
    × ((variant q ≡ (get_or_make_topic_variant 6 100 two_topics).0)
        ↔ (index_of 100 (topics 6 two_topics) < 15))
packet_variant_example =
    packet_variant 6 100 two_topics packet (record packet { size_word = 2 ^ 31 + 2 ^ 27 + 24 })
      (omega arith) first_variant
