-- ===== src/Topics.antt =====
-- `ULogger::getOrMakeTopicVariant` of ulog/src/ulogger.cpp: a message type's topics are numbered from
-- 1 in the order in which they are first logged. The number goes into the packet by `setVariant`.
pub mod Laws
mod Tests
use cbuf.Base.{
  ℕ, suc, zero, ◌+◌, ◌%◌, ◌^◌, ◌≡◌, Option, none, some, List, [], ◌∷◌, ◌++◌, ◌==◌, if◌then◌else◌,
  length,
}
use cbuf.Base.Map.{lookup, insert}

-- `cos.variant_dictionary`: the topics of each message hash
abbrev pub VariantDictionary : Type 0
VariantDictionary = List (ℕ × List ℕ)

-- The search loop: the first index that holds the topic, or the length.
unfoldable pub index_of : ℕ → List ℕ → ℕ
index_of topic [] = 0
index_of topic (t ∷ ts) = if t == topic then 0 else suc (index_of topic ts)

unfoldable pub get_or_make_topic_variant : ℕ → ℕ → VariantDictionary → ℕ × VariantDictionary
get_or_make_topic_variant message_hash topic d = elim (lookup message_hash d) [
  | none ↦ (1, insert message_hash (topic ∷ []) d)
  | some ts ↦
      if index_of topic ts == length ts
      then (length ts + 1, insert message_hash (ts ++ (topic ∷ [])) d)
      else (index_of topic ts + 1, d)
]
