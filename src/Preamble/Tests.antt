-- ===== src/Preamble/Tests.antt =====
-- The preamble's theorems at concrete words.
use cbuf.Base.{◌+◌, ◌*◌, ◌%◌, ◌^◌, ◌≡◌, refl, some, arith}
use cbuf.Preamble.{Preamble, has_variant, size, set_size, variant, set_variant, cbuf_magic}
use cbuf.Preamble.Laws.{IsWord, OnlyWord, set_size_lem, set_variant_lem}

-- variant 3, size 100
abbrev tagged : Preamble
tagged = record {
  magic = cbuf_magic;
  size_word = 2 ^ 31 + 3 * 2 ^ 27 + 100;
  hash = 77;
  packet_timest = 0;
}

abbrev resized : Preamble
resized = record tagged { size_word = 2 ^ 31 + 3 * 2 ^ 27 + 200 }

fields_read : (size tagged ≡ 100) × (variant tagged ≡ 3)
unfolding size variant has_variant
fields_read = (refl, refl)

resize : set_size 200 tagged ≡ some resized
unfolding set_size has_variant
resize = refl

set_size_lem_example :
    (size resized ≡ 200)
    × (variant resized ≡ variant tagged)
    × OnlyWord tagged resized
    × IsWord resized
set_size_lem_example = set_size_lem 200 tagged resized (omega arith) resize

retag : set_variant 9 tagged ≡ some (record tagged { size_word = 2 ^ 31 + 9 * 2 ^ 27 + 100 })
unfolding set_variant has_variant size
retag = refl

set_variant_lem_example :
    let q = record tagged { size_word = 2 ^ 31 + 9 * 2 ^ 27 + 100 } in
    (variant q ≡ 9 % 16) × (size q ≡ size tagged) × OnlyWord tagged q × IsWord q
set_variant_lem_example =
    set_variant_lem 9 tagged (record tagged { size_word = 2 ^ 31 + 9 * 2 ^ 27 + 100 }) (omega arith)
      retag
