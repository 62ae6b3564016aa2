-- ===== src/Tests/Collection.antt =====
-- interfaces/xpcf/collection: loops over small collections.
use xpcf.Base.{ℕ, ◌-◌, ◌^◌, ◌≡◌, arith, List, [], ◌∷◌, nat_keys}
use xpcf.Exec.{ok, err, out_of_range}
use xpcf.Collection.{get_enumerator, for_each}
use xpcf.Collection.Iterate.{for_each-get_enumerator, for_block, for_block_lem, for_block-wraps}

abbrev digits : List ℕ
digits = 3 ∷ 1 ∷ 4 ∷ 1 ∷ []

for_each-get_enumerator_example : for_each 6 digits get_enumerator ≡ ok digits
for_each-get_enumerator_example = for_each-get_enumerator digits 6 (omega arith)

for_block_lem_example : for_block digits 4 1 2 ≡ ok (1 ∷ 4 ∷ [])
for_block_lem_example = for_block_lem digits 4 1 2 (omega arith) (omega arith)

past_run : for_block digits 4 3 2 ≡ err out_of_range
past_run = for_block_lem digits 4 3 2 (omega arith) (omega arith)

-- Two elements from the third on, with a size that wraps around to them.
for_block-wraps_example : for_block digits 1 3 (2 ^ 32 - 1) ≡ ok []
for_block-wraps_example =
    for_block-wraps digits 1 3 (2 ^ 32 - 1) (omega arith) (omega arith) (omega arith) (omega arith)
      (omega arith)
