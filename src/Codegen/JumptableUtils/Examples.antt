-- ===== src/Codegen/JumptableUtils/Examples.antt =====
-- Runs of vyper/codegen/jumptable_utils.py, and the theorems at concrete inputs.
use vysvm.Common.{ℕ, List, [], ◌∷◌, Option, ◌≡◌, ◌%◌, some, true, arith, refl, ◌≢◌, ◌≤◌}
use vysvm.Common.Errors.{Result, ok}
use vysvm.Codegen.JumptableUtils.{
  generate_sparse_jumptable_buckets, find_smallest, stats_from, max_bucket_size, max_length,
  generate_dense_jumptable_info, Solution, Bucket, find_table, turn, turn_with, no_magic, proceed,
  dense_jumptable_info, mk_buckets, add_to_buckets, bucket_of, find_all, find_magic_for, try_magic,
  count_distinct, image_of, image, elem, start_bucket_size,
}
use vysvm.Common.Dict.{Dict, get, put}
use vysvm.Codegen.JumptableUtils.Perfect.{
  generate_dense_jumptable_info-perfect, generate_dense_jumptable_info_complete, slot_of,
}
use vysvm.Codegen.JumptableUtils.Search.{generate_dense_jumptable_info-ends}
use vysvm.Common.Eq.{ℕ_Eq}
use vysvm.Codegen.JumptableUtils.Sparse.{
  generate_sparse_jumptable_buckets_complete, generate_sparse_jumptable_buckets-least,
}

-- The ids of three functions of ERC20: transfer, approve and balanceOf.
abbrev selectors : List ℕ
selectors = 2835717307 ∷ 157198259 ∷ 1889567281 ∷ []

abbrev table : Dict ℕ Bucket
table = (0, record { bucket_id = 0; magic = 47; method_ids = selectors }) ∷ []

generated : generate_dense_jumptable_info 7 selectors ≡ some (ok (some (1, table)))
unfolding generate_dense_jumptable_info find_table turn turn_with no_magic proceed
    dense_jumptable_info mk_buckets add_to_buckets bucket_of find_all find_magic_for try_magic
    count_distinct image_of image elem start_bucket_size get put
generated = refl

generate_dense_jumptable_info-ends_example :
    (r : Result (Option Solution)) × (generate_dense_jumptable_info 7 selectors ≡ some r)
generate_dense_jumptable_info-ends_example =
    generate_dense_jumptable_info-ends selectors 7 (omega arith)

generate_dense_jumptable_info_complete_example :
    (b : Bucket) × (get (157198259 % 1) table ≡ some b) × (elem 157198259 b.method_ids ≡ true)
unfolding elem
generate_dense_jumptable_info_complete_example =
    generate_dense_jumptable_info_complete 7 selectors 1 157198259 table generated refl

generate_dense_jumptable_info-perfect_example :
    slot_of 1 table 157198259 ≢ slot_of 1 table 1889567281
unfolding elem
generate_dense_jumptable_info-perfect_example =
    generate_dense_jumptable_info-perfect 7 selectors 1 157198259 1889567281 table generated refl
      refl (omega arith)

abbrev sparse_table : Dict ℕ (List ℕ)
sparse_table = (1, 2835717307 ∷ 1889567281 ∷ []) ∷ (2, 157198259 ∷ []) ∷ []

sparse_generated : generate_sparse_jumptable_buckets 2 4 selectors ≡ ok (3, sparse_table)
unfolding generate_sparse_jumptable_buckets find_smallest stats_from max_bucket_size max_length
    mk_buckets add_to_buckets bucket_of get put
sparse_generated = refl

generate_sparse_jumptable_buckets_complete_example :
    (2 ≤ 3) × (3 ≤ 4) × (elem 157198259 (bucket_of (157198259 % 3) sparse_table) ≡ true)
unfolding elem
generate_sparse_jumptable_buckets_complete_example =
    generate_sparse_jumptable_buckets_complete 2 4 selectors 3 sparse_table 157198259
      sparse_generated (omega arith) refl

generate_sparse_jumptable_buckets-least_example :
    (s : ℕ) × (t : ℕ) × (max_bucket_size sparse_table ≡ ok s)
    × (max_bucket_size (mk_buckets selectors 2) ≡ ok t)
    × (s ≤ t)
generate_sparse_jumptable_buckets-least_example =
    generate_sparse_jumptable_buckets-least 2 4 selectors 3 sparse_table 2 sparse_generated
      (omega arith) (omega arith)
