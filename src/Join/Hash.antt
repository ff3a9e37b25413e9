-- ===== src/Join/Hash.antt =====
-- `hashjoin` (helper_join.c): a hash table in one array, with the start and the end of each bucket.
use cs165db.Prelude.{
  ℕ, zero, suc, ◌+◌, ◌*◌, ◌/◌, List, replicate, bit_and, ltb, ◌==◌, if◌then◌else◌,
}
use cs165db.Word.{add32, sub32}
use cs165db.Run.{assert, ◌>>◌, Run, done, spin, read, write, ◌>>=◌}
use cs165db.Search.{get_ceil}
use cs165db.BitVector.{shift_one}
use cs165db.DynArray.{append_list}
use cs165db.Join.{JoinedIds, row_val, row_pos}

-- `AVG_HASH_BUCKET_SIZE`
abbrev pub avg_hash_bucket_size : ℕ
avg_hash_bucket_size = 8

-- The loop that counts the bits of `temp`; 32 turns are enough.
unfoldable pub count_bits : ℕ → ℕ → ℕ → Run ℕ
count_bits zero temp num_bits = spin
count_bits (suc fuel) temp num_bits =
    let rest = count_bits fuel (temp / 2) (add32 num_bits 1) in
    if ltb 0 temp then rest else done num_bits

-- `cells[i] ++`
abbrev pub increment : List ℕ → ℕ → Run (List ℕ)
increment cells i = read cells i >>= λ c. write cells i (add32 c 1)

-- The first pass: the number of values of each bucket.
unfoldable pub count_buckets : ℕ → List ℕ → ℕ → ℕ → List ℕ → Run (List ℕ)
count_buckets zero hash_val hash_mask i remap = done remap
count_buckets (suc n) hash_val hash_mask i remap = row_val hash_val i >>= λ v.
    increment remap (bit_and v hash_mask) >>= λ remap'.
    count_buckets n hash_val hash_mask (i + 1) remap'

-- The loop that turns the numbers into the places where the buckets start, and
-- adds them up.
unfoldable pub bucket_starts : ℕ → ℕ → ℕ → List ℕ → Run (List ℕ × ℕ)
bucket_starts zero i sum remap = done (remap, sum)
bucket_starts (suc n) i sum remap = read remap i >>= λ size.
    write remap i sum >>= λ remap'. bucket_starts n (i + 1) (add32 sum size) remap'

-- The second pass fills the table, of `min_size` rows, and moves the ends of the buckets.
unfoldable pub fill_table : ℕ → List ℕ → ℕ → ℕ → List ℕ → List ℕ → Run (List ℕ × List ℕ)
fill_table zero hash_val hash_mask i remap_count table = done (remap_count, table)
fill_table (suc n) hash_val hash_mask i remap_count table = row_val hash_val i >>= λ v.
    row_pos hash_val i >>= λ p. read remap_count (bit_and v hash_mask) >>= λ index.
    write table (index * 2) v >>= λ with_val. write with_val (index * 2 + 1) p >>= λ table'.
    increment remap_count (bit_and v hash_mask) >>= λ remap_count'.
    fill_table n hash_val hash_mask (i + 1) remap_count' table'

-- The walk through a bucket for row `i` of the other table. The first list is that of the hashed
-- table.
unfoldable pub probe_bucket : ℕ → List ℕ → List ℕ → ℕ → ℕ → ℕ → JoinedIds → Run JoinedIds
probe_bucket zero table other_val i hash_index hash_index_max ids = spin
probe_bucket (suc fuel) table other_val i hash_index hash_index_max ids =
    let turn = row_val table hash_index >>= λ a. row_val other_val i >>= λ b.
    (if a == b
      then (row_pos table hash_index >>= λ p. append_list ids.0 p >>= λ hashed.
          row_pos other_val i >>= λ q. append_list ids.1 q >>= λ other. done (hashed, other))
      else done ids)
    >>= λ ids'. probe_bucket fuel table other_val i (add32 hash_index 1) hash_index_max ids' in
    if ltb hash_index hash_index_max then turn else done ids

unfoldable pub probe_rows :
    ℕ → ℕ → List ℕ → List ℕ → List ℕ → List ℕ → ℕ → ℕ → JoinedIds → Run JoinedIds
probe_rows zero fuel table remap remap_count other_val hash_mask i ids = done ids
probe_rows (suc n) fuel table remap remap_count other_val hash_mask i ids =
    row_val other_val i >>= λ v. read remap (bit_and v hash_mask) >>= λ hash_index.
    read remap_count (bit_and v hash_mask) >>= λ hash_index_max.
    probe_bucket fuel table other_val i hash_index hash_index_max ids >>= λ ids'.
    probe_rows n fuel table remap remap_count other_val hash_mask (i + 1) ids'

-- The join of the table to hash with the other one; a bucket holds at most `min_size` rows.
unfoldable pub hash_and_probe : List ℕ → ℕ → List ℕ → ℕ → JoinedIds → Run JoinedIds
hash_and_probe hash_val min_size other_val other_size ids =
    get_ceil min_size avg_hash_bucket_size >>= λ temp. count_bits 33 temp 0 >>= λ num_bits.
    shift_one num_bits >>= λ num_buckets.
    count_buckets min_size hash_val (sub32 num_buckets 1) 0 (replicate num_buckets 0) >>= λ counted.
    bucket_starts num_buckets 0 0 counted >>= λ (remap, sum).
    assert (sum == min_size)
    >> fill_table min_size hash_val (sub32 num_buckets 1) 0 remap (replicate (min_size * 2) 0)
    >>= λ (remap_count, table).
        probe_rows other_size (suc min_size) table remap remap_count other_val (sub32 num_buckets 1)
          0 ids

-- `hashjoin` hashes the smaller table.
unfoldable pub hashjoin : List ℕ → List ℕ → ℕ → ℕ → JoinedIds → Run JoinedIds
hashjoin m0 m1 size0 size1 ids =
    if ltb size1 size0
    then (hash_and_probe m1 size1 m0 size0 (ids.1, ids.0) >>= λ (hashed, other).
        done (other, hashed))
    else hash_and_probe m0 size0 m1 size1 ids
