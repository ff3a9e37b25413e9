-- ===== src/BitVector.antt =====
-- bit_vector.c: a vector of bits over an array of `uint32_t`, with a count of the marked ones.
-- An access outside `vec` and a shift by 32 are faults; `|`, `&` and `~` are those of the words.
pub mod View
pub mod Mark
pub mod All
pub mod Range
pub mod Count
use cs165db.Prelude.{
  ℕ, zero, suc, ◌+◌, ◌-◌, ◌*◌, ◌/◌, ◌%◌, ◌^◌, List, [], ◌∷◌, ◌++◌, Bool, not, ◌&&◌, length,
  replicate, take, drop, bit_and, bit_or, ltb, leb, ◌==◌, if◌then◌else◌,
}
use cs165db.Word.{word, add32, sub32}
use cs165db.Run.{Run, done, fault, spin, read, write, ◌>>=◌}
use cs165db.Search.{get_ceil}

-- `bv_t`
pub record BitVector : Type 0 where
  pub size : ℕ
  pub count : ℕ
  pub vec : List ℕ

-- `bit_op`
pub data BitOp : Type 0 where
  mark unmark : BitOp

unfoldable pub create_bv : ℕ → Run BitVector
create_bv size = do
  bv_size ← get_ceil size 32
  done (record { size = size; count = 0; vec = replicate bv_size 0 })

abbrev pub get_bv_size : BitVector → ℕ
get_bv_size bv = bv.size

abbrev pub get_bv_count : BitVector → ℕ
get_bv_count bv = bv.count

-- `index >> 5` and `index - bv_index * 32`
abbrev pub word_of : ℕ → ℕ
word_of index = index / 2 ^ 5

abbrev pub offset_of : ℕ → ℕ
offset_of index = sub32 index (word_of index * 32 % word)

-- `1 << k`, which is undefined from the width of the type on.
abbrev pub shift_one : ℕ → Run ℕ
shift_one k = if ltb k 32 then done (2 ^ k % word) else fault

unfoldable pub is_marked : BitVector → ℕ → Run Bool
is_marked bv index = do
  val ← read bv.vec (word_of index)
  done (not (bit_and (val / 2 ^ offset_of index) 1 == 0))

-- The `memcpy` copies as many words as the source's size asks for.
unfoldable pub cpy_bv : BitVector → BitVector → Run BitVector
cpy_bv des src = do
  n ← get_ceil src.size 32
  if leb n (length src.vec) && leb n (length des.vec)
      then done
          (record { size = src.size; count = src.count; vec = take n src.vec ++ drop n des.vec })
      else fault

-- `vec[i] |= mask` and `vec[i] &= ~mask`
abbrev pub or_word : List ℕ → ℕ → ℕ → Run (List ℕ)
or_word vec i mask = read vec i >>= λ w. write vec i (bit_or w mask)

abbrev pub and_not_word : List ℕ → ℕ → ℕ → Run (List ℕ)
and_not_word vec i mask = read vec i >>= λ w. write vec i (bit_and w (word - 1 - mask))

-- `_mark_bv_by_op`
unfoldable pub mark_bv_by_op : BitVector → ℕ → BitOp → Run BitVector
mark_bv_by_op bv index mark = do
  mask ← shift_one (offset_of index)
  vec ← or_word bv.vec (word_of index) mask
  done (record bv { vec = vec; count = add32 bv.count 1 })
mark_bv_by_op bv index unmark = do
  mask ← shift_one (offset_of index)
  vec ← and_not_word bv.vec (word_of index) mask
  done (record bv { vec = vec; count = sub32 bv.count 1 })

abbrev pub mark_bv : BitVector → ℕ → Run BitVector
mark_bv bv index = mark_bv_by_op bv index mark

abbrev pub unmark_bv : BitVector → ℕ → Run BitVector
unmark_bv bv index = mark_bv_by_op bv index unmark

-- `for (i = from; i < from + n; i++) vec[i] |= 0xffffffff`
unfoldable pub fill_words : ℕ → ℕ → List ℕ → Run (List ℕ)
fill_words zero from vec = done vec
fill_words (suc n) from vec = or_word vec from 0xffffffff >>= fill_words n (from + 1)

-- `memset(vec, 0, 4 * n)`
abbrev pub clear_words : ℕ → List ℕ → Run (List ℕ)
clear_words n vec = if leb n (length vec) then done (replicate n 0 ++ drop n vec) else fault

-- `_mark_all_bv_by_op`
unfoldable pub mark_all_bv_by_op : BitVector → BitOp → Run BitVector
mark_all_bv_by_op bv mark = do
  bv_size ← get_ceil bv.size 32
  vec ← fill_words bv_size 0 bv.vec
  done (record bv { vec = vec; count = bv.size })
mark_all_bv_by_op bv unmark = do
  bv_size ← get_ceil bv.size 32
  vec ← clear_words bv_size bv.vec
  done (record bv { vec = vec; count = 0 })

abbrev pub mark_all_bv : BitVector → Run BitVector
mark_all_bv bv = mark_all_bv_by_op bv mark

abbrev pub unmark_all_bv : BitVector → Run BitVector
unmark_all_bv bv = mark_all_bv_by_op bv unmark

-- What `mark_bv_by_range` writes into the cleared words. The difference `high - low + 1` of the
-- last line, and the masks, are taken modulo 2 ^ 32.
unfoldable pub mark_range_words : List ℕ → ℕ → ℕ → Run (List ℕ)
mark_range_words vec low high = do
  low_bit ← shift_one (offset_of low)
  high_bit ← shift_one (add32 (offset_of high) 1)
  let mask_low = sub32 low_bit 1
  let mask_high = sub32 high_bit 1
  if word_of low == word_of high then or_word vec (word_of low) (sub32 mask_high mask_low) else (do
    filled ← fill_words (word_of high - (word_of low + 1)) (word_of low + 1) vec
    with_low ← or_word filled (word_of low) (sub32 0xffffffff mask_low)
    or_word with_low (word_of high) mask_high)

unfoldable pub mark_bv_by_range : BitVector → ℕ → ℕ → Run BitVector
mark_bv_by_range bv low high = do
  cleared ← unmark_all_bv bv
  vec ← mark_range_words cleared.vec low high
  done (record cleared { vec = vec; count = add32 (sub32 high low) 1 })
