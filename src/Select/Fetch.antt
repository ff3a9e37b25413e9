-- ===== src/Select/Fetch.antt =====
-- `fetch_matched_from_bv` (helper_fetch_command.c), read block by block, against one pass over the values.
use cs165db.Prelude.{
  ℕ, zero, suc, ◌+◌, ◌-◌, ◌*◌, ◌/◌, ◌≡◌, ◌≤◌, ◌<◌, refl, sym, ap, ap₂, ◌∙◌, List, [], ◌∷◌, ◌++◌,
  append-nil, append_assoc, false, length, take, drop, replicate, arith, length-append, length-take,
  length-drop, take-append-drop, set-append, set, ◌==◌, ==_of_ne, if◌then◌else◌, Bool-cases, inl,
  inr, ==_iff,
}
use cs165db.Word.{word, add32, sub32}
use cs165db.Run.{Run, done, write, write_lem, bind_assoc, ◌>>=◌}
use cs165db.BitVector.{BitVector}
use cs165db.BitVector.View.{IsShaped, bit_at, is_marked_lem}
use cs165db.BitVector.Count.{popcount, IsCounted}
use cs165db.Column.{ColumnFile}
use cs165db.Search.{get_ceil}
use cs165db.Select.{file_block_size, fetch_block, fetch_blocks, fetch_matched_from_bv}

-- The values whose places, from `index` on, are marked.
unfoldable pub picked : List ℕ → List ℕ → ℕ → List ℕ
picked vec [] index = []
picked vec (v ∷ vs) index =
    let rest = picked vec vs (index + 1) in if bit_at vec index == 1 then v ∷ rest else rest

picked-append :
    (vec xs ys : List ℕ) (index j : ℕ)
    → j ≡ index + length xs
    → picked vec (xs ++ ys) index ≡ picked vec xs index ++ picked vec ys j
unfolding picked
picked-append vec [] ys index j e = let z : index ≡ j = omega arith in ap (picked vec ys) z
picked-append vec (x ∷ xs) ys index j e = elim (Bool-cases (bit_at vec index == 1)) [
  | inl t ↦ rw t (ap (λ l. x ∷ l) (picked-append vec xs ys (index + 1) j (omega arith)))
  | inr t ↦ rw t (picked-append vec xs ys (index + 1) j (omega arith))
]

-- There are as many of them as bits are set.
pub length-picked :
    (vec vs : List ℕ) (index : ℕ)
    → popcount vec (index + length vs) ≡ popcount vec index + length (picked vec vs index)
unfolding picked popcount
length-picked vec [] index = let z : index + 0 ≡ index = omega arith in rw z (omega arith)
length-picked vec (v ∷ vs) index =
    let step : index + suc (length vs) ≡ (index + 1) + length vs = omega arith in
    let one : index + 1 ≡ suc index = omega arith in
    let ih = length-picked vec vs (index + 1) in
    let up : popcount vec (index + 1) ≡ popcount vec index + bit_at vec index =
      ap (popcount vec) one in
    elim (Bool-cases (bit_at vec index == 1)) [
      | inl t ↦
          let set_bit : bit_at vec index ≡ 1 = (==_iff (bit_at vec index) 1).0 t in
          rw (step, t) (omega (arith, ih, up, set_bit))
      | inr t ↦
          let unset : ¬ (bit_at vec index ≡ 1) = λ e. cc ((==_iff (bit_at vec index) 1).1 e, t) in
          rw (step, t) (omega (arith, ih, up, unset))
    ]

-- What the places filled so far and the values found behind them come to.
abbrev pub filled_up : List ℕ → List ℕ → ℕ → List ℕ
filled_up pre found room = (pre ++ found) ++ replicate (room - length found) 0

pub nothing_found : (pre : List ℕ) (room : ℕ) → pre ++ replicate room 0 ≡ filled_up pre [] room
nothing_found pre room =
    let z : room - 0 ≡ room = omega arith in
    ap (λ k. pre ++ replicate k 0) (sym z)
    ∙ ap (λ q. q ++ replicate (room - 0) 0) (sym (append-nil pre))

-- A value put at the next place, before what `k` does with the rest, from what `k` comes to.
pub put_next :
    (k : List ℕ → ℕ → Run (List ℕ × ℕ)) (v : ℕ) (found pre : List ℕ) (room : ℕ)
    → suc (length found) ≤ room
    → ((r : ℕ)
        → length found ≤ r
        → k ((pre ++ (v ∷ [])) ++ replicate r 0) (length (pre ++ (v ∷ [])))
          ≡ done (filled_up (pre ++ (v ∷ [])) found r, length (pre ++ (v ∷ [])) + length found))
    → (write (pre ++ replicate room 0) (length pre) v >>= λ result'. k result' (length pre + 1))
      ≡ done (filled_up pre (v ∷ found) room, length pre + suc (length found))
put_next k v found pre zero l ih = absurd (omega arith)
put_next k v found pre (suc r) l ih =
    let one_more : length (pre ++ (v ∷ [])) ≡ length pre + 1 =
      omega (arith, length-append pre (v ∷ [])) in
    let stored : set (pre ++ replicate (suc r) 0) (length pre) v
        ≡ (pre ++ (v ∷ [])) ++ replicate r 0 =
      set-append pre (replicate (suc r) 0) (length pre) v refl (omega arith)
      ∙ sym (append_assoc pre (v ∷ []) (replicate r 0)) in
    let shifted : (pre ++ (v ∷ [])) ++ found ≡ pre ++ (v ∷ found) =
      append_assoc pre (v ∷ []) found in
    let room_left : r - length found ≡ suc r - suc (length found) = omega arith in
    let total : length (pre ++ (v ∷ [])) + length found ≡ length pre + suc (length found) =
      omega (arith, one_more) in
    rw
      (
        write_lem (pre ++ replicate (suc r) 0) (length pre) v
            (omega (arith, length-append pre (replicate (suc r) 0))),
        stored,
      )
      (ap (k ((pre ++ (v ∷ [])) ++ replicate r 0)) (sym one_more)
        ∙ ih r (omega arith)
        ∙ ap₂ (λ q n. done (q, n)) (ap₂ (λ q n. q ++ replicate n 0) shifted room_left) total)

fetch_block_lem :
    (bv : BitVector) (vs : List ℕ) (index : ℕ) (pre : List ℕ) (room : ℕ)
    → IsShaped bv
    → index + length vs ≤ bv.size
    → length (picked bv.vec vs index) ≤ room
    → fetch_block vs index bv (pre ++ replicate room 0) (length pre)
      ≡ done (
        filled_up pre (picked bv.vec vs index) room,
        length pre + length (picked bv.vec vs index),
      )
unfolding fetch_block picked
fetch_block_lem bv [] index pre room s h l =
    let z : length pre ≡ length pre + 0 = omega arith in
    ap₂ (λ r k. done (r, k)) (nothing_found pre room) z
fetch_block_lem bv (v ∷ vs) index pre room s h l =
    let next : add32 index 1 ≡ index + 1 = omega (arith, s.small) in
    elim (Bool-cases (bit_at bv.vec index == 1)) [
      | inl t ↦
          rw (is_marked_lem bv index s (omega arith), t, next)
            (bind_assoc (write (pre ++ replicate room 0) (length pre) v) _ _
              ∙ put_next (fetch_block vs (index + 1) bv) v (picked bv.vec vs (index + 1)) pre room
                  (rw t at l)
                  (λ r k. fetch_block_lem bv vs (index + 1) (pre ++ (v ∷ [])) r s (omega arith) k))
      | inr t ↦
          rw (is_marked_lem bv index s (omega arith), t, next)
            (fetch_block_lem bv vs (index + 1) pre room s (omega arith) (rw t at l))
    ]

picked_place :
    (vec block more : List ℕ) (index : ℕ)
    → (0 < length more → add32 index 128 ≡ index + length block)
    → picked vec more (add32 index 128) ≡ picked vec more (index + length block)
unfolding picked
picked_place vec block [] index h = refl
picked_place vec block (v ∷ vs) index h = ap (picked vec (v ∷ vs)) (h (omega arith))

fetch_blocks_lem :
    (bv : BitVector) (n : ℕ) (rest : List ℕ) (index : ℕ) (pre : List ℕ) (room : ℕ)
    → IsShaped bv
    → length rest ≤ n * 128
    → n * 128 < length rest + 128
    → (0 < length rest → index + length rest ≤ bv.size)
    → length (picked bv.vec rest index) ≤ room
    → fetch_blocks n rest index bv (pre ++ replicate room 0) (length pre)
      ≡ done ((filled_up pre (picked bv.vec rest index) room))
unfolding fetch_blocks picked
fetch_blocks_lem bv zero [] index pre room s h k i l = ap (λ r. done r) (nothing_found pre room)
fetch_blocks_lem bv zero (v ∷ vs) index pre room s h k i l = absurd (omega arith)
fetch_blocks_lem bv (suc n) rest index pre room s h k i l =
    let block : List ℕ = take 128 rest in
    let more : List ℕ = drop 128 rest in
    let block_long = length-take 128 rest in
    let more_long = length-drop 128 rest in
    let inside = i (omega arith) in
    let f1 : List ℕ = picked bv.vec block index in
    let f2 : List ℕ = picked bv.vec more (add32 index 128) in
    let read_some : (length block == 0) ≡ false =
      ==_of_ne (length block) 0 (λ e. omega (arith, block_long)) in
    let place : f2 ≡ picked bv.vec more (index + length block) =
      picked_place bv.vec block more index (λ p. omega (arith, block_long, more_long, s.small)) in
    let both : picked bv.vec rest index ≡ f1 ++ f2 =
      ap (λ r. picked bv.vec r index) (sym (take-append-drop 128 rest))
      ∙ picked-append bv.vec block more index (index + length block) refl
      ∙ ap (λ f. f1 ++ f) (sym place) in
    let sizes : length (picked bv.vec rest index) ≡ length f1 + length f2 =
      ap length both ∙ length-append f1 f2 in
    let ih =
      fetch_blocks_lem bv n more (add32 index 128) (pre ++ f1) (room - length f1) s
        (omega (arith, more_long)) (omega (arith, more_long))
        (λ p. omega (arith, block_long, more_long, s.small)) (omega (arith, sizes)) in
    let at : length pre + length f1 ≡ length (pre ++ f1) = omega (arith, length-append pre f1) in
    let room_left : (room - length f1) - length f2 ≡ room - length (picked bv.vec rest index) =
      omega (arith, sizes) in
    rw
      (
        read_some,
        fetch_block_lem bv block index pre room s (omega (arith, block_long))
            (omega (arith, sizes)),
        at,
      )
      (ih
        ∙ ap₂ (λ q r. done (q ++ replicate r 0))
            (append_assoc pre f1 f2 ∙ ap (λ f. pre ++ f) (sym both)) room_left)

-- On a column whose file holds just its rows, fewer than 2^32 - 256, with a shaped vector of that
-- size whose count is the number of its marks, the fetch by blocks ends and returns exactly the
-- values of the marked rows, in their order.
pub fetch_matched_from_bv-picked :
    (c : ColumnFile) (bv : BitVector)
    → length c.ints ≡ c.meta.size
    → bv.size ≡ c.meta.size
    → c.meta.size + 256 < word
    → IsShaped bv
    → IsCounted bv
    → fetch_matched_from_bv c bv ≡ done (picked bv.vec c.ints 0)
unfolding fetch_matched_from_bv get_ceil popcount
fetch_matched_from_bv-picked c bv e same small s counted =
    let n : ℕ = length c.ints in
    let z : 0 + n ≡ bv.size = omega arith in
    let count : bv.count ≡ length (picked bv.vec c.ints 0) =
      counted ∙ ap (popcount bv.vec) (sym z) ∙ length-picked bv.vec c.ints 0 ∙ (omega arith) in
    let blocks : ℕ = sub32 (add32 c.meta.size file_block_size) 1 / file_block_size in
    let found : List ℕ = picked bv.vec c.ints 0 in
    let full : bv.count - length found ≡ 0 = omega (arith, count) in
    fetch_blocks_lem bv blocks c.ints 0 [] bv.count s (omega arith) (omega arith) (λ p. omega arith)
      (omega (arith, count))
    ∙ ap (λ k. done (found ++ replicate k 0)) full
    ∙ ap (λ r. done r) (append-nil found)
