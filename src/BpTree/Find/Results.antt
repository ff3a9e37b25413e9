-- ===== src/BpTree/Find/Results.antt =====
-- The two searches of bptree.c that the rest of the program calls: one lists the rows that it finds,
-- the other marks them in a bit vector.
use cs165db.Prelude.{
  ℕ, ◌+◌, ◌*◌, ◌≤◌, ◌<◌, ◌≡◌, refl, sym, ◌∙◌, subst, List, [], ◌∷◌, ◌++◌, append-nil, append_assoc,
  length, length-append, Bool, arith, ◌==◌, ◌||◌, if◌then◌else◌,
}
use cs165db.Word.{word}
use cs165db.Run.{Returns, Returns-bind, Returns-map}
use cs165db.DynArray.{DynArray, append_list}
use cs165db.DynArray.Append.{Holds, Appended, append_list-Holds}
use cs165db.BitVector.{BitVector, mark_bv}
use cs165db.BitVector.View.{bit_at, IsShaped}
use cs165db.BitVector.Mark.{Toggled, mark_bv-Toggled}
use cs165db.Column.Update.{listed, Inside}
use cs165db.BpTree.{Node, TreeFile}
use cs165db.BpTree.Find.{find_record_in_range, find_record_in_range_id}
use cs165db.BpTree.Find.Scan.{all_entries, hits, emit_all}
use cs165db.BpTree.Find.Search.{IsTreeFile, find_record_in_range_type_lem}

-- Rows appended one by one. The capacity stays below that of the start and twice the length.
emit_all-Holds :
    (c : ℕ) (ps xs : List ℕ) (l : DynArray ℕ)
    → Holds l xs
    → l.capacity ≤ c + 2 * l.next
    → (c + 2 * (length xs + length ps)) * 2 < word
    → Returns (emit_all append_list l ps) (λ after. Holds after (xs ++ ps))
unfolding emit_all
emit_all-Holds c [] xs l h b small = subst (Holds l) (sym (append-nil xs)) h
emit_all-Holds c (p ∷ ps) xs l h b small =
    Returns-bind (Appended l xs p) (λ after. Holds after (xs ++ (p ∷ ps))) (append_list l p)
      (λ l'. emit_all append_list l' ps) (append_list-Holds l xs p h (omega (arith, h.sized)))
      λ l' a.
        subst (λ ys. Returns (emit_all append_list l' ps) (λ after. Holds after ys))
          (append_assoc xs (p ∷ []) ps)
          (emit_all-Holds c ps (xs ++ (p ∷ [])) l' a.holds
            (bound l.capacity l.next l'.capacity l'.next b a.capacity_up
              (omega (arith, a.holds.sized, h.sized, length-append xs (p ∷ []))))
            (omega (arith, length-append xs (p ∷ []))))
  where
    bound :
        (cap next cap' next' : ℕ)
        → cap ≤ c + 2 * next
        → cap' ≡ (if next == cap then cap * 2 else cap)
        → next' ≡ next + 1
        → cap' ≤ c + 2 * next'
    bound cap next cap' next' q r s = ground arith

-- What a vector is after the rows were marked.
pub record AllMarked (bv : BitVector) (ps : List ℕ) (after : BitVector) : Type 0 where
  pub shaped : IsShaped after
  pub size_kept : after.size ≡ bv.size
  pub bits : (j : ℕ) → bit_at after.vec j ≡ (if listed j ps then 1 else bit_at bv.vec j)

pub emit_all-AllMarked :
    (ps : List ℕ) (bv : BitVector)
    → IsShaped bv
    → Inside bv.size ps
    → Returns (emit_all mark_bv bv ps) (AllMarked bv ps)
unfolding emit_all listed
emit_all-AllMarked [] bv s inside = record { shaped = s; size_kept = refl; bits = λ j. refl }
emit_all-AllMarked (p ∷ ps) bv s inside =
    Returns-bind (Toggled bv p 1) (AllMarked bv (p ∷ ps)) (mark_bv bv p)
      (λ b. emit_all mark_bv b ps) (mark_bv-Toggled bv p s inside.0)
      λ b t.
        Returns-map (AllMarked b ps) (AllMarked bv (p ∷ ps)) (emit_all mark_bv b ps)
          (emit_all-AllMarked ps b t.shaped (subst (λ n. Inside n ps) (sym t.size_kept) inside.1))
          λ after m. record {
            shaped = m.shaped;
            size_kept = m.size_kept ∙ t.size_kept;
            bits = λ j.
                both (p == j) (listed j ps) (bit_at after.vec j) (bit_at b.vec j) (bit_at bv.vec j)
                  (m.bits j) (t.bits j);
          }
  where
    both :
        (x y : Bool) (a b c : ℕ)
        → a ≡ (if y then 1 else b)
        → b ≡ (if x then 1 else c)
        → a ≡ (if x || y then 1 else c)
    both x y a b c e f = ground arith

module _ (f : TreeFile) (height depth width : ℕ) (leaves : List Node) (low high : ℕ)
    (tree : IsTreeFile f height leaves) (deep : height < depth) (wide : length leaves ≤ width) where
  -- On a tree file whose root stands over linked leaves with their keys in ascending order and
  -- fewer than 2^32 entries, with fuel above the height and for each leaf, find_record_in_range_id
  -- ends, adds the rows of exactly the entries from low to high to the list that the array holds,
  -- in the order of their keys, and returns their number, if twice the sum of the capacity and
  -- twice the new length is below 2^32.
  pub find_record_in_range_id-Holds :
      (ids : DynArray ℕ) (xs : List ℕ)
      → Holds ids xs
      → (ids.capacity + 2 * (length xs + length (hits low high (all_entries leaves)))) * 2 < word
      → Returns (find_record_in_range_id depth width f ids low high) (λ (after, count).
        Holds after (xs ++ hits low high (all_entries leaves))
        × (count ≡ length (hits low high (all_entries leaves))))
  unfolding find_record_in_range_id
  find_record_in_range_id-Holds ids xs h small =
      rw
        (
          Returns,
          find_record_in_range_type_lem append_list low high f height depth width leaves ids tree
              deep wide,
        )
        (Returns-bind (λ after. Holds after (xs ++ hits low high (all_entries leaves))) _
          (emit_all append_list ids (hits low high (all_entries leaves))) _
          (emit_all-Holds ids.capacity (hits low high (all_entries leaves)) xs ids h (omega arith)
            small)
          λ after r. (r, omega arith))

  -- On a tree file whose root stands over linked leaves with their keys in ascending order and
  -- fewer than 2^32 entries, with the rows of the entries from low to high inside a shaped bit
  -- vector and fuel above the height and for each leaf, find_record_in_range ends, sets exactly
  -- the bits of these rows, keeps the others and the shape, and returns the number of these
  -- entries.
  pub find_record_in_range-AllMarked :
      (bv : BitVector)
      → IsShaped bv
      → Inside bv.size (hits low high (all_entries leaves))
      → Returns (find_record_in_range depth width f bv low high) (λ (after, count).
        AllMarked bv (hits low high (all_entries leaves)) after
        × (count ≡ length (hits low high (all_entries leaves))))
  unfolding find_record_in_range
  find_record_in_range-AllMarked bv s inside =
      rw
        (
          Returns,
          find_record_in_range_type_lem mark_bv low high f height depth width leaves bv tree deep
              wide,
        )
        (Returns-bind (AllMarked bv (hits low high (all_entries leaves))) _
          (emit_all mark_bv bv (hits low high (all_entries leaves))) _
          (emit_all-AllMarked (hits low high (all_entries leaves)) bv s inside)
          λ after r. (r, omega arith))
