-- ===== src/Select/Ids.antt =====
-- `fetch_matched_from_rowid` (helper_fetch_command.c) against the values at a list of places.
use cs165db.Prelude.{
  leb, true, ℕ, suc, ◌+◌, ◌≡◌, ◌≤◌, ◌<◌, refl, sym, ap, ◌∙◌, List, [], ◌∷◌, ◌++◌, append_assoc, map,
  length, take, replicate, get_or, get_elem?, none, some, arith, length-append, length-take,
  length-replicate, set-append, get_or-take,
}
use cs165db.Run.{assert, ◌>>◌, done, read, read_lem, write, write_lem}
use cs165db.DynArray.{DynArray, get_list_size, get_list_val}
use cs165db.DynArray.Append.{Holds}
use cs165db.Column.{ColumnFile}
use cs165db.Column.Update.{Inside}
use cs165db.Select.{fetch_rowids, fetch_matched_from_rowid}

get_list_val-held :
    (ids : DynArray ℕ) (vs : List ℕ) (i id : ℕ)
    → Holds ids vs
    → i < length vs
    → get_elem? vs i ≡ some id
    → get_list_val ids i ≡ done id
unfolding get_list_val
get_list_val-held ids vs i id h p e =
    let inside : i < length ids.cells = omega (arith, h.sized, h.room, h.allocated) in
    rw (read_lem ids.cells i none inside, h.held i p, e) refl

module _ (ints : List ℕ) (size : ℕ) (held : size ≤ length ints) (ids : DynArray ℕ) (vs : List ℕ)
    (h : Holds ids vs) where
  fetch_rowids_lem :
      (rest pre after : List ℕ) (i : ℕ)
      → ((k : ℕ) → k < length rest → get_elem? vs (i + k) ≡ get_elem? rest k)
      → i + length rest ≡ length vs
      → Inside size rest
      → length pre ≡ i
      → length after ≡ length rest
      → fetch_rowids (length rest) (take size ints) ids i (pre ++ after)
        ≡ done (pre ++ map (λ id. get_or ints id 0) rest)
  unfolding fetch_rowids
  fetch_rowids_lem [] pre [] i at e inside p a = refl
  fetch_rowids_lem [] pre (y ∷ after) i at e inside p a = absurd (omega arith)
  fetch_rowids_lem (id ∷ rest) pre [] i at e inside p a = absurd (omega arith)
  fetch_rowids_lem (id ∷ rest) pre (y ∷ after) i at e inside p a =
      let value : ℕ = get_or ints id 0 in
      let here : i + 0 ≡ i = omega arith in
      let got : get_list_val ids i ≡ done id =
        get_list_val-held ids vs i id h (omega arith)
          (ap (get_elem? vs) (sym here) ∙ at 0 (omega arith)) in
      let in_buffer : id < length (take size ints) =
        omega (arith, inside.0, length-take size ints) in
      let value_read : read (take size ints) id ≡ done value =
        read_lem (take size ints) id 0 in_buffer ∙ ap done (get_or-take size ints id 0 inside.0) in
      let written : write (pre ++ (y ∷ after)) i value ≡ done (pre ++ (value ∷ after)) =
        write_lem (pre ++ (y ∷ after)) i value (omega (arith, length-append pre (y ∷ after)))
        ∙ ap done (set-append pre (y ∷ after) i value (omega arith) (omega arith)) in
      rw (got, value_read, written)
        (ap (fetch_rowids (length rest) (take size ints) ids (i + 1))
            (sym (append_assoc pre (value ∷ []) after))
          ∙ fetch_rowids_lem rest (pre ++ (value ∷ [])) after (i + 1)
              (λ k q.
                (let s : i + 1 + k ≡ i + suc k = omega arith in ap (get_elem? vs) s)
                ∙ at (suc k) (omega arith))
              (omega arith) inside.1 (omega (arith, length-append pre (value ∷ []))) (omega arith)
          ∙ ap done (append_assoc pre (value ∷ []) (map (λ id. get_or ints id 0) rest)))

-- From a column whose file holds its rows, and a list of places of rows, fetch_matched_from_rowid
-- ends with the values at these places, in the order of the list and as often as they stand in it.
pub fetch_matched_from_rowid-values :
    (c : ColumnFile) (ids : DynArray ℕ) (places : List ℕ)
    → Holds ids places
    → c.meta.size ≤ length c.ints
    → Inside c.meta.size places
    → fetch_matched_from_rowid c ids ≡ done (map (λ id. get_or c.ints id 0) places)
unfolding fetch_matched_from_rowid
fetch_matched_from_rowid-values c ids places h held inside =
    let whole : leb c.meta.size (length c.ints) ≡ true = ground arith in
    ap
      (λ b.
        assert b
        >> fetch_rowids (get_list_size ids) (take c.meta.size c.ints) ids 0
            (replicate (get_list_size ids) 0))
      whole
    ∙ ap (λ n. fetch_rowids n (take c.meta.size c.ints) ids 0 (replicate n 0)) h.sized
    ∙ fetch_rowids_lem c.ints c.meta.size held ids places h places [] (replicate (length places) 0)
        0 (λ k p. (let z : 0 + k ≡ k = omega arith in ap (get_elem? places) z)) (omega arith) inside
        refl (length-replicate {A = ℕ} (length places) 0)
