-- ===== src/Socket/Send.antt =====
-- `_safe_send_helper` and `safe_send` over any kernel that moves bytes.
use cs165db.Prelude.{
  ℕ, zero, suc, ◌-◌, ◌≤◌, ◌<◌, ◌≡◌, refl, sym, ap, ◌∙◌, List, [], ◌∷◌, ◌++◌, append-nil,
  append_assoc, length, take, drop, arith, length-drop, leb, ==_of_ne, false, true,
}
use cs165db.Word.{half, sub32, le_int, rank}
use cs165db.Run.{Returns, Returns-bind, Returns-map}
use cs165db.Socket.{Socket, meta_bytes, meta_size, MovesBytes, _safe_send_helper, safe_send}

-- A call that returned 0 and wrote `bytes`; nothing was read.
pub record Sent (s : Socket) (bytes : List ℕ) (r : ℕ × Socket) : Type 0 where
  pub returned : r.0 ≡ 0
  pub wrote : r.1.outgoing ≡ s.outgoing ++ bytes
  pub unread : r.1.incoming ≡ s.incoming

pub take-split : (m n : ℕ) (xs : List ℕ) → m ≤ n → take m xs ++ take (n - m) (drop m xs) ≡ take n xs
take-split zero n xs h = let e : n - 0 ≡ n = omega arith in ap (λ k. take k xs) e
take-split (suc m) zero xs h = absurd (omega arith)
take-split (suc m) (suc n) [] h = take_nil (suc n - suc m)
  where
    take_nil : (k : ℕ) → take {A = ℕ} k [] ≡ []
    take_nil zero = refl
    take_nil (suc k) = refl
take-split (suc m) (suc n) (x ∷ xs) h =
    let e : suc n - suc m ≡ n - m = omega arith in
    rw e (ap (λ t. x ∷ t) (take-split m n xs (omega arith)))

-- The tests of the loops on what a call returned.
pub le_int-zero : (r : ℕ) → 0 < r → r < half → le_int r 0 ≡ false
unfolding rank
le_int-zero r h k = ground arith

pub take_all : (xs : List ℕ) → take (length xs) xs ≡ xs
take_all [] = refl
take_all (x ∷ xs) = ap (λ t. x ∷ t) (take_all xs)

pub length-meta_bytes : (n : ℕ) → length (meta_bytes n) ≡ meta_size
unfolding meta_bytes
length-meta_bytes n = refl

module _ (send : ℕ → ℕ → ℕ) (moves : MovesBytes send) where
  send_helper-Sent :
      (fuel : ℕ) (s : Socket) (bytes : List ℕ) (total : ℕ)
      → total ≤ fuel
      → total ≤ length bytes
      → total < half
      → Returns (_safe_send_helper send fuel s bytes total) (Sent s (take total bytes))
  unfolding _safe_send_helper
  send_helper-Sent zero s bytes zero f l h = record {
    returned = refl;
    wrote = sym (append-nil s.outgoing);
    unread = refl;
  }
  send_helper-Sent zero s bytes (suc n) f l h = absurd (omega arith)
  send_helper-Sent (suc fuel) s bytes zero f l h = record {
    returned = refl;
    wrote = sym (append-nil s.outgoing);
    unread = refl;
  }
  send_helper-Sent (suc fuel) s bytes (suc n) f l h =
      let r : ℕ = send s.calls (suc n) in
      let (pos, le) = moves s.calls (suc n) (omega arith) in
      let s1 : Socket = record s { calls = suc s.calls; outgoing = s.outgoing ++ take r bytes } in
      let less : sub32 (suc n) r ≡ suc n - r = omega arith in
      rw
        (
          Returns,
          ==_of_ne (suc n) 0 (λ e. absurd (omega arith)),
          le_int-zero r pos (omega arith),
          leb_of_le r (length bytes) (omega arith),
          less,
        )
        (Returns-map (Sent s1 (take (suc n - r) (drop r bytes))) (Sent s (take (suc n) bytes))
          (_safe_send_helper send fuel s1 (drop r bytes) (suc n - r))
          (send_helper-Sent fuel s1 (drop r bytes) (suc n - r) (omega arith)
            (omega (arith, length-drop r bytes)) (omega arith))
          (λ a i. record {
            returned = i.returned;
            wrote =
                i.wrote
                ∙ append_assoc s.outgoing (take r bytes) (take (suc n - r) (drop r bytes))
                ∙ ap (λ t. s.outgoing ++ t) (take-split r (suc n) bytes le);
            unread = i.unread;
          }))
    where
      leb_of_le : (a b : ℕ) → a ≤ b → leb a b ≡ true
      leb_of_le a b h = ground arith

  -- Over every kernel that moves at least one byte in each call, sending in whatever pieces it
  -- likes, safe_send of fewer than 2^31 bytes ends with 0 after it has written the four bytes of
  -- the size and then the bytes.
  pub safe_send-Sent :
      (s : Socket) (bytes : List ℕ)
      → length bytes < half
      → Returns
          (safe_send send s bytes (length bytes))
          (Sent s (meta_bytes (length bytes) ++ bytes))
  unfolding safe_send
  safe_send-Sent s bytes h =
      let n : ℕ = length bytes in
      let whole : take meta_size (meta_bytes n) ≡ meta_bytes n =
        ap (λ k. take k (meta_bytes n)) (sym (length-meta_bytes n)) ∙ take_all (meta_bytes n) in
      Returns-bind (Sent s (take meta_size (meta_bytes n))) (Sent s (meta_bytes n ++ bytes))
        (_safe_send_helper send meta_size s (meta_bytes n) meta_size) _
        (send_helper-Sent meta_size s (meta_bytes n) meta_size (omega arith)
          (omega (arith, length-meta_bytes n)) (omega arith))
        (λ (a, s1) i.
          Returns-bind (Sent s1 (take n bytes)) (Sent s (meta_bytes n ++ bytes))
            (_safe_send_helper send n s1 bytes n) _
            (send_helper-Sent n s1 bytes n (omega arith) (omega arith) h)
            (λ (b, s2) j. record {
              returned = (let p : a ≡ 0 = i.returned in let q : b ≡ 0 = j.returned in omega arith);
              wrote =
                  j.wrote
                  ∙ ap (λ t. s1.outgoing ++ t) (take_all bytes)
                  ∙ ap (λ t. t ++ bytes) (i.wrote ∙ ap (λ t. s.outgoing ++ t) whole)
                  ∙ append_assoc s.outgoing (meta_bytes n) bytes;
              unread = j.unread ∙ i.unread;
            }))
