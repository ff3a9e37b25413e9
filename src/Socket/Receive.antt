-- ===== src/Socket/Receive.antt =====
-- `safe_recv` over any kernel that moves bytes.
use cs165db.Prelude.{
  ℕ, zero, suc, ◌+◌, ◌-◌, ◌≤◌, ◌<◌, ◌≡◌, refl, sym, ap, ◌∙◌, List, [], ◌∷◌, ◌++◌, append-nil,
  append_assoc, length, take, drop, arith, length-drop, length-take, length-append, leb, ==_of_ne,
  take-append-drop, if_of_true,
}
use cs165db.Word.{half, sub32}
use cs165db.Run.{done, Returns, Returns-map}
use cs165db.Socket.{Socket, MovesBytes, store, recv_loop, safe_recv}
use cs165db.Socket.Send.{take-split, le_int-zero}

-- `bytes` put at `offset` of the buffer.
abbrev pub filled : List ℕ → ℕ → List ℕ → List ℕ
filled buffer offset bytes = take offset buffer ++ (bytes ++ drop (offset + length bytes) buffer)

-- A call that returned 0 and took `total` bytes from the stream into the buffer at `offset`.
pub record Received (s : Socket) (buffer : List ℕ) (offset total : ℕ) (r : ℕ × (List ℕ × Socket))
    : Type 0 where
  pub returned : r.0 ≡ 0
  pub buffered : r.1.0 ≡ filled buffer offset (take total s.incoming)
  pub remaining : r.1.1.incoming ≡ drop total s.incoming
  pub silent : r.1.1.outgoing ≡ s.outgoing

take-take_append : (m : ℕ) (xs ys : List ℕ) → m ≤ length xs → take m (take m xs ++ ys) ≡ take m xs
take-take_append zero xs ys h = refl
take-take_append (suc m) [] ys h = absurd (omega arith)
take-take_append (suc m) (x ∷ xs) ys h = ap (λ t. x ∷ t) (take-take_append m xs ys (omega arith))

pub drop-append : (xs ys : List ℕ) (n k : ℕ) → n ≡ length xs + k → drop n (xs ++ ys) ≡ drop k ys
drop-append [] ys n k h = let e : n ≡ k = omega arith in ap (λ j. drop j ys) e
drop-append (x ∷ xs) ys zero k h = absurd (omega arith)
drop-append (x ∷ xs) ys (suc n) k h = drop-append xs ys n k (omega arith)

pub take-append :
    (xs ys : List ℕ) (n k : ℕ) → n ≡ length xs + k → take n (xs ++ ys) ≡ xs ++ take k ys
take-append [] ys n k h = let e : n ≡ k = omega arith in ap (λ j. take j ys) e
take-append (x ∷ xs) ys zero k h = absurd (omega arith)
take-append (x ∷ xs) ys (suc n) k h = ap (λ t. x ∷ t) (take-append xs ys n k (omega arith))

pub drop-drop : (m n : ℕ) (xs : List ℕ) → drop n (drop m xs) ≡ drop (m + n) xs
drop-drop zero n xs = let e : n ≡ 0 + n = omega arith in ap (λ k. drop k xs) e
drop-drop (suc m) n [] = drop_nil n ∙ sym (drop_nil (suc m + n))
  where
    drop_nil : (k : ℕ) → drop {A = ℕ} k [] ≡ []
    drop_nil zero = refl
    drop_nil (suc k) = refl
drop-drop (suc m) n (x ∷ xs) =
    let e : suc m + n ≡ suc (m + n) = omega arith in rw e (drop-drop m n xs)

-- Two stretches, one after the other.
filled-filled :
    (buffer a b : List ℕ) (offset m : ℕ)
    → length a ≡ m
    → offset + m + length b ≤ length buffer
    → filled (filled buffer offset a) (offset + m) b ≡ filled buffer offset (a ++ b)
filled-filled buffer a b offset m e h =
    let w : List ℕ = take offset buffer ++ a in
    let tail : List ℕ = drop (offset + length a) buffer in
    let size : length w ≡ offset + m =
      omega (arith, e, length-append (take offset buffer) a, length-take offset buffer) in
    let whole : filled buffer offset a ≡ w ++ tail =
      sym (append_assoc (take offset buffer) a tail) in
    let front : take (offset + m) (w ++ tail) ≡ w =
      take-append w tail (offset + m) 0 (omega (arith, size)) ∙ append-nil w in
    let far : (offset + length a) + length b ≡ offset + length (a ++ b) =
      omega (arith, length-append a b) in
    let back : drop (offset + m + length b) (w ++ tail) ≡ drop (offset + length (a ++ b)) buffer =
      drop-append w tail (offset + m + length b) (length b) (omega (arith, size))
      ∙ drop-drop (offset + length a) (length b) buffer
      ∙ ap (λ k. drop k buffer) far in
    rw (whole, front, back)
      (append_assoc (take offset buffer) a (b ++ drop (offset + length (a ++ b)) buffer)
        ∙ ap (λ t. take offset buffer ++ t)
            (sym (append_assoc a b (drop (offset + length (a ++ b)) buffer))))

filled-nothing : (buffer : List ℕ) (offset : ℕ) → filled buffer offset [] ≡ buffer
filled-nothing buffer offset =
    let e : offset + 0 ≡ offset = omega arith in rw e (take-append-drop offset buffer)

store_lem :
    (buffer : List ℕ) (offset : ℕ) (bytes : List ℕ)
    → offset + length bytes ≤ length buffer
    → store buffer offset bytes ≡ done (filled buffer offset bytes)
store_lem buffer offset bytes h =
    if_of_true (leb (offset + length bytes) (length buffer)) _ _ (ground arith)

pub length-filled :
    (buffer : List ℕ) (offset : ℕ) (bytes : List ℕ)
    → offset + length bytes ≤ length buffer
    → length (filled buffer offset bytes) ≡ length buffer
length-filled buffer offset bytes h = omega (
  arith,
  length-append (take offset buffer) (bytes ++ drop (offset + length bytes) buffer),
  length-append bytes (drop (offset + length bytes) buffer),
  length-take offset buffer,
  length-drop (offset + length bytes) buffer,
)

module _ (recv : ℕ → ℕ → ℕ) (moves : MovesBytes recv) where
  recv_loop-Received :
      (fuel : ℕ) (s : Socket) (buffer : List ℕ) (offset total : ℕ)
      → total ≤ fuel
      → total ≤ length s.incoming
      → offset + total ≤ length buffer
      → total < half
      → Returns (recv_loop recv fuel s buffer offset total) (Received s buffer offset total)
  unfolding recv_loop
  recv_loop-Received zero s buffer offset zero f l b h = record {
    returned = refl;
    buffered = sym (filled-nothing buffer offset);
    remaining = refl;
    silent = refl;
  }
  recv_loop-Received zero s buffer offset (suc n) f l b h = absurd (omega arith)
  recv_loop-Received (suc fuel) s buffer offset zero f l b h = record {
    returned = refl;
    buffered = sym (filled-nothing buffer offset);
    remaining = refl;
    silent = refl;
  }
  recv_loop-Received (suc fuel) s buffer offset (suc n) f l b h =
      let r : ℕ = recv s.calls (suc n) in
      let (pos, le) = moves s.calls (suc n) (omega arith) in
      let got : List ℕ = take r s.incoming in
      let size : length got ≡ r = omega (arith, length-take r s.incoming) in
      let s1 : Socket = record s { calls = suc s.calls; incoming = drop r s.incoming } in
      let less : sub32 (suc n) r ≡ suc n - r = omega arith in
      let rest : List ℕ = take (suc n - r) (drop r s.incoming) in
      let rest_size : length rest ≡ suc n - r =
        omega (arith, length-take (suc n - r) (drop r s.incoming), length-drop r s.incoming) in
      rw
        (
          Returns,
          ==_of_ne (suc n) 0 (λ e. absurd (omega arith)),
          le_int-zero r pos (omega arith),
          store_lem buffer offset got (omega arith),
          less,
        )
        (Returns-map (Received s1 (filled buffer offset got) (offset + r) (suc n - r))
          (Received s buffer offset (suc n))
          (recv_loop recv fuel s1 (filled buffer offset got) (offset + r) (suc n - r))
          (recv_loop-Received fuel s1 (filled buffer offset got) (offset + r) (suc n - r)
            (omega arith) (omega (arith, length-drop r s.incoming))
            (omega (arith, length-filled buffer offset got (omega arith))) (omega arith))
          (λ a i. record {
            returned = i.returned;
            buffered =
                i.buffered
                ∙ filled-filled buffer got rest offset r size (omega arith)
                ∙ ap (filled buffer offset) (take-split r (suc n) s.incoming le);
            remaining =
                i.remaining
                ∙ drop-drop r (suc n - r) s.incoming
                ∙ (let k : r + (suc n - r) ≡ suc n = omega arith in ap (λ k. drop k s.incoming) k);
            silent = i.silent;
          }))

  -- Over every kernel that moves at least one byte in each call, in whatever pieces, safe_recv of
  -- fewer than 2^31 bytes that fit the buffer ends with 0 once the peer has written enough, and
  -- the buffer then starts with exactly the bytes asked for, the rest of it and of the stream as
  -- they were.
  pub safe_recv-Received :
      (s : Socket) (buffer : List ℕ) (total : ℕ)
      → total ≤ length s.incoming
      → total ≤ length buffer
      → total < half
      → Returns (safe_recv recv s buffer total) (Received s buffer 0 total)
  unfolding safe_recv
  safe_recv-Received s buffer total l b h =
      recv_loop-Received total s buffer 0 total (omega arith) l (omega arith) h

  -- A stretch of the stream whose length is asked for.
  pub safe_recv-stretch :
      (s : Socket) (buffer bytes rest : List ℕ) (n : ℕ)
      → s.incoming ≡ bytes ++ rest
      → length bytes ≡ n
      → n ≤ length buffer
      → n < half
      → Returns
          (safe_recv recv s buffer n)
          (λ (r, (got, t)). (r ≡ 0) × (got ≡ bytes ++ drop n buffer) × (t.incoming ≡ rest))
  safe_recv-stretch s buffer bytes rest n wire e b h =
      let enough : n ≤ length s.incoming = rw wire (omega (arith, e, length-append bytes rest)) in
      let head : take n s.incoming ≡ bytes =
        rw wire (take-append bytes rest n 0 (omega (arith, e)) ∙ append-nil bytes) in
      let tail : drop n s.incoming ≡ rest =
        rw wire (drop-append bytes rest n 0 (omega (arith, e))) in
      Returns-map (Received s buffer 0 n) _ (safe_recv recv s buffer n)
        (safe_recv-Received s buffer n enough b h)
        (λ (r, (got, t)) i. (
          i.returned,
          i.buffered
              ∙ ap (filled buffer 0) head
              ∙ (let k : 0 + length bytes ≡ n = omega (arith, e) in
                  ap (λ j. bytes ++ drop j buffer) k),
          i.remaining ∙ tail,
        ))
