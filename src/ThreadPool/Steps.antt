-- ===== src/ThreadPool/Steps.antt =====
-- server.c and the head of `db_worker` (worker.c) over one pool: the accepting thread adds a socket
-- in each turn of its loop, and each of the workers takes one when it holds the lock. A run is a
-- list of such turns in any order.
use cs165db.Prelude.{
  ℕ, ◌≤◌, ◌<◌, ◌≡◌, refl, sym, ap, ◌∙◌, List, [], ◌∷◌, ◌++◌, append_assoc, none, some, max, arith,
  length,
}
use native.Mathlib.Decide.{dec_lt}
use cs165db.Run.{Run, done, Returns, Returns-done, Returns-at, >>=-eq-done, ◌>>=◌}
use cs165db.ThreadPool.{
  ThreadPool, max_queue_size, create_threadpool, add_new_socket, get_socket, worker_takes,
}
use cs165db.ThreadPool.Queue.{
  IsValid, waiting, Added, add_new_socket-Added, Taken, get_socket-Taken, worker_takes-empty,
  worker_takes-some,
}

-- A turn of the accepting thread's loop, with the socket that `accept` returned, or of a worker's.
pub data Turn : Type 0 where
  accept : ℕ → Turn
  serve : Turn

-- The pool, with what was accepted and what was handed out so far, and the longest the queue was.
pub record Server : Type 0 where
  pub pool : ThreadPool
  pub accepted : List ℕ
  pub served : List ℕ
  pub longest : ℕ

unfoldable pub take_turn : Server → Turn → Run Server
take_turn s (accept socket) = add_new_socket s.pool socket >>= λ pool. done (record s {
  pool = pool;
  accepted = s.accepted ++ (socket ∷ []);
  longest = max s.longest pool.q_waiting;
})
take_turn s serve = worker_takes s.pool >>= λ (got, pool). elim got [
  | none ↦ done (record s { pool = pool })
  | some socket ↦ done (record s { pool = pool; served = s.served ++ (socket ∷ []) })
]

unfoldable pub take_turns : Server → List Turn → Run Server
take_turns s [] = done s
take_turns s (t ∷ ts) = take_turn s t >>= λ s'. take_turns s' ts

-- What was accepted was served in that order, or waits.
pub record InOrder (s : Server) : Type 0 where
  pub valid : IsValid s.pool
  pub order : s.accepted ≡ s.served ++ waiting s.pool
  pub fits : s.pool.q_waiting ≤ s.longest

accept-InOrder :
    (s : Server) (socket : ℕ)
    → InOrder s
    → s.pool.q_waiting < max_queue_size
    → Returns (take_turn s (accept socket)) InOrder
unfolding take_turn
accept-InOrder s socket i room =
    let (pool, e, a) =
      Returns-done (Added s.pool socket) (add_new_socket s.pool socket)
        (add_new_socket-Added s.pool socket i.valid room) in
    rw (Returns, e)
      (record {
        valid = a.valid;
        order =
            ap (λ l. l ++ (socket ∷ [])) i.order
            ∙ append_assoc s.served (waiting s.pool) (socket ∷ [])
            ∙ ap (λ l. s.served ++ l) (sym a.queue);
        fits = omega arith;
      })

serve-InOrder : (s : Server) → InOrder s → Returns (take_turn s serve) InOrder
unfolding take_turn
serve-InOrder s i = elim (dec_lt 0 s.pool.q_waiting) [
  | no n ↦ rw (Returns, worker_takes-empty s.pool (omega arith)) i
  | yes p ↦
      let (r, e, t) =
        Returns-done (Taken s.pool) (get_socket s.pool) (get_socket-Taken s.pool i.valid p) in
      rw (Returns, worker_takes-some s.pool p, e)
        (record {
          valid = t.0;
          order =
              i.order
              ∙ ap (λ l. s.served ++ l) t.1
              ∙ sym (append_assoc s.served (r.0 ∷ []) (waiting r.1));
          fits = omega (arith, i.fits);
        })
]

take_turn-longest : (s s' : Server) (t : Turn) → take_turn s t ≡ done s' → s.longest ≤ s'.longest
unfolding take_turn
take_turn-longest s s' (accept socket) e = ground arith
take_turn-longest s s' serve e = ground arith

accept-counts :
    (s s' : Server) (socket : ℕ)
    → take_turn s (accept socket) ≡ done s'
    → IsValid s.pool
    → s.pool.q_waiting < s'.longest
unfolding take_turn add_new_socket
accept-counts s s' socket e v = ground arith

take_turns-longest :
    (turns : List Turn) (s t : Server) → take_turns s turns ≡ done t → s.longest ≤ t.longest
unfolding take_turns
take_turns-longest [] s t e = ground arith
take_turns-longest (x ∷ xs) s t e =
    let (s', p, q) = >>=-eq-done (take_turn s x) (λ s'. take_turns s' xs) e in
    omega (arith, take_turn-longest s s' x p, take_turns-longest xs s' t q)

take_turn-InOrder :
    (s s' : Server) (x : Turn)
    → InOrder s
    → take_turn s x ≡ done s'
    → s'.longest ≤ max_queue_size
    → InOrder s'
take_turn-InOrder s s' (accept socket) i e h =
    Returns-at InOrder (take_turn s (accept socket)) s'
      (accept-InOrder s socket i (omega (arith, accept-counts s s' socket e i.valid))) e
take_turn-InOrder s s' serve i e h = Returns-at InOrder (take_turn s serve) s' (serve-InOrder s i) e

take_turns-InOrder :
    (turns : List Turn) (s t : Server)
    → InOrder s
    → take_turns s turns ≡ done t
    → t.longest ≤ max_queue_size
    → InOrder t
unfolding take_turns
take_turns-InOrder [] s t i e h = Returns-at InOrder (done s) t i e
take_turns-InOrder (x ∷ xs) s t i e h =
    let (s', p, q) = >>=-eq-done (take_turn s x) (λ s'. take_turns s' xs) e in
    let m : s'.longest ≤ max_queue_size = omega (arith, take_turns-longest xs s' t q) in
    take_turns-InOrder xs s' t (take_turn-InOrder s s' x i p m) q h

-- A server as `main` starts it, with whatever `malloc` left in the pool's array.
abbrev pub fresh_server : List ℕ → Server
fresh_server junk = record {
  pool = create_threadpool junk;
  accepted = [];
  served = [];
  longest = 0;
}

-- In every interleaving of accepts and workers from a fresh pool that ends in a state and in which
-- at most 100 sockets waited at a time, what was accepted is what was served, in that order,
-- followed by what still waits.
pub take_turns-fifo :
    (junk : List ℕ) (turns : List Turn) (t : Server)
    → length junk ≡ max_queue_size
    → take_turns (fresh_server junk) turns ≡ done t
    → t.longest ≤ max_queue_size
    → t.accepted ≡ t.served ++ waiting t.pool
unfolding create_threadpool
take_turns-fifo junk turns t len e h =
    (take_turns-InOrder turns (fresh_server junk) t
      (record {
        valid = record { storage = len; head_in = omega arith; waiting_in = omega arith };
        order = refl;
        fits = omega arith;
      })
      e h).order

-- The array keeps its 100 cells and the head stays among them, also where the queue overruns.
record InArray (s : Server) : Type 0 where
  storage : length s.pool.sockets ≡ max_queue_size
  head_in : s.pool.q_head < max_queue_size
