-- ===== src/ThreadPool/Drain.antt =====
-- Workers that keep taking turns (worker.c) empty the queue of the pool (threadpool.c).
use cs165db.Prelude.{
  ℕ, zero, suc, ◌≡◌, refl, sym, ap, ◌∙◌, [], ◌∷◌, ◌++◌, append_assoc, append-nil, replicate, arith,
}
use cs165db.Run.{Returns, Returns-done, Returns-map}
use cs165db.ThreadPool.{ThreadPool, get_socket}
use cs165db.ThreadPool.Queue.{IsValid, waiting, window, Taken, get_socket-Taken, worker_takes-some}
use cs165db.ThreadPool.Steps.{serve, Server, take_turn, take_turns}

-- After as many turns of workers as sockets wait in a valid pool, with none accepted meanwhile,
-- every socket that waited has been handed out, in the order of the queue, and none waits.
pub take_turns-drain :
    (n : ℕ) (s : Server)
    → IsValid s.pool
    → s.pool.q_waiting ≡ n
    → Returns (take_turns s (replicate n serve)) (λ t.
      (t.served ≡ s.served ++ waiting s.pool) × (t.pool.q_waiting ≡ 0) × (t.accepted ≡ s.accepted))
unfolding take_turns take_turn
take_turns-drain zero s v e =
    let pool : ThreadPool = s.pool in
    (
      sym (append-nil s.served) ∙ ap (λ k. s.served ++ window pool.sockets pool.q_head k) (sym e),
      e,
      refl,
    )
take_turns-drain (suc n) s v e =
    let ((socket, after), run, (valid, queue, fewer)) =
      Returns-done (Taken s.pool) (get_socket s.pool) (get_socket-Taken s.pool v (omega arith)) in
    let s' : Server = record s { pool = after; served = s.served ++ (socket ∷ []) } in
    rw (Returns, worker_takes-some s.pool (omega arith), run)
      (Returns-map _ _ (take_turns s' (replicate n serve))
        (take_turns-drain n s' valid (omega arith))
        (λ t (served, none_left, accepted). (
          served
              ∙ append_assoc s.served (socket ∷ []) (waiting after)
              ∙ ap (λ q. s.served ++ q) (sym queue),
          none_left,
          accepted,
        )))
