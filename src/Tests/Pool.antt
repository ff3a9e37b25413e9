-- ===== src/Tests/Pool.antt =====
-- threadpool.c and the turns of server.c and worker.c at concrete inputs.
use cs165db.Prelude.{◌≡◌, refl, List, [], ◌∷◌, ◌++◌, replicate, arith}
use cs165db.Run.{done, Returns}
use cs165db.ThreadPool.{ThreadPool, create_threadpool, add_new_socket, get_socket, worker_takes}
use cs165db.ThreadPool.Queue.{IsValid, waiting}
use cs165db.ThreadPool.Drain.{take_turns-drain}
use cs165db.ThreadPool.Steps.{
  Turn, accept, serve, Server, take_turn, take_turns, fresh_server, take_turns-fifo,
}

-- Two sockets, one on each side of the end of the array.
abbrev two_waiting : ThreadPool
two_waiting = record { q_head = 99; q_waiting = 2; sockets = replicate 100 5 }

two_waiting-IsValid : IsValid two_waiting
two_waiting-IsValid = record { storage = refl; head_in = omega arith; waiting_in = omega arith }

abbrev full_pool : ThreadPool
full_pool = record { q_head = 3; q_waiting = 100; sockets = replicate 100 5 }

full_pool-IsValid : IsValid full_pool
full_pool-IsValid = record { storage = refl; head_in = omega arith; waiting_in = omega arith }

abbrev some_turns : List Turn
some_turns = serve ∷ accept 7 ∷ accept 8 ∷ serve ∷ []

abbrev after_turns : Server
after_turns = record {
  pool = record { q_head = 1; q_waiting = 1; sockets = 7 ∷ 8 ∷ replicate 98 0 };
  accepted = 7 ∷ 8 ∷ [];
  served = 7 ∷ [];
  longest = 2;
}

some_turns_run : take_turns (fresh_server (replicate 100 0)) some_turns ≡ done after_turns
unfolding take_turns take_turn add_new_socket get_socket worker_takes create_threadpool
some_turns_run = refl

take_turns-fifo_example : (7 ∷ 8 ∷ []) ≡ (7 ∷ []) ++ waiting after_turns.pool
take_turns-fifo_example =
    take_turns-fifo (replicate 100 0) some_turns after_turns refl some_turns_run (omega arith)

abbrev two_waiting_server : Server
two_waiting_server = record { pool = two_waiting; accepted = []; served = []; longest = 2 }

take_turns-drain_example :
    Returns
      (take_turns two_waiting_server (replicate 2 serve))
      (λ t. (t.served ≡ [] ++ waiting two_waiting) × (t.pool.q_waiting ≡ 0) × (t.accepted ≡ []))
take_turns-drain_example = take_turns-drain 2 two_waiting_server two_waiting-IsValid refl
