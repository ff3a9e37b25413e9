-- ===== src/ThreadPool.antt =====
-- threadpool.c: the circular queue of sockets that the accepting thread fills and the workers empty.
-- The indices are `int`s that stay far below 2 ^ 31. The threads and the lock are pthread's: one
-- call stands between `pthread_mutex_lock` and `pthread_mutex_unlock`, so calls do not overlap.
pub mod Queue
pub mod Steps
pub mod Drain
use cs165db.Prelude.{ℕ, ◌+◌, ◌%◌, List, replicate, ◌==◌, if◌then◌else◌, Option, none, some}
use cs165db.Word.{add32, sub32}
use cs165db.Run.{Run, done, read, write, ◌>>=◌}

-- `THREAD_POOL_MAX_QUEUE_SIZE`
abbrev pub max_queue_size : ℕ
max_queue_size = 100

-- The queue of `thread_pool_t`.
pub record ThreadPool : Type 0 where
  pub q_head : ℕ
  pub q_waiting : ℕ
  pub sockets : List ℕ

-- The sockets of a fresh pool are whatever `malloc` left there.
unfoldable pub create_threadpool : List ℕ → ThreadPool
create_threadpool junk = record { q_head = 0; q_waiting = 0; sockets = junk }

unfoldable pub add_new_socket : ThreadPool → ℕ → Run ThreadPool
add_new_socket pool socket =
    let pos = (pool.q_head + pool.q_waiting) % max_queue_size in
    write pool.sockets pos socket >>= λ sockets.
    done (record pool { sockets = sockets; q_waiting = add32 pool.q_waiting 1 })

unfoldable pub get_socket : ThreadPool → Run (ℕ × ThreadPool)
get_socket pool = read pool.sockets pool.q_head >>= λ socket. done (
  socket,
  record pool { q_head = add32 pool.q_head 1 % max_queue_size; q_waiting = sub32 pool.q_waiting 1 },
)

-- A worker that holds the lock: it waits while nothing is there, and takes a socket otherwise.
unfoldable pub worker_takes : ThreadPool → Run (Option ℕ × ThreadPool)
worker_takes pool =
    if pool.q_waiting == 0
    then done (none, pool)
    else (get_socket pool >>= λ (socket, after). done (some socket, after))
