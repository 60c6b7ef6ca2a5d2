-- ===== src/FlushQueue.antt =====
-- concurrency.go: the flush queue, as the steps that its producer and its workers can take in any
-- order. A channel of capacity n is the list of what was sent and not yet received, and a send to
-- a worker that waits at an empty channel reaches it at once, as on a channel of capacity 0. Sends,
-- receives and the end of a range follow the Go specification. printBlockFunc and flushFunc are the
-- tracer's writeBlock and output flush: here the jobs they were called with.
pub mod Fifo
use evm_firehose_tracer_go.Prelude.{ℕ, Bool, true, false, ◌<◌, ◌≡◌, List, [], ◌∷◌, ◌++◌, length}

-- A worker's goroutine: waiting in its range over the channel, between the receive and the print of
-- a job, or past the range, after `jobWG.Done`.
pub data Worker (A : Type 0) : Type 0 where
  waiting : Worker A
  holding : A → Worker A
  finished : Worker A

pub record ConcurrentFlushQueue (A : Type 0) : Type 0 where
  pub buffer_size : ℕ
  pub job_queue : List A
  pub closed : Bool
  pub workers : List (Worker A)
  pub pushed : List A
  pub printed : List A

unfoldable pub new_concurrent_flush_queue : {A : Type 0} → ℕ → ConcurrentFlushQueue A
new_concurrent_flush_queue n = record {
  buffer_size = n;
  job_queue = [];
  closed = false;
  workers = [];
  pushed = [];
  printed = [];
}

module _ {A : Type 0} where
  -- One more worker.
  unfoldable pub start : ConcurrentFlushQueue A → ConcurrentFlushQueue A
  start q = record q { workers = q.workers ++ waiting ∷ [] }

  -- A send that finds room in the buffer.
  unfoldable pub push : A → ConcurrentFlushQueue A → ConcurrentFlushQueue A
  push out q = record q { job_queue = q.job_queue ++ out ∷ []; pushed = q.pushed ++ out ∷ [] }

  -- A send that a worker takes over at once.
  unfoldable pub hand_over :
      A → List (Worker A) → List (Worker A) → ConcurrentFlushQueue A → ConcurrentFlushQueue A
  hand_over out before behind q = record q {
    workers = before ++ holding out ∷ behind;
    pushed = q.pushed ++ out ∷ [];
  }

  unfoldable pub close_queue : ConcurrentFlushQueue A → ConcurrentFlushQueue A
  close_queue q = record q { closed = true }

  -- A worker receives the oldest job, and prints the job that it holds.
  unfoldable pub receive :
      A
      → List A
      → List (Worker A)
      → List (Worker A)
      → ConcurrentFlushQueue A
      → ConcurrentFlushQueue A
  receive out rest before behind q = record q {
    job_queue = rest;
    workers = before ++ holding out ∷ behind;
  }

  unfoldable pub print :
      A → List (Worker A) → List (Worker A) → ConcurrentFlushQueue A → ConcurrentFlushQueue A
  print out before behind q = record q {
    workers = before ++ waiting ∷ behind;
    printed = q.printed ++ out ∷ [];
  }

  unfoldable pub finish :
      List (Worker A) → List (Worker A) → ConcurrentFlushQueue A → ConcurrentFlushQueue A
  finish before behind q = record q { workers = before ++ finished ∷ behind }

  -- A send waits while it finds neither room nor a waiting worker, and panics on a closed channel;
  -- then it does not happen. A range ends once its channel is closed and empty. Any of the workers
  -- may be the next to act.
  pub data Step (q : ConcurrentFlushQueue A) : ConcurrentFlushQueue A → Type 0 where
    pushes : (out : A) → q.closed ≡ false → length q.job_queue < q.buffer_size → Step q (push out q)
    hands_over :
        (out : A) (before behind : List (Worker A))
        → q.closed ≡ false
        → q.job_queue ≡ []
        → q.workers ≡ before ++ waiting ∷ behind
        → Step q (hand_over out before behind q)
    receives :
        (out : A) (rest : List A) (before behind : List (Worker A))
        → q.job_queue ≡ out ∷ rest
        → q.workers ≡ before ++ waiting ∷ behind
        → Step q (receive out rest before behind q)
    prints :
        (out : A) (before behind : List (Worker A))
        → q.workers ≡ before ++ holding out ∷ behind
        → Step q (print out before behind q)
    closes : Step q (close_queue q)
    ends :
        (before behind : List (Worker A))
        → q.closed ≡ true
        → q.job_queue ≡ []
        → q.workers ≡ before ++ waiting ∷ behind
        → Step q (finish before behind q)

  pub data Steps : ConcurrentFlushQueue A → ConcurrentFlushQueue A → Type 0 where
    stop : (q : ConcurrentFlushQueue A) → Steps q q
    then_step : (q r s : ConcurrentFlushQueue A) → Steps q r → Step r s → Steps q s
