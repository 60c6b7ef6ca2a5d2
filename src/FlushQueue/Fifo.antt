-- ===== src/FlushQueue/Fifo.antt =====
-- With the one worker that the code starts, blocks are printed in the order in which they were
-- pushed, and closing the queue loses none.
use evm_firehose_tracer_go.Prelude.{
  ℕ, Bool, true, false, ◌≤◌, ◌≡◌, refl, sym, ap, ◌∙◌, List, [], ◌∷◌, ◌++◌, length, length-append,
  inl, inr, ◌⊎◌, append_assoc, append-nil, arith,
}
use evm_firehose_tracer_go.FlushQueue.{
  Worker, waiting, holding, finished, ConcurrentFlushQueue, new_concurrent_flush_queue, start, push,
  hand_over, close_queue, receive, print, finish, Step, pushes, hands_over, receives, prints,
  closes, ends, Steps, stop, then_step,
}

module _ {A : Type 0} where
  -- What a worker has received and not printed.
  abbrev pub held : Worker A → List A
  held waiting = []
  held (holding out) = out ∷ []
  held finished = []

  abbrev pub has_finished : Worker A → Bool
  has_finished waiting = false
  has_finished (holding out) = false
  has_finished finished = true

  -- With one worker.
  pub record IsQueue (n : ℕ) (q : ConcurrentFlushQueue A) (w : Worker A) : Type 0 where
    pub only : q.workers ≡ w ∷ []
    pub in_order : q.printed ++ (held w ++ q.job_queue) ≡ q.pushed
    pub size : q.buffer_size ≡ n
    pub bounded : length q.job_queue ≤ n
    pub done_closed : has_finished w ≡ true → q.closed ≡ true
    pub drained : has_finished w ≡ true → q.job_queue ≡ []

  abbrev HasOne : ℕ → ConcurrentFlushQueue A → Type 0
  HasOne n q = (w : Worker A) × IsQueue n q w

  the_one :
      (v w : Worker A) (before behind : List (Worker A))
      → before ++ v ∷ behind ≡ w ∷ []
      → (before ≡ []) × (v ≡ w) × (behind ≡ [])
  the_one v w [] [] e = ground arith
  the_one v w [] (x ∷ xs) e = absurd (ground arith)
  the_one v w (x ∷ []) behind e = absurd (ground arith)
  the_one v w (x ∷ y ∷ ys) behind e = absurd (ground arith)

  Step-HasOne : (n : ℕ) (q r : ConcurrentFlushQueue A) → HasOne n q → Step q r → HasOne n r
  unfolding push hand_over close_queue receive print finish
  Step-HasOne n q _ (w, h) (pushes out live room) = (
    w,
    record {
      only = h.only;
      in_order =
          ap (λ xs. q.printed ++ xs) (sym (append_assoc (held w) q.job_queue (out ∷ [])))
          ∙ sym (append_assoc q.printed (held w ++ q.job_queue) (out ∷ []))
          ∙ ap (λ xs. xs ++ out ∷ []) h.in_order;
      size = h.size;
      bounded = omega (arith, h.size, length-append q.job_queue (out ∷ []));
      done_closed = h.done_closed;
      drained = λ d. ground (arith, h.done_closed d);
    },
  )
  Step-HasOne n q _ (w, h) (hands_over out before behind live empty spare) =
      let (first, same, last) = the_one waiting w before behind (sym spare ∙ h.only) in
      (
        holding out,
        record {
          only = ground arith;
          in_order = ground (arith, h.in_order, append-nil q.printed);
          size = h.size;
          bounded = h.bounded;
          done_closed = λ d. cc;
          drained = λ d. empty;
        },
      )
  Step-HasOne n q _ (w, h) (receives out rest before behind e spare) =
      let (first, same, last) = the_one waiting w before behind (sym spare ∙ h.only) in
      (
        holding out,
        record {
          only = ground arith;
          in_order = ground (arith, h.in_order);
          size = h.size;
          bounded = omega (arith, h.bounded, ap length e);
          done_closed = λ d. cc;
          drained = λ d. cc;
        },
      )
  Step-HasOne n q _ (w, h) (prints out before behind busy) =
      let (first, same, last) = the_one (holding out) w before behind (sym busy ∙ h.only) in
      (
        waiting,
        record {
          only = ground arith;
          in_order = append_assoc q.printed (out ∷ []) q.job_queue ∙ ground (arith, h.in_order);
          size = h.size;
          bounded = h.bounded;
          done_closed = λ d. cc;
          drained = λ d. cc;
        },
      )
  Step-HasOne n q _ (w, h) closes = (
    w,
    record {
      only = h.only;
      in_order = h.in_order;
      size = h.size;
      bounded = h.bounded;
      done_closed = λ d. refl;
      drained = h.drained;
    },
  )
  Step-HasOne n q _ (w, h) (ends before behind closed empty spare) =
      let (first, same, last) = the_one waiting w before behind (sym spare ∙ h.only) in
      (
        finished,
        record {
          only = ground arith;
          in_order = ground (arith, h.in_order);
          size = h.size;
          bounded = h.bounded;
          done_closed = λ d. closed;
          drained = λ d. empty;
        },
      )

  Steps-HasOne : (n : ℕ) (q r : ConcurrentFlushQueue A) → HasOne n q → Steps q r → HasOne n r
  Steps-HasOne n _ _ h (stop q) = h
  Steps-HasOne n _ _ h (then_step q r s before last) =
      Step-HasOne n r s (Steps-HasOne n q r h before) last

  started-HasOne : (n : ℕ) → HasOne n (start (new_concurrent_flush_queue n))
  unfolding new_concurrent_flush_queue start
  started-HasOne n = (
    waiting,
    record {
      only = refl;
      in_order = refl;
      size = refl;
      bounded = omega arith;
      done_closed = λ d. cc;
      drained = λ d. refl;
    },
  )

  printed_all :
      (n : ℕ) (q : ConcurrentFlushQueue A) (w : Worker A)
      → IsQueue n q w
      → (has_finished w ≡ false) ⊎ (q.printed ≡ q.pushed)
  printed_all n q waiting h = inl refl
  printed_all n q (holding out) h = inl refl
  printed_all n q finished h =
      inr (
        sym (append-nil q.printed) ∙ ap (λ xs. q.printed ++ xs) (sym (h.drained refl)) ∙ h.in_order)

-- From a new queue of any buffer size that was started once, after any steps of the producer and
-- the worker in any order, there is one worker, and what was printed, what the worker holds and what
-- waits are together what was pushed, in that order; no more waits than the buffer holds; and all
-- that was pushed has been printed, unless the worker has not finished (until then Close waits).
pub Steps-fifo :
    {A : Type 0} (n : ℕ) (q : ConcurrentFlushQueue A)
    → Steps (start (new_concurrent_flush_queue n)) q
    → (w : Worker A) × (q.workers ≡ w ∷ [])
      × (q.printed ++ (held w ++ q.job_queue) ≡ q.pushed)
      × (length q.job_queue ≤ n)
      × ((has_finished w ≡ false) ⊎ (q.printed ≡ q.pushed))
Steps-fifo n q steps =
    let (w, h) = Steps-HasOne n (start (new_concurrent_flush_queue n)) q (started-HasOne n) steps in
    (w, h.only, h.in_order, h.bounded, printed_all n q w h)
