-- ===== src/Logger/Delivery.antt =====
-- The thread that delivers the logs (src/SocketHandler.cpp).
use socket_lib_linux.Prelude.{
  ℕ, zero, suc, ◌≤◌, ◌≡◌, ◌≢◌, refl, ap, sym, ◌∙◌, Bool, true, false, List, [], ◌∷◌, ◌++◌,
  append_assoc, arith, length, length-append, replicate,
}
use socket_lib_linux.BulkQueue.{BulkQueue, IsFifo}
use socket_lib_linux.Logger.{LogTask, handle_log_thread}

nil-of_length : {A : Type 0} (xs : List A) → length xs ≤ 0 → [] ≡ xs
nil-of_length [] h = refl
nil-of_length (x ∷ xs) h = absurd (omega arith)

-- If something is taken whenever something is there, less is left.
length-rest :
    {A : Type 0} (n : ℕ) (xs ts ys : List A)
    → xs ≡ ts ++ ys
    → (xs ≢ [] → ts ≢ [])
    → length xs ≤ suc n
    → length ys ≤ n
length-rest n [] ts ys e t h = omega (arith, ap length e, length-append ts ys)
length-rest n (x ∷ xs) [] ys e t h = absurd (t (λ p. cc) refl)
length-rest n (x ∷ xs) (y ∷ ts) ys e t h = omega (arith, ap length e, length-append ts ys)

module _ {Q : Type 0} (queue : BulkQueue Q LogTask) (contents : Q → List LogTask)
    (fifo : IsFifo queue contents) where
  open fifo use {contents-dequeue_bulk}

  -- Whenever the handler stops the thread, the tasks that were delivered, followed by those left in the
  -- queue, are the tasks that waited: each was delivered once and in order, and the rest not at all.
  pub handle_log_thread-contents :
      (actives : List Bool) (q : Q)
      → (handle_log_thread queue actives q).0 ++ contents (handle_log_thread queue actives q).1
        ≡ contents q
  unfolding handle_log_thread
  handle_log_thread-contents [] q = refl
  handle_log_thread-contents (false ∷ actives) q = refl
  handle_log_thread-contents (true ∷ actives) q =
      append_assoc (queue.dequeue_bulk 20 q).0 _ _
      ∙ ap (◌++◌ (queue.dequeue_bulk 20 q).0)
          (handle_log_thread-contents actives (queue.dequeue_bulk 20 q).1)
      ∙ sym (contents-dequeue_bulk 20 q)

  -- If a dequeue never times out while tasks wait, then as many passes of an active handler as there
  -- are tasks deliver them all, in order.
  pub handle_log_thread-delivers :
      ((s : Q) → contents s ≢ [] → (queue.dequeue_bulk 20 s).0 ≢ [])
      → (n : ℕ) (q : Q) → length (contents q) ≤ n
      → (handle_log_thread queue (replicate n true) q).0 ≡ contents q
  unfolding handle_log_thread
  handle_log_thread-delivers prompt zero q h = nil-of_length (contents q) h
  handle_log_thread-delivers prompt (suc n) q h =
      let (tasks, rest) = queue.dequeue_bulk 20 q in
      let less : length (contents rest) ≤ n =
        length-rest n (contents q) tasks (contents rest) (contents-dequeue_bulk 20 q) (prompt q)
          h in
      ap (◌++◌ tasks) (handle_log_thread-delivers prompt n rest less)
      ∙ sym (contents-dequeue_bulk 20 q)
