-- ===== src/Channel/Readers/Order.antt =====
-- What the listeners get of a channel that many threads read (src/Socket.cpp).
use socket_lib_linux.Prelude.{
  ℕ, ◌≡◌, refl, ap, ◌∙◌, sym, subst, Bool, true, false, List, [], ◌∷◌, ◌++◌, append_assoc,
  append-nil, Option, none, some, length, min, take, drop, take-append-drop, ◌==◌, if◌then◌else◌,
}
use socket_lib_linux.StreamQueue
use socket_lib_linux.Channel.{RecvResult, received, recv_failed, ewouldblock}
use socket_lib_linux.Channel.Readers.{
  At, locked, checking, listening, Shared, release, bytes_of, checked, Step, lock, recv, check,
  listen, finish, shutdown, Reach, here, later,
}

-- What the thread that holds the lock has in hand.
abbrev pub in_hand : Option At → List ℕ
in_hand (some (checking r)) = bytes_of r
in_hand h = []

-- Heard, waiting and in hand are together what was received, unless bytes were thrown away.
abbrev pub IsWhole : Shared → Type 0
IsWhole s = s.lost ≡ false → s.heard ++ s.incoming ++ in_hand s.holder ≡ s.stream

at_holder :
    (s : Shared) (h : Option At)
    → s.holder ≡ h
    → IsWhole s
    → s.lost ≡ false
    → s.heard ++ s.incoming ++ in_hand h ≡ s.stream
at_holder s h e w l = subst (λ k. s.heard ++ s.incoming ++ in_hand k ≡ s.stream) e (w l)

failed-IsWhole :
    (again : Bool) (s : Shared)
    → (s.lost ≡ false → s.heard ++ s.incoming ++ [] ≡ s.stream)
    → IsWhole (if again then release s else release (record s { active = false }))
failed-IsWhole true s w l = w l
failed-IsWhole false s w l = w l

checked-IsWhole :
    (still : Bool) (r : RecvResult) (s : Shared)
    → (s.lost ≡ false → s.heard ++ s.incoming ++ bytes_of r ≡ s.stream)
    → IsWhole (checked still r s)
unfolding checked StreamQueue.enqueue
checked-IsWhole false (received []) s w l = w l
checked-IsWhole false (received (b ∷ bs)) s w l = absurd (cc)
checked-IsWhole false (recv_failed e) s w l = w l
checked-IsWhole true (received []) s w l = w l
checked-IsWhole true (received (b ∷ bs)) s w l =
    append-nil (s.heard ++ (s.incoming ++ b ∷ bs))
    ∙ sym (append_assoc s.heard s.incoming (b ∷ bs))
    ∙ w l
checked-IsWhole true (recv_failed e) s w l = failed-IsWhole (e == ewouldblock) s w l

pub Step-IsWhole : (s t : Shared) → IsWhole s → Step s t → IsWhole t
unfolding StreamQueue.dequeue
Step-IsWhole s _ w (lock e) l = at_holder s none e w l
Step-IsWhole s _ w (recv r e) l =
    ap (λ x. x ++ bytes_of r)
      (sym (append-nil (s.heard ++ s.incoming)) ∙ at_holder s (some locked) e w l)
Step-IsWhole s _ w (check still r e) l =
    checked-IsWhole (if s.active then still else false) r s (at_holder s (some (checking r)) e w) l
Step-IsWhole s _ w (listen n e) l =
    let k = min n (length s.incoming) in
    ap (λ x. x ++ in_hand s.holder)
      (append_assoc s.heard (take k s.incoming) (drop k s.incoming)
        ∙ ap (λ x. s.heard ++ x) (take-append-drop k s.incoming))
    ∙ w l
Step-IsWhole s _ w (finish e) l = at_holder s (some listening) e w l
Step-IsWhole s _ w shutdown l = w l

Reach-IsWhole : (s t : Shared) → IsWhole s → Reach s t → IsWhole t
Reach-IsWhole s _ w here = w
Reach-IsWhole s _ w (later {t = t} {u} r e) = Step-IsWhole t u (Reach-IsWhole s t w r) e

-- From a state in which no thread is in `readData` and nothing was received, in every order of the
-- steps of any number of threads that read and of the listeners: as long as no test of `isActive()`
-- behind a `recv` that brought bytes was false, the bytes that listeners took out of the queue, those
-- that wait in it and those that a thread has in hand between `recv` and the queue are together all
-- bytes that `recv` gave, in order. Where no thread holds the read lock, there are none in hand.
pub Reach-stream :
    (s t : Shared)
    → s.holder ≡ none
    → s.stream ≡ []
    → s.heard ≡ []
    → s.incoming ≡ []
    → Reach s t
    → t.lost ≡ false
    → ((bs : List ℕ) × (t.heard ++ t.incoming ++ bs ≡ t.stream) × (t.holder ≡ none → bs ≡ []))
Reach-stream s t free fresh unheard empty r l =
    let start : IsWhole s = λ k. rw (free, fresh, unheard, empty) refl in
    (in_hand t.holder, Reach-IsWhole s t start r l, λ e. rw e refl)
