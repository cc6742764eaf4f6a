-- ===== src/ServerSocket/Loops/Sweep.antt =====
-- Which channels a pass of the write or the read thread handles, and what it leaves of them
-- (src/ServerSocket.cpp).
use socket_lib_linux.Prelude.{
  ℕ, ◌≡◌, refl, inl, inr, Bool, true, false, ◌||◌, List, [], ◌∷◌, some, arith, Bool-cases,
  if◌then◌else◌,
}
use socket_lib_linux.Channel.{Channel, Reply, replied, is_active}
use socket_lib_linux.UnorderedMap.{find}
use socket_lib_linux.ServerSocket.Loops.{visited, sweep}

module _ {Q : Type 0} where
  visited-replied :
      (k : ℕ) (c : Channel Q × Reply) (cs ds : List (ℕ × Channel Q)) (b b' : Bool)
      → c.1 ≡ replied b
      → visited k c cs (ds, replied b') ≡ ((k, c.0) ∷ ds, replied (b || b'))
  visited-replied k (c, r) cs ds b b' e = rw e refl

module _ {Q : Type 0} (socket_active : ℕ → Bool) (call : ℕ → Channel Q → Channel Q × Reply) where
  -- Each call on a channel that is active returns.
  abbrev pub AllReply : List (ℕ × Channel Q) → Type 0
  AllReply [] = Unit {0}
  AllReply ((k, c) ∷ cs) =
      (is_active (socket_active k) c ≡ true → (b : Bool) × ((call k c).1 ≡ replied b)) × AllReply cs

  -- Every active channel after its call, the others as they were.
  abbrev pub handled : List (ℕ × Channel Q) → List (ℕ × Channel Q)
  handled [] = []
  handled ((k, c) ∷ cs) =
      (k, if is_active (socket_active k) c then (call k c).0 else c) ∷ handled cs

  abbrev pub is_replied_true : Reply → Bool
  is_replied_true (replied b) = b
  is_replied_true r = false

  -- Some call on an active channel found work.
  abbrev pub any_found : List (ℕ × Channel Q) → Bool
  any_found [] = false
  any_found ((k, c) ∷ cs) =
      if is_active (socket_active k) c
      then is_replied_true (call k c).1 || any_found cs
      else any_found cs

  -- A pass over channels whose calls return makes the call once for each channel that is active, and
  -- for no other; its answer is whether one of them found work.
  pub sweep-lem :
      (cs : List (ℕ × Channel Q))
      → AllReply cs
      → sweep socket_active call cs ≡ (handled cs, replied (any_found cs))
  unfolding sweep
  sweep-lem [] h = refl
  sweep-lem ((k, c) ∷ cs) h = elim (Bool-cases (is_active (socket_active k) c)) [
    | inl on ↦
        (let (b, e) = h.0 on in
          rw
            (
              on,
              sweep-lem cs h.1,
              visited-replied k (call k c) cs (handled cs) b (any_found cs) e,
              e,
            )
            refl)
    | inr off ↦ rw (off, sweep-lem cs h.1) refl
  ]

  pub find-handled :
      (fd : ℕ) (cs : List (ℕ × Channel Q)) (c : Channel Q)
      → find fd cs ≡ some c
      → is_active (socket_active fd) c ≡ true
      → find fd (handled cs) ≡ some (call fd c).0
  unfolding find
  find-handled fd [] c h on = absurd (cc)
  find-handled fd ((k, d) ∷ cs) c h on = ground (arith, find-handled fd cs c)

  pub any_found-find :
      (fd : ℕ) (cs : List (ℕ × Channel Q)) (c : Channel Q)
      → find fd cs ≡ some c
      → is_active (socket_active fd) c ≡ true
      → (call fd c).1 ≡ replied true
      → any_found cs ≡ true
  unfolding find
  any_found-find fd [] c h on r = absurd (cc)
  any_found-find fd ((k, d) ∷ cs) c h on r = ground (arith, any_found-find fd cs c)
