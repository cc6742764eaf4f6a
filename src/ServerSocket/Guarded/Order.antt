-- ===== src/ServerSocket/Guarded/Order.antt =====
-- What the mutex of the map protects, while it keeps readers and writers apart (src/ServerSocket.cpp).
use socket_lib_linux.Prelude.{
  ℕ, ◌≡◌, ◌≢◌, at_thread, at_thread_elim, refl, ◌∙◌, sym, subst, Bool, true, false, List, [], ◌∷◌,
  ◌++◌, Option, none, some, arith,
}
use socket_lib_linux.UnorderedMap.{emplace, erase}
use socket_lib_linux.Channel.{create, is_active}
use socket_lib_linux.ServerSocket.Clients.{keys, IsKeyed}
use socket_lib_linux.ServerSocket.Reports.{keys-adjust}
use socket_lib_linux.ServerSocket.Keys.{
  erase-IsKeyed, emplace-IsKeyed, adjust-IsKeyed, find-descriptor,
}
use socket_lib_linux.ServerSocket.Guarded.{
  Mutex, AreApart, StayApart, dangling, Walk, Guarded, walk, lookup, stepped, returns, Keeps, lose,
  unsettle, Step, mutex, start_pass, start_thread_loop, start_write, advance, call_over, finish,
  connect, close, touch, set_active, Reach, here, later,
}
use socket_lib_linux.ServerSocket.Guarded.Follows.{
  visits, Follows, IsKeyed-IsDistinct, walk-Follows, lookup-Follows, stepped-Follows,
  returns-Follows, Follows-end,
}

-- A loop with the mutex that is over is done with exactly the keys that it found.
abbrev pub AllVisit : List Walk → Type 0
AllVisit [] = Unit {0}
AllVisit (v ∷ vs) = (v.locked ≡ true → visits v.visited ≡ v.found) × AllVisit vs

AllVisit-append :
    (vs : List Walk) (v : Walk)
    → AllVisit vs
    → (v.locked ≡ true → visits v.visited ≡ v.found)
    → AllVisit (vs ++ v ∷ [])
AllVisit-append [] v a e = (e, tt)
AllVisit-append (w ∷ vs) v a e = (a.0, AllVisit-append vs v a.1 e)

module _ (M : Mutex) where
  -- A loop under way that took the mutex has it, and follows the map.
  abbrev IsUnderway : M.State → List ℕ → ℕ → Option Walk → Type 0
  IsUnderway l ks i none = Unit {0}
  IsUnderway l ks i (some v) = v.locked ≡ true → M.HoldsShared l i × Follows ks v

  kept :
      (l l' : M.State) (ks : List ℕ) (i : ℕ) (v : Option Walk)
      → Keeps M l' i v
      → IsUnderway l ks i v
      → IsUnderway l' ks i v
  kept l l' ks i none k u = tt
  kept l l' ks i (some v) k u = λ has. (k has, (u has).1)

  -- While a thread holds the mutex alone, no loop with the mutex is under way.
  unsettle-IsUnderway :
      (l : M.State) (ks js : List ℕ) (i j : ℕ) (rehash : Bool) (v : Option Walk)
      → AreApart M l
      → M.HoldsAlone l i
      → IsUnderway l ks j v
      → IsUnderway l js j (unsettle rehash v)
  unsettle-IsUnderway l ks js i j rehash none apart alone u = tt
  unsettle-IsUnderway l ks js i j rehash (some v) apart alone u =
      λ has. absurd (apart i j alone (u has).0)

  lose-IsUnderway :
      (l : M.State) (ks js : List ℕ) (i j fd : ℕ) (v : Option Walk)
      → AreApart M l
      → M.HoldsAlone l i
      → IsUnderway l ks j v
      → IsUnderway l js j (lose fd v)
  lose-IsUnderway l ks js i j fd none apart alone u = tt
  lose-IsUnderway l ks js i j fd (some v) apart alone u = λ has. absurd (apart i j alone (u has).0)

locked-stepped :
    (active : Bool) (k : ℕ) (ks : List ℕ) (v : Walk) → (stepped active k ks v).locked ≡ v.locked
locked-stepped active k ks v = ground arith

Follows-safe : (ks : List ℕ) (v : Walk) → Follows ks v → (v.it ≢ dangling) × (v.channel ≢ dangling)
Follows-safe ks v (xs, [], e, i, c, f) = (λ d. cc, c)
Follows-safe ks v (xs, y ∷ ys, e, i, c, f) = (λ d. cc, c)

module _ {M : Mutex} {Q : Type 0} where
  record IsSound (s : Guarded M Q) : Type 0 where
    keyed : IsKeyed s.clients
    underway : (i : ℕ) → IsUnderway M s.lock (keys s.clients) i (s.walks i)
    whole : AllVisit s.over

  -- A step of thread `i` in a loop, to `v`.
  walked :
      (s : Guarded M Q) (i : ℕ) (v : Option Walk) (vs : List Walk)
      → IsSound s
      → IsUnderway M s.lock (keys s.clients) i v
      → AllVisit vs
      → IsSound (record s { walks = at_thread i v s.walks; over = vs })
  walked s i v vs o u a = record {
    keyed = o.keyed;
    underway = λ j.
        at_thread_elim (λ i v. IsUnderway M s.lock (keys s.clients) i v) i j v s.walks u
          (o.underway j);
    whole = a;
  }

  of_thread :
      (s : Guarded M Q) (i : ℕ) (v : Walk)
      → IsSound s
      → s.walks i ≡ some v
      → IsUnderway M s.lock (keys s.clients) i (some v)
  of_thread s i v o e = subst (IsUnderway M s.lock (keys s.clients) i) e (o.underway i)

  Step-IsSound :
      (empty : Q) (s t : Guarded M Q) → AreApart M s.lock → Step empty s t → IsSound s → IsSound t
  Step-IsSound empty s _ apart (mutex l moved holds) o = record {
    keyed = o.keyed;
    underway = λ i. kept M s.lock l (keys s.clients) i (s.walks i) (holds i) (o.underway i);
    whole = o.whole;
  }
  Step-IsSound empty s _ apart (start_pass i free has) o =
      walked s i (some (walk true (keys s.clients))) s.over o
        (λ _. (has, walk-Follows true (keys s.clients))) o.whole
  Step-IsSound empty s _ apart (start_thread_loop i free) o =
      walked s i (some (walk false (keys s.clients))) s.over o (λ locked. absurd (cc)) o.whole
  Step-IsSound empty s _ apart (start_write i fd c free has e) o =
      walked s i (some (lookup fd)) s.over o (λ _. (has, lookup-Follows fd (keys s.clients)))
        o.whole
  Step-IsSound empty s _ apart (advance i k v c e at free found) o =
      walked s i (some (stepped (is_active s.active c) k (keys s.clients) v)) s.over o
        (λ locked.
          let u =
            of_thread s i v o e
              (sym (locked-stepped (is_active s.active c) k (keys s.clients) v) ∙ locked) in
          (
            u.0,
            stepped-Follows (is_active s.active c) k (keys s.clients) v
                (IsKeyed-IsDistinct s.clients o.keyed) at free u.1,
          ))
        o.whole
  Step-IsSound empty s _ apart (call_over i k v e at) o =
      walked s i (some (returns k v)) s.over o
        (λ locked.
          let u = of_thread s i v o e locked in (u.0, returns-Follows k (keys s.clients) v at u.1))
        o.whole
  Step-IsSound empty s _ apart (finish i v e at free) o = walked s i none (s.over ++ v ∷ []) o tt (
      AllVisit-append s.over v o.whole
        (λ locked. Follows-end (keys s.clients) v at free (of_thread s i v o e locked).1))
  Step-IsSound empty s _ apart (connect i fd rehash alone) o = record {
    keyed = emplace-IsKeyed fd (create fd empty) s.clients (unfold create in refl) o.keyed;
    underway = λ j.
        unsettle-IsUnderway M s.lock (keys s.clients)
          (keys (emplace fd (create fd empty) s.clients)) i j rehash (s.walks j) apart alone
          (o.underway j);
    whole = o.whole;
  }
  Step-IsSound empty s _ apart (close i fd c alone found) o = record {
    keyed = erase-IsKeyed fd s.clients o.keyed;
    underway = λ j.
        lose-IsUnderway M s.lock (keys s.clients) (keys (erase fd s.clients)) i j fd (s.walks j)
          apart alone (o.underway j);
    whole = o.whole;
  }
  Step-IsSound empty s _ apart (touch k c c' found same) o = record {
    keyed =
        adjust-IsKeyed k c' s.clients (same ∙ find-descriptor k s.clients c o.keyed found) o.keyed;
    underway = λ j.
        subst (λ ks. IsUnderway M s.lock ks j (s.walks j)) (sym (keys-adjust k c' s.clients))
          (o.underway j);
    whole = o.whole;
  }
  Step-IsSound empty s _ apart (set_active b) o = record {
    keyed = o.keyed;
    underway = o.underway;
    whole = o.whole;
  }

  Reach-IsSound :
      (empty : Q) (s t : Guarded M Q) (r : Reach empty s t) → StayApart r → IsSound s → IsSound t
  Reach-IsSound empty s _ here apart o = o
  Reach-IsSound empty s _ (later {t = t} {u} r e) (before, now) o =
      Step-IsSound empty t u now e (Reach-IsSound empty s t r before o)

  -- The iterator and the reference of every loop with the mutex are at an entry that is there, or at
  -- none.
  abbrev pub NoneDangles : Guarded M Q → Type 0
  NoneDangles s =
      (i : ℕ) (v : Walk)
      → s.walks i ≡ some v
      → v.locked ≡ true
      → (v.it ≢ dangling) × (v.channel ≢ dangling)

  -- From a state in which each client stands under its own descriptor and no loop is under way, in every
  -- order of the steps of any number of threads that read, write, accept, close and look up, as long as
  -- the mutex, whatever it is, lets no thread hold it shared while another holds it alone: no iterator
  -- of `readLoop` or `writeLoop` and no reference of theirs or of `write` dangles, each pass of theirs
  -- that is over has visited exactly the clients that were there when it took the mutex, each once
  -- and in the order of the map, and each client still stands under its own descriptor.
  pub Reach-AllVisit :
      (empty : Q) (s t : Guarded M Q)
      → IsKeyed s.clients
      → ((i : ℕ) → s.walks i ≡ none)
      → s.over ≡ []
      → (r : Reach empty s t) → StayApart r
      → AllVisit t.over × NoneDangles t × IsKeyed t.clients
  Reach-AllVisit empty s t keyed idle fresh r apart =
      let o = Reach-IsSound empty s t r apart (record {
        keyed = keyed;
        underway = λ j. subst (IsUnderway M s.lock (keys s.clients) j) (sym (idle j)) tt;
        whole = subst AllVisit (sym fresh) tt;
      }) in
      (
        o.whole,
        λ i v e locked. Follows-safe (keys t.clients) v (of_thread t i v o e locked).1,
        o.keyed,
      )
