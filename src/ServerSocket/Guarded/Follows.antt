-- ===== src/ServerSocket/Guarded/Follows.antt =====
-- A loop over a map that keeps its keys visits each of them (src/ServerSocket.cpp).
use socket_lib_linux.Prelude.{
  ℕ, ◌≡◌, ◌≢◌, refl, ap, ◌∙◌, sym, subst, inl, inr, Bool, true, false, ◌&&◌, List, [], ◌∷◌, ◌++◌,
  append_assoc, append-nil, none, arith, map, Bool-cases, ◌==◌, ==-refl,
}
use mathlib.Core.List.{map-append}
use socket_lib_linux.UnorderedMap.{find}
use socket_lib_linux.Channel.{Channel}
use socket_lib_linux.ServerSocket.Clients.{keys, IsKeyed}
use socket_lib_linux.ServerSocket.Guarded.{
  Place, past_end, entry, dangling, Walk, first, behind, walk, lookup, stepped, returns,
}

-- No key of the list is the given one, and no key stands twice.
abbrev pub Without : ℕ → List ℕ → Type 0
Without k [] = Unit {0}
Without k (j ∷ js) = (j ≢ k) × Without k js

abbrev pub IsDistinct : List ℕ → Type 0
IsDistinct [] = Unit {0}
IsDistinct (k ∷ ks) = Without k ks × IsDistinct ks

Without-mid : (j : ℕ) (xs : List ℕ) (k : ℕ) (ys : List ℕ) → Without j (xs ++ k ∷ ys) → k ≢ j
Without-mid j [] k ys h = h.0
Without-mid j (x ∷ xs) k ys h = Without-mid j xs k ys h.1

-- In a list without repetitions, what stands behind a key that is past the keys `xs`.
pub behind-mid :
    (xs : List ℕ) (k : ℕ) (ys : List ℕ)
    → IsDistinct (xs ++ k ∷ ys)
    → behind k (xs ++ k ∷ ys) ≡ first ys
behind-mid [] k ys h = rw (==-refl k) refl
behind-mid (x ∷ xs) k ys h = elim (Bool-cases (x == k)) [
  | inl same ↦ absurd (Without-mid x xs k ys h.0 (ground arith))
  | inr other ↦ rw other (behind-mid xs k ys h.1)
]

module _ {Q : Type 0} where
  Without-keys : (k : ℕ) (cs : List (ℕ × Channel Q)) → find k cs ≡ none → Without k (keys cs)
  unfolding find
  Without-keys k [] h = tt
  Without-keys k ((j, c) ∷ cs) h = (λ e. ground arith, Without-keys k cs (ground arith))

  pub IsKeyed-IsDistinct : (cs : List (ℕ × Channel Q)) → IsKeyed cs → IsDistinct (keys cs)
  IsKeyed-IsDistinct [] h = tt
  IsKeyed-IsDistinct ((k, c) ∷ cs) h = (Without-keys k cs h.1, IsKeyed-IsDistinct cs h.2)

  pub keys-append : (xs ys : List (ℕ × Channel Q)) → keys (xs ++ ys) ≡ keys xs ++ keys ys
  keys-append [] ys = refl
  keys-append ((k, c) ∷ xs) ys = ap (◌∷◌ k) (keys-append xs ys)

-- The key of a call under way.
abbrev pub called : Place → List ℕ
called past_end = []
called (entry k) = k ∷ []
called dangling = []

abbrev pub visits : List (ℕ × Bool) → List ℕ
visits vs = map (λ (w : ℕ × Bool). w.0) vs

-- The iterator stands before the last keys of the map; what the loop is done with, the call under way
-- and those keys are what it has to visit.
abbrev pub Follows : List ℕ → Walk → Type 0
Follows ks v =
    (xs ys : List ℕ) × (ks ≡ xs ++ ys)
    × (v.it ≡ first ys)
    × (v.channel ≢ dangling)
    × (v.found ≡ visits v.visited ++ (called v.channel ++ ys))

pub walk-Follows : (locked : Bool) (ks : List ℕ) → Follows ks (walk locked ks)
walk-Follows locked ks = ([], ks, refl, refl, λ e. cc, refl)

pub lookup-Follows : (fd : ℕ) (ks : List ℕ) → Follows ks (lookup fd)
lookup-Follows fd ks = (ks, [], sym (append-nil ks), refl, λ e. cc, refl)

first-entry : (ys : List ℕ) (k : ℕ) → first ys ≡ entry k → (zs : List ℕ) × (ys ≡ k ∷ zs)
first-entry [] k e = absurd (cc)
first-entry (y ∷ ys) k e = (ys, ground arith)

visits-append :
    (vs : List (ℕ × Bool)) (k : ℕ) (b : Bool) (ys : List ℕ)
    → visits (vs ++ (k, b) ∷ []) ++ ys ≡ visits vs ++ k ∷ ys
visits-append vs k b ys =
    rw (map-append (λ (w : ℕ × Bool). w.0) vs ((k, b) ∷ [])) (append_assoc (visits vs) (k ∷ []) ys)

pub stepped-Follows :
    (active : Bool) (k : ℕ) (ks : List ℕ) (v : Walk)
    → IsDistinct ks
    → v.it ≡ entry k
    → v.channel ≡ past_end
    → Follows ks v
    → Follows ks (stepped active k ks v)
stepped-Follows active k ks v d at free (xs, ys, e, i, c, f) =
    let (zs, g) = first-entry ys k (sym i ∙ at) in
    let cut : ks ≡ xs ++ k ∷ zs = rw e (ap (λ ys. xs ++ ys) g) in
    let on : behind k ks ≡ first zs =
      ap (behind k) cut ∙ behind-mid xs k zs (subst IsDistinct cut d) in
    let passed : ks ≡ (xs ++ k ∷ []) ++ zs = cut ∙ sym (append_assoc xs (k ∷ []) zs) in
    let todo : v.found ≡ visits v.visited ++ k ∷ zs =
      found_at ys free f ∙ ap (λ ys. visits v.visited ++ ys) g in
    elim (Bool-cases (v.locked && active)) [
      | inl call ↦ rw call (xs ++ k ∷ [], zs, passed, on, λ e. cc, todo)
      | inr skip ↦ rw skip (
        xs ++ k ∷ [],
        zs,
        passed,
        on,
        c,
        todo
            ∙ sym (
                ap (λ p. visits (v.visited ++ (k, false) ∷ []) ++ (called p ++ zs)) free
                ∙ visits-append v.visited k false zs),
      )
    ]
  where
    found_at :
        (ys : List ℕ)
        → v.channel ≡ past_end
        → v.found ≡ visits v.visited ++ (called v.channel ++ ys)
        → v.found ≡ visits v.visited ++ ys
    found_at ys free f = f ∙ ap (λ p. visits v.visited ++ (called p ++ ys)) free

pub returns-Follows :
    (k : ℕ) (ks : List ℕ) (v : Walk) → v.channel ≡ entry k → Follows ks v → Follows ks (returns k v)
returns-Follows k ks v at (xs, ys, e, i, c, f) =
    let now : v.found ≡ visits v.visited ++ k ∷ ys =
      f ∙ ap (λ p. visits v.visited ++ (called p ++ ys)) at in
    (xs, ys, e, i, λ e. cc, now ∙ sym (visits-append v.visited k true ys))

-- At its end a loop is done with what it had to visit.
pub Follows-end :
    (ks : List ℕ) (v : Walk)
    → v.it ≡ past_end
    → v.channel ≡ past_end
    → Follows ks v
    → visits v.visited ≡ v.found
Follows-end ks v at free (xs, ys, e, i, c, f) =
    let now : v.found ≡ visits v.visited ++ ys =
      f ∙ ap (λ p. visits v.visited ++ (called p ++ ys)) free in
    let all : visits v.visited ++ ys ≡ visits v.visited ++ [] =
      ap (λ ys. visits v.visited ++ ys) (none_left ys (sym i ∙ at)) in
    sym (now ∙ all ∙ append-nil (visits v.visited))
  where
    none_left : (ys : List ℕ) → first ys ≡ past_end → ys ≡ []
    none_left [] e = refl
    none_left (y ∷ ys) e = absurd (cc)
