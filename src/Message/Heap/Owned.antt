-- ===== src/Message/Heap/Owned.antt =====
-- Who owns which block (shared/Message.hpp).
use mathlib.Core.Path.{fun_ext}
use socket_lib_linux.Prelude.{
  ℕ, ◌≤◌, ◌<◌, ◌≡◌, ◌≢◌, ◌∙◌, ◌⊎◌, inl, inr, List, Option, none, some, arith, Bool-cases, length,
  ◌==◌, if◌then◌else◌,
}
use socket_lib_linux.Message.Heap.{Object, Memory, put, free, set_object, allocate}

-- The object has no block, or one of its length, which is not 0.
abbrev pub Owns : (ℕ → Option (List ℕ)) → Object → Type 0
Owns blocks o =
    (o.ptr ≡ 0) ⊎ ((b : List ℕ) × (blocks o.ptr ≡ some b) × (length b ≡ o.len) × (0 < o.len))

-- Every object owns its block alone, every block is owned, and `new` gives fresh pointers.
pub record IsOwned (s : Memory) : Type 0 where
  pub positive : 0 < s.next
  pub null : s.blocks 0 ≡ none
  pub fresh : (p : ℕ) → s.next ≤ p → s.blocks p ≡ none
  pub owns : (i : ℕ) (o : Object) → s.objects i ≡ some o → Owns s.blocks o
  pub apart :
      (i j : ℕ) (a o : Object)
      → s.objects i ≡ some a
      → s.objects j ≡ some o
      → a.ptr ≡ o.ptr
      → (a.ptr ≡ 0) ⊎ (i ≡ j)
  pub no_leak :
      (p : ℕ) (b : List ℕ)
      → s.blocks p ≡ some b
      → (i : ℕ) × (o : Object) × (s.objects i ≡ some o) × (o.ptr ≡ p)

pub put-put : {A : Type 0} (f : ℕ → A) (i : ℕ) (a b : A) → put (put f i a) i b ≡ put f i b
put-put f i a b = fun_ext (λ j. ground arith)

-- What a changed function says at a point.
put-cases :
    {A : Type 0} (f : ℕ → Option A) (i : ℕ) (x : Option A) (j : ℕ) (a : A)
    → put f i x j ≡ some a
    → ((i ≡ j) × (x ≡ some a)) ⊎ ((i ≢ j) × (f j ≡ some a))
put-cases f i x j a e = ground arith

put_ne : {A : Type 0} (f : ℕ → A) (i : ℕ) (x : A) (j : ℕ) → i ≢ j → put f i x j ≡ f j
put_ne f i x j n = ground arith

put_self : {A : Type 0} (f : ℕ → A) (i : ℕ) (x : A) → put f i x i ≡ x
put_self f i x = ground arith

Owns-put :
    (blocks : ℕ → Option (List ℕ)) (p : ℕ) (x : Option (List ℕ)) (o : Object)
    → p ≢ o.ptr
    → Owns blocks o
    → Owns (put blocks p x) o
Owns-put blocks p x o n (inl e) = inl e
Owns-put blocks p x o n (inr (b, h, l, pos)) = inr (b, put_ne blocks p x o.ptr n ∙ h, l, pos)

pub ptr_below :
    {s : Memory} (i : ℕ) (o : Object) → IsOwned s → s.objects i ≡ some o → o.ptr < s.next
ptr_below {s} i o v e = elim (v.owns i o e) [
  | inl n ↦ omega (arith, v.positive)
  | inr (b, h, l, pos) ↦ ground (arith, v.fresh o.ptr)
]

-- An object without a block, at a free address.
pub empty-IsOwned :
    (s : Memory) (i n : ℕ)
    → s.objects i ≡ none
    → IsOwned s
    → IsOwned (set_object i (some (record { len = n; ptr = 0 })) s)
empty-IsOwned s i n free_here v = record {
  positive = v.positive;
  null = v.null;
  fresh = v.fresh;
  owns = λ j o e. ground (arith, v.owns j o);
  apart = λ j k a o e f g. ground (arith, v.apart j k a o);
  no_leak = λ p b e. (let (j, o, f, g) = v.no_leak p b e in (j, o, ground arith, g));
}

-- An object with a new block, at a free address.
pub allocate-IsOwned :
    (s : Memory) (i : ℕ) (bytes : List ℕ)
    → s.objects i ≡ none
    → 0 < length bytes
    → IsOwned s
    → IsOwned (allocate i bytes s)
allocate-IsOwned s i bytes free_here pos v = record {
  positive = omega (arith, v.positive);
  null = ground (arith, v.positive, v.null);
  fresh = λ p h. ground (arith, v.fresh p);
  owns = λ j o e. elim (put-cases s.objects i _ j o e) [
    | inl (here, new) ↦ inr (bytes, ground arith, ground arith, ground arith)
    | inr (n, old) ↦
        Owns-put s.blocks s.next (some bytes) o (λ h. omega (arith, ptr_below j o v old))
          (v.owns j o old)
  ];
  apart = λ j k a o e f g. elim (put-cases s.objects i _ j a e) [
    | inl (here, new) ↦ elim (put-cases s.objects i _ k o f) [
      | inl (here', new') ↦ inr (omega arith)
      | inr (n', old') ↦ absurd (ground (arith, ptr_below k o v old'))
    ]
    | inr (n, old) ↦ elim (put-cases s.objects i _ k o f) [
      | inl (here', new') ↦ absurd (ground (arith, ptr_below j a v old))
      | inr (n', old') ↦ v.apart j k a o old old' g
    ]
  ];
  no_leak = λ p b e. elim (put-cases s.blocks s.next _ p b e) [
    | inl (here, new) ↦
        (i, record { len = length bytes; ptr = s.next }, put_self s.objects i _, here)
    | inr (n, old) ↦ (let (j, o, f, g) = v.no_leak p b old in (j, o, ground arith, g))
  ];
}

-- What `free` leaves.
abbrev pub freed : ℕ → Memory → Memory
freed p s = if p == 0 then s else record s { blocks = put s.blocks p none }

-- The `delete[]` of an object's pointer finds its block.
pub free_lem :
    (s : Memory) (i : ℕ) (a : Object)
    → IsOwned s
    → s.objects i ≡ some a
    → free a.ptr s ≡ some (freed a.ptr s)
unfolding free
free_lem s i a v e = elim (v.owns i a e) [
  | inl n ↦ ground arith
  | inr (b, h, l, pos) ↦ ground arith
]

-- The block of an object is no other object's.
pub ptr_ne :
    (s : Memory) (i j : ℕ) (a o : Object)
    → IsOwned s
    → s.objects i ≡ some a
    → s.objects j ≡ some o
    → i ≢ j
    → a.ptr ≢ 0
    → a.ptr ≢ o.ptr
ptr_ne s i j a o v e f n nz g = elim (v.apart i j a o e f g) [ inl z ↦ nz z | inr same ↦ n same ]

-- An object goes, and its block with it.
pub release-IsOwned :
    (s : Memory) (i : ℕ) (a : Object)
    → s.objects i ≡ some a
    → IsOwned s
    → IsOwned (set_object i none (freed a.ptr s))
release-IsOwned s i a here v = elim (Bool-cases (a.ptr == 0)) [
  | inl z ↦ rw z (record {
    positive = v.positive;
    null = v.null;
    fresh = v.fresh;
    owns = λ j o e. elim (put-cases s.objects i none j o e) [
      | inl (same, absurd_eq) ↦ cc
      | inr (n, old) ↦ v.owns j o old
    ];
    apart = λ j k b o e f g. ground (arith, v.apart j k b o);
    no_leak = λ p b e. (let (j, o, f, g) = v.no_leak p b e in (j, o, ground (arith, v.null), g));
  })
  | inr nz ↦ rw nz (record {
    positive = v.positive;
    null = ground (arith, v.null);
    fresh = λ p h. ground (arith, v.fresh p);
    owns = λ j o e. elim (put-cases s.objects i none j o e) [
      | inl (same, absurd_eq) ↦ cc
      | inr (n, old) ↦
          Owns-put s.blocks a.ptr none o (ptr_ne s i j a o v here old n (ground arith))
            (v.owns j o old)
    ];
    apart = λ j k b o e f g. ground (arith, v.apart j k b o);
    no_leak = λ p b e. elim (put-cases s.blocks a.ptr none p b e) [
      | inl (same, absurd_eq) ↦ absurd (cc)
      | inr (n, old) ↦ (let (j, o, f, g) = v.no_leak p b old in (j, o, ground arith, g))
    ];
  })
]

-- The block of one object goes to another, at a free address.
pub transfer-IsOwned :
    (s : Memory) (i j : ℕ) (o : Object)
    → s.objects i ≡ none
    → s.objects j ≡ some o
    → IsOwned s
    → IsOwned (set_object j (some (record o { ptr = 0 })) (set_object i (some o) s))
transfer-IsOwned s i j o free_here there v = record {
  positive = v.positive;
  null = v.null;
  fresh = v.fresh;
  owns = λ k b e. ground (arith, v.owns k b, v.owns j o);
  apart = λ k l a b e f g. ground (arith, v.apart k l a b, v.apart j l o b, v.apart k j a o);
  no_leak = λ p b e.
      (let (k, a, f, g) = v.no_leak p b e in
        elim (Bool-cases (j == k)) [
          | inl same ↦ (i, o, ground arith, ground arith)
          | inr ne ↦ (k, a, ground arith, g)
        ]);
}
