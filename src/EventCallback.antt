-- ===== src/EventCallback.antt =====
-- shared/utils/EventCallback.hpp: callbacks, the containers that hold them, and their invocation.
pub mod Container
pub mod Invoke
pub mod Registry
pub mod Shared
mod Tests
use Prim.Native.Nat.{bit_xor}
use socket_lib_linux.Prelude.{
  ℕ, ◌+◌, ◌*◌, ◌/◌, ◌%◌, Bool, true, false, ◌&&◌, List, [], ◌∷◌, length, ltb, ◌==◌, if◌then◌else◌,
}

-- What a call does to the state that it can reach: it returns, throws, or the program ends in it.
pub data Result (S : Type 0) : Type 0 where
  value : S → Result S
  raised : S → Result S
  ended : S → Result S

-- `ThinVirtualLayer` with the `AbstractFunction` that it holds: `instance()`, `ptr()`, with addresses
-- as numbers and 0 for null, and the held function.
pub record Callback (S : Type 0) : Type 0 where
  pub inst : ℕ
  pub ptr : ℕ
  pub held : S → Result S

-- `size_t` arithmetic
abbrev pub size_mod : ℕ
size_mod = 18446744073709551616

-- What an owner does to the set of callbacks. `remove_function` is of a member function, by address.
pub data Change (S : Type 0) : Type 0 where
  add remove : Callback S → Change S
  remove_function : ℕ → Change S
  clear : Change S

module _ {S : Type 0} where
  -- `FunctionWrapper<R (*)(TArgs...)>`
  abbrev pub of_function : ℕ → (S → Result S) → Callback S
  of_function address f = record { inst = 0; ptr = address; held = f }

  -- `FunctionWrapper<R (T::*)(TArgs...)>`
  abbrev pub of_member : ℕ → ℕ → (S → Result S) → Callback S
  of_member address instance_address f = record { inst = instance_address; ptr = address; held = f }

  -- `FunctionWrapper<std::function<R(TArgs...)>>`: `handle` is the address of the constructor's
  -- argument.
  abbrev pub of_std_function : ℕ → (S → Result S) → Callback S
  of_std_function handle f = record { inst = 0; ptr = handle; held = f }

  -- `operator==` and `operator<` of `AbstractFunction`
  abbrev pub equal : Callback S → Callback S → Bool
  equal a b = a.inst == b.inst && a.ptr == b.ptr

  abbrev pub less : Callback S → Callback S → Bool
  less a b = ltb a.ptr b.ptr

  -- `std::hash<AbstractFunction<…>>` over a hash of pointers
  unfoldable pub hash : (ℕ → ℕ) → Callback S → ℕ
  hash pointer_hash c =
      let seed = pointer_hash c.inst in
      bit_xor seed ((pointer_hash c.ptr + 0x9e3779b9 + seed * 64 + seed / 4) % size_mod)

  -- `std::set::emplace`: nothing happens if an equivalent element is there.
  unfoldable pub emplace : Callback S → List (Callback S) → List (Callback S)
  emplace c [] = c ∷ []
  emplace c (d ∷ ds) =
      if less c d then c ∷ d ∷ ds else if less d c then d ∷ emplace c ds else d ∷ ds

  -- `std::set::erase(key)`
  unfoldable pub erase : Callback S → List (Callback S) → List (Callback S)
  erase c [] = []
  erase c (d ∷ ds) = if less c d then d ∷ ds else if less d c then d ∷ erase c ds else ds

  -- `std::unordered_set::emplace` and `erase`, with the elements in the order of insertion.
  unfoldable pub emplace_unordered : Callback S → List (Callback S) → List (Callback S)
  emplace_unordered c [] = c ∷ []
  emplace_unordered c (d ∷ ds) = if equal c d then d ∷ ds else d ∷ emplace_unordered c ds

  unfoldable pub erase_unordered : Callback S → List (Callback S) → List (Callback S)
  erase_unordered c [] = []
  erase_unordered c (d ∷ ds) = if equal c d then ds else d ∷ erase_unordered c ds

  -- `removeCallback(void (T::*)(TArgs...))`: the loop over all elements, in either container.
  unfoldable pub remove_member : ℕ → List (Callback S) → List (Callback S)
  remove_member address [] = []
  remove_member address (d ∷ ds) =
      if d.ptr == address then remove_member address ds else d ∷ remove_member address ds

  -- `operator+=` and `addCallback`, `operator-=` and `removeCallback` of a callback, the same of a
  -- member function, and `clear`, over the ordered set, in either class; the thread-safe one does it
  -- under its lock.
  unfoldable pub change : Change S → List (Callback S) → List (Callback S)
  unfolding emplace erase remove_member
  change (add c) cs = emplace c cs
  change (remove c) cs = erase c cs
  change (remove_function address) cs = remove_member address cs
  change clear cs = []

  -- `size()` and `empty()`
  unfoldable pub size : List (Callback S) → ℕ
  size cs = length cs

  unfoldable pub is_empty : List (Callback S) → Bool
  is_empty [] = true
  is_empty (c ∷ cs) = false

  -- `operator() const noexcept`: an exception that leaves `held` ends the program.
  abbrev pub no_except : Result S → Result S
  no_except (value s) = value s
  no_except (raised s) = ended s
  no_except (ended s) = ended s

  abbrev pub call : Callback S → S → Result S
  call c s = no_except (c.held s)

  -- What follows a call, where an exception is not caught.
  abbrev pub and_then : Result S → (S → Result S) → Result S
  and_then (value s) k = k s
  and_then (raised s) k = raised s
  and_then (ended s) k = ended s

  -- `invoke`
  unfoldable pub invoke : List (Callback S) → S → Result S
  invoke [] s = value s
  invoke (c ∷ cs) s = and_then (call c s) (invoke cs)

  -- `try { callback(args...); } catch (std::exception const &e) { exceptionHandle(e); }`
  abbrev pub catch : (S → S) → Result S → Result S
  catch handler (value s) = value s
  catch handler (raised s) = value (handler s)
  catch handler (ended s) = ended s

  -- `invokeError`
  unfoldable pub invoke_error : (S → S) → List (Callback S) → S → Result S
  invoke_error handler [] s = value s
  invoke_error handler (c ∷ cs) s = and_then (catch handler (call c s)) (invoke_error handler cs)
