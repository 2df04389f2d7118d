-- ===== src/Ringbuffer/Queue.antt =====
-- A bounded queue of elements, oldest first: what a ring buffer promises.
use n00b_os.Prelude.{ℕ, List, [], ◌∷◌, ◌++◌, ◌==◌, if◌then◌else◌, length, ℤ, pos, minus_one}

-- an element is a run of bytes
abbrev pub Queue : Type 0
Queue = List (List ℕ)

unfoldable pub put : ℕ → Queue → List ℕ → ℤ × Queue
put cap q x = if length q == cap then (minus_one, q) else (pos 0, q ++ (x ∷ []))

-- `old` is what the caller's object held
unfoldable pub get : Queue → List ℕ → ℤ × List ℕ × Queue
get [] old = (minus_one, old, [])
get (x ∷ q) old = (pos 0, x, q)
