-- ===== src/Ring/Queue.antt =====
-- What src/ringbuffer.c promises: a queue of at most `cap` elements, oldest first. A full queue
-- gives up its newest element for the one that comes in.
use bbg_vo_ip.Prelude.{ℕ, ◌==◌, List, [], ◌∷◌, ◌++◌, Option, none, some, length, if◌then◌else◌}

abbrev pub Element : Type 0
Element = List ℕ

-- The last entry exchanged.
abbrev pub replace_last : List Element → Element → List Element
replace_last [] x = []
replace_last (y ∷ []) x = x ∷ []
replace_last (y ∷ z ∷ q) x = y ∷ replace_last (z ∷ q) x

unfoldable pub enqueue : ℕ → List Element → Element → List Element
enqueue cap q x = if length q == cap then replace_last q x else q ++ x ∷ []

unfoldable pub dequeue : List Element → ℕ × Option Element × List Element
dequeue [] = (0, none, [])
dequeue (x ∷ q) = (1, some x, q)

-- A client's calls and what it sees of each.
pub data Call : Type 0 where
  put : Element → Call
  get : Call

pub data Reply : Type 0 where
  stored : Reply
  got : ℕ → Option Element → Reply

unfoldable pub run : ℕ → List Element → List Call → List Reply
run cap q [] = []
run cap q (put x ∷ calls) = stored ∷ run cap (enqueue cap q x) calls
run cap q (get ∷ calls) = let (n, x, q') = dequeue q in got n x ∷ run cap q' calls
