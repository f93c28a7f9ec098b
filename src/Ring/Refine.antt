-- ===== src/Ring/Refine.antt =====
-- A valid ring of src/ringbuffer.c behaves as the queue of the elements that it holds.
use mathlib.Core.Path.{ap₂}
use native.Mathlib.Decide.{dec_lt}
use bbg_vo_ip.Prelude.{
  ℕ, zero, suc, ◌+◌, ◌-◌, ◌*◌, ◌%◌, ◌≤◌, ◌<◌, ◌≡◌, refl, sym, ap, ◌∙◌, Bool, true, false, Option,
  none, some, List, [], ◌∷◌, ◌++◌, arith, length, take, take-length, length-take, slice,
}
use bbg_vo_ip.Prelude.Fault.{◌>>=◌}
use bbg_vo_ip.Ring.{Ring, before_tail, enqueue, dequeue}
use bbg_vo_ip.Ring.Inv.{
  IsAfter, IsValid, grown, overwritten, shrunk, enqueue-room, enqueue-full, grown-IsValid,
  overwritten-IsValid, shrunk-IsValid, dequeue-some, dequeue-empty,
}
use bbg_vo_ip.Ring.Window.{window, window-splice, window_snoc, window-none, length-window, contents}
use bbg_vo_ip.Ring.Queue
use bbg_vo_ip.Ring.Queue.{Element, replace_last, Call, put, get, Reply, stored, got}

replace_last-snoc : (q : List Element) (y x : Element) → replace_last (q ++ y ∷ []) x ≡ q ++ x ∷ []
replace_last-snoc [] y x = refl
replace_last-snoc (a ∷ []) y x = refl
replace_last-snoc (a ∷ b ∷ q) y x = ap (λ l. a ∷ l) (replace_last-snoc (b ∷ q) y x)

contents-grown :
    (r : Ring) (e : List ℕ)
    → IsValid r
    → r.element_size ≤ length e
    → r.count < r.max_elements
    → contents (grown r e) ≡ contents r ++ take r.element_size e ∷ []
contents-grown r e v w room =
    let n : r.count + 1 ≡ suc r.count = omega arith in
    ap (window r.max_elements r.element_size (grown r e).buffer r.head) n
    ∙ window-splice r.max_elements r.element_size r.buffer (take r.element_size e) r.count r.head
        r.tail (omega (arith, length-take r.element_size e)) v.storage v.head_in v.tail_in room
        v.placed

-- The newest element of a full ring is the one before the tail.
contents-overwritten :
    (r : Ring) (e : List ℕ)
    → IsValid r
    → r.element_size ≤ length e
    → r.count ≡ r.max_elements
    → contents (overwritten r e) ≡ replace_last (contents r) (take r.element_size e)
contents-overwritten r e v w full =
    ap (window m size (overwritten r e).buffer r.head) n
    ∙ window-splice m size r.buffer (take size e) (m - 1) r.head (before_tail r)
        (omega (arith, length-take size e)) v.storage v.head_in newest_in
        (omega (arith, v.positive)) newest
    ∙ sym (replace_last-snoc (window m size r.buffer r.head (m - 1)) last (take size e))
    ∙ ap (λ q. replace_last q (take size e))
        (sym (
          ap (window m size r.buffer r.head) n
          ∙ window_snoc m size r.buffer (m - 1) r.head (before_tail r) v.head_in newest_in
              (omega (arith, v.positive)) newest))
  where
    open r use {max_elements as m, element_size as size}

    last : Element
    last = slice (before_tail r * size) size r.buffer

    n : r.count ≡ suc (m - 1)
    n = omega (arith, v.positive)

    newest_in : before_tail r < m
    newest_in = ground (arith, v)

    newest : IsAfter m r.head (m - 1) (before_tail r)
    newest = ground (arith, v)

-- On a valid ring, `RingBuffer_enqueue` of a whole element makes no fault, leaves a valid ring of the
-- same shape, and the ring then holds the queue with the element in it: at the end, or in the
-- newest one's place if the queue was full.
pub enqueue_refines :
    (r : Ring) (e : List ℕ)
    → IsValid r
    → r.element_size ≤ length e
    → (r' : Ring) × (enqueue r e ≡ some r')
      × IsValid r'
      × (contents r' ≡ Queue.enqueue r.max_elements (contents r) (take r.element_size e))
      × (r'.max_elements ≡ r.max_elements)
      × (r'.element_size ≡ r.element_size)
unfolding Queue.enqueue
enqueue_refines r e v w =
    let size_of = length-window r.max_elements r.element_size r.buffer r.head r.count in
    elim (dec_lt r.count r.max_elements) [
      | yes room ↦ (
        grown r e,
        enqueue-room r e v w room,
        grown-IsValid r e v room,
        ground (arith, contents-grown r e v w room, size_of),
        refl,
        refl,
      )
      | no none_left ↦
          let full : r.count ≡ r.max_elements = omega (arith, v.counted) in
          (
            overwritten r e,
            enqueue-full r e v w full,
            overwritten-IsValid r e v,
            ground (arith, contents-overwritten r e v w full, size_of),
            refl,
            refl,
          )
    ]

-- What `e` receives of an element: nothing where `e` is NULL.
abbrev pub received : Bool → Option Element → Option Element
received true x = x
received false x = none

window-pred :
    (m size : ℕ) (buf : List ℕ) (h n : ℕ)
    → 0 < n
    → window m size buf h n ≡ slice (h * size) size buf ∷ window m size buf ((h + 1) % m) (n - 1)
window-pred m size buf h zero left = absurd (omega arith)
window-pred m size buf h (suc n) left =
    ap (λ k. slice (h * size) size buf ∷ window m size buf ((h + 1) % m) k) (omega arith)

-- On a valid ring, `RingBuffer_dequeue` makes no fault and leaves a valid ring of the same shape; the
-- number that it returns, the element that it hands out and the elements left are those of the
-- queue.
pub dequeue_refines :
    (r : Ring) (wanted : Bool)
    → IsValid r
    → let (n, x, q) = Queue.dequeue (contents r) in
      (r' : Ring) × (dequeue r wanted ≡ some (n, received wanted x, r'))
      × IsValid r'
      × (contents r' ≡ q)
      × (r'.max_elements ≡ r.max_elements)
      × (r'.element_size ≡ r.element_size)
unfolding Queue.dequeue
dequeue_refines r wanted v = elim (dec_lt 0 r.count) [
  | yes left ↦ rw (window-pred r.max_elements r.element_size r.buffer r.head r.count left) (
    shrunk r,
    dequeue-some r wanted v left ∙ ap (λ x. some (1, x, shrunk r)) (ground arith),
    shrunk-IsValid r v left,
    refl,
    refl,
    refl,
  )
  | no empty ↦
      let none_left : r.count ≡ 0 = omega arith in
      let nothing = window-none r.max_elements r.element_size r.buffer r.head r.count none_left in
      rw nothing (
        r,
        dequeue-empty r wanted none_left ∙ ap (λ x. some (0, x, r)) (ground arith),
        v,
        nothing,
        refl,
        refl,
      )
]

-- A client that enqueues and dequeues, and what it is told.
unfoldable pub run : Ring → List Call → Option (List Reply)
run r [] = some []
run r (put e ∷ calls) = do r' ← enqueue r e; replies ← run r' calls; some (stored ∷ replies)
run r (get ∷ calls) = do
  (n, x, r') ← dequeue r true
  replies ← run r' calls
  some (got n x ∷ replies)

-- Calls that hand in elements of the ring's size.
abbrev pub Fit : ℕ → List Call → Type 0
Fit size [] = Unit
Fit size (put e ∷ calls) = (length e ≡ size) × Fit size calls
Fit size (get ∷ calls) = Fit size calls

-- No sequence of calls with whole elements tells a valid ring from the bounded queue of its contents.
pub run_refines :
    (calls : List Call) (r : Ring)
    → IsValid r
    → Fit r.element_size calls
    → run r calls ≡ some (Queue.run r.max_elements (contents r) calls)
unfolding run Queue.run
run_refines [] r v fit = refl
run_refines (put e ∷ calls) r v fit =
    let (r', done, v', same, m, size) = enqueue_refines r e v (omega (arith, fit.0)) in
    let whole : take r.element_size e ≡ e = ap (λ n. take n e) (sym fit.0) ∙ take-length e in
    rw (done, ◌>>=◌)
      (rw (run_refines calls r' v' (rw size fit.1), ◌>>=◌)
        (ap₂ (λ c q. some (stored ∷ Queue.run c q calls)) m
          (same ∙ ap (Queue.enqueue r.max_elements (contents r)) whole)))
run_refines (get ∷ calls) r v fit =
    let (r', done, v', same, m, size) = dequeue_refines r true v in
    rw (done, ◌>>=◌)
      (rw (run_refines calls r' v' (rw size fit), ◌>>=◌)
        (ap₂
          (λ c q. some (
            got (Queue.dequeue (contents r)).0 (Queue.dequeue (contents r)).1
            ∷ Queue.run c q calls))
          m same))
