-- ===== src/EventQueue/History.antt =====
-- include/cpph/thread/event_queue.hxx: the histories of a queue, and what waits and runs after them.
use cppheaders.Prelude.{
  ℕ, ◌≤◌, ◌≡◌, refl, ap, ap₂, sym, subst, ◌∙◌, Bool, true, false, Option, none, some, List, [], ◌∷◌,
  ◌++◌, arith, ◌==◌, if◌then◌else◌, ◌>>=◌, inl, inr, length, length-append, ◌⊎◌,
}
use mathlib.Core.Option.{some-injective}
use mathlib.Core.List.{append_assoc, append-nil}
use cppheaders.EventQueue.{
  Queue, Waited, waits, got, make, placed, post, pop_event, wait_one, wait_flush, release, stop,
  restart, clear, is_null, empty,
}
use cppheaders.EventQueue.Chain.{Cells, has, message_of}
use cppheaders.EventQueue.Holds.{
  Holds, make-Holds, push_event-Holds, pop_event-Holds, release-Holds, without,
}
use cppheaders.EventQueue.Clears.{clear-Holds}

-- The queues to which a history leads, with the messages posted, the messages that are no longer in the
-- queue, and the nodes that run. The address of a new node is not null and holds no node; a message
-- leaves the queue when it is taken, and all of them at a `clear`.
pub data Reach : Queue → List ℕ → List ℕ → Cells → Type 0 where
  new : Reach make [] [] []
  posts :
      (q q' : Queue) (posted gone : List ℕ) (running : Cells) (ring : Option ℕ)
      (address message : ℕ)
      → Reach q posted gone running
      → ((placed ring address).0 == 0) ≡ false
      → q.heap (placed ring address).0 ≡ none
      → post ring address message q ≡ some q'
      → Reach q' (posted ++ message ∷ []) gone running
  takes_one :
      (q q' : Queue) (posted gone : List ℕ) (running : Cells) (p : ℕ)
      → Reach q posted gone running
      → (p == 0) ≡ false
      → wait_one q ≡ some (got p, q')
      → Reach q' posted (gone ++ message_of (q.heap p) ∷ []) ((p, message_of (q.heap p)) ∷ running)
  takes_flush :
      (q q' : Queue) (posted gone : List ℕ) (running : Cells) (p : ℕ)
      → Reach q posted gone running
      → (p == 0) ≡ false
      → wait_flush q ≡ some (got p, q')
      → Reach q' posted (gone ++ message_of (q.heap p) ∷ []) ((p, message_of (q.heap p)) ∷ running)
  finishes :
      (q q' : Queue) (posted gone : List ℕ) (running : Cells) (p : ℕ)
      → Reach q posted gone running
      → has p running ≡ true
      → release p q ≡ some q'
      → Reach q' posted gone (without p running)
  stops :
      (q : Queue) (posted gone : List ℕ) (running : Cells)
      → Reach q posted gone running
      → Reach (stop q) posted gone running
  restarts :
      (q : Queue) (posted gone : List ℕ) (running : Cells)
      → Reach q posted gone running
      → Reach (restart q) posted gone running
  clears :
      (q q' : Queue) (posted gone : List ℕ) (running : Cells)
      → Reach q posted gone running
      → clear (length posted) q ≡ some q'
      → Reach q' posted posted running

abbrev pub messages : Cells → List ℕ
messages [] = []
messages ((p, m) ∷ xs) = m ∷ messages xs

messages_append : (xs ys : Cells) → messages (xs ++ ys) ≡ messages xs ++ messages ys
messages_append [] ys = refl
messages_append ((p, m) ∷ xs) ys = ap (λ l. m ∷ l) (messages_append xs ys)

length-messages : (xs : Cells) → length (messages xs) ≡ length xs
length-messages [] = refl
length-messages ((p, m) ∷ xs) = ground (arith, length-messages xs)

-- What waits behind what is gone.
abbrev Waits : Queue → List ℕ → List ℕ → Cells → Type 0
Waits q posted gone running = (w : Cells) × Holds q w running × (posted ≡ gone ++ messages w)

same_queue : (o : Option Queue) (q q' : Queue) → o ≡ some q → o ≡ some q' → q ≡ q'
same_queue o q q' e e' = some-injective _ _ (sym e ∙ e')

post-Waits :
    (q q' : Queue) (posted gone : List ℕ) (r : Cells) (ring : Option ℕ) (address m : ℕ)
    → Waits q posted gone r
    → ((placed ring address).0 == 0) ≡ false
    → q.heap (placed ring address).0 ≡ none
    → post ring address m q ≡ some q'
    → Waits q' (posted ++ m ∷ []) gone r
unfolding post
post-Waits q q' posted gone r ring address m (w, h, e) some_p fresh gives =
    let p : ℕ = (placed ring address).0 in
    let (q'', gives', h') = push_event-Holds q w r p m (placed ring address).1 h some_p fresh in
    let w' : Cells = w ++ (p, m) ∷ [] in
    (
      w',
      subst (λ s. Holds s w' r) (same_queue (post ring address m q) q'' q' gives' gives) h',
      ap (λ l. l ++ m ∷ []) e
          ∙ append_assoc gone (messages w) (m ∷ [])
          ∙ ap (λ l. gone ++ l) (sym (messages_append w ((p, m) ∷ []))),
    )

pop-Waits :
    (q q' : Queue) (posted gone : List ℕ) (r : Cells) (p : ℕ)
    → Waits q posted gone r
    → (p == 0) ≡ false
    → pop_event q ≡ some (p, q')
    → Waits q' posted (gone ++ message_of (q.heap p) ∷ []) ((p, message_of (q.heap p)) ∷ r)
unfolding pop_event
pop-Waits q q' posted gone r p ([], h, e) some_p gives =
    let null : q.front ≡ 0 = h.chain in
    let nothing : pop_event q ≡ some (0, q) = rw null refl in
    absurd (ground (arith, some_p, ap (λ c. c.0) (some-injective _ _ (sym nothing ∙ gives))))
pop-Waits q q' posted gone r p ((a, m) ∷ w, h, e) some_p gives =
    let (q'', gives', h') = pop_event-Holds q a m w r h in
    let same : (a, q'') ≡ (p, q') = some-injective _ _ (sym gives' ∙ gives) in
    let msg : message_of (q.heap a) ≡ m =
      let (n, at_a, is_m, to) = h.chain.4 in ap message_of at_a ∙ is_m in
    subst
      (λ (b, s).
        Waits s posted (gone ++ message_of (q.heap b) ∷ []) ((b, message_of (q.heap b)) ∷ r))
      same
      (subst (λ k. Waits q'' posted (gone ++ k ∷ []) ((a, k) ∷ r)) (sym msg)
        (w, h', e ∙ sym (append_assoc gone (m ∷ []) (messages w))))

abbrev address_of : Waited → ℕ
address_of waits = 0
address_of (got p) = p

took :
    (stopped : Bool) (q q' : Queue) (p : ℕ) (o : Option (ℕ × Queue))
    (f : ℕ × Queue → Waited × Queue)
    → ((a : ℕ) (s : Queue) → address_of (f (a, s)).0 ≡ a)
    → ((a : ℕ) (s : Queue) → (f (a, s)).1 ≡ s)
    → (p == 0) ≡ false
    → (if stopped then some (got 0, q) else (o >>= λ r. some (f r))) ≡ some (got p, q')
    → o ≡ some (p, q')
took true q q' p o f same_a same_s some_p e =
    absurd (ground (arith, some_p, ap (λ c. address_of c.0) (some-injective _ _ e)))
took false q q' p none f same_a same_s some_p e = absurd (ground (arith, e))
took false q q' p (some (a, s)) f same_a same_s some_p e =
    let e' : f (a, s) ≡ (got p, q') = some-injective _ _ e in
    ap some (
      ap₂ (λ b t. (b, t)) (sym (same_a a s) ∙ ap (λ c. address_of c.0) e')
        (sym (same_s a s) ∙ ap (λ c. c.1) e'))

wait_one-pop_event :
    (q q' : Queue) (p : ℕ)
    → (p == 0) ≡ false
    → wait_one q ≡ some (got p, q')
    → pop_event q ≡ some (p, q')
unfolding wait_one
wait_one-pop_event q q' p some_p e =
    took q.stopped q q' p (pop_event q) (λ (a, s). (if is_null a then waits else got a, s))
      (λ a s. ground arith) (λ a s. refl) some_p e

wait_flush-pop_event :
    (q q' : Queue) (p : ℕ)
    → (p == 0) ≡ false
    → wait_flush q ≡ some (got p, q')
    → pop_event q ≡ some (p, q')
unfolding wait_flush
wait_flush-pop_event q q' p some_p e =
    took q.stopped q q' p (pop_event q) (λ (a, s). (got a, s)) (λ a s. refl) (λ a s. refl) some_p e

enough : (posted gone : List ℕ) (w : Cells) → posted ≡ gone ++ messages w → length w ≤ length posted
enough posted gone w e =
    ground (arith, ap length e, length-append gone (messages w), length-messages w)

Reach-Waits :
    (q : Queue) (posted gone : List ℕ) (r : Cells) → Reach q posted gone r → Waits q posted gone r
unfolding stop restart
Reach-Waits q posted gone r new = ([], make-Holds, refl)
Reach-Waits q posted gone r (posts q₀ q₁ ps gs rs ring address m before some_p fresh gives) =
    post-Waits q₀ q ps gone r ring address m (Reach-Waits q₀ ps gone r before) some_p fresh gives
Reach-Waits q posted gone r (takes_one q₀ q₁ ps gs rs p before some_p gives) =
    pop-Waits q₀ q posted gs rs p (Reach-Waits q₀ posted gs rs before) some_p
      (wait_one-pop_event q₀ q p some_p gives)
Reach-Waits q posted gone r (takes_flush q₀ q₁ ps gs rs p before some_p gives) =
    pop-Waits q₀ q posted gs rs p (Reach-Waits q₀ posted gs rs before) some_p
      (wait_flush-pop_event q₀ q p some_p gives)
Reach-Waits q posted gone r (finishes q₀ q₁ ps gs rs p before i gives) =
    let (w, h, e) = Reach-Waits q₀ posted gone rs before in
    let (q₂, gives', h', f, b) = release-Holds q₀ p w rs h i in
    (w, subst (λ s. Holds s w (without p rs)) (same_queue (release p q₀) q₂ q gives' gives) h', e)
Reach-Waits q posted gone r (stops q₀ ps gs rs before) =
    let (w, h, e) = Reach-Waits q₀ posted gone r before in
    (
      w,
      record { chain = h.chain; back = h.back; apart = h.apart; alive = h.alive; only = h.only },
      e,
    )
Reach-Waits q posted gone r (restarts q₀ ps gs rs before) =
    let (w, h, e) = Reach-Waits q₀ posted gone r before in
    (
      w,
      record { chain = h.chain; back = h.back; apart = h.apart; alive = h.alive; only = h.only },
      e,
    )
Reach-Waits q posted gone r (clears q₀ q₁ ps gs rs before gives) =
    let (w, h, e) = Reach-Waits q₀ posted gs r before in
    let (q₂, gives', h') = clear-Holds (length posted) q₀ w r (enough posted gs w e) h in
    (
      [],
      subst (λ s. Holds s [] r) (same_queue (clear (length posted) q₀) q₂ q gives' gives) h',
      sym (append-nil posted),
    )

-- After any history the nodes of the messages that are posted and not gone are chained from the front
-- to the back of the queue in the order of the posts, apart from the nodes that run, and no other
-- node stands in the heap: messages leave the queue in the order of the posts.
pub Reach-fifo :
    (q : Queue) (posted gone : List ℕ) (running : Cells)
    → Reach q posted gone running
    → (w : Cells) × Holds q w running × (posted ≡ gone ++ messages w)
Reach-fifo q posted gone running reach = Reach-Waits q posted gone running reach

wait_on :
    (q : Queue) (posted gone : List ℕ) (running w : Cells)
    → q.stopped ≡ false
    → Holds q w running
    → posted ≡ gone ++ messages w
    → ((posted ≡ gone) × (wait_one q ≡ some (waits, q)))
      ⊎ ((p : ℕ) × (q' : Queue) × (rest : List ℕ) × (wait_one q ≡ some (got p, q'))
          × (posted ≡ gone ++ message_of (q.heap p) ∷ rest))
unfolding wait_one pop_event
wait_on q posted gone running [] not_stopped h e =
    let null : q.front ≡ 0 = h.chain in inl (e ∙ append-nil gone, rw (not_stopped, null) refl)
wait_on q posted gone running ((a, m) ∷ w) not_stopped h e =
    let (q', gives, h') = pop_event-Holds q a m w running h in
    let some_a : (a == 0) ≡ false = h.chain.1 in
    let msg : message_of (q.heap a) ≡ m =
      let (n, at_a, is_m, to) = h.chain.4 in ap message_of at_a ∙ is_m in
    inr (
      a,
      q',
      messages w,
      ap
            (λ b.
              if b
              then some (got 0, q)
              else (pop_event q >>= λ (p, r). some (if is_null p then waits else got p, r)))
            not_stopped
          ∙ ap (λ o. o >>= λ (p, r). some (if is_null p then waits else got p, r)) gives
          ∙ ap (λ b. some (if b then waits else got a, q')) some_a,
      e ∙ ap (λ k. gone ++ k ∷ messages w) (sym msg),
    )

-- After any history, a wait on a queue that is not stopped goes on exactly where every posted message is
-- gone, and else takes the node of the oldest message that is not.
pub Reach-wait_one :
    (q : Queue) (posted gone : List ℕ) (running : Cells)
    → Reach q posted gone running
    → q.stopped ≡ false
    → ((posted ≡ gone) × (wait_one q ≡ some (waits, q)))
      ⊎ ((p : ℕ) × (q' : Queue) × (rest : List ℕ) × (wait_one q ≡ some (got p, q'))
          × (posted ≡ gone ++ message_of (q.heap p) ∷ rest))
unfolding wait_one
Reach-wait_one q posted gone running reach not_stopped =
    let (w, h, e) = Reach-Waits q posted gone running reach in
    wait_on q posted gone running w not_stopped h e

-- After any history, `clear` returns, with as much fuel as messages were posted, an empty queue whose
-- nodes are all given back but those that run.
pub Reach-clear :
    (q : Queue) (posted gone : List ℕ) (running : Cells)
    → Reach q posted gone running
    → (q' : Queue) × (clear (length posted) q ≡ some q')
      × (empty q' ≡ true)
      × ((a : ℕ) → has a running ≡ false → q'.heap a ≡ none)
unfolding empty
Reach-clear q posted gone running reach =
    let (w, h, e) = Reach-Waits q posted gone running reach in
    let (q', gives, h') = clear-Holds (length posted) q w running (enough posted gone w e) h in
    (q', gives, ap (λ a. a == 0) h'.chain, λ a i. h'.only a refl i)
