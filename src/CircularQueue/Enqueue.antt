-- ===== src/CircularQueue/Enqueue.antt =====
-- include/cpph/container/circular_queue.hxx: `enqueue_n`, which writes a run of elements and drops
-- the oldest ones that no longer fit.
use cppheaders.Prelude.{
  ℕ, zero, suc, ◌+◌, ◌-◌, ◌≤◌, ◌<◌, ◌≡◌, refl, ◌∙◌, ap, true, false, subst, some, List, [], ◌∷◌,
  ◌++◌, arith, ltb, >>=-some, length, ◌>>=◌, drop, take, length-append, take-append-drop,
  length-take, length-drop, min, drop_all, dec_lt, sym, drop-append, drop-append_past, lt→ltb,
}
use mathlib.Core.List.{append_assoc, append-nil}
use native.Mathlib.Nat.{mod-eq_of_lt, mod-eq-sub-mod}
use cppheaders.Prelude.Int.{pos}
use cppheaders.CircularQueue.{CircularQueue, write, update, jmp}
use cppheaders.CircularQueue.Bulk.{assign, write_run, evict, required_space, enqueue_cut, enqueue_n}
use cppheaders.CircularQueue.Holds.{Holds, spot, size-length, room-eq}
use cppheaders.CircularQueue.Ends.{pushed-Holds, spot-le}
use cppheaders.CircularQueue.Ranges.{advance-Holds}

module _ {ℓ} {A : Type ℓ} where
  -- All that `Holds` says, except of the head.
  abbrev Window : ℕ → CircularQueue A → List A → Type ℓ
  Window c q xs = Holds c (record q { head = spot c q.tail (length xs) }) xs

  Holds-Window : {c : ℕ} {q : CircularQueue A} {xs : List A} → Holds c q xs → Window c q xs
  Holds-Window h = record {
    small = h.small;
    slots = h.slots;
    storage = h.storage;
    tail_in = h.tail_in;
    fits = h.fits;
    head_at = refl;
    stored = h.stored;
  }

  Window-Holds :
      {c : ℕ} {q : CircularQueue A} {xs : List A}
      → q.head ≡ spot c q.tail (length xs)
      → Window c q xs
      → Holds c q xs
  Window-Holds e w = record {
    small = w.small;
    slots = w.slots;
    storage = w.storage;
    tail_in = w.tail_in;
    fits = w.fits;
    head_at = e;
    stored = w.stored;
  }

  -- What `write_run` has done to `q` when it leaves the elements `zs` in `r`.
  record Wrote (c : ℕ) (q : CircularQueue A) (zs : List A) (r : CircularQueue A) : Type ℓ where
    window : Window c r zs
    same_head : r.head ≡ q.head
    same_tail : r.tail ≡ q.tail

  module _ {c : ℕ} where
    assign-Window :
        (q : CircularQueue A) (xs : List A) (x : A) (j : ℕ)
        → Window c q xs
        → length xs < c
        → j ≡ spot c q.tail (length xs)
        → (assign true q j x ≡ some (record q { slot = update q.slot j (some x) }))
          × Window c (record q { slot = update q.slot j (some x) }) (xs ++ x ∷ [])
    unfolding assign write
    assign-Window q xs x j w space e = (
      rw
          (lt→ltb j q.chunks
            (omega (arith, w.storage, spot-le c q.tail (length xs) w.tail_in w.fits)))
          refl,
      rw e (Holds-Window (pushed-Holds w x space)),
    )

    write_run-Wrote :
        (ys : List A) (q : CircularQueue A) (xs : List A) (j : ℕ)
        → Window c q xs
        → (0 < length ys → j ≡ spot c q.tail (length xs))
        → j + length ys ≤ suc c
        → length xs + length ys ≤ c
        → (r : CircularQueue A) × (write_run true q j ys ≡ some r) × Wrote c q (xs ++ ys) r
    unfolding write_run
    write_run-Wrote [] q xs j w e b p = (
      q,
      refl,
      record {
        window = subst (Window c q) (sym (append-nil xs)) w;
        same_head = refl;
        same_tail = refl;
      },
    )
    write_run-Wrote (y ∷ ys) q xs j w e b p =
        let here : j ≡ spot c q.tail (length xs) = e (omega arith) in
        let (put, w') = assign-Window q xs y j w (omega arith) here in
        let longer = length-append xs (y ∷ []) in
        let q' : CircularQueue A = record q { slot = update q.slot j (some y) } in
        let (r, run, done) =
          write_run-Wrote ys q' (xs ++ y ∷ []) (j + 1) w'
            (λ more. ground (arith, here, longer, w.tail_in)) (omega arith)
            (omega (arith, longer)) in
        (
          r,
          rw put run,
          record {
            window = subst (Window c r) (append_assoc xs (y ∷ []) ys) done.window;
            same_head = done.same_head;
            same_tail = done.same_tail;
          },
        )

    jmp_head :
        {q : CircularQueue A} {xs : List A}
        → Holds c q xs
        → (n : ℕ) → length xs + n ≤ c
        → jmp q q.head (pos n) ≡ spot c q.tail (length xs + n)
    unfolding jmp
    jmp_head {q} {xs} h n p =
        let at = q.head + n in
        ground (
          arith,
          h.slots,
          h.head_at,
          h.tail_in,
          h.small,
          mod-eq_of_lt {n = at} {m = suc c},
          mod-eq-sub-mod {n = at} {m = suc c},
          mod-eq_of_lt {n = at - suc c} {m = suc c},
        )

    evict-Holds :
        (n : ℕ) (q : CircularQueue A) (xs : List A)
        → Holds c q xs
        → n ≤ length xs
        → (q' : CircularQueue A) × (evict true n q ≡ some q') × Holds c q' (drop n xs)
    unfolding evict
    evict-Holds zero q xs h p = (q, refl, h)
    evict-Holds (suc n) q xs h p =
        (record q { tail = jmp q q.tail (pos (suc n)) }, ground arith, advance-Holds h (suc n) p)

    -- Two runs of writes, up to the end of the chunks and from their start, append all of `ys`.
    write_both :
        (q : CircularQueue A) (xs ys : List A)
        → Holds c q xs
        → length xs + length ys ≤ c
        → let first = min (length ys) (q.capacity - q.head) in
          (q'' : CircularQueue A) × ((write_run true
                (record q { head = jmp q q.head (pos (length ys)) })
                q.head
                (take first ys)
              >>= λ r. write_run true r 0 (drop first ys))
            ≡ some q'')
          × Holds c q'' (xs ++ ys)
    write_both q xs ys h p =
        let first = min (length ys) (q.capacity - q.head) in
        let moved : CircularQueue A = record q { head = jmp q q.head (pos (length ys)) } in
        let upper = length-take first ys in
        let lower = length-drop first ys in
        let (r, run, wrote) =
          write_run-Wrote (take first ys) moved xs q.head (Holds-Window h) (λ _. h.head_at)
            (ground (arith, upper, h.head_at, h.slots, h.tail_in, h.fits)) (omega (arith, upper)) in
        let both = length-append xs (take first ys) in
        let (q'', run', wrote') =
          write_run-Wrote (drop first ys) r (xs ++ take first ys) 0 wrote.window
            (λ more.
              rw wrote.same_tail
                (ground (arith, upper, lower, both, h.head_at, h.slots, h.tail_in, h.fits)))
            (omega (arith, lower)) (omega (arith, lower, upper, both)) in
        let whole : (xs ++ take first ys) ++ drop first ys ≡ xs ++ ys =
          append_assoc xs (take first ys) (drop first ys)
          ∙ ap (◌++◌ xs) (take-append-drop first ys) in
        let head_there : q''.head ≡ spot c q''.tail (length (xs ++ ys)) =
          rw (length-append xs ys, wrote'.same_tail, wrote.same_tail)
            (wrote'.same_head ∙ wrote.same_head ∙ jmp_head h (length ys) p) in
        (
          q'',
          >>=-some (write_run true moved q.head (take first ys))
              (λ s. write_run true s 0 (drop first ys)) run run',
          Window-Holds head_there (subst (Window c q'') whole wrote'.window),
        )

    required_space-eq :
        {q : CircularQueue A} {xs : List A}
        → Holds c q xs
        → (n : ℕ) → n ≤ c
        → required_space q n ≡ length xs + n - c
    unfolding required_space
    required_space-eq h n p = rw (room-eq h, size-length h) (ground (arith, h.fits, h.small))

    enqueue_cut-Holds :
        (q : CircularQueue A) (xs ys : List A)
        → Holds c q xs
        → length ys ≤ c
        → (q' : CircularQueue A) × (enqueue_cut true q ys ≡ some q')
          × Holds c q' (drop (length xs + length ys - c) xs ++ ys)
    unfolding enqueue_cut
    enqueue_cut-Holds q xs ys h p =
        let lost = required_space q (length ys) in
        let over = required_space-eq h (length ys) p in
        let (q', run, h') = evict-Holds lost q xs h (omega (arith, over, h.fits)) in
        let (q'', run', h'') =
          write_both q' (drop lost xs) ys h' (omega (arith, over, length-drop lost xs, h.fits)) in
        (
          q'',
          >>=-some (evict true lost q) _ run run',
          subst (λ k. Holds c q'' (drop k xs ++ ys)) over h'',
        )

    -- Of a trivial type, `enqueue_n` into a queue that holds `xs` leaves the last `c` elements of what
    -- was there and the input, in order, and accesses nothing outside the chunks.
    pub enqueue_n-Holds :
        (q : CircularQueue A) (xs ys : List A)
        → Holds c q xs
        → (q' : CircularQueue A) × (enqueue_n true q ys ≡ some q')
          × Holds c q' (drop (length (xs ++ ys) - c) (xs ++ ys))
    unfolding enqueue_n
    enqueue_n-Holds q xs ys h = elim (dec_lt c (length ys)) [
      | yes long ↦
          let cut = length ys - c in
          let len = length-drop cut ys in
          let (q', run, h') = enqueue_cut-Holds q xs (drop cut ys) h (omega (arith, len)) in
          let kept : drop (length xs + length (drop cut ys) - c) xs ++ drop cut ys
              ≡ drop (length (xs ++ ys) - c) (xs ++ ys) =
            ap (λ k. k ++ drop cut ys) (drop_all _ xs (omega (arith, len)))
            ∙ ap (λ k. drop k ys) (omega (arith, length-append xs ys))
            ∙ sym (drop-append_past _ xs ys (omega (arith, length-append xs ys))) in
          (q', rw (room-eq h, lt→ltb c (length ys) long) run, subst (Holds c q') kept h')
      | no short ↦
          let (q', run, h') = enqueue_cut-Holds q xs ys h (omega arith) in
          let kept : drop (length xs + length ys - c) xs ++ ys
              ≡ drop (length (xs ++ ys) - c) (xs ++ ys) =
            ap (λ k. drop k xs ++ ys) (omega (arith, length-append xs ys))
            ∙ sym (drop-append _ xs ys (omega (arith, length-append xs ys))) in
          let fits_all : ltb c (length ys) ≡ false = ground arith in
          (q', rw (room-eq h, fits_all) run, subst (Holds c q') kept h')
    ]
