-- ===== src/Server/Order.antt =====
-- What stays true of the ring, the lock and the workers of a UD server in every step.
use rdma_kv_store.Base.{
  ℕ, suc, ◌+◌, ◌%◌, ◌≤◌, ◌<◌, ◌≡◌, ◌≢◌, refl, sym, ap, ◌∙◌, inl, inr, true, false, List, [], ◌∷◌,
  ◌++◌, some, arith, length, get_elem?, set, take, get_elem?-other, get_elem?-front, get_elem?-last,
  take-front, take-suc, length-append, length-set, get_elem?-set_self, Bool-cases, ltb, ltb→lt, pos,
}
use rdma_kv_store.Common.{Request}
use rdma_kv_store.Server.{max_clients}
use rdma_kv_store.Server.Transport.{land_in, push_receive, advance}
use rdma_kv_store.Server.Tally.{
  waits, holds, held, held_le, tally, tally-set, around-snoc, next_buffer,
}
use rdma_kv_store.Server.Pool.{
  Phase, polling, waiting, holding, answering, Pool, Step, arrives, polls, locks, readies, keeps,
  answers, Steps, stays, then_step, around,
}

-- After `done_` requests were made ready for the next: the ring and what was taken.
pub record Ordered (p : Pool) : Type 0 where
  pub done_ : ℕ
  pub free : ℕ
  pub count : p.ring.request_count ≡ done_ % 1024
  pub width : length p.ring.slots ≡ 1024
  pub pending : done_ + (p.completed + tally waits p.workers + held p.lock) ≡ length p.arrived
  pub queue : p.ring.queue ≡ around (length p.arrived) free
  pub room : length p.arrived + free ≡ done_ + 1024
  pub slots :
      (k : ℕ)
      → done_ ≤ k
      → k < length p.arrived
      → get_elem? p.ring.slots (k % 1024) ≡ get_elem? p.arrived k
  pub taken : p.taken ≡ take (done_ + held p.lock) p.arrived
  pub alone : tally holds p.workers ≤ held p.lock

-- What the slots hold after one more message has landed.
slots-land :
    (p : Pool) (r : Request) (b n k : ℕ)
    → (o : Ordered p) → b ≡ length p.arrived % 1024
    → o.free ≡ suc n
    → o.done_ ≤ k
    → k < length (p.arrived ++ r ∷ [])
    → get_elem? (set p.ring.slots b r) (k % 1024) ≡ get_elem? (p.arrived ++ r ∷ []) k
slots-land p r b n k o at more low high =
    let old = p.arrived in
    let longer = length-append old (r ∷ []) in
    elim (Bool-cases (ltb k (length old))) [
      | inl before ↦
          let early = ltb→lt k (length old) before in
          let apart : b ≢ k % 1024 = λ e. absurd (omega (arith, e, at, o.room, more, low, early)) in
          get_elem?-other p.ring.slots b (k % 1024) r apart
          ∙ o.slots k low early
          ∙ sym (get_elem?-front old (r ∷ []) k early)
      | inr last ↦
          let here : k ≡ length old = ground (arith, last, high, longer) in
          let same : k % 1024 ≡ b = omega (arith, here, at) in
          let inside : b < length p.ring.slots = omega (arith, at, o.width) in
          ap (λ j. get_elem? (set p.ring.slots b r) j) same
          ∙ get_elem?-set_self p.ring.slots b r inside
          ∙ sym (get_elem?-last old r k here)
    ]

arrives-Ordered :
    (p : Pool) (r : Request) (b : ℕ) (rest : List ℕ)
    → Ordered p
    → p.ring.queue ≡ b ∷ rest
    → Ordered (record p {
      ring = land_in r b rest p.ring;
      completed = suc p.completed;
      arrived = p.arrived ++ r ∷ [];
    })
arrives-Ordered p r b rest o q =
    let (n, more, at, behind) = next_buffer (length p.arrived) o.free b rest (sym o.queue ∙ q) in
    let longer : length (p.arrived ++ r ∷ []) ≡ suc (length p.arrived) =
      omega (arith, length-append p.arrived (r ∷ [])) in
    record {
      done_ = o.done_;
      free = n;
      count = o.count;
      width = length-set p.ring.slots b r ∙ o.width;
      pending = omega (arith, o.pending, longer);
      queue = behind ∙ ap (λ k. around k n) (sym longer);
      room = omega (arith, o.room, more, longer);
      slots = λ k low high. slots-land p r b n k o at more low high;
      taken =
          o.taken
          ∙ sym (take-front (o.done_ + held p.lock) p.arrived (r ∷ []) (omega (arith, o.pending)));
      alone = o.alone;
    }

polls-Ordered :
    (p : Pool) (i n : ℕ)
    → Ordered p
    → get_elem? p.workers i ≡ some polling
    → p.completed ≡ suc n
    → Ordered (record p { completed = n; workers = set p.workers i waiting })
polls-Ordered p i n o at c = record {
  done_ = o.done_;
  free = o.free;
  count = o.count;
  width = o.width;
  pending = omega (arith, o.pending, c, tally-set waits p.workers i polling waiting at);
  queue = o.queue;
  room = o.room;
  slots = o.slots;
  taken = o.taken;
  alone = omega (arith, o.alone, tally-set holds p.workers i polling waiting at);
}

locks-Ordered :
    (p : Pool) (i : ℕ) (r : Request)
    → Ordered p
    → get_elem? p.workers i ≡ some waiting
    → p.lock ≡ false
    → get_elem? p.ring.slots p.ring.request_count ≡ some r
    → Ordered
        (record p { lock = true; workers = set p.workers i holding; taken = p.taken ++ r ∷ [] })
locks-Ordered p i r o at free current =
    let w = tally-set waits p.workers i waiting holding at in
    let unheld : held p.lock ≡ 0 = ap held free in
    let more : o.done_ < length p.arrived = omega (arith, o.pending, unheld, w) in
    let first : get_elem? p.arrived o.done_ ≡ some r =
      sym (o.slots o.done_ (omega arith) more)
      ∙ ap (λ j. get_elem? p.ring.slots j) (sym o.count)
      ∙ current in
    let before : o.done_ + held p.lock ≡ o.done_ = omega (arith, unheld) in
    let after : suc o.done_ ≡ o.done_ + 1 = omega arith in
    record {
      done_ = o.done_;
      free = o.free;
      count = o.count;
      width = o.width;
      pending = omega (arith, o.pending, unheld, w);
      queue = o.queue;
      room = o.room;
      slots = o.slots;
      taken =
          ap (λ t. t ++ r ∷ []) (o.taken ∙ ap (λ n. take n p.arrived) before)
          ∙ sym (take-suc o.done_ p.arrived r first)
          ∙ ap (λ n. take n p.arrived) after;
      alone = omega (arith, o.alone, unheld, tally-set holds p.workers i waiting holding at);
    }

readies-Ordered :
    (p : Pool) (i : ℕ)
    → Ordered p
    → get_elem? p.workers i ≡ some holding
    → Ordered (record p {
      ring = advance max_clients (push_receive (pos 0) p.ring);
      lock = false;
      workers = set p.workers i (answering p.ring.request_count);
    })
readies-Ordered p i o at =
    let h = tally-set holds p.workers i holding (answering p.ring.request_count) at in
    let w = tally-set waits p.workers i holding (answering p.ring.request_count) at in
    let one : held p.lock ≡ 1 = omega (arith, o.alone, h, held_le p.lock) in
    let back : p.ring.request_count ≡ (length p.arrived + o.free) % 1024 =
      omega (arith, o.count, o.room) in
    let now : o.done_ + held p.lock ≡ suc o.done_ + 0 = omega (arith, one) in
    record {
      done_ = suc o.done_;
      free = suc o.free;
      count = omega (arith, o.count);
      width = o.width;
      pending = omega (arith, o.pending, one, w);
      queue =
          ap (λ t. t ++ p.ring.request_count ∷ []) o.queue
          ∙ ap (λ c. around (length p.arrived) o.free ++ c ∷ []) back
          ∙ around-snoc (length p.arrived) o.free;
      room = omega (arith, o.room);
      slots = λ k low high. o.slots k (omega (arith, low)) high;
      taken = o.taken ∙ ap (λ n. take n p.arrived) now;
      alone = omega (arith, o.alone, one, h);
    }

-- A worker that goes on without the lock and the ring being touched.
moves-Ordered :
    (p : Pool) (i : ℕ) (old new : Phase)
    → Ordered p
    → get_elem? p.workers i ≡ some old
    → waits old ≡ 0
    → waits new ≡ 0
    → holds new ≡ 0
    → Ordered (record p { workers = set p.workers i new })
moves-Ordered p i old new o at w x h = record {
  done_ = o.done_;
  free = o.free;
  count = o.count;
  width = o.width;
  pending = omega (arith, o.pending, tally-set waits p.workers i old new at);
  queue = o.queue;
  room = o.room;
  slots = o.slots;
  taken = o.taken;
  alone = omega (arith, o.alone, tally-set holds p.workers i old new at);
}

Step-Ordered : {p q : Pool} → Step p q → Ordered p → Ordered q
Step-Ordered {p} (arrives r b rest q) o = arrives-Ordered p r b rest o q
Step-Ordered {p} (polls i n at c) o = polls-Ordered p i n o at c
Step-Ordered {p} (locks i r at free current) o = locks-Ordered p i r o at free current
Step-Ordered {p} (readies i r at current known) o = readies-Ordered p i o at
Step-Ordered {p} (keeps i r at current unknown) o =
    moves-Ordered p i holding (answering p.ring.request_count) o at refl refl refl
Step-Ordered {p} (answers i c at) o = moves-Ordered p i (answering c) polling o at refl refl refl

pub Steps-Ordered : {p q : Pool} → Steps p q → Ordered p → Ordered q
Steps-Ordered stays o = o
Steps-Ordered (then_step steps step) o = Step-Ordered step (Steps-Ordered steps o)
