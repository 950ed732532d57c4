-- ===== src/Benchmark/Recorded.antt =====
-- What the thread of a benchmark client returns (src/benchmarking/instance.c), on a connection whose
-- exchanges end.
use mathlib.Core.Path.{subst}
use rdma_kv_store.Base.{
  ℕ, zero, suc, ◌+◌, ◌≤◌, ◌<◌, ◌≡◌, ◌≢◌, refl, ◌∙◌, ap, ◌⊎◌, inl, inr, some, List, [], ◌∷◌, arith,
  ltb, length, replicate, set, get_elem?, length-set, Bool-cases, ltb→lt,
}
use rdma_kv_store.Verbs.{Call, Os, Flow, next, leaves}
use rdma_kv_store.Client.Exchange.{Exchanges}
use rdma_kv_store.Benchmark.Fits.{IsSized}
use rdma_kv_store.Benchmark.Instance.{Operation, Instance, Outcome, request_addr, ops_loop}
use rdma_kv_store.Benchmark.OneOp.{Mallocs, null_op, started, timed, OpReady, one_op-OpEnds}

-- The first `k` operations have both times, the others are as `calloc` left them.
abbrev pub Recorded : ℕ → List Operation → Type 0
Recorded zero [] = Unit
Recorded zero (o ∷ ops) = (o ≡ null_op) × Recorded zero ops
Recorded (suc k) [] = ⊥
Recorded (suc k) (o ∷ ops) = ((a : ℕ) × (b : ℕ) × (o ≡ timed a b)) × Recorded k ops

-- The first `k` operations have both times, the next one has a start, and for its end a structure with
-- nothing in it, and the others are as `calloc` left them.
abbrev pub Stopped : ℕ → List Operation → Type 0
Stopped k [] = ⊥
Stopped zero (o ∷ ops) = ((a : ℕ) × (o ≡ started a)) × Recorded zero ops
Stopped (suc k) (o ∷ ops) = ((a : ℕ) × (b : ℕ) × (o ≡ timed a b)) × Stopped k ops

pub Recorded-zeroed : (n : ℕ) → Recorded 0 (replicate n null_op)
Recorded-zeroed zero = tt
Recorded-zeroed (suc n) = (refl, Recorded-zeroed n)

Recorded-fresh :
    (k : ℕ) (ops : List Operation)
    → k < length ops
    → Recorded k ops
    → get_elem? ops k ≡ some null_op
Recorded-fresh k [] h r = absurd (omega arith)
Recorded-fresh zero (o ∷ ops) h r = ap some r.0
Recorded-fresh (suc k) (o ∷ ops) h r = Recorded-fresh k ops (omega arith) r.1

Recorded-set :
    (k : ℕ) (ops : List Operation) (a b : ℕ)
    → k < length ops
    → Recorded k ops
    → Recorded (suc k) (set ops k (timed a b))
Recorded-set k [] a b h r = absurd (omega arith)
Recorded-set zero (o ∷ ops) a b h r = ((a, b, refl), r.1)
Recorded-set (suc k) (o ∷ ops) a b h r = (r.0, Recorded-set k ops a b (omega arith) r.1)

Stopped-set :
    (k : ℕ) (ops : List Operation) (a : ℕ)
    → k < length ops
    → Recorded k ops
    → Stopped k (set ops k (started a))
Stopped-set k [] a h r = absurd (omega arith)
Stopped-set zero (o ∷ ops) a h r = ((a, refl), r.1)
Stopped-set (suc k) (o ∷ ops) a h r = (r.0, Stopped-set k ops a (omega arith) r.1)

-- All operations are recorded, or an error stopped the thread at one of them.
abbrev pub Results : ℕ → List Operation → Type 0
Results num_ops ops = Recorded num_ops ops ⊎ ((k : ℕ) × (k < num_ops) × Stopped k ops)

-- The loop goes through, or the thread returns early.
abbrev pub LoopEnds : ℕ → Flow Instance Outcome (Unit {0}) → Type 0
LoopEnds num_ops flow =
    ((log' : List Call) × (s' : Instance) × (flow ≡ next tt log' s') × Recorded num_ops s'.ops)
    ⊎ ((ops : List Operation) × (log' : List Call) × (s' : Instance) × (flow
          ≡ leaves (some ops) log' s')
        × (k : ℕ) × (k < num_ops)
        × Stopped k ops)

-- What the loop relies on.
pub record LoopReady (os : Os) (fuel num_ops : ℕ) (s : Instance) : Type 0 where
  pub exchanges : Exchanges Outcome os fuel s.client
  pub sized : IsSized s.request
  pub buffer : request_addr s.client.conn_t s.client ≢ 0
  pub instance_low : s.client.instance_nr < 2147483648
  pub mallocs : Mallocs os
  pub num_ops_low : num_ops < 2147483648
  pub more : s.count < num_ops
  pub width : length s.ops ≡ num_ops
  pub recorded : Recorded s.count s.ops

LoopReady-OpReady :
    (os : Os) (fuel num_ops : ℕ) (s : Instance) → LoopReady os fuel num_ops s → OpReady os fuel s
LoopReady-OpReady os fuel num_ops s l = record {
  exchanges = l.exchanges;
  sized = l.sized;
  buffer = l.buffer;
  instance_low = l.instance_low;
  count_low = omega (arith, l.more, l.num_ops_low);
  mallocs = l.mallocs;
  fresh = Recorded-fresh s.count s.ops (omega (arith, l.more, l.width)) l.recorded;
  inside = omega (arith, l.more, l.width);
}

pub ops_loop-LoopEnds :
    (os : Os) (tries fuel num_ops rounds : ℕ) (log : List Call) (s : Instance)
    → LoopReady os fuel num_ops s
    → num_ops ≤ s.count + rounds
    → LoopEnds num_ops (ops_loop rounds (suc tries) fuel num_ops os log s)
unfolding ops_loop
ops_loop-LoopEnds os tries fuel num_ops zero log s l h = absurd (omega (arith, l.more))
ops_loop-LoopEnds os tries fuel num_ops (suc rounds) log s l h =
    let inside : s.count < length s.ops = omega (arith, l.more, l.width) in
    elim (one_op-OpEnds os fuel s (LoopReady-OpReady os fuel num_ops s l) tries log) [
      | inr (a, log', s', run) ↦ rw run (
          inr (
            set s.ops s.count (started a),
            log',
            s',
            refl,
            s.count,
            l.more,
            Stopped-set s.count s.ops a inside l.recorded,
          ))
      | inl (a, b, r, log', run, sized) ↦
          let s1 : Instance = record s {
            request = r;
            ops = set s.ops s.count (timed a b);
            count = suc s.count;
          } in
          let recorded = Recorded-set s.count s.ops a b inside l.recorded in
          let width = length-set s.ops s.count (timed a b) ∙ l.width in
          elim (Bool-cases (ltb (suc s.count) num_ops)) [
            | inl again ↦
                rw (run, again)
                  (ops_loop-LoopEnds os tries fuel num_ops rounds log' s1
                    (record {
                      exchanges = l.exchanges;
                      sized = sized;
                      buffer = l.buffer;
                      instance_low = l.instance_low;
                      mallocs = l.mallocs;
                      num_ops_low = l.num_ops_low;
                      more = ltb→lt (suc s.count) num_ops again;
                      width = width;
                      recorded = recorded;
                    })
                    (omega (arith, h)))
            | inr last ↦
                let all : suc s.count ≡ num_ops = ground (arith, last, l.more) in
                rw (run, last) (inl (log', s1, refl, subst (λ k. Recorded k s1.ops) all recorded))
          ]
    ]
