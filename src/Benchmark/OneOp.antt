-- ===== src/Benchmark/OneOp.antt =====
-- One operation of a benchmark client (src/benchmarking/instance.c), on a connection whose exchanges end.
use rdma_kv_store.Base.{
  ℕ, zero, suc, ◌%◌, ◌<◌, ◌≡◌, ◌≢◌, refl, ◌∙◌, ap, ◌⊎◌, inl, inr, false, some, List, ◌∷◌, arith,
  ◌==◌, leb, length, set, get_elem?, set-set, get_elem?-set_self, pos, truthy, is_neg, lt→ltb,
  Bool-cases,
}
use rdma_kv_store.Common.{Request}
use rdma_kv_store.Verbs.{Call, Os, Flow, next, leaves, malloc_timeval, rand, time_of_day}
use rdma_kv_store.Client.Exchange.{Exchanges}
use rdma_kv_store.Benchmark.Requests.{pred_ℤ}
use rdma_kv_store.Benchmark.Texts.{Fits32}
use rdma_kv_store.Benchmark.Fits.{IsSized, make_get_request-Made, make_set_request-Made}
use rdma_kv_store.Benchmark.Instance.{
  null_stamp, unset, at, Operation, Instance, Outcome, request_addr, update_op, choose_request,
  int_suc, new_stamp, stamped, attempts, one_op,
}

-- `malloc` finds the memory of a time.
abbrev pub Mallocs : Os → Type 0
Mallocs os = (log : List Call) → os.ptr log malloc_timeval ≢ 0

abbrev pub null_op : Operation
null_op = record { start = null_stamp; end_ = null_stamp }

abbrev pub started : ℕ → Operation
started a = record { start = at a; end_ = unset }

abbrev pub timed : ℕ → ℕ → Operation
timed a b = record { start = at a; end_ = at b }

-- What an operation relies on.
pub record OpReady (os : Os) (fuel : ℕ) (s : Instance) : Type 0 where
  pub exchanges : Exchanges Outcome os fuel s.client
  pub sized : IsSized s.request
  pub buffer : request_addr s.client.conn_t s.client ≢ 0
  pub instance_low : s.client.instance_nr < 2147483648
  pub count_low : suc s.count < 2147483648
  pub mallocs : Mallocs os
  pub fresh : get_elem? s.ops s.count ≡ some null_op
  pub inside : s.count < length s.ops

Fits32-pred : (m : ℕ) → m < 2147483648 → Fits32 (pred_ℤ (pos m))
Fits32-pred zero h = omega arith
Fits32-pred (suc m) h = omega arith

pub ne_zero : (n : ℕ) → n ≢ 0 → (n == 0) ≡ false
ne_zero zero h = absurd (h refl)
ne_zero (suc n) h = ground arith

int_suc-run :
    (n : ℕ) (os : Os) (log : List Call) (s : Instance)
    → suc n < 2147483648
    → int_suc n os log s ≡ next (suc n) log s
unfolding int_suc
int_suc-run n os log s low = rw (lt→ltb (suc n) 2147483648 low) refl

new_stamp-unset : (p : ℕ) → p ≢ 0 → new_stamp p ≡ unset
new_stamp-unset zero h = absurd (h refl)
new_stamp-unset (suc p) h = refl

update_op-run :
    (f : Operation → Operation) (os : Os) (log : List Call) (s : Instance) (op : Operation)
    → get_elem? s.ops s.count ≡ some op
    → update_op f os log s ≡ next tt log (record s { ops = set s.ops s.count (f op) })
unfolding update_op
update_op-run f os log s op e = rw e refl

-- A change of the operation that was changed before.
update_op-again :
    (f : Operation → Operation) (os : Os) (log : List Call) (s : Instance) (ops : List Operation)
    (op : Operation)
    → s.count < length ops
    → update_op f os log (record s { ops = set ops s.count op })
      ≡ next tt log (record s { ops = set ops s.count (f op) })
update_op-again f os log s ops op inside =
    update_op-run f os log (record s { ops = set ops s.count op }) op
      (get_elem?-set_self ops s.count op inside)
    ∙ ap (λ t. next tt log (record s { ops = t })) (set-set ops s.count op (f op))

-- The operation is done, with both of its times, or an error ends the thread with the first only.
abbrev pub OpEnds : Instance → Flow Instance Outcome (Unit {0}) → Type 0
OpEnds s flow =
    ((a : ℕ) × (b : ℕ) × (r : Request) × (log' : List Call) × (flow
        ≡ next tt log'
            (record s { request = r; ops = set s.ops s.count (timed a b); count = suc s.count }))
      × IsSized r)
    ⊎ ((a : ℕ) × (log' : List Call) × (s' : Instance) × (flow
          ≡ leaves (some (set s.ops s.count (started a))) log' s'))

module _ (os : Os) (fuel : ℕ) (s : Instance) (ready : OpReady os fuel s) where
  choose_request-IsSized :
      (log : List Call)
      → (r : Request) × (log' : List Call) × (choose_request os log s
          ≡ next tt log' (record s { request = r }))
        × IsSized r
  unfolding choose_request
  choose_request-IsSized log =
      let (set_r, set_run, set_made, carries) =
        make_set_request-Made s.client.instance_nr (pos s.count) s.request ready.instance_low
          (omega (arith, ready.count_low)) ready.sized in
      let pick = os.ptr (rand ∷ log) rand % suc s.count in
      let (get_r, get_run, get_made) =
        make_get_request-Made s.client.instance_nr (pred_ℤ (pos pick)) s.request ready.instance_low
          (Fits32-pred pick (omega (arith, ready.count_low))) ready.sized in
      rw (ne_zero (request_addr s.client.conn_t s.client) ready.buffer)
        (elim (Bool-cases (leb (os.ptr log rand % 100) 5)) [
          | inl low ↦ rw (low, set_run) (set_r, rand ∷ log, refl, set_made.sized)
          | inr high ↦
              rw (high, int_suc-run s.count os (rand ∷ rand ∷ log) s ready.count_low, get_run)
                (get_r, rand ∷ rand ∷ log, refl, get_made.sized)
        ])

  -- One try is enough: the operation ends, or an error ends the thread.
  attempts-run :
      (tries : ℕ) (log : List Call) (ops : List Operation) (r : Request)
      → (log' : List Call) × ((attempts
              (suc tries)
              fuel
              os
              log
              (record s { ops = ops; request = r })
            ≡ next tt log' (record s { ops = ops; request = r }))
          ⊎ (attempts (suc tries) fuel os log (record s { ops = ops; request = r })
              ≡ leaves (some ops) log' (record s { ops = ops; request = r })))
  unfolding attempts
  attempts-run tries log ops r =
      let (v, log1, sends, sent) = ready.exchanges.sends log in
      let (w, log2, receives, received) = ready.exchanges.receives log1 in
      elim (Bool-cases (truthy v)) [
        | inl bad ↦ rw (sends, bad) (log1, inr refl)
        | inr good ↦ elim (Bool-cases (is_neg w)) [
          | inl bad ↦ rw (sends, good, receives, bad) (log2, inr refl)
          | inr fine ↦ rw (sends, good, receives, fine, received) (log2, inl refl)
        ]
      ]

  pub one_op-OpEnds : (tries : ℕ) (log : List Call) → OpEnds s (one_op (suc tries) fuel os log s)
  unfolding one_op
  one_op-OpEnds tries log =
      let (r, log0, chosen, sized) = choose_request-IsSized log in
      let s0 : Instance = record s { request = r } in
      let log1 = malloc_timeval ∷ log0 in
      let p = os.ptr log0 malloc_timeval in
      let q = os.ptr log1 malloc_timeval in
      let first =
        update_op-run (λ op. record op { start = new_stamp p }) os log1 s0 null_op ready.fresh in
      let log2 = malloc_timeval ∷ log1 in
      let made : Operation = record { start = new_stamp p; end_ = null_stamp } in
      let second =
        update_op-again (λ op. record op { end_ = new_stamp q }) os log2 s0 s.ops made
          ready.inside in
      let log3 = time_of_day ∷ log2 in
      let a = os.ptr log2 time_of_day in
      let third =
        update_op-again (λ op. record op { start = stamped a op.start }) os log3 s0 s.ops
          (record { start = unset; end_ = unset }) ready.inside in
      let begun = set s.ops s.count (started a) in
      let (log4, ends) = attempts-run tries log3 begun r in
      rw
        (
          chosen,
          first,
          second,
          new_stamp-unset p (ready.mallocs log0),
          new_stamp-unset q (ready.mallocs log1),
          third,
        )
        (elim ends [
          | inr stopped ↦ rw stopped (inr (a, log4, record s { request = r; ops = begun }, refl))
          | inl fine ↦
              let b = os.ptr log4 time_of_day in
              let log5 = time_of_day ∷ log4 in
              let fourth =
                update_op-again (λ op. record op { end_ = stamped b op.end_ }) os log5 s0 s.ops
                  (started a) ready.inside in
              rw
                (
                  fine,
                  fourth,
                  int_suc-run s.count os log5 (record s0 { ops = set s.ops s.count (timed a b) })
                      ready.count_low,
                )
                (inl (a, b, r, log5, refl, sized))
        ])
