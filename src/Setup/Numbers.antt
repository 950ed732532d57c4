-- ===== src/Setup/Numbers.antt =====
-- The numbers of the clients that the loop of `main` (src/server/kvstore.c) starts workers for.
use rdma_kv_store.Base.{
  ltb, ℕ, zero, suc, ◌<◌, ◌≤◌, ◌≡◌, refl, inl, inr, List, [], ◌∷◌, arith, ℤ, is_neg, if◌then◌else◌,
  Bool-cases,
}
use rdma_kv_store.Verbs.{
  Call, Os, Flow, next, leaves, exits, faults, no_fuel, Prog, flow_then, flow_within, pure, modify,
}
use rdma_kv_store.Setup.{Setup}
use rdma_kv_store.Setup.Startup.{Main, take_client, take_clients}

-- Numbers in strictly falling order, all below a bound.
abbrev pub Falling : ℕ → List ℕ → Type 0
Falling bound [] = Unit
Falling bound (n ∷ ns) = (n < bound) × Falling n ns

Falling-mono : (a b : ℕ) (ns : List ℕ) → a ≤ b → Falling a ns → Falling b ns
Falling-mono a b [] h f = tt
Falling-mono a b (n ∷ ns) h f = (omega (arith, f.0), f.1)

-- The workers have different numbers, all of them used up.
abbrev pub Numbered : Main → Type 0
Numbered s = Falling s.client_nr s.threads

-- The state in which a statement leaves the loop, if it does.
abbrev pub KeepsNumbers : {R A : Type 0} → Flow Main R A → Type 0
KeepsNumbers (next a log s) = Numbered s
KeepsNumbers (leaves r log s) = Numbered s
KeepsNumbers (exits n log s) = Numbered s
KeepsNumbers (faults f) = Unit
KeepsNumbers no_fuel = Unit

-- What becomes of the client, for every end of `accept_new_connection`.
accepted-KeepsNumbers :
    (R : Type 0) (os : Os) (s : Main) (n : ℕ) (f : Flow Setup R ℤ)
    → s.client_nr ≡ suc n
    → Falling n s.threads
    → KeepsNumbers (
        flow_then
          (flow_within {A = ℤ} (λ c. record s { setup = c }) f)
          (λ ret. if is_neg ret then pure tt else modify λ t. record t { threads = n ∷ t.threads })
          os)
accepted-KeepsNumbers R os s n (next v log c) up falling = elim (Bool-cases (is_neg v)) [
  | inl refused ↦ rw (refused, up) (Falling-mono n (suc n) s.threads (omega arith) falling)
  | inr taken ↦ rw (taken, up) (omega arith, falling)
]
accepted-KeepsNumbers R os s n (leaves r log c) up falling =
    rw up (Falling-mono n (suc n) s.threads (omega arith) falling)
accepted-KeepsNumbers R os s n (exits m log c) up falling =
    rw up (Falling-mono n (suc n) s.threads (omega arith) falling)
accepted-KeepsNumbers R os s n (faults f) up falling = tt
accepted-KeepsNumbers R os s n no_fuel up falling = tt

take_client-KeepsNumbers :
    (R : Type 0) (os : Os) (log : List Call) (s : Main)
    → Numbered s
    → KeepsNumbers (take_client {R = R} os log s)
unfolding take_client
take_client-KeepsNumbers R os log s numbered =
    elim (Bool-cases (ltb (suc s.client_nr) 2147483648)) [
      | inl fits ↦ rw fits (
          accepted-KeepsNumbers R os (record s { client_nr = suc s.client_nr }) s.client_nr _ refl
            numbered)
      | inr over ↦ rw over tt
    ]

flow_then-KeepsNumbers :
    (R : Type 0) (os : Os) (f : Flow Main R (Unit {0})) (k : Unit {0} → Prog Main R (Unit {0}))
    → KeepsNumbers f
    → ((log : List Call) (s : Main) → Numbered s → KeepsNumbers (k tt os log s))
    → KeepsNumbers (flow_then f k os)
flow_then-KeepsNumbers R os (next tt log s) k h step = step log s h
flow_then-KeepsNumbers R os (leaves r log s) k h step = h
flow_then-KeepsNumbers R os (exits n log s) k h step = h
flow_then-KeepsNumbers R os (faults f) k h step = tt
flow_then-KeepsNumbers R os no_fuel k h step = tt

-- Whatever the calls give, the loop of main keeps the numbers of the workers it has started
-- different from one another and from all numbers to come, also where a client is not taken in,
-- for as long as no behaviour is undefined. The overflow of client_nr, which is an int, is
-- undefined.
pub take_clients-KeepsNumbers :
    (R : Type 0) (n : ℕ) (os : Os) (log : List Call) (s : Main)
    → Numbered s
    → KeepsNumbers (take_clients {R = R} n os log s)
unfolding take_clients
take_clients-KeepsNumbers R zero os log s numbered = numbered
take_clients-KeepsNumbers R (suc n) os log s numbered =
    flow_then-KeepsNumbers R os (take_client {R = R} os log s) (λ _. take_clients {R = R} n)
      (take_client-KeepsNumbers R os log s numbered)
      (λ log' s'. take_clients-KeepsNumbers R n os log' s')
