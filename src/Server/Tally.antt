-- ===== src/Server/Tally.antt =====
-- Counting the workers of a UD server in a phase, and the numbers around its ring.
use rdma_kv_store.Base.{
  ℕ, zero, suc, ◌+◌, ◌%◌, ◌≤◌, ◌≡◌, refl, ap, Bool, true, false, List, [], ◌∷◌, ◌++◌, some, arith,
  get_elem?, set, replicate,
}
use rdma_kv_store.Server.Pool.{Phase, polling, waiting, holding, around}

abbrev pub waits : Phase → ℕ
waits waiting = 1
waits _ = 0

abbrev pub holds : Phase → ℕ
holds holding = 1
holds _ = 0

abbrev pub held : Bool → ℕ
held true = 1
held false = 0

pub held_le : (b : Bool) → held b ≤ 1
held_le true = omega arith
held_le false = omega arith

-- The sum of a weight over the workers.
abbrev pub tally : (Phase → ℕ) → List Phase → ℕ
tally w [] = 0
tally w (x ∷ xs) = w x + tally w xs

pub tally-set :
    (w : Phase → ℕ) (xs : List Phase) (i : ℕ) (old new : Phase)
    → get_elem? xs i ≡ some old
    → tally w (set xs i new) + w old ≡ tally w xs + w new
tally-set w [] i old new h = absurd cc
tally-set w (x ∷ xs) zero old new h = let e : x ≡ old = cc in rw e (omega arith)
tally-set w (x ∷ xs) (suc i) old new h = omega (arith, tally-set w xs i old new h)

pub around-snoc : (k m : ℕ) → around k m ++ (k + m) % 1024 ∷ [] ≡ around k (suc m)
around-snoc k zero = let e : k + 0 ≡ k = omega arith in rw e refl
around-snoc k (suc m) =
    let e : k + suc m ≡ suc k + m = omega arith in
    rw e (ap (λ t. k % 1024 ∷ t) (around-snoc (suc k) m))

-- The buffer of the next message, and those behind it.
pub next_buffer :
    (k m b : ℕ) (rest : List ℕ)
    → around k m ≡ b ∷ rest
    → (n : ℕ) × (m ≡ suc n) × (b ≡ k % 1024) × (rest ≡ around (suc k) n)
next_buffer k zero b rest e = absurd cc
next_buffer k (suc m) b rest e = (m, refl, cc, cc)

pub tally-polling : (w : Phase → ℕ) (n : ℕ) → w polling ≡ 0 → tally w (replicate n polling) ≡ 0
tally-polling w zero h = refl
tally-polling w (suc n) h = omega (arith, h, tally-polling w n h)
