-- ===== src/Server/Stale.antt =====
-- Requests that are not the one that arrived: after an UNK request, and after a receive that fails.
use rdma_kv_store.Base.{
  get_elem?-set_self, ℕ, zero, suc, ◌+◌, ◌%◌, ◌≡◌, ◌≢◌, refl, ◌∙◌, ap, inl, inr, false, List, [],
  ◌∷◌, none, some, arith, get_elem?, set, pos, neg,
}
use rdma_kv_store.Machine.{Cmd, done, ◌>>=◌, Returns, returns}
use rdma_kv_store.Common.{
  Method, unk, set as set_method, get, del, ping, dump, rst, exit, setopt, parsing_error, Request,
}
use rdma_kv_store.Server.{message, failed, Env, Buffers, Session}
use rdma_kv_store.Server.Transport.{get_current_request, prepare_for_next_request, receive_header}
use rdma_kv_store.Server.Dispatch.{
  is_minus_one, request_dispatcher, dispatch_method, dispatch_received, recv_request,
}
use rdma_kv_store.Server.Worker.{turn}
use rdma_kv_store.Server.Ring.{
  IsConnected, InStep, received_buffers, prepared, prepare-prepared, current_at, remember-connected,
}
use rdma_kv_store.Server.Turn.{Serving}
use rdma_kv_store.Server.Faults.{twice, turn-unk}
use rdma_kv_store.Server.Turn.{IsStored}

-- The request that the code takes for the next one: what the buffer at `request_count` holds once a
-- receive has completed.
abbrev pub next_request : Env → Cmd Session Request
next_request env = do
  _ ← λ s. prepare_for_next_request env s.type s
  _ ← receive_header env
  get_current_request

get_elem?-set_other :
    (xs : List Request) (i j : ℕ) (v : Request) → i ≢ j → get_elem? (set xs i v) j ≡ get_elem? xs j
get_elem?-set_other [] i j v ne = refl
get_elem?-set_other (x ∷ xs) zero zero v ne = absurd (ne refl)
get_elem?-set_other (x ∷ xs) zero (suc j) v ne = refl
get_elem?-set_other (x ∷ xs) (suc i) zero v ne = refl
get_elem?-set_other (x ∷ xs) (suc i) (suc j) v ne =
    get_elem?-set_other xs i j v (λ e. ne (ap suc e))

-- In a session whose ring has not advanced past `old`, the next message lands one buffer further,
-- and the code reads `old` again.
next_request-stale :
    (env : Env) (u : Session) (b : Buffers) (old new : Request)
    → IsConnected u.type
    → InStep b
    → u.own ≡ received_buffers old b
    → env.post_recv u.moment ≡ pos 0
    → env.arrival (suc u.moment) ≡ message new
    → Returns (λ r u'. r ≡ old) (next_request env u)
unfolding receive_header
next_request-stale env u b old new c st own post arrived = go c
  where
    kept :
        get_elem?
          (set (set b.slots b.request_count old) ((b.request_count + 1) % 5) new)
          b.request_count
        ≡ some old
    kept =
        get_elem?-set_other (set b.slots b.request_count old) ((b.request_count + 1) % 5)
          b.request_count new (λ e. absurd (omega (arith, st.inside, e)))
        ∙ get_elem?-set_self b.slots b.request_count old (omega (arith, st.inside, st.width))

    landed : Session
    landed = record u {
      own = record {
        slots = set (set b.slots b.request_count old) ((b.request_count + 1) % 5) new;
        request_count = b.request_count;
        queue =
            (b.request_count + 2) % 5
            ∷ (b.request_count + 3) % 5
            ∷ (b.request_count + 4) % 5
            ∷ b.request_count
            ∷ b.request_count
            ∷ [];
      };
      moment = suc (suc u.moment);
    }

    received_next : receive_header env (prepared u) ≡ done (pos 1) landed
    received_next = elim c [ inl t ↦ rw (t, arrived, own) refl | inr t ↦ rw (t, arrived, own) refl ]

    go : IsConnected u.type → Returns (λ r u'. r ≡ old) (next_request env u)
    go c' =
        rw (prepare-prepared env u old c post, received_next, current_at landed old c kept)
          (returns refl)

-- On an RC or UC connection in step whose posts and sends succeed, after an UNK request that does
-- not close the connection the next message is not read: the code takes the UNK request for it
-- again.
pub next_request-unk :
    (fuel : ℕ) (env : Env) (s : Session) (r new : Request)
    → Serving s
    → r.connection_close ≡ false
    → r.method ≡ unk
    → env.post_recv s.moment ≡ pos 0
    → env.arrival (1 + s.moment) ≡ message r
    → env.send_error (2 + s.moment) ≡ none
    → env.send_error (4 + s.moment) ≡ none
    → env.post_recv (5 + s.moment) ≡ pos 0
    → env.arrival (6 + s.moment) ≡ message new
    → Returns (λ x s'. x ≡ r) ((turn fuel env >>= λ _. next_request env) s)
next_request-unk fuel env s r new serving stays m post arrived sent sent_again post' arrived' =
    let n1 : 1 + s.moment ≡ suc s.moment = omega arith in
    let n2 : 2 + s.moment ≡ suc (suc s.moment) = omega arith in
    let n4 : 4 + s.moment ≡ suc (suc (suc (suc s.moment))) = omega arith in
    let n5 : 5 + s.moment ≡ suc (suc (suc (suc (suc s.moment)))) = omega arith in
    let n6 : 6 + s.moment ≡ suc (suc (suc (suc (suc (suc s.moment))))) = omega arith in
    rw
      (turn-unk fuel env s r serving stays post (rw n1 at arrived) (rw n2 at sent)
        (rw n4 at sent_again) m)
      (next_request-stale env (twice (received_buffers r s.own) parsing_error s) s.own r new
        serving.connected serving.in_step refl (rw n5 at post') (rw n6 at arrived'))

dispatch_method-stored :
    (env : Env) (m : Method) (r : Request) (u : Session)
    → IsStored m
    → dispatch_method env m r u ≡ done tt u
unfolding dispatch_method
dispatch_method-stored env set_method r u h = refl
dispatch_method-stored env get r u h = refl
dispatch_method-stored env del r u h = refl
dispatch_method-stored env dump r u h = refl
dispatch_method-stored env rst r u h = refl
dispatch_method-stored env unk r u h = absurd h
dispatch_method-stored env ping r u h = absurd h
dispatch_method-stored env exit r u h = absurd h
dispatch_method-stored env setopt r u h = absurd h

neg-is_minus_one : (e : ℕ) → e ≢ 1 → is_minus_one (neg e) ≡ false
neg-is_minus_one zero h = refl
neg-is_minus_one (suc zero) h = absurd (h refl)
neg-is_minus_one (suc (suc e)) h = refl

-- A receive on an RC or UC connection that fails with an errno other than 1 is not noticed: the
-- request that the current buffer holds, if it is a SET, GET, DEL, DUMP or RST, is taken once
-- more.
pub recv_request-failed :
    (env : Env) (u : Session) (r : Request) (e : ℕ)
    → IsConnected u.type
    → env.arrival u.moment ≡ failed e
    → e ≢ 1
    → get_elem? u.own.slots u.own.request_count ≡ some r
    → IsStored r.method
    → recv_request env u ≡ done (some r) (record u { moment = suc u.moment })
unfolding recv_request dispatch_received request_dispatcher receive_header
recv_request-failed env u r e c arrived other at_r stored =
    let u1 : Session = record u { moment = suc u.moment } in
    rw
      (
        failed_header c,
        neg-is_minus_one e other,
        current_at u1 r c at_r,
        remember-connected env u.type r u1 c,
        current_at u1 r c at_r,
        dispatch_method-stored env r.method r u1 stored,
        current_at u1 r c at_r,
      )
      refl
  where
    failed_header :
        IsConnected u.type
        → receive_header env u ≡ done (neg e) (record u { moment = suc u.moment })
    failed_header (inl t) = rw (t, arrived) refl
    failed_header (inr t) = rw (t, arrived) refl
