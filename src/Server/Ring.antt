-- ===== src/Server/Ring.antt =====
-- The ring of request buffers of an RC or UC connection: the buffer that the code reads is the one
-- that the message lands in.
use rdma_kv_store.Base.{
  ℕ, suc, ◌+◌, ◌%◌, ◌<◌, ◌≡◌, refl, ◌∙◌, ◌⊎◌, inl, inr, List, [], ◌∷◌, ◌++◌, some, arith, length,
  get_elem?, get_elem?-set_self, set, length-set, pos,
}
use rdma_kv_store.Machine.{done}
use rdma_kv_store.Common.{ConnectionType, rc, uc, Request}
use rdma_kv_store.Server.{request_backlog, message, Env, Buffers, Session}
use rdma_kv_store.Server.Dispatch.{remember}
use rdma_kv_store.Server.Transport.{
  get_current_request, advance, prepare_for_next_request, receive_header,
}

abbrev pub IsConnected : ConnectionType → Type 0
IsConnected t = (t ≡ rc) ⊎ (t ≡ uc)

-- The five buffers in order, from buffer `c` on.
abbrev pub window : ℕ → List ℕ
window c = c ∷ (c + 1) % 5 ∷ (c + 2) % 5 ∷ (c + 3) % 5 ∷ (c + 4) % 5 ∷ []

-- Every buffer waits in the queue once, the current one first.
pub record InStep (b : Buffers) : Type 0 where
  pub width : length b.slots ≡ request_backlog
  pub inside : b.request_count < request_backlog
  pub order : b.queue ≡ window b.request_count

-- The state in which a request `r` has been received.
abbrev pub received_buffers : Request → Buffers → Buffers
received_buffers r b = record b {
  slots = set b.slots b.request_count r;
  queue =
      (b.request_count + 1) % 5
      ∷ (b.request_count + 2) % 5
      ∷ (b.request_count + 3) % 5
      ∷ (b.request_count + 4) % 5
      ∷ b.request_count
      ∷ [];
}

abbrev pub received : Request → Session → Session
received r s = record s { own = received_buffers r s.own; moment = suc (suc s.moment) }

-- The state in which the buffer is posted again, behind the others.
abbrev pub prepared : Session → Session
prepared s = record s {
  own = record s.own { queue = s.own.queue ++ s.own.request_count ∷ [] };
  moment = suc s.moment;
}

pub current_at :
    (u : Session) (r : Request)
    → IsConnected u.type
    → get_elem? u.own.slots u.own.request_count ≡ some r
    → get_current_request u ≡ done r u
unfolding get_current_request
current_at u r (inl t) e = rw (t, e) refl
current_at u r (inr t) e = rw (t, e) refl

pub remember-connected :
    (env : Env) (t : ConnectionType) (r : Request) (u : Session)
    → IsConnected t
    → remember env t r u ≡ u
remember-connected env t r u (inl e) = rw e refl
remember-connected env t r u (inr e) = rw e refl

module _ (env : Env) (s : Session) (r : Request) where
  pub prepare-prepared :
      IsConnected s.type
      → env.post_recv s.moment ≡ pos 0
      → prepare_for_next_request env s.type s ≡ done (pos 0) (prepared s)
  unfolding prepare_for_next_request
  prepare-prepared (inl t) post = rw (t, post) refl
  prepare-prepared (inr t) post = rw (t, post) refl

  pub receive_header-received :
      IsConnected s.type
      → InStep s.own
      → env.arrival (suc s.moment) ≡ message r
      → receive_header env (prepared s) ≡ done (pos 1) (received r s)
  unfolding receive_header
  receive_header-received (inl t) st arrived = rw (t, arrived, st.order) refl
  receive_header-received (inr t) st arrived = rw (t, arrived, st.order) refl

  pub current-received :
      IsConnected s.type → InStep s.own → get_current_request (received r s) ≡ done r (received r s)
  current-received c st =
      let inside : s.own.request_count < length s.own.slots = omega (arith, st.inside, st.width) in
      current_at (received r s) r c (get_elem?-set_self s.own.slots s.own.request_count r inside)

pub advance-InStep :
    (b : Buffers) (r : Request) → InStep b → InStep (advance request_backlog (received_buffers r b))
advance-InStep b r st = record {
  width = length-set b.slots b.request_count r ∙ st.width;
  inside = omega arith;
  order = turned b.request_count st.inside;
}
  where
    turned :
        (c : ℕ)
        → c < 5
        → (c + 1) % 5 ∷ (c + 2) % 5 ∷ (c + 3) % 5 ∷ (c + 4) % 5 ∷ c ∷ [] ≡ window ((c + 1) % 5)
    turned c h =
        let e2 : ((c + 1) % 5 + 1) % 5 ≡ (c + 2) % 5 = omega arith in
        let e3 : ((c + 1) % 5 + 2) % 5 ≡ (c + 3) % 5 = omega arith in
        let e4 : ((c + 1) % 5 + 3) % 5 ≡ (c + 4) % 5 = omega arith in
        let e5 : ((c + 1) % 5 + 4) % 5 ≡ c = omega arith in rw (e2, e3, e4, e5) refl
