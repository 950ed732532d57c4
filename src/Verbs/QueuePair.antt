-- ===== src/Verbs/QueuePair.antt =====
-- The state transitions of a queue pair: src/rdma_common.c.
use rdma_kv_store.Base.{
  ℕ, ◌≡◌, refl, inl, inr, true, false, ◌⊎◌, List, [], ◌∷◌, ℤ, pos, truthy, Bool-cases,
}
use rdma_kv_store.Verbs.{
  init, rtr, rts, QpAttr, zero_attr, mask_state, mask_pkey_index, mask_port, mask_qkey,
  mask_access_flags, mask_av, mask_path_mtu, mask_dest_qpn, mask_rq_psn, mask_sq_psn, PeerAttr,
  Call, modify_qp, Os, Flow, next, Prog, ◌>>=◌, ◌>>◌, pure, check, invoke, ask, function,
}
use rdma_kv_store.Verbs.Buffers.{ib_phys_port, ud_qkey}

-- IBV_MTU_4096
abbrev pub mtu_4096 : ℕ
mtu_4096 = 5

abbrev pub init_attr : QpAttr
init_attr = record (zero_attr init) { port_num = ib_phys_port }

abbrev pub ud_init : ℕ → Call
ud_init qp =
    modify_qp qp (record init_attr { qkey = ud_qkey })
      (mask_state ∷ mask_pkey_index ∷ mask_port ∷ mask_qkey ∷ [])

abbrev pub uc_init : ℕ → Call
uc_init qp =
    modify_qp qp init_attr (mask_state ∷ mask_pkey_index ∷ mask_port ∷ mask_access_flags ∷ [])

abbrev pub ud_rtr : ℕ → Call
ud_rtr qp = modify_qp qp (zero_attr rtr) (mask_state ∷ [])

abbrev pub ud_rts : ℕ → ℕ → Call
ud_rts qp psn =
    modify_qp qp (record (zero_attr rts) { sq_psn = psn }) (mask_state ∷ mask_sq_psn ∷ [])

abbrev pub connect_rtr : ℕ → PeerAttr → Call
connect_rtr qp remote =
    modify_qp qp
      (record (zero_attr rtr) {
        path_mtu = mtu_4096;
        dest_qp_num = remote.qpn;
        rq_psn = remote.psn;
        dlid = remote.lid;
        av_port_num = ib_phys_port;
      })
      (mask_state ∷ mask_av ∷ mask_path_mtu ∷ mask_dest_qpn ∷ mask_rq_psn ∷ [])

abbrev pub connect_rts : ℕ → PeerAttr → Call
connect_rts qp local =
    modify_qp qp (record (zero_attr rts) { sq_psn = local.psn }) (mask_state ∷ mask_sq_psn ∷ [])

module _ {S R : Type 0} where
  -- Where the function ends without a `return`, the result is what the caller happens to find.
  unfoldable pub ud_set_init_qp : ℕ → Prog S R ℤ
  ud_set_init_qp qp =
      function do ret ← invoke (ud_init qp); check (truthy ret) ret; ask λ os log. os.leftover log

  unfoldable pub ud_set_rts_qp : ℕ → ℕ → Prog S R ℤ
  ud_set_rts_qp qp psn = function do
    ret ← invoke (ud_rtr qp)
    check (truthy ret) ret
    ret' ← invoke (ud_rts qp psn)
    check (truthy ret') ret'
    pure (pos 0)

  unfoldable pub uc_set_init_qp : ℕ → Prog S R ℤ
  uc_set_init_qp qp = function do ret ← invoke (uc_init qp); check (truthy ret) ret; pure ret

  -- Like `ud_set_init_qp`, without a `return` at the end.
  unfoldable pub connect_qp : ℕ → PeerAttr → PeerAttr → Prog S R ℤ
  connect_qp qp local remote = function do
    ret ← invoke (connect_rtr qp remote)
    check (truthy ret) ret
    ret' ← invoke (connect_rts qp local)
    check (truthy ret') ret'
    ask λ os log. os.leftover log

-- The calls that take a queue pair to RTR and then to RTS: the second is made only where the first
-- succeeded, and the result is an error exactly where the last call made has one.
abbrev pub Transition : {S R : Type 0} → Os → List Call → S → Call → Call → ℤ → Flow S R ℤ → Type 0
Transition os log s to_rtr to_rts end flow =
    ((truthy (os.int log to_rtr) ≡ true) × (flow ≡ next (os.int log to_rtr) (to_rtr ∷ log) s))
    ⊎ ((truthy (os.int log to_rtr) ≡ false)
        × (truthy (os.int (to_rtr ∷ log) to_rts) ≡ true)
        × (flow ≡ next (os.int (to_rtr ∷ log) to_rts) (to_rts ∷ to_rtr ∷ log) s))
    ⊎ ((truthy (os.int log to_rtr) ≡ false)
        × (truthy (os.int (to_rtr ∷ log) to_rts) ≡ false)
        × (flow ≡ next end (to_rts ∷ to_rtr ∷ log) s))

module _ {S R : Type 0} (os : Os) (log : List Call) (s : S) (qp : ℕ) where
  -- ud_set_rts_qp takes the queue pair to RTR and only then to RTS, and returns 0 where both calls
  -- succeed, else the first error.
  pub ud_set_rts_qp-Transition :
      (psn : ℕ)
      → Transition os log s
          (ud_rtr qp)
          (ud_rts qp psn)
          (pos 0)
          (ud_set_rts_qp {S = S} {R = R} qp psn os log s)
  unfolding ud_set_rts_qp
  ud_set_rts_qp-Transition psn = elim (Bool-cases (truthy (os.int log (ud_rtr qp)))) [
    | inl e ↦ inl (e, rw e refl)
    | inr e ↦ elim (Bool-cases (truthy (os.int (ud_rtr qp ∷ log) (ud_rts qp psn)))) [
      | inl e' ↦ inr (inl (e, e', rw (e, e') refl))
      | inr e' ↦ inr (inr (e, e', rw (e, e') refl))
    ]
  ]
