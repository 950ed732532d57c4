-- ===== src/Verbs/Connected.antt =====
-- What `connect_qp` of src/rdma_common.c makes of a queue pair.
use rdma_kv_store.Base.{
  ℕ, ◌≡◌, refl, ◌⊎◌, inl, inr, true, List, [], ◌∷◌, ◌==◌, arith, if◌then◌else◌, ℤ, truthy,
  Bool-cases,
}
use rdma_kv_store.Verbs.{
  rtr, rts, QpAttr, AttrMask, mask_state, mask_pkey_index, mask_port, mask_qkey, mask_access_flags,
  mask_av, mask_path_mtu, mask_dest_qpn, mask_rq_psn, mask_sq_psn, PeerAttr, Call, modify_qp, Os,
  next,
}
use rdma_kv_store.Verbs.QueuePair.{connect_rtr, connect_rts, connect_qp}

-- `ibv_modify_qp` takes over the fields that the mask names.
abbrev pub take_field : AttrMask → QpAttr → QpAttr → QpAttr
take_field mask_state new old = record old { qp_state = new.qp_state }
take_field mask_port new old = record old { port_num = new.port_num }
take_field mask_qkey new old = record old { qkey = new.qkey }
take_field mask_av new old = record old { dlid = new.dlid; av_port_num = new.av_port_num }
take_field mask_path_mtu new old = record old { path_mtu = new.path_mtu }
take_field mask_dest_qpn new old = record old { dest_qp_num = new.dest_qp_num }
take_field mask_rq_psn new old = record old { rq_psn = new.rq_psn }
take_field mask_sq_psn new old = record old { sq_psn = new.sq_psn }
take_field mask_pkey_index new old = old
take_field mask_access_flags new old = old

abbrev pub take_fields : List AttrMask → QpAttr → QpAttr → QpAttr
take_fields [] new old = old
take_fields (m ∷ ms) new old = take_fields ms new (take_field m new old)

-- The attributes of a queue pair after the calls of a log, of which those that return an error change
-- nothing.
unfoldable pub qp_after : Os → ℕ → QpAttr → List Call → QpAttr
qp_after os qp start [] = start
qp_after os qp start (modify_qp q attr masks ∷ log) =
    let before = qp_after os qp start log in
    if q == qp
    then (if truthy (os.int log (modify_qp q attr masks))
        then before
        else take_fields masks attr before)
    else before
qp_after os qp start (_ ∷ log) = qp_after os qp start log

-- Ready to receive from the other side: its number, its address, and where its packets begin.
abbrev pub receiving : PeerAttr → QpAttr → QpAttr
receiving remote old = record old {
  qp_state = rtr;
  path_mtu = 5;
  dest_qp_num = remote.qpn;
  rq_psn = remote.psn;
  dlid = remote.lid;
  av_port_num = 1;
}

-- Ready to send as well, from the own first packet on.
abbrev pub sending : PeerAttr → PeerAttr → QpAttr → QpAttr
sending local remote old = record (receiving remote old) { qp_state = rts; sq_psn = local.psn }

-- connect_qp returns, and leaves the queue pair ready to send: in RTS, with the other side's queue
-- pair number, lid and packet number to receive from, and its own packet number to send from. Or
-- it returns an error, and leaves the queue pair as it was, or in RTR with the same attributes of
-- the other side. A call of ibv_modify_qp that returns 0 takes over the fields that its mask
-- names, and one that returns an error changes nothing.
pub connect_qp-Connected :
    {S R : Type 0} (os : Os) (log : List Call) (s : S) (qp : ℕ) (local remote : PeerAttr)
    (start : QpAttr)
    → (r : ℤ) × (log' : List Call) × (connect_qp {S = S} {R = R} qp local remote os log s
        ≡ next r log' s)
      × ((qp_after os qp start log' ≡ sending local remote (qp_after os qp start log))
          ⊎ ((truthy r ≡ true)
              × ((qp_after os qp start log' ≡ qp_after os qp start log)
                  ⊎ (qp_after os qp start log' ≡ receiving remote (qp_after os qp start log)))))
unfolding connect_qp qp_after
connect_qp-Connected os log s qp local remote start =
    let to_rtr = connect_rtr qp remote in
    let to_rts = connect_rts qp local in
    let same : (qp == qp) ≡ true = ground arith in
    elim (Bool-cases (truthy (os.int log to_rtr))) [
      | inl e ↦ (os.int log to_rtr, to_rtr ∷ log, rw e refl, inr (e, inl (rw (same, e) refl)))
      | inr e ↦ elim (Bool-cases (truthy (os.int (to_rtr ∷ log) to_rts))) [
        | inl e' ↦ (
          os.int (to_rtr ∷ log) to_rts,
          to_rts ∷ to_rtr ∷ log,
          rw (e, e') refl,
          inr (e', inr (rw (same, e, e') refl)),
        )
        | inr e' ↦ (
          os.leftover (to_rts ∷ to_rtr ∷ log),
          to_rts ∷ to_rtr ∷ log,
          rw (e, e') refl,
          inl (rw (same, e, e') refl),
        )
      ]
    ]
