-- ===== src/Tokio/Transport/Agree.antt =====
-- The flags of `TokioTCPTransport` of src/tokio_tcp.rs and their copies behind the lock.
use tokioloop.Base.{ℕ, Option, none, some, List, [], ◌∷◌, ◌≡◌, refl, arith}
use tokioloop.Tokio.Transport.{
  TokioTcpTransport, write, writelines, write_eof, pause_reading, resume_reading, close, abort,
  TransportOp, writes, writes_lines, apply, apply_all, fresh_transport,
}

-- Each flag agrees with its copy.
pub record IsAgreed (t : TokioTcpTransport) : Type 0 where
  pub closings : t.state_closing ≡ t.closing
  pub weofs : t.state_weof ≡ t.weof
  pub pausings : t.state_paused ≡ t.paused

write-IsAgreed :
    (item : Option (List ℕ)) (t : TokioTcpTransport) → IsAgreed t → IsAgreed (write item t).1
unfolding write
write-IsAgreed none t a = ground arith
write-IsAgreed (some chunk) t a = ground arith

writelines-IsAgreed :
    (items : List (Option (List ℕ))) (t : TokioTcpTransport)
    → IsAgreed t
    → IsAgreed (writelines items t).1
unfolding writelines
writelines-IsAgreed [] t a = a
writelines-IsAgreed (item ∷ items) t a =
    let first = write-IsAgreed item t a in
    ground (arith, writelines-IsAgreed items (write item t).1 first)

apply-IsAgreed : (op : TransportOp) (t : TokioTcpTransport) → IsAgreed t → IsAgreed (apply op t)
unfolding apply write_eof pause_reading resume_reading close abort
apply-IsAgreed (writes bytes) t a = write-IsAgreed bytes t a
apply-IsAgreed (writes_lines items) t a = writelines-IsAgreed items t a
apply-IsAgreed _ t a = ground arith

operations-IsAgreed :
    (ops : List TransportOp) (t : TokioTcpTransport) → IsAgreed t → IsAgreed (apply_all ops t)
unfolding apply_all
operations-IsAgreed [] t a = a
operations-IsAgreed (op ∷ ops) t a = operations-IsAgreed ops (apply op t) (apply-IsAgreed op t a)

fresh_transport-IsAgreed :
    (fd : ℕ) (local_addr peer_addr : Option ℕ) (protocol : ℕ)
    → IsAgreed (fresh_transport fd local_addr peer_addr protocol)
unfolding fresh_transport
fresh_transport-IsAgreed fd local_addr peer_addr protocol = record {
  closings = refl;
  weofs = refl;
  pausings = refl;
}

-- A new transport's flags agree with their copies behind the lock, and so they do after any operations
-- on it; and any operations keep the agreement of a transport's flags with their copies.
pub apply_all-IsAgreed :
    (ops : List TransportOp) (t : TokioTcpTransport) (fd : ℕ) (local_addr peer_addr : Option ℕ)
    (protocol : ℕ)
    → IsAgreed (fresh_transport fd local_addr peer_addr protocol)
      × IsAgreed (apply_all ops (fresh_transport fd local_addr peer_addr protocol))
      × (IsAgreed t → IsAgreed (apply_all ops t))
apply_all-IsAgreed ops t fd local_addr peer_addr protocol =
    let new = fresh_transport-IsAgreed fd local_addr peer_addr protocol in
    (new, operations-IsAgreed ops _ new, operations-IsAgreed ops t)
