-- ===== src/Tokio/Server/Late.antt =====
-- Connections that a listener of src/tokio_tcp.rs accepts after its server has been closed.
use tokioloop.Base.{
  ℕ, zero, suc, ◌+◌, ◌≤◌, true, false, Option, none, some, List, [], ◌∷◌, ◌++◌, length,
  length-append, ◌≡◌, refl, ap, ◌∙◌, arith,
}
use tokioloop.Tokio.Transport.{
  TokioTcpTransport, TransportOp, writes, writes_lines, write, writelines, write_eof, pause_reading,
  resume_reading, close, abort, apply, apply_all,
}
use tokioloop.Tokio.Io.{Io, Protocol, attach}
use tokioloop.Tokio.Server.{
  Point, checking, accepting, stopped, TokioTcpServer, Accepted, accept_error, accepted,
  create_transport_from_stream, io_of, add_transport, take_accepted, start_listening, close_all,
  close_server, check_closed, point_at, put, Move, checks, accepts, starts, shuts, works, work,
  move, move_all,
}

-- The first transports, `n` of them, are closing.
abbrev pub AreClosing : ℕ → List Io → Type 0
AreClosing zero ios = Unit {0}
AreClosing (suc n) [] = Unit {0}
AreClosing (suc n) (io ∷ ios) = (io.transport.closing ≡ true) × AreClosing n ios

-- How many of a listener's tasks are in `accept`.
abbrev pub waiting : List Point → ℕ
waiting [] = 0
waiting (accepting ∷ ps) = 1 + waiting ps
waiting (_ ∷ ps) = waiting ps

writelines-closing :
    (items : List (Option (List ℕ))) (t : TokioTcpTransport)
    → (writelines items t).1.closing ≡ t.closing
unfolding writelines write
writelines-closing [] t = refl
writelines-closing (none ∷ items) t = ground (arith, writelines-closing items t)
writelines-closing (some chunk ∷ items) t =
    ground (arith, writelines-closing items (record t { write_buf = t.write_buf ++ (chunk ∷ []) }))

-- No operation opens a transport that is closing.
apply-closing :
    (op : TransportOp) (t : TokioTcpTransport) → t.closing ≡ true → (apply op t).closing ≡ true
unfolding apply write write_eof pause_reading resume_reading close abort
apply-closing (writes none) t h = ground arith
apply-closing (writes (some chunk)) t h = ground arith
apply-closing (writes_lines items) t h = writelines-closing items t ∙ h
apply-closing _ t h = ground arith

apply_all-closing :
    (ops : List TransportOp) (t : TokioTcpTransport)
    → t.closing ≡ true
    → (apply_all ops t).closing ≡ true
unfolding apply_all
apply_all-closing [] t h = h
apply_all-closing (op ∷ ops) t h = apply_all-closing ops (apply op t) (apply-closing op t h)

work-AreClosing :
    (n k : ℕ) (ops : List TransportOp) (ios : List Io)
    → AreClosing n ios
    → AreClosing n (put k (work ops) ios)
unfolding put
work-AreClosing zero k ops ios h = tt
work-AreClosing (suc n) k ops [] h = tt
work-AreClosing (suc n) zero ops (io ∷ ios) h = (apply_all-closing ops io.transport h.0, h.1)
work-AreClosing (suc n) (suc k) ops (io ∷ ios) h = (h.0, work-AreClosing n k ops ios h.1)

-- Another transport at the end leaves the first as they are.
append-AreClosing :
    (n : ℕ) (ios new : List Io) → n ≤ length ios → AreClosing n ios → AreClosing n (ios ++ new)
append-AreClosing zero ios new h c = tt
append-AreClosing (suc n) [] new h c = ground arith
append-AreClosing (suc n) (io ∷ ios) new h c = (c.0, append-AreClosing n ios new (omega arith) c.1)

close_all-AreClosing : (ios : List Io) → AreClosing (length ios) (close_all ios)
unfolding close_all close
close_all-AreClosing [] = tt
close_all-AreClosing (io ∷ ios) = (ground arith, close_all-AreClosing ios)

length-close_all : (ios : List Io) → length (close_all ios) ≡ length ios
unfolding close_all
length-close_all [] = refl
length-close_all (io ∷ ios) = ap suc (length-close_all ios)

length-put {ℓ} : {A : Type ℓ} (n : ℕ) (f : A → A) (xs : List A) → length (put n f xs) ≡ length xs
unfolding put
length-put n f [] = refl
length-put zero f (x ∷ xs) = refl
length-put (suc n) f (x ∷ xs) = ap suc (length-put n f xs)

-- A closed server's listener does not get to `accept` again.
waiting-check : (n : ℕ) (ps : List Point) → waiting (put n (check_closed true) ps) ≤ waiting ps
unfolding put check_closed
waiting-check n [] = omega arith
waiting-check zero (checking ∷ ps) = omega arith
waiting-check zero (accepting ∷ ps) = omega arith
waiting-check zero (stopped ∷ ps) = omega arith
waiting-check (suc n) (checking ∷ ps) = waiting-check n ps
waiting-check (suc n) (accepting ∷ ps) = omega (arith, waiting-check n ps)
waiting-check (suc n) (stopped ∷ ps) = waiting-check n ps

waiting-accepted :
    (n : ℕ) (ps : List Point)
    → point_at n ps ≡ accepting
    → 1 + waiting (put n (λ p. checking) ps) ≡ waiting ps
unfolding put point_at
waiting-accepted n [] h = cc
waiting-accepted zero (accepting ∷ ps) h = refl
waiting-accepted zero (checking ∷ ps) h = cc
waiting-accepted zero (stopped ∷ ps) h = cc
waiting-accepted (suc n) (checking ∷ ps) h = waiting-accepted n ps h
waiting-accepted (suc n) (accepting ∷ ps) h = omega (arith, waiting-accepted n ps h)
waiting-accepted (suc n) (stopped ∷ ps) h = waiting-accepted n ps h

waiting-append : (ps : List Point) → waiting (ps ++ (checking ∷ [])) ≡ waiting ps
waiting-append [] = refl
waiting-append (checking ∷ ps) = waiting-append ps
waiting-append (accepting ∷ ps) = omega (arith, waiting-append ps)
waiting-append (stopped ∷ ps) = waiting-append ps

-- One transport more at most, at the end.
record Grows (n : ℕ) (ios ios' : List Io) : Type 0 where
  kept : AreClosing n ios'
  longer : length ios ≤ length ios'
  by_one : length ios' ≤ length ios + 1

Grows-refl : (n : ℕ) (ios : List Io) → AreClosing n ios → Grows n ios ios
Grows-refl n ios c = record { kept = c; longer = omega arith; by_one = omega arith }

add_transport-Grows :
    (n : ℕ) (protocol : Protocol) (t : Option TokioTcpTransport) (ios : List Io)
    → n ≤ length ios
    → AreClosing n ios
    → Grows n ios (add_transport protocol t ios)
unfolding add_transport
add_transport-Grows n protocol none ios h c = Grows-refl n ios c
add_transport-Grows n protocol (some t) ios h c = record {
  kept = append-AreClosing n ios (attach protocol (io_of t) ∷ []) h c;
  longer = rw length-append (omega arith);
  by_one = rw length-append (omega arith);
}

take_accepted-Grows :
    (n : ℕ) (protocol : Protocol) (a : Accepted) (ios : List Io)
    → n ≤ length ios
    → AreClosing n ios
    → Grows n ios (take_accepted protocol a ios)
unfolding take_accepted
take_accepted-Grows n protocol accept_error ios h c = Grows-refl n ios c
take_accepted-Grows n protocol (accepted fd local_addr peer_addr made socket_made) ios h c =
    add_transport-Grows n protocol
      (create_transport_from_stream fd local_addr peer_addr made socket_made) ios h c

-- The server is closed, and so are its first `n` transports; with the tasks that are in `accept` there are
-- at most `n + w` of them.
pub record Late (n w : ℕ) (s : TokioTcpServer) : Type 0 where
  pub shut : s.closed ≡ true
  pub first : AreClosing n s.transports
  pub enough : n ≤ length s.transports
  pub few : length s.transports + waiting s.tasks ≤ n + w

accepts-Late :
    (n w k : ℕ) (protocol : Protocol) (a : Accepted) (s : TokioTcpServer)
    → Late n w s
    → (p : Point) → point_at k s.tasks ≡ p
    → Late n w (move protocol (accepts k a) s)
unfolding move
accepts-Late n w k protocol a s l accepting e =
    let g = take_accepted-Grows n protocol a s.transports l.enough l.first in
    rw (e, move)
      (record {
        shut = l.shut;
        first = g.kept;
        enough = omega (arith, g.longer, l.enough);
        few = omega (arith, g.by_one, l.few, waiting-accepted k s.tasks e);
      })
accepts-Late n w k protocol a s l checking e = rw (e, move) l
accepts-Late n w k protocol a s l stopped e = rw (e, move) l

move-Late :
    (n w : ℕ) (protocol : Protocol) (m : Move) (s : TokioTcpServer)
    → Late n w s
    → Late n w (move protocol m s)
unfolding move start_listening close_server
move-Late n w protocol (checks k) s l = record {
  shut = l.shut;
  first = l.first;
  enough = l.enough;
  few = rw l.shut (omega (arith, l.few, waiting-check k s.tasks));
}
move-Late n w protocol (accepts k a) s l =
    accepts-Late n w k protocol a s l (point_at k s.tasks) refl
move-Late n w protocol starts s l = record {
  shut = l.shut;
  first = l.first;
  enough = l.enough;
  few = rw waiting-append l.few;
}
move-Late n w protocol shuts s l = simp l.shut l
move-Late n w protocol (works k ops) s l = record {
  shut = l.shut;
  first = work-AreClosing n k ops s.transports l.first;
  enough = rw length-put l.enough;
  few = rw length-put l.few;
}

move_all-Late :
    (n w : ℕ) (protocol : Protocol) (ms : List Move) (s : TokioTcpServer)
    → Late n w s
    → Late n w (move_all protocol ms s)
unfolding move_all
move_all-Late n w protocol [] s l = l
move_all-Late n w protocol (m ∷ ms) s l =
    move_all-Late n w protocol ms (move protocol m s) (move-Late n w protocol m s l)

-- After `close` of a server that is not closed, whatever happens then: the server stays closed, the transports
-- that it had are closing, and it gets at most one more for each task of its listener that was in
-- `accept`.
pub close_server-Late :
    (protocol : Protocol) (ms : List Move) (s : TokioTcpServer)
    → s.closed ≡ false
    → Late (length s.transports) (waiting s.tasks) (move_all protocol ms (close_server s))
unfolding close_server
close_server-Late protocol ms s open_ =
    move_all-Late (length s.transports) (waiting s.tasks) protocol ms (close_server s) (
      rw open_ (record {
        shut = refl;
        first = close_all-AreClosing s.transports;
        enough = rw length-close_all (omega arith);
        few = rw length-close_all (omega arith);
      }))
