-- ===== src/Tcp/ReadHandle/Input.antt =====
-- What `read_into` of src/tcp.rs reads.
use tokioloop.Base.{
  ℕ, ◌≤◌, ◌+◌, ◌-◌, ltb, Bool, false, true, ◌&&◌, some, List, [], ◌∷◌, ◌++◌, length, take,
  length-append, take-length_le, ◌≡◌, refl, ap, arith,
}
use tokioloop.EventLoop.Signals.{ReadResult, read_bytes, read_interrupted, read_failed}
use tokioloop.EventLoop.Signals.Delivery.{GoesOn, AllGoOn, bytes_of}
use tokioloop.Tcp.ReadHandle.{read_into}

abbrev pub is_end : ReadResult → Bool
is_end (read_bytes []) = true
is_end _ = false

-- `read_into` reads on through interrupts until the socket has no more, fails or has ended, if the buffer
-- has room for all of it, and gives all the bytes read until then, in order. It tells that the peer has
-- closed only where a read is empty with room left. The answers after that are left.
pub read_into_reads_all :
    (front : List ReadResult) (stop : ReadResult) (rest : List ReadResult) (room : ℕ)
    → AllGoOn front
    → ¬ GoesOn stop
    → length (bytes_of front) ≤ room
    → read_into (front ++ (stop ∷ rest)) room
      ≡ some (bytes_of front, is_end stop && ltb (length (bytes_of front)) room, rest)
unfolding read_into
read_into_reads_all [] (read_bytes []) rest room g s fits =
    ground (arith, take-length_le {A = ℕ} room [] fits)
read_into_reads_all [] (read_bytes (b ∷ bs)) rest room g s fits = absurd (s tt)
read_into_reads_all [] read_interrupted rest room g s fits = absurd (s tt)
read_into_reads_all [] read_failed rest room g s fits = refl
read_into_reads_all (read_bytes [] ∷ front) stop rest room g s fits = absurd g.0
read_into_reads_all (read_bytes (b ∷ bs) ∷ front) stop rest room g s fits =
    let chunk = b ∷ bs in
    let n = length chunk in
    let size : length (chunk ++ bytes_of front) ≡ n + length (bytes_of front) =
      length-append chunk (bytes_of front) in
    let fits' : length (bytes_of front) ≤ room - n = omega (arith, size, fits) in
    let all : take room chunk ≡ chunk = take-length_le room chunk (omega (arith, size, fits)) in
    let same : ltb (length (bytes_of front)) (room - n)
        ≡ ltb (length (chunk ++ bytes_of front)) room =
      ground (arith, size, fits) in
    rw all (
      rw (read_into_reads_all front stop rest (room - n) g.1 s fits')
        (ap (λ (c : Bool). some (chunk ++ bytes_of front, is_end stop && c, rest)) same))
read_into_reads_all (read_interrupted ∷ front) stop rest room g s fits =
    read_into_reads_all front stop rest room g.1 s fits
read_into_reads_all (read_failed ∷ front) stop rest room g s fits = absurd g.0
