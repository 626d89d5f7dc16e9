-- ===== src/Daemon/Recv.antt =====
-- The loops that read a socket until nothing is left, of `NSBDaemon::start_server` in
-- cpp/src/nsb_daemon.cc and of `SocketInterface::receiveMessage` in cpp/src/nsb.cc: the same code,
-- with buffers of the same size. The kernel decides what each `recv` returns: its results are a
-- list, where no bytes stand for a result that is 0 or negative.
use nsb_beta.Base.{
  ℕ, zero, suc, ◌<◌, ◌≡◌, refl, Bool, true, false, not, List, [], ◌∷◌, ◌++◌, arith, length,
  is_empty, take, drop, take-append-drop, length-drop-le, Bytes,
}

-- `MAX_BUFFER_SIZE - 1` and `RECEIVE_BUFFER_SIZE - 1`.
abbrev pub recv_size : ℕ
recv_size = 4095

-- Whether a message exists, and its bytes. The calls end at the first result that is not positive.
unfoldable pub read_all : List Bytes → Bool × Bytes
read_all [] = (false, [])
read_all ([] ∷ calls) = (false, [])
read_all ((b ∷ bs) ∷ calls) = (true, (b ∷ bs) ++ (read_all calls).1)

-- What the kernel gives to successive calls with `size` bytes of room, from the bytes that wait in
-- a stream: a full buffer while there is that much, then the rest, then nothing.
unfoldable pub recv_calls : ℕ → ℕ → Bytes → List Bytes
recv_calls zero size waiting = []
recv_calls (suc fuel) size [] = [] ∷ []
recv_calls (suc fuel) size (b ∷ bs) = take size (b ∷ bs) ∷ recv_calls fuel size (drop size (b ∷ bs))

-- However many bytes wait, and whatever room each call of `recv` has, if it is not none, the loop
-- reads them all, in order, and reports a message exactly if there are any, when it may make one
-- call more than there are bytes.
pub read_all-recv_calls :
    (fuel size : ℕ) (waiting : Bytes)
    → length waiting < fuel
    → 0 < size
    → read_all (recv_calls fuel size waiting) ≡ (not (is_empty waiting), waiting)
unfolding read_all recv_calls
read_all-recv_calls zero size waiting h k = elim h [ ]
read_all-recv_calls (suc fuel) size [] h k = refl
read_all-recv_calls (suc fuel) zero (b ∷ bs) h k = elim k [ ]
read_all-recv_calls (suc fuel) (suc n) (b ∷ bs) h k =
    rw (read_all-recv_calls fuel (suc n) (drop n bs) (omega (arith, length-drop-le n bs)) k)
      (rw (take-append-drop n bs))
