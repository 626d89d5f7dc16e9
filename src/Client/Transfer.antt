-- ===== src/Client/Transfer.antt =====
-- What `SocketInterface` of cpp/src/nsb.cc sends.
use Prim.Native.Nat.add
use native.Mathlib.Nat.{add-zero}
use nsb_beta.Base.{
  ℕ, zero, suc, ◌+◌, ◌^◌, ◌≤◌, ◌<◌, ◌≡◌, refl, sym, Bool, true, false, some, List, [], ◌∷◌, ◌++◌,
  arith, length, take, drop, take-append-drop, Bytes, pos, negsuc, to_int32_small,
  to_int32_negative,
}
use nsb_beta.Client.Socket.{SendResult, wrote, again, failed, send_loop, send_message}

drop_all : (n : ℕ) (m : Bytes) → length m ≤ n → drop n m ≡ []
drop_all zero [] h = refl
drop_all zero (x ∷ m) h = elim h [ ]
drop_all (suc n) [] h = refl
drop_all (suc n) (x ∷ m) h = drop_all n m (omega arith)

drop-drop : (n k : ℕ) (m : Bytes) → drop k (drop n m) ≡ drop (n + k) m
drop-drop zero k m = rw (add.zero k)
drop-drop (suc n) zero [] = rw add-zero
drop-drop (suc n) (suc k) [] = rw (add.suc n (suc k))
drop-drop (suc n) k (x ∷ m) = rw (add.suc n k) (drop-drop n k m)

-- One call moves a part of what is left.
take-append-drop_at :
    (n total : ℕ) (m : Bytes) → take n (drop total m) ++ drop (total + n) m ≡ drop total m
take-append-drop_at n total m = rw (← drop-drop total n m) (take-append-drop n (drop total m))

send_loop_delivers :
    (calls : List SendResult) (m : Bytes) (total : ℕ)
    → (send_loop calls m (pos (length m)) total).status ≡ some (pos 0)
    → (send_loop calls m (pos (length m)) total).delivered ≡ drop total m
unfolding send_loop
send_loop_delivers [] m total h = sym (drop_all total m (ground arith))
send_loop_delivers (again ∷ calls) m total h =
    ground (arith, drop_all total m, send_loop_delivers calls m total)
send_loop_delivers (failed ∷ calls) m total h = ground (arith, drop_all total m)
send_loop_delivers (wrote n ∷ calls) m total h =
    ground (
      arith,
      drop_all total m,
      send_loop_delivers calls m (total + n),
      take-append-drop_at n total m,
    )

-- When `sendMessage` returns 0 for a message whose size fits an `int`, the peer has been given the
-- whole message, in order, whatever the calls of `send` took and however often they had to wait.
pub send_message_delivers :
    (calls : List SendResult) (m : Bytes)
    → length m < 2 ^ 31
    → (send_message calls m).status ≡ some (pos 0)
    → (send_message calls m).delivered ≡ m
unfolding send_message
send_message_delivers calls m fits h =
    rw (to_int32_small (length m) fits)
      (send_loop_delivers calls m 0 (rw (to_int32_small (length m) fits) at h))

-- The bytes that the calls take, if all are tried, and whether one of them fails.
unfoldable pub taken : List SendResult → ℕ
taken [] = 0
taken (wrote n ∷ calls) = n + taken calls
taken (again ∷ calls) = taken calls
taken (failed ∷ calls) = taken calls

unfoldable pub none_fails : List SendResult → Bool
none_fails [] = true
none_fails (wrote n ∷ calls) = none_fails calls
none_fails (again ∷ calls) = none_fails calls
none_fails (failed ∷ calls) = false

send_loop_finishes :
    (calls : List SendResult) (size total : ℕ) (m : Bytes)
    → none_fails calls ≡ true
    → size ≤ total + taken calls
    → (send_loop calls m (pos size) total).status ≡ some (pos 0)
unfolding send_loop taken none_fails
send_loop_finishes [] size total m h k = ground arith
send_loop_finishes (again ∷ calls) size total m h k =
    ground (arith, send_loop_finishes calls size total m)
send_loop_finishes (failed ∷ calls) size total m h k = cc
send_loop_finishes (wrote n ∷ calls) size total m h k =
    ground (arith, send_loop_finishes calls size (total + n) m)

-- For a message whose size fits an `int`, `sendMessage` returns 0, and has delivered the whole
-- message, if the calls of `send` together take as many bytes as it has and none of them fails.
pub send_message_finishes :
    (calls : List SendResult) (m : Bytes)
    → length m < 2 ^ 31
    → none_fails calls ≡ true
    → length m ≤ taken calls
    → send_message calls m ≡ record { delivered = m; status = some (pos 0) }
unfolding send_message
send_message_finishes calls m fits h k =
    let sent = send_loop_finishes calls (length m) 0 m h (omega arith) in
    rw (to_int32_small (length m) fits)
      (λ i. record { delivered = send_loop_delivers calls m 0 sent i; status = sent i })

negative_size :
    (calls : List SendResult) (m : Bytes) (n : ℕ)
    → send_loop calls m (negsuc n) 0 ≡ record { delivered = []; status = some (pos 0) }
unfolding send_loop
negative_size [] m n = refl
negative_size (c ∷ calls) m n = refl

-- A message of 2 GiB or more, up to 4 GiB, is reported as sent although no byte was: its size is
-- negative as an `int`.
pub send_message_oversized :
    (calls : List SendResult) (m : Bytes)
    → 2 ^ 31 ≤ length m
    → length m < 2 ^ 32
    → send_message calls m ≡ record { delivered = []; status = some (pos 0) }
unfolding send_message
send_message_oversized calls m h k = rw (to_int32_negative (length m) h k) (negative_size calls m _)
