-- ===== src/Python/Socket.antt =====
-- python/nsb_client.py: `SocketInterface`. The operating system's answers are lists, one entry for
-- each pass of a loop; a loop that has used its list up is still running.
use nsb_beta.Base.{
  ℕ, zero, suc, ◌<◌, ◌≡◌, refl, sym, ap, ◌∙◌, Bool, true, false, not, Option, none, some, List, [],
  ◌∷◌, ◌++◌, arith, ltb, if◌then◌else◌, length, is_empty, take, drop, length-append,
  take-append-drop, Bytes, ℤ,
}
use nsb_beta.Client.Socket.{same_channel, Conns, no_conns, channels, Action, shuts, closes}
use mathlib.Core.List.{append_assoc, append-nil}
use nsb_beta.Client.Base.{Channel}
use nsb_beta.Python.Raises.{Result, returns, raises, timeout_error, os_error, runtime_error}

-- The passes of the loop that connects a channel, before the target time: `none` is an error, after
-- which the loop waits a second; and whether the clock is at the target time after the loop.
pub record Tries : Type 0 where
  pub attempts : List (Option ℤ)
  pub late : Bool

-- `self.conns[channel] = conn`
abbrev assign : Channel → ℤ → Conns → Conns
assign ch fd conns ch' = if same_channel ch ch' then some fd else conns ch'

unfoldable pub first_connection : List (Option ℤ) → Option ℤ
first_connection [] = none
first_connection (none ∷ tries) = first_connection tries
first_connection (some fd ∷ tries) = some fd

-- `_connect`: it raises when the time is up, also if the channel was connected in time.
unfoldable pub connect_each : (Channel → Tries) → List Channel → Conns → Result Conns
unfolding first_connection
connect_each tries [] conns = returns conns
connect_each tries (ch ∷ chs) conns =
    let conns' : Conns = elim (first_connection (tries ch).attempts) [
      | none ↦ conns
      | some fd ↦ assign ch fd conns
    ] in
    let rest = connect_each tries chs conns' in
    if (tries ch).late then raises timeout_error else rest

unfoldable pub connect : (Channel → Tries) → Result Conns
unfolding connect_each
connect tries = connect_each tries channels no_conns

-- `_close` of the connections, in the order in which they were made: where `shutdown` raises, the
-- rest stays open.
unfoldable pub close_each : (ℤ → Bool) → List Channel → Conns → Result (Unit {0}) × List Action
close_each shut_ok [] conns = (returns tt, [])
close_each shut_ok (ch ∷ chs) conns =
    let (result, acts) = close_each shut_ok chs conns in
    elim (conns ch) [
      | none ↦ (result, acts)
      | some fd ↦
          if shut_ok fd
          then (result, shuts fd ∷ closes fd ∷ acts)
          else (raises os_error, shuts fd ∷ [])
    ]

unfoldable pub close : (ℤ → Bool) → Conns → Result (Unit {0}) × List Action
unfolding close_each
close shut_ok conns = close_each shut_ok channels conns

-- A call of `send` on a socket that does not block: how many bytes it took, or its exception, as
-- when there is no room.
pub data SendCall : Type 0 where
  took : ℕ → SendCall
  blocked : SendCall

-- What the peer is given, and the result of `_send_msg`, unless it is still running.
pub record Outgoing : Type 0 where
  pub given : Bytes
  pub result : Option (Result (Unit {0}))

-- The loop `while len(message)`
unfoldable pub send_rest : List SendCall → Bytes → Outgoing
send_rest calls [] = record { given = []; result = some (returns tt) }
send_rest [] (b ∷ bs) = record { given = []; result = none }
send_rest (blocked ∷ calls) (b ∷ bs) = record { given = []; result = some (raises os_error) }
send_rest (took zero ∷ calls) (b ∷ bs) = record { given = []; result = some (raises runtime_error) }
send_rest (took (suc n) ∷ calls) (b ∷ bs) =
    let rest = send_rest calls (drop n bs) in record rest { given = b ∷ (take n bs ++ rest.given) }

-- `_send_msg`, once `select` finds the socket writable.
unfoldable pub send_msg : List SendCall → Bytes → Outgoing
unfolding send_rest
send_msg calls message = send_rest calls message

-- A pass of the loop of `_recv_msg`: an exception, or a chunk and whether `select` finds more.
pub data Chunk : Type 0 where
  failed : Chunk
  chunk : Bytes → Bool → Chunk

abbrev pub buffer_size : ℕ
buffer_size = 4096

abbrev or_none : Bytes → Option Bytes
or_none [] = none
or_none (b ∷ bs) = some (b ∷ bs)

-- The loop, with the data so far; the first `none` is a loop that still runs.
unfoldable pub recv_loop : Bytes → List Chunk → Option (Option Bytes)
recv_loop sofar [] = none
recv_loop sofar (failed ∷ chunks) = some none
recv_loop sofar (chunk bytes more ∷ chunks) =
    let rest = recv_loop (sofar ++ bytes) chunks in
    if ltb (length bytes) buffer_size
    then some (or_none (sofar ++ bytes))
    else if more
    then rest
    else some (or_none (sofar ++ bytes))

-- `_recv_msg`: `ready` is the verdict of the first `select`.
unfoldable pub recv_msg : Bool → List Chunk → Option (Option Bytes)
unfolding recv_loop
recv_msg false chunks = some none
recv_msg true chunks = recv_loop [] chunks

-- `_listen_msg`: the same loop, without a `select` before it.
unfoldable pub listen_msg : List Chunk → Option (Option Bytes)
unfolding recv_loop
listen_msg chunks = recv_loop [] chunks

-- What the kernel gives from the bytes that wait: a full buffer while there is that much, and then
-- the rest.
unfoldable pub chunks_of : ℕ → Bytes → List Chunk
chunks_of zero waiting = []
chunks_of (suc fuel) waiting =
    let rest = drop buffer_size waiting in
    chunk (take buffer_size waiting) (not (is_empty rest)) ∷ chunks_of fuel rest

length-take-full :
    (n : ℕ) (xs : Bytes) (c : ℕ) (cs : Bytes) → drop n xs ≡ c ∷ cs → length (take n xs) ≡ n
length-take-full zero xs c cs h = refl
length-take-full (suc n) [] c cs h = cc
length-take-full (suc n) (x ∷ xs) c cs h = omega (arith, length-take-full n xs c cs h)

-- A pass that leaves nothing, and one that leaves something.
last_pass :
    (sofar bytes : Bytes) (chunks : List Chunk)
    → recv_loop sofar (chunk bytes false ∷ chunks) ≡ some (or_none (sofar ++ bytes))
unfolding recv_loop
last_pass sofar bytes chunks = ground arith

full_pass :
    (sofar bytes : Bytes) (chunks : List Chunk)
    → length bytes ≡ buffer_size
    → recv_loop sofar (chunk bytes true ∷ chunks) ≡ recv_loop (sofar ++ bytes) chunks
unfolding recv_loop
full_pass sofar bytes chunks h = ground arith

recv_loop-chunks_of :
    (fuel : ℕ) (sofar waiting : Bytes)
    → length waiting < fuel
    → recv_loop sofar (chunks_of fuel waiting) ≡ some (or_none (sofar ++ waiting))
unfolding chunks_of
recv_loop-chunks_of zero sofar waiting h = elim h [ ]
recv_loop-chunks_of (suc fuel) sofar waiting h =
    by_rest (recv_loop-chunks_of fuel) (drop buffer_size waiting) refl
  where
    whole : take buffer_size waiting ++ drop buffer_size waiting ≡ waiting
    whole = take-append-drop buffer_size waiting

    by_rest :
        ((sofar' waiting' : Bytes)
          → length waiting' < fuel
          → recv_loop sofar' (chunks_of fuel waiting') ≡ some (or_none (sofar' ++ waiting')))
        → (rest : Bytes) → drop buffer_size waiting ≡ rest
        → recv_loop sofar
            (chunk (take buffer_size waiting) (not (is_empty rest)) ∷ chunks_of fuel rest)
          ≡ some (or_none (sofar ++ waiting))
    by_rest ih [] e =
        last_pass sofar (take buffer_size waiting) (chunks_of fuel [])
        ∙ ap (λ s. some (or_none (sofar ++ s)))
            (sym (append-nil (take buffer_size waiting))
              ∙ ap (λ s. take buffer_size waiting ++ s) (sym e)
              ∙ whole)
    by_rest ih (c ∷ cs) e =
        let full = length-take-full buffer_size waiting c cs e in
        let fewer : length (c ∷ cs) < fuel = omega (
          arith,
          h,
          full,
          length-append (take buffer_size waiting) (drop buffer_size waiting),
          ap length whole,
          ap length e,
        ) in
        full_pass sofar (take buffer_size waiting) (chunks_of fuel (c ∷ cs)) full
        ∙ ih (sofar ++ take buffer_size waiting) (c ∷ cs) fewer
        ∙ ap (λ s. some (or_none s))
            (append_assoc sofar (take buffer_size waiting) (c ∷ cs)
              ∙ ap (λ s. sofar ++ (take buffer_size waiting ++ s)) (sym e)
              ∙ ap (λ s. sofar ++ s) whole)

-- When the socket is ready, `_recv_msg` ends and returns every byte that waits, in order, and
-- `None` if none waits, whether or not they end with a full buffer, if it may make more calls than
-- bytes wait.
pub recv_msg-chunks_of :
    (fuel : ℕ) (waiting : Bytes)
    → length waiting < fuel
    → recv_msg true (chunks_of fuel waiting) ≡ some (or_none waiting)
unfolding recv_msg
recv_msg-chunks_of fuel waiting h = recv_loop-chunks_of fuel [] waiting h
