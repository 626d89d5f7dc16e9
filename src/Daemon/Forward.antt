-- ===== src/Daemon/Forward.antt =====
-- cpp/src/nsb_daemon.cc: `handle_send` and `handle_post`.
-- `writable` is the verdict of `select` on a descriptor at that time.
use nsb_beta.Base.{
  Bool, false, Option, none, some, List, [], ◌∷◌, ◌++◌, if◌then◌else◌, ℤ, minus_one, is_minus_one,
  find, begin,
}
use nsb_beta.Wire.{
  Operation, Nsbm, Codec, SystemMode, SimulatorMode, is_message, pull, push, other_system_mode,
  system_wide, per_node, other_simulator_mode, get_code, get_src_id, get_dest_id, set_op,
}
use nsb_beta.Daemon.State.{Daemon, ClientDetails}
use nsb_beta.Outcome.{Outcome, ok, fault, begin_of_empty, out_of_range, bad_fd_set, ◌>>=◌}
use nsb_beta.Daemon.Handled.{Sent, Handled, handled, valid_fd}
use nsb_beta.Daemon.Buffers.{entry_of_message}

-- The simulator that a SEND goes to; none in a mode that is not known.
unfoldable pub send_target : SimulatorMode → Daemon → Nsbm → Outcome (Option ClientDetails)
send_target system_wide d m = elim (begin d.sim_client_lookup) [
  | none ↦ fault begin_of_empty
  | some c ↦ ok (some c)
]
send_target per_node d m = elim (find (get_src_id m) d.sim_client_lookup) [
  | none ↦ fault out_of_range
  | some c ↦ ok (some c)
]
send_target (other_simulator_mode n) d m = ok none

-- The descriptor of the destination's RECV channel, or -1.
unfoldable pub post_target : Daemon → Nsbm → ℤ
post_target d m = elim (find (get_dest_id m) d.app_client_lookup) [
  | none ↦ minus_one
  | some c ↦ c.ch_recv_fd
]

module _ (codec : Codec) (writable : ℤ → Bool) where
  -- `FD_SET`, `select` for writing and `send`.
  unfoldable pub forward_to : ℤ → Nsbm → Outcome (List Sent)
  forward_to fd m =
      if valid_fd fd
      then ok (if writable fd then record { fd = fd; bytes = codec.serialize m } ∷ [] else [])
      else fault bad_fd_set

  unfoldable pub send_to : Daemon → Nsbm → Option ClientDetails → Outcome Handled
  unfolding forward_to
  send_to d out none = ok (handled d out false)
  send_to d out (some c) = do
    sent ← forward_to c.ch_recv_fd out
    ok (record { daemon = d; outgoing = out; response_required = false; sent = sent })

  unfoldable pub send_in : SystemMode → Daemon → Nsbm → Nsbm → Outcome Handled
  unfolding send_target send_to entry_of_message
  send_in pull d m out =
      ok (handled (record d { tx_buffer = d.tx_buffer ++ entry_of_message d.cfg m ∷ [] }) out false)
  send_in push d m out = do
    target ← send_target d.cfg.simulator_mode d m
    send_to d (set_op Operation.forward m) target
  send_in (other_system_mode n) d m out = ok (handled d out false)

  unfoldable pub handle_send : Daemon → Nsbm → Nsbm → Outcome Handled
  unfolding send_in
  handle_send d m out = send_in d.cfg.system_mode d m out

  unfoldable pub post_to : Daemon → Nsbm → ℤ → Outcome Handled
  unfolding forward_to
  post_to d out fd =
      if is_minus_one fd
      then ok (handled d out false)
      else (forward_to fd out >>= λ sent.
          ok (record { daemon = d; outgoing = out; response_required = false; sent = sent }))

  unfoldable pub post_in : SystemMode → Daemon → Nsbm → Nsbm → Outcome Handled
  unfolding post_target post_to entry_of_message
  post_in pull d m out = ok (
      handled
        (if is_message (get_code m)
          then record d { rx_buffer = d.rx_buffer ++ entry_of_message d.cfg m ∷ [] }
          else d)
        out false)
  post_in push d m out = post_to d (set_op Operation.forward m) (post_target d m)
  post_in (other_system_mode n) d m out = ok (handled d out false)

  unfoldable pub handle_post : Daemon → Nsbm → Nsbm → Outcome Handled
  unfolding post_in
  handle_post d m out = post_in d.cfg.system_mode d m out
