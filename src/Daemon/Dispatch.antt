-- ===== src/Daemon/Dispatch.antt =====
-- cpp/src/nsb_daemon.cc: `handle_message`.
use nsb_beta.Base.{Bool, false, List, [], ◌∷◌, ◌++◌, if◌then◌else◌, Bytes, ℤ}
use nsb_beta.Wire.{
  Operation, Nsbm, Codec, response_template, daemon, failure, ping, get_op, set_manifest,
}
use nsb_beta.Daemon.State.{Daemon, stop}
use nsb_beta.Outcome.{Outcome, ok, ◌>>=◌}
use nsb_beta.Daemon.Handled.{Sent, Handled, handled}
use nsb_beta.Daemon.Init.{handle_init, handle_ping}
use nsb_beta.Daemon.Buffers.{handle_fetch, handle_receive}
use nsb_beta.Daemon.Forward.{handle_send, handle_post}

module _ (codec : Codec) (writable : ℤ → Bool) where
  -- The `switch`. The response has an empty manifest at first, and only a handler asks for it to be
  -- sent.
  unfoldable pub dispatch : Operation → Daemon → Nsbm → Outcome Handled
  unfolding handle_init handle_ping handle_send handle_fetch handle_post handle_receive stop
  dispatch Operation.init d m = ok (handle_init d m response_template)
  dispatch Operation.ping d m = ok (handle_ping d m response_template)
  dispatch Operation.send d m = handle_send codec writable d m response_template
  dispatch Operation.fetch d m = ok (handle_fetch d m response_template)
  dispatch Operation.post d m = handle_post codec writable d m response_template
  dispatch Operation.receive d m = ok (handle_receive d m response_template)
  dispatch Operation.exit d m = ok (handled (stop d) response_template false)
  dispatch Operation.forward d m =
      ok (handled d (set_manifest ping daemon failure response_template) false)
  dispatch (Operation.other_operation n) d m =
      ok (handled d (set_manifest ping daemon failure response_template) false)

  -- The daemon after a message on `fd`, and every `send` that it makes, in order.
  unfoldable pub handle_message : Daemon → ℤ → Bytes → Outcome (Daemon × List Sent)
  handle_message d fd bytes = do
    h ← dispatch (get_op (codec.parse bytes)) d (codec.parse bytes)
    ok (
      h.daemon,
      h.sent
          ++ (if h.response_required
              then record { fd = fd; bytes = codec.serialize h.outgoing } ∷ []
              else []),
    )
