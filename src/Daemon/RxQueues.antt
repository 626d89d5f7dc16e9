-- ===== src/Daemon/RxQueues.antt =====
-- The reception buffer of cpp/src/nsb_daemon.cc: POST and RECEIVE against the queues of
-- `Daemon.Queues`.
use nsb_beta.Base.{
  ◌≡◌, refl, sym, subst, ◌≢◌, Bool, true, false, some, List, [], ◌∷◌, arith, Bytes, ℤ,
}
use nsb_beta.Daemon.Answers.{Answers, entry_response-Answers}
use nsb_beta.Wire.{
  Nsbm, Metadata, Operation, Codec, pull, get_code, message, no_message, set_manifest, daemon,
}
use nsb_beta.Config.{MessageEntry, exists}
use nsb_beta.Daemon.State.{Daemon}
use nsb_beta.Outcome.{ok}
use nsb_beta.Daemon.Handled.{handled}
use nsb_beta.Daemon.Buffers.{for_destination, entry_response, receive_from, handle_receive}
use nsb_beta.Daemon.Forward.{handle_post}
use nsb_beta.Daemon.Queues.{
  rx_queue, take_first_found, take_first_missing, keep-take_first_other, sources_apart,
}

-- In PULL mode a POST with another code changes nothing and is not answered.
pub handle_post_no_message :
    (codec : Codec) (w : ℤ → Bool) (d : Daemon) (m out : Nsbm)
    → d.cfg.system_mode ≡ pull
    → get_code m ≢ message
    → handle_post codec w d m out ≡ ok (handled d out false)
unfolding handle_post
handle_post_no_message codec w d m out h k = rw (h, handle_post) (ground arith)

-- What a RECEIVE that names a destination does, with the response not read.
pub receive_oldest :
    (d : Daemon) (m out : Nsbm) (md : Metadata) (s : Bytes) (e : MessageEntry)
    (rest : List MessageEntry) (t : Bytes)
    → m.metadata ≡ some md
    → md.dest_id ≡ some s
    → rx_queue s d ≡ e ∷ rest
    → t ≢ s
    → let h = handle_receive d m out in
      (h.outgoing ≡ entry_response Operation.receive d.cfg e out)
      × (h.response_required ≡ true)
      × (rx_queue s h.daemon ≡ rest)
      × (rx_queue t h.daemon ≡ rx_queue t d)
      × (h.daemon.tx_buffer ≡ d.tx_buffer)
unfolding handle_receive
receive_oldest d m out md s e rest t hm hs hq ne =
    let (found, left) = take_first_found (for_destination s) d.rx_buffer e rest hq in
    rw (hm, handle_receive)
      (rw (hs, receive_from)
        (
          rw found,
          refl,
          left,
          keep-take_first_other (for_destination s) (for_destination t)
              (λ x. sources_apart s t ne x.destination) d.rx_buffer,
          refl,
        ))

-- A RECEIVE that names a destination whose queue is not empty takes the oldest entry out of it, and
-- changes no other destination's queue nor the transmission buffer. The response is a RECEIVE of the
-- daemon. If the entry has a source, a destination and a payload (or, where a database is used, a
-- key), the response carries these and the size, with the code MESSAGE; if one of the three is
-- empty, its code is NO_MESSAGE and the entry is gone.
pub receive_serves_oldest :
    (d : Daemon) (m out : Nsbm) (md : Metadata) (s : Bytes) (e : MessageEntry)
    (rest : List MessageEntry) (t : Bytes)
    → m.metadata ≡ some md
    → md.dest_id ≡ some s
    → rx_queue s d ≡ e ∷ rest
    → t ≢ s
    → let h = handle_receive d m out in
      Answers Operation.receive d.cfg e h.outgoing
      × (h.response_required ≡ true)
      × (rx_queue s h.daemon ≡ rest)
      × (rx_queue t h.daemon ≡ rx_queue t d)
      × (h.daemon.tx_buffer ≡ d.tx_buffer)
receive_serves_oldest d m out md s e rest t hm hs hq ne =
    let (answer, required, left, others, buffer) =
      receive_oldest d m out md s e rest t hm hs hq ne in
    (
      subst (Answers Operation.receive d.cfg e) (sym answer)
          (entry_response-Answers Operation.receive d.cfg e out),
      required,
      left,
      others,
      buffer,
    )

-- A RECEIVE that names a destination with an empty queue is answered by NO_MESSAGE and changes
-- nothing.
pub receive_finds_nothing :
    (d : Daemon) (m out : Nsbm) (md : Metadata) (s : Bytes)
    → m.metadata ≡ some md
    → md.dest_id ≡ some s
    → rx_queue s d ≡ []
    → handle_receive d m out ≡ handled d (set_manifest Operation.receive daemon no_message out) true
unfolding handle_receive exists
receive_finds_nothing d m out md s hm hs hq =
    rw (hm, handle_receive)
      (rw (hs, receive_from) (rw (take_first_missing (for_destination s) d.rx_buffer hq)))
