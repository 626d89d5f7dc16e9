-- ===== src/System/PushDelivery.antt =====
-- The way of a message in PUSH mode, without a database (cpp/src/nsb_client.cc,
-- cpp/src/nsb_daemon.cc): the daemon forwards what it gets, and the other client reads it.
use nsb_beta.Base.{
  ℕ, ◌≡◌, refl, Bool, true, false, Option, some, [], ◌∷◌, arith, length, Bytes, ℤ, to_int32, find,
}
use nsb_beta.Wire.{
  response_template, Codec, IsLawful, serialize_nonempty, Originator, push, per_node, set_manifest,
  set_metadata, Operation, message, payload, blank, Nsbm,
}
use nsb_beta.Outcome.{ok}
use nsb_beta.Daemon.State.{Daemon, ClientDetails}
use nsb_beta.Daemon.Handled.{valid_fd}
use nsb_beta.Daemon.Dispatch.{dispatch, handle_message}
use nsb_beta.Daemon.Faults.{send_forwards, post_forwards}
use nsb_beta.Client.Redis.{Redis}
use nsb_beta.Client.Base.{Client, send}
use nsb_beta.Client.App.{app_send, app_receive}
use nsb_beta.Client.Sim.{sim_fetch, sim_post}
use nsb_beta.System.Steps.{entry}

-- A message that goes to the daemon, and the one that it passes on.
abbrev carrying : Operation → Originator → Bytes → Bytes → Bytes → Nsbm
carrying op g src dest p =
    record (set_metadata src dest (to_int32 (length p)) (set_manifest op g message blank)) {
      content = payload p;
    }

module _ (r : Redis) (codec : Codec) (l : IsLawful codec) (writable : ℤ → Bool) where
  -- In PUSH mode with per-node simulators and no database, what an application sends is forwarded
  -- by the daemon to the RECV channel of the simulator that is registered under its name, if that
  -- channel can be written, and the simulator's client that reads it fetches the message with its
  -- source, its destination, its payload and its size. The daemon does not change.
  pub push_send_delivers :
      (now : ℕ) (fd timeout : ℤ) (src : Option Bytes) (dest p : Bytes) (g : Originator)
      (c1 c2 : Client) (sim : ClientDetails) (d : Daemon) (db : r.State)
      → c1.origin ≡ some g
      → c1.cfg.use_db ≡ false
      → c2.cfg.use_db ≡ false
      → c2.cfg.system_mode ≡ push
      → d.cfg.system_mode ≡ push
      → d.cfg.simulator_mode ≡ per_node
      → find c1.client_id d.sim_client_lookup ≡ some sim
      → valid_fd sim.ch_recv_fd ≡ true
      → writable sim.ch_recv_fd ≡ true
      → (request : Bytes) × (forwarded : Bytes) × (app_send r codec now dest p c1 db
          ≡ ok ([], (send, request), c1, db))
        × (handle_message codec writable d fd request
            ≡ ok (d, record { fd = sim.ch_recv_fd; bytes = forwarded } ∷ []))
        × (sim_fetch r codec (λ asked time. forwarded) src timeout c2 db
            ≡ ok (entry c1.client_id dest p p, db))
  unfolding app_send handle_message sim_fetch dispatch
  push_send_delivers now fd timeout src dest p g c1 c2 sim d db h1 h2 h3 h4 h5 h6 h7 h8 h9 =
      let m : Nsbm = carrying Operation.send g c1.client_id dest p in
      let n : Nsbm = carrying Operation.forward g c1.client_id dest p in
      (
        codec.serialize m,
        codec.serialize n,
        ground arith,
        rw (l.parse-serialize m)
            (rw (send_forwards codec writable d m response_template sim h5 h6 h7 h8 h9)),
        ground (arith, l.parse-serialize n, serialize_nonempty codec n _ l refl),
      )

  -- In PUSH mode and without a database, what a simulator posts is forwarded by the daemon to the
  -- RECV channel of the application that is registered under the destination, if that channel can
  -- be written, and the client that reads it receives the message with its source, its destination,
  -- its payload and its size. The daemon does not change.
  pub push_post_delivers :
      (now : ℕ) (fd timeout : ℤ) (at : Option Bytes) (src dest p : Bytes) (g : Originator)
      (c1 c2 : Client) (app : ClientDetails) (d : Daemon) (db : r.State)
      → c1.origin ≡ some g
      → c1.cfg.use_db ≡ false
      → c2.cfg.use_db ≡ false
      → c2.cfg.system_mode ≡ push
      → d.cfg.system_mode ≡ push
      → find dest d.app_client_lookup ≡ some app
      → valid_fd app.ch_recv_fd ≡ true
      → writable app.ch_recv_fd ≡ true
      → (request : Bytes) × (forwarded : Bytes) × (sim_post r codec now src dest p c1 db
          ≡ ok ([], (send, request), c1, db))
        × (handle_message codec writable d fd request
            ≡ ok (d, record { fd = app.ch_recv_fd; bytes = forwarded } ∷ []))
        × (app_receive r codec (λ asked time. forwarded) at timeout c2 db
            ≡ ok (entry src dest p p, db))
  unfolding sim_post handle_message app_receive dispatch
  push_post_delivers now fd timeout at src dest p g c1 c2 app d db h1 h2 h3 h4 h5 h7 h8 h9 =
      let m : Nsbm = carrying Operation.post g src dest p in
      let n : Nsbm = carrying Operation.forward g src dest p in
      (
        codec.serialize m,
        codec.serialize n,
        ground arith,
        rw (l.parse-serialize m)
            (rw (post_forwards codec writable d m response_template app h5 h7 h8 h9)),
        ground (arith, l.parse-serialize n, serialize_nonempty codec n _ l refl),
      )
