-- ===== src/System/ServedAsks.antt =====
-- A client that fetches or receives over the server's loop does what it does with the handlers
-- alone (cpp/src/nsb_client.cc, cpp/src/nsb_daemon.cc).
use nsb_beta.System.{receive_via, fetch_via, World, first_bytes, answer, reply}
use nsb_beta.Client.Base.{Channel, recv, Client, Sent}
use nsb_beta.Base.{
  ◌≡◌, refl, sym, ap, ◌∙◌, Bool, false, Option, none, some, List, [], ◌∷◌, is_empty, keep, Bytes, ℤ,
  pos, int_eq,
}
use nsb_beta.Client.App.{app_receive, receive_request}
use nsb_beta.Client.Sim.{sim_fetch, fetch_request}
use nsb_beta.System.Served.{
  Running, world_of, back_with, ask_served, fetch_bytes, receive_bytes, fetch_served,
  receive_served,
}
use nsb_beta.Wire.{
  SimulatorMode, system_wide, per_node, other_simulator_mode, Codec, IsLawful, serialize_nonempty,
  pull, Originator,
}
use nsb_beta.Config.{MessageEntry}
use nsb_beta.Outcome.{Outcome, ok, fault, ◌>>=◌}
use nsb_beta.Daemon.State.{Daemon}
use nsb_beta.Daemon.Dispatch.{handle_message}
use nsb_beta.Daemon.OneRequest.{serve_one_lem, kept}
use nsb_beta.Client.Redis.{Redis}
use nsb_beta.Daemon.Handled

module _ (r : Redis) (codec : Codec) (writable : ℤ → Bool) (fd : ℤ) where
  abbrev got : MessageEntry → Running r.State → Outcome (MessageEntry × Running r.State)
  got e t = ok (e, t)

  -- What the functions of `System` are, with the handlers not computed.
  asked_world :
      Bytes
      → ((Option Sent → ℤ → Bytes) → Outcome (MessageEntry × r.State))
      → Daemon
      → Outcome (MessageEntry × World r.State)
  asked_world request read d = do
    (d', sent) ← handle_message codec writable d fd request
    (e, db) ← read (answer r codec writable fd d)
    ok (e, record { daemon = d'; db = db })

  fetch_via_lem :
      (g : Originator) (src : Option Bytes) (c : Client) (w : World r.State)
      → fetch_via r codec writable fd g src c w
        ≡ asked_world
            (fetch_bytes r codec writable fd g src c)
            (λ f. sim_fetch r codec f src (pos 30) c w.db)
            w.daemon
  unfolding fetch_via asked_world
  fetch_via_lem g src c w = refl

  receive_via_lem :
      (g : Originator) (dest : Option Bytes) (c : Client) (w : World r.State)
      → receive_via r codec writable fd g dest c w
        ≡ asked_world
            (receive_bytes r codec writable fd g dest c)
            (λ f. app_receive r codec f dest (pos 30) c w.db)
            w.daemon
  unfolding receive_via asked_world
  receive_via_lem g dest c w = refl

  -- A client that reads what comes back after this request, and nothing else.
  abbrev Asks : Bytes → ((Option Sent → ℤ → Bytes) → Outcome (MessageEntry × r.State)) → Type 0
  Asks request read =
      (f : Option Sent → ℤ → Bytes)
      → read f ≡ read (λ asked timeout. f (some (recv, request)) (pos 30))

  fetch-Asks :
      (g : Originator) (src : Option Bytes) (c : Client) (db : r.State)
      → c.origin ≡ some g
      → c.cfg.system_mode ≡ pull
      → Asks (fetch_bytes r codec writable fd g src c) (λ f. sim_fetch r codec f src (pos 30) c db)
  unfolding sim_fetch
  fetch-Asks g src c db o h f = rw (h, o)

  receive-Asks :
      (g : Originator) (dest : Option Bytes) (c : Client) (db : r.State)
      → c.origin ≡ some g
      → c.cfg.system_mode ≡ pull
      → Asks
          (receive_bytes r codec writable fd g dest c)
          (λ f. app_receive r codec f dest (pos 30) c db)
  unfolding app_receive
  receive-Asks g dest c db o h f = rw (h, o)

  answered :
      (d : Daemon) (channel : Channel) (bytes : Bytes) (timeout : ℤ) (d' : Daemon)
      (sent : List Handled.Sent)
      → handle_message codec writable d fd bytes ≡ ok (d', sent)
      → answer r codec writable fd d (some (channel, bytes)) timeout ≡ first_bytes sent
  unfolding answer reply
  answered d channel bytes timeout d' sent h = ap (reply r codec writable fd) h

  regrouped :
      (t : Running r.State) (d : Daemon) (n : Outcome (MessageEntry × r.State))
      → (n >>= λ (e, db). got e (record { server = record (t.server) { daemon = d }; db = db }))
        ≡ back_with t (n >>= λ (e, db). ok (e, record { daemon = d; db = db }))
  regrouped t d (ok (e, db)) = refl
  regrouped t d (fault e) = refl

  asked :
      (request : Bytes) (read : (Option Sent → ℤ → Bytes) → Outcome (MessageEntry × r.State))
      (t : Running r.State)
      → keep (int_eq fd) t.server.channel_fds ≡ fd ∷ []
      → is_empty request ≡ false
      → Asks request read
      → ask_served r codec writable fd request read t.server
        ≡ back_with t (asked_world request read t.server.daemon)
  unfolding ask_served asked_world
  asked request read t once full asks =
      ap
        (λ m. m >>= λ (s, sent). read (λ asked timeout. first_bytes sent) >>= λ (e, db).
          got e (record { server = s; db = db }))
        (serve_one_lem codec writable fd request full t.server once)
      ∙ at_handled (handle_message codec writable t.server.daemon fd request) refl
    where
      at_handled :
          (m : Outcome (Daemon × List Handled.Sent))
          → handle_message codec writable t.server.daemon fd request ≡ m
          → (kept t.server t.server.channel_fds m >>= λ (s, sent).
              read (λ asked timeout. first_bytes sent) >>= λ (e, db).
              got e (record { server = s; db = db }))
            ≡ back_with t (
                m >>= λ (d, sent). read (answer r codec writable fd t.server.daemon) >>= λ (e, db).
                ok (e, record { daemon = d; db = db }))
      at_handled (fault e) same = refl
      at_handled (ok (d, sent)) same =
          regrouped t d (read (λ asked timeout. first_bytes sent))
          ∙ ap (λ n. back_with t (n >>= λ (e, db). ok (e, record { daemon = d; db = db })))
              (ap (λ b. read (λ asked timeout. b))
                  (sym (answered t.server.daemon recv request (pos 30) d sent same))
                ∙ sym (asks (answer r codec writable fd t.server.daemon)))

  module _ (l : IsLawful codec) where
    fetch_full :
        (g : Originator) (src : Option Bytes) (c : Client)
        → is_empty (fetch_bytes r codec writable fd g src c) ≡ false
    unfolding fetch_request
    fetch_full g src c = by_mode c.cfg.simulator_mode src
      where
        by_mode :
            (mode : SimulatorMode) (src : Option Bytes)
            → is_empty (codec.serialize (fetch_request g mode src c.client_id)) ≡ false
        by_mode system_wide none = serialize_nonempty codec _ _ l refl
        by_mode system_wide (some s) = serialize_nonempty codec _ _ l refl
        by_mode per_node s = serialize_nonempty codec _ _ l refl
        by_mode (other_simulator_mode n) s = serialize_nonempty codec _ _ l refl

    pub fetched :
        (g : Originator) (src : Option Bytes) (c : Client) (t : Running r.State)
        → keep (int_eq fd) t.server.channel_fds ≡ fd ∷ []
        → c.origin ≡ some g
        → c.cfg.system_mode ≡ pull
        → fetch_served r codec writable fd g src c t
          ≡ back_with t (fetch_via r codec writable fd g src c (world_of t))
    unfolding fetch_served ask_served
    fetched g src c t once o h =
        asked (fetch_bytes r codec writable fd g src c)
          (λ f. sim_fetch r codec f src (pos 30) c t.db) t once (fetch_full g src c)
          (fetch-Asks g src c t.db o h)
        ∙ ap (back_with t) (sym (fetch_via_lem g src c (world_of t)))

    receive_full :
        (g : Originator) (dest : Option Bytes) (c : Client)
        → is_empty (receive_bytes r codec writable fd g dest c) ≡ false
    unfolding receive_request
    receive_full g dest c = serialize_nonempty codec _ _ l refl

    pub received :
        (g : Originator) (dest : Option Bytes) (c : Client) (t : Running r.State)
        → keep (int_eq fd) t.server.channel_fds ≡ fd ∷ []
        → c.origin ≡ some g
        → c.cfg.system_mode ≡ pull
        → receive_served r codec writable fd g dest c t
          ≡ back_with t (receive_via r codec writable fd g dest c (world_of t))
    unfolding receive_served ask_served
    received g dest c t once o h =
        asked (receive_bytes r codec writable fd g dest c)
          (λ f. app_receive r codec f dest (pos 30) c t.db) t once (receive_full g dest c)
          (receive-Asks g dest c t.db o h)
        ∙ ap (back_with t) (sym (receive_via_lem g dest c (world_of t)))
