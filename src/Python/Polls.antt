-- ===== src/Python/Polls.antt =====
-- A poll of a client of python/nsb_client.py is one of a client of cpp/src/nsb_client.cc, if it is
-- answered by an entry: without a database.
use nsb_beta.Base.{◌≡◌, refl, sym, ap, subst, ◌∙◌, Bool, true, false, none, some, ℤ}
use nsb_beta.Wire.{per_node, pull, Operation, Nsbm, Originator, get_op}
use nsb_beta.System.{fetch_via, World, answer, reply, receive_via}
use nsb_beta.Python.Client.{py_fetch, fetch_request, py_receive, receive_request, is_anything}
use nsb_beta.Python.Mixed.{py_fetch_via, py_receive_via}
use nsb_beta.Python.Responses.{is_polling, Sized, polling, step_same}
use nsb_beta.Outcome.{Returns}
use nsb_beta.Daemon.State.{Daemon}
use nsb_beta.Daemon.Dispatch.{dispatch, handle_message}
use nsb_beta.Client.Redis.{Redis}
use nsb_beta.Client.Base.{Client}
use nsb_beta.Python.Base.{Protobuf, IsLawfulPb}
use nsb_beta.Client.Sim as Sim
use nsb_beta.Client.App as App
use nsb_beta.Client.App as App

module _ (r : Redis) (pb : Protobuf) (l : IsLawfulPb pb) (writable : ℤ → Bool) (fd : ℤ) where
  -- What the daemon answers to a request was written by protobuf.
  receive_decodes :
      (d : Daemon) (m : Nsbm)
      → get_op m ≡ Operation.receive
      → pb.decodes (
          reply r pb.codec writable fd
            (handle_message pb.codec writable d fd (pb.codec.serialize m)))
        ≡ true
  unfolding handle_message dispatch reply
  receive_decodes d m e = rw (l.lawful.parse-serialize m) (rw e (l.decodes-serialize _))

  fetch_decodes :
      (d : Daemon) (m : Nsbm)
      → get_op m ≡ Operation.fetch
      → pb.decodes (
          reply r pb.codec writable fd
            (handle_message pb.codec writable d fd (pb.codec.serialize m)))
        ≡ true
  unfolding handle_message dispatch reply
  fetch_decodes d m e = rw (l.lawful.parse-serialize m) (rw e (l.decodes-serialize _))

  receive_step :
      (c : Client) (g : Originator) (w : World r.State)
      → Returns (λ t. Sized t.0) (receive_via r pb.codec writable fd g none (polling c g) w)
      → py_receive_via r pb writable fd g none (polling c g) w
        ≡ receive_via r pb.codec writable fd g none (polling c g) w
  unfolding receive_via py_receive_via py_receive App.app_receive receive_request
      App.receive_request answer reply
  receive_step c g w h =
      step_same r pb App.is_receivable is_anything (λ op e. refl) writable fd c g w.db
        (handle_message pb.codec writable w.daemon fd
          (pb.codec.serialize (receive_request g c.client_id none)))
        (λ some_bytes. receive_decodes w.daemon (receive_request g c.client_id none) refl) h

  -- A client of a simulator with one client for each node.
  abbrev at_node : Client → Client
  at_node c = record c { cfg = record (c.cfg) { simulator_mode = per_node } }

  fetch_step :
      (c : Client) (g : Originator) (w : World r.State)
      → Returns (λ t. Sized t.0) (fetch_via r pb.codec writable fd g none (polling (at_node c) g) w)
      → py_fetch_via r pb writable fd g none (polling (at_node c) g) w
        ≡ fetch_via r pb.codec writable fd g none (polling (at_node c) g) w
  unfolding fetch_via py_fetch_via py_fetch Sim.sim_fetch fetch_request Sim.fetch_request answer
  fetch_step c g w h =
      step_same r pb Sim.is_fetchable Sim.is_fetchable (λ op e. e) writable fd (at_node c) g w.db
        (handle_message pb.codec writable w.daemon fd
          (pb.codec.serialize (fetch_request g per_node c.client_id none)))
        (λ some_bytes. fetch_decodes w.daemon (fetch_request g per_node c.client_id none) refl) h

  pub py_receive_via_same :
      (c : Client) (g : Originator) (w : World r.State)
      → c.origin ≡ some g
      → c.cfg.use_db ≡ false
      → c.cfg.system_mode ≡ pull
      → Returns (λ t. Sized t.0) (receive_via r pb.codec writable fd g none c w)
      → py_receive_via r pb writable fd g none c w ≡ receive_via r pb.codec writable fd g none c w
  py_receive_via_same c g w h1 h2 h3 =
      subst
        (λ (x : Client).
          Returns (λ t. Sized t.0) (receive_via r pb.codec writable fd g none x w)
          → py_receive_via r pb writable fd g none x w
            ≡ receive_via r pb.codec writable fd g none x w)
        (is_polling c g h1 h2 h3) (receive_step c g w)

  pub py_fetch_via_same :
      (c : Client) (g : Originator) (w : World r.State)
      → c.origin ≡ some g
      → c.cfg.use_db ≡ false
      → c.cfg.system_mode ≡ pull
      → c.cfg.simulator_mode ≡ per_node
      → Returns (λ t. Sized t.0) (fetch_via r pb.codec writable fd g none c w)
      → py_fetch_via r pb writable fd g none c w ≡ fetch_via r pb.codec writable fd g none c w
  py_fetch_via_same c g w h1 h2 h3 h4 =
      subst
        (λ (x : Client).
          Returns (λ t. Sized t.0) (fetch_via r pb.codec writable fd g none x w)
          → py_fetch_via r pb writable fd g none x w ≡ fetch_via r pb.codec writable fd g none x w)
        (ap (λ (x : Client). polling x g)
            (sym (λ i. record c { cfg = record (c.cfg) { simulator_mode = h4 i } }))
          ∙ is_polling c g h1 h2 h3)
        (fetch_step c g w)
