-- ===== src/Daemon/Together.antt =====
-- Requests that wait together on a channel (`start_server` of cpp/src/nsb_daemon.cc): nothing says
-- where one ends and the next begins, so that the loop reads and parses them as one message.
use nsb_beta.Base.{
  ℕ, suc, ◌+◌, ◌≤◌, ◌≡◌, refl, ◌∙◌, ◌≢◌, Bool, true, false, List, [], ◌∷◌, ◌++◌, arith,
  if◌then◌else◌, length, is_empty, keep, Bytes, ℤ, int_eq,
}
use nsb_beta.Wire.{Codec, Operation, Nsbm, SystemMode, push, get_op}
use nsb_beta.Config.{MessageEntry}
use nsb_beta.Outcome.{ok}
use nsb_beta.Daemon.State.{Daemon}
use nsb_beta.Daemon.Handled.{Handled, Sent}
use nsb_beta.Daemon.Dispatch.{dispatch, handle_message}
use nsb_beta.Daemon.Faults.{dispatch-IsQuiet}
use nsb_beta.Daemon.Server.{Server}
use nsb_beta.Daemon.OneRequest.{serve_one, serve_one_lem}
use nsb_beta.Daemon.Traffic.{count, sent_entries, posted_entries}
use nsb_beta.Daemon.Conservation.{dispatch_conserves}

-- The bytes of requests that were written one after another.
abbrev pub written : List Bytes → Bytes
written [] = []
written (bytes ∷ rest) = bytes ++ written rest

-- How many entries the two buffers hold.
abbrev pub held : Daemon → ℕ
held d = length d.tx_buffer + length d.rx_buffer

any : MessageEntry → Bool
any e = true

count-any : (es : List MessageEntry) → count any es ≡ length es
unfolding any keep
count-any [] = refl
count-any (e ∷ es) = rw (count-any es)

one_comes :
    (mode : SystemMode) (op : Operation) (d : Daemon) (m : Nsbm)
    → count any (sent_entries mode op d m) + count any (posted_entries mode op d m) ≤ 1
unfolding any keep
one_comes mode op d m = ground arith

module _ (codec : Codec) (writable : ℤ → Bool) where
  held_after :
      (op : Operation) (d : Daemon) (m : Nsbm) (h : Handled)
      → dispatch codec writable op d m ≡ ok h
      → held h.daemon ≤ suc (held d)
  held_after op d m h e =
      let (tx, rx) = dispatch_conserves any codec writable op d m h e in
      omega (
        arith,
        tx,
        rx,
        one_comes d.cfg.system_mode op d m,
        count-any d.tx_buffer,
        count-any d.rx_buffer,
        count-any h.daemon.tx_buffer,
        count-any h.daemon.rx_buffer,
      )

  -- In a mode other than PUSH, requests that wait together on a channel, which the server has once,
  -- while nothing waits on the others, are handled as one message: the pass of the server reads all
  -- their bytes, does what `handle_message` does with them as one message, and keeps its channels.
  -- So, however many they are, they add at most one entry to the two buffers and get at most one
  -- response.
  pub serve_one-written :
      (fd : ℤ) (requests : List Bytes) (s : Server)
      → s.daemon.cfg.system_mode ≢ push
      → keep (int_eq fd) s.channel_fds ≡ fd ∷ []
      → is_empty (written requests) ≡ false
      → (s' : Server) × (responses : List Sent) × (serve_one codec writable fd (written requests) s
          ≡ ok (s', responses))
        × (handle_message codec writable s.daemon fd (written requests) ≡ ok (s'.daemon, responses))
        × (s'.channel_fds ≡ s.channel_fds)
        × (held s'.daemon ≤ suc (held s.daemon))
        × (length responses ≤ 1)
  unfolding handle_message
  serve_one-written fd requests s mode once full =
      let bytes : Bytes = written requests in
      let m : Nsbm = codec.parse bytes in
      let (h, e, quiet) = dispatch-IsQuiet codec writable (get_op m) s.daemon m mode in
      (
        record s { daemon = h.daemon },
        _,
        serve_one_lem codec writable fd bytes full s once ∙ rw (e, handle_message),
        rw (e, handle_message),
        refl,
        held_after (get_op m) s.daemon m h e,
        at_most_one h.sent h.response_required
            (record { fd = fd; bytes = codec.serialize h.outgoing }) quiet,
      )
    where
      at_most_one :
          (sent : List Sent) (required : Bool) (response : Sent)
          → sent ≡ []
          → length (sent ++ (if required then response ∷ [] else [])) ≤ 1
      at_most_one sent required response quiet = ground (arith, quiet)
