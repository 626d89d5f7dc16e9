-- ===== src/Daemon/OneRequest.antt =====
-- cpp/src/nsb_daemon.cc: a pass of the server's loop in which one channel has one request.
use mathlib.Core.List.{append-nil}
use nsb_beta.Base.{
  suc, ◌≡◌, refl, ap, ◌∙◌, inl, inr, Bool, true, false, none, some, List, [], ◌∷◌, ◌++◌, map, arith,
  if◌then◌else◌, Bool-cases, length, is_empty, keep, Bytes, ℤ, int_eq,
}
use nsb_beta.Wire.{Codec}
use nsb_beta.Outcome.{Outcome, ok, fault, ◌>>=◌}
use nsb_beta.Daemon.State.{Daemon}
use nsb_beta.Daemon.Handled.{Sent}
use nsb_beta.Daemon.Dispatch.{handle_message}
use nsb_beta.Daemon.Recv.{read_all, recv_calls, recv_size, read_all-recv_calls}
use nsb_beta.Daemon.Server.{Action, Activity, no_connection, Server, active_round, service}
use nsb_beta.Daemon.InOrder.{
  behind, sent_of, observed, with_channels, handle_each, requests, stayers, leavers,
  service_is_handle_each,
}

-- The bytes wait at the descriptor `fd`, nothing waits elsewhere, and nobody connects.
unfoldable pub only : (ℤ → Bool) → ℤ → Bytes → Activity
unfolding recv_calls
only writable fd bytes = record {
  recvs = λ f. if int_eq fd f then some (recv_calls (suc (length bytes)) recv_size bytes) else none;
  incoming = no_connection;
  writable = writable;
}

-- What was sent, of what was done.
abbrev sent_in : Outcome (Server × List Action) → Outcome (Server × List Sent)
sent_in m = m >>= λ (s, acts). ok (s, sent_of acts)

-- The server with the daemon after its handlers, and what they sent.
abbrev pub kept : Server → List ℤ → Outcome (Daemon × List Sent) → Outcome (Server × List Sent)
kept s fds n = n >>= λ (d, sent). ok (record s { daemon = d; channel_fds = fds }, sent)

module _ (codec : Codec) (writable : ℤ → Bool) where
  -- The pass, and what it sent.
  unfoldable pub serve_one : ℤ → Bytes → Server → Outcome (Server × List Sent)
  unfolding active_round only
  serve_one fd bytes s =
      active_round codec (only writable fd bytes) s >>= λ (s', acts). ok (s', sent_of acts)

  module _ (fd : ℤ) (bytes : Bytes) (full : is_empty bytes ≡ false) where
    read_whole : read_all (recv_calls (suc (length bytes)) recv_size bytes) ≡ (true, bytes)
    read_whole =
        rw (
          read_all-recv_calls (suc (length bytes)) recv_size bytes (omega arith) (omega arith),
          full,
        )

    requests-only :
        (fds : List ℤ)
        → requests (only writable fd bytes) fds ≡ map (λ f. (f, bytes)) (keep (int_eq fd) fds)
    unfolding only keep
    requests-only [] = refl
    requests-only (f ∷ fds) = elim (Bool-cases (int_eq fd f)) [
      | inl here ↦ rw (here, read_whole, requests-only fds)
      | inr there ↦ rw (there, requests-only fds)
    ]

    stayers-only : (fds : List ℤ) → stayers (only writable fd bytes) fds ≡ fds
    unfolding only
    stayers-only [] = refl
    stayers-only (f ∷ fds) = elim (Bool-cases (int_eq fd f)) [
      | inl here ↦ rw (here, read_whole, stayers-only fds)
      | inr there ↦ rw (there, stayers-only fds)
    ]

    abbrev passed : Server → Daemon → List ℤ → List Action → Outcome (Server × List Action)
    passed s d stay acts = ok (record s { daemon = d; channel_fds = stay }, acts)

    after_pass :
        (s : Server) (stay close : List ℤ) (m : Outcome (Daemon × List ℤ × List Action))
        (n : Outcome (Daemon × List Sent))
        → observed m ≡ with_channels stay close n
        → sent_in (m >>= λ (d, stay', acts). passed s d stay' (acts ++ [])) ≡ kept s stay n
    after_pass s stay close (ok (d, st, acts)) (ok (d', sent)) e =
        rw (append-nil acts)
          (ap (λ t. t >>= λ (d, st, x, c). ok (record s { daemon = d; channel_fds = st }, x)) e)
    after_pass s stay close (ok r) (fault f) e = cc
    after_pass s stay close (fault f) (ok r) e = cc
    after_pass s stay close (fault f) (fault g) e = cc

    one_handled :
        (s : Server) (m : Outcome (Daemon × List Sent))
        → kept s s.channel_fds (m >>= λ (d, sent). behind sent (ok (d, [])))
          ≡ kept s s.channel_fds m
    one_handled s (ok (d, sent)) = rw (append-nil sent)
    one_handled s (fault e) = refl

    -- If it is a channel of the server, once, the request is handled and nothing else is done.
    pub serve_one_lem :
        (s : Server)
        → keep (int_eq fd) s.channel_fds ≡ fd ∷ []
        → serve_one fd bytes s
          ≡ kept s s.channel_fds (handle_message codec writable s.daemon fd bytes)
    unfolding serve_one handle_each
    serve_one_lem s once =
        let a : Activity = only writable fd bytes in
        let asked : requests a s.channel_fds ≡ (fd, bytes) ∷ [] =
          requests-only s.channel_fds ∙ ap (map (λ f. (f, bytes))) once in
        after_pass s (stayers a s.channel_fds) (leavers a s.channel_fds)
          (service codec a s.channel_fds s.daemon)
          (handle_each codec writable (requests a s.channel_fds) s.daemon)
          (service_is_handle_each codec a s.channel_fds s.daemon)
        ∙ (λ i.
            kept s (stayers-only s.channel_fds i) (handle_each codec writable (asked i) s.daemon))
        ∙ one_handled s (handle_message codec writable s.daemon fd bytes)
