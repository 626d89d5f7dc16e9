-- ===== src/Daemon/Descriptors.antt =====
-- The descriptors that the server of cpp/src/nsb_daemon.cc opens and closes.
use nsb_beta.Base.{
  ℕ, ◌+◌, ◌≡◌, refl, ap, Bool, true, false, Option, none, some, List, [], ◌∷◌, ◌++◌, map, arith,
  if◌then◌else◌, Bytes, ℤ,
}
use nsb_beta.Wire.{Codec}
use nsb_beta.Outcome.{ok, Ensures, Ensures->>=, Ensures-ok, Ensures-intro}
use nsb_beta.Daemon.State.{Daemon}
use nsb_beta.Daemon.Handled.{Sent}
use nsb_beta.Daemon.Dispatch.{handle_message}
use nsb_beta.Daemon.Server.{
  Action, sends, accepts, shuts, closes, Incoming, no_connection, accept_failed, connection,
  Activity, Round, excused, broken, timed_out, active, Server, handle_read, service_channel,
  service, admit, close_all, active_round, round, serve_while, serve,
}

-- How many of the descriptors that pass a test are in a list, are accepted and are closed.
module _ (p : ℤ → Bool) where
  abbrev pub count : List ℤ → ℕ
  count [] = 0
  count (fd ∷ fds) = (if p fd then 1 else 0) + count fds

  abbrev pub accepted : List Action → ℕ
  accepted [] = 0
  accepted (accepts fd ∷ acts) = (if p fd then 1 else 0) + accepted acts
  accepted (closes fd ∷ acts) = accepted acts
  accepted (shuts fd ∷ acts) = accepted acts
  accepted (sends s ∷ acts) = accepted acts

  abbrev pub closed : List Action → ℕ
  closed [] = 0
  closed (closes fd ∷ acts) = (if p fd then 1 else 0) + closed acts
  closed (accepts fd ∷ acts) = closed acts
  closed (shuts fd ∷ acts) = closed acts
  closed (sends s ∷ acts) = closed acts

  count-append : (xs ys : List ℤ) → count (xs ++ ys) ≡ count xs + count ys
  count-append [] ys = omega arith
  count-append (x ∷ xs) ys = omega (arith, count-append xs ys)

  accepted-append : (xs ys : List Action) → accepted (xs ++ ys) ≡ accepted xs + accepted ys
  accepted-append [] ys = omega arith
  accepted-append (accepts fd ∷ xs) ys = omega (arith, accepted-append xs ys)
  accepted-append (closes fd ∷ xs) ys = accepted-append xs ys
  accepted-append (shuts fd ∷ xs) ys = accepted-append xs ys
  accepted-append (sends s ∷ xs) ys = accepted-append xs ys

  closed-append : (xs ys : List Action) → closed (xs ++ ys) ≡ closed xs + closed ys
  closed-append [] ys = omega arith
  closed-append (closes fd ∷ xs) ys = omega (arith, closed-append xs ys)
  closed-append (accepts fd ∷ xs) ys = closed-append xs ys
  closed-append (shuts fd ∷ xs) ys = closed-append xs ys
  closed-append (sends s ∷ xs) ys = closed-append xs ys

  sends-neutral : (ss : List Sent) → (accepted (map sends ss) ≡ 0) × (closed (map sends ss) ≡ 0)
  sends-neutral [] = (refl, refl)
  sends-neutral (s ∷ ss) = sends-neutral ss

  closed-closes :
      (fds : List ℤ) → (closed (map closes fds) ≡ count fds) × (accepted (map closes fds) ≡ 0)
  closed-closes [] = (refl, refl)
  closed-closes (fd ∷ fds) = omega (arith, closed-closes fds)

  module _ (codec : Codec) where
    abbrev Pass : Type 0
    Pass = Daemon × List ℤ × List Action

    -- A pass over the channels that were `fds` keeps them or closes them.
    abbrev Balanced : List ℤ → Pass → Type 0
    Balanced fds r = (closed r.2 + count r.1 ≡ count fds) × (accepted r.2 ≡ 0)

    handle_read-Balanced :
        (a : Activity) (fd : ℤ) (message_exists : Bool) (bytes : Bytes) (d : Daemon)
        → Ensures (Balanced (fd ∷ [])) (handle_read codec a fd message_exists bytes d)
    unfolding handle_read
    handle_read-Balanced a fd true bytes d =
        Ensures->>= (λ (r : Daemon × List Sent). Unit {0}) (Balanced (fd ∷ []))
          (handle_message codec a.writable d fd bytes) _ (Ensures-intro _ _ (λ r e. tt))
          (λ (d', sent) k. omega (arith, sends-neutral sent))
    handle_read-Balanced a fd false bytes d = omega arith

    service_channel-Balanced :
        (a : Activity) (fd : ℤ) (calls : Option (List Bytes)) (d : Daemon)
        → Ensures (Balanced (fd ∷ [])) (service_channel codec a fd calls d)
    unfolding service_channel
    service_channel-Balanced a fd none d = omega arith
    service_channel-Balanced a fd (some calls) d = handle_read-Balanced a fd _ _ d

    service-Balanced :
        (a : Activity) (fds : List ℤ) (d : Daemon) → Ensures (Balanced fds) (service codec a fds d)
    unfolding service
    service-Balanced a [] d = omega arith
    service-Balanced a (fd ∷ fds) d =
        Ensures->>= (Balanced (fd ∷ [])) (Balanced (fd ∷ fds))
          (service_channel codec a fd (a.recvs fd) d) _
          (service_channel-Balanced a fd (a.recvs fd) d)
          λ (d', stay, acts) k.
            Ensures->>= (Balanced fds) (Balanced (fd ∷ fds)) (service codec a fds d') _
              (service-Balanced a fds d')
              λ (d'', stay', acts') k'. omega (
                arith,
                closed-append acts acts',
                accepted-append acts acts',
                count-append stay stay',
              )

    -- A round: what was open and what is accepted is closed or stays open.
    abbrev Rounded : Server → Server × List Action → Type 0
    Rounded s r =
        (closed r.1 + count r.0.channel_fds ≡ count s.channel_fds + accepted r.1)
        × (r.0.server_fd ≡ s.server_fd)

    admit-Rounded : (i : Incoming) (s : Server) → Rounded s (admit i s)
    unfolding admit
    admit-Rounded no_connection s = (omega arith, refl)
    admit-Rounded accept_failed s = (omega arith, refl)
    admit-Rounded (connection ip port fd) s =
        (omega (arith, count-append s.channel_fds (fd ∷ [])), refl)

    active_round-Rounded :
        (a : Activity) (s : Server) → Ensures (Rounded s) (active_round codec a s)
    unfolding active_round
    active_round-Rounded a s =
        Ensures->>= (Balanced s.channel_fds) (Rounded s) (service codec a s.channel_fds s.daemon) _
          (service-Balanced a s.channel_fds s.daemon)
          λ (d, stay, acts) k.
            let s1 : Server = record s { daemon = d; channel_fds = stay } in
            let (even, same) = admit-Rounded a.incoming s1 in
            (
              omega (
                arith,
                closed-append acts (admit a.incoming s1).1,
                accepted-append acts (admit a.incoming s1).1,
              ),
              same,
            )

    -- A run. Once the loop is left, everything is closed.
    abbrev Accounted : Server → Server × List Action × Bool → Type 0
    Accounted s (s', acts, left) =
        closed acts + (if left then 0 else count s'.channel_fds)
        ≡ count s.channel_fds + accepted acts + (if left then count (s.server_fd ∷ []) else 0)

    close_all-Accounted : (s : Server) → Accounted s (s, close_all s, true)
    unfolding close_all
    close_all-Accounted s = omega (
      arith,
      closed-closes (s.channel_fds ++ s.server_fd ∷ []),
      count-append s.channel_fds (s.server_fd ∷ []),
    )

    abbrev After : Server → Option (Server × List Action) → Type 0
    After s none = Unit {0}
    After s (some r) = Rounded s r

    round-After : (r : Round) (s : Server) → Ensures (After s) (round codec r s)
    unfolding round
    round-After excused s = (omega arith, refl)
    round-After timed_out s = (omega arith, refl)
    round-After broken s = tt
    round-After (active a) s =
        Ensures->>= (Rounded s) (After s) (active_round codec a s) _ (active_round-Rounded a s)
          (λ r k. k)

    prepend :
        (s s' s'' : Server) (acts more : List Action) (left : Bool)
        → Rounded s (s', acts)
        → Accounted s' (s'', more, left)
        → Accounted s (s'', acts ++ more, left)
    prepend s s' s'' acts more true (k, same) h =
        omega (
          arith,
          closed-append acts more,
          accepted-append acts more,
          ap (λ fd. count (fd ∷ [])) same,
        )
    prepend s s' s'' acts more false (k, same) h =
        omega (arith, closed-append acts more, accepted-append acts more)

    serve_while-Accounted :
        (b : Bool) (rs : List Round) (s : Server) → Ensures (Accounted s) (serve_while codec b rs s)
    unfolding serve_while
    serve_while-Accounted false rs s = close_all-Accounted s
    serve_while-Accounted true [] s = omega arith
    serve_while-Accounted true (r ∷ rs) s =
        Ensures->>= (After s) (Accounted s) (round codec r s) _ (round-After r s) (elim [
          | none ↦ λ k. close_all-Accounted s
          | some (s', acts) ↦ λ k.
              Ensures->>= (Accounted s') (Accounted s) (serve_while codec s'.daemon.running rs s') _
                (serve_while-Accounted s'.daemon.running rs s')
                λ (s'', more, left) k'. prepend s s' s'' acts more left k k'
        ])

    -- In every run of the server that does not end the process no descriptor is lost: by any test
    -- of descriptors, as many are closed or still open after the run as were open before it or
    -- accepted in it; and once the server has left its loop none is open and its own is closed
    -- too.
    pub serve_accounts :
        (rs : List Round) (s s' : Server) (acts : List Action) (left : Bool)
        → serve codec rs s ≡ ok (s', acts, left)
        → closed acts + (if left then 0 else count s'.channel_fds)
          ≡ count s.channel_fds + accepted acts + (if left then count (s.server_fd ∷ []) else 0)
    unfolding serve
    serve_accounts rs s s' acts left =
        Ensures-ok (Accounted s) (serve codec rs s) (serve_while-Accounted s.daemon.running rs s)
