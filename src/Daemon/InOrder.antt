-- ===== src/Daemon/InOrder.antt =====
-- cpp/src/nsb_daemon.cc: what one pass of the server over its channels comes to, compared with
-- `handle_message` called on the requests one after the other.
use nsb_beta.Base.{
  ◌≡◌, refl, ap, ◌∙◌, Bool, true, false, Option, none, some, List, [], ◌∷◌, ◌++◌, Bytes, ℤ,
}
use nsb_beta.Wire.{Codec}
use nsb_beta.Outcome.{Outcome, ok, fault, ◌>>=◌}
use nsb_beta.Daemon.State.{Daemon}
use nsb_beta.Daemon.Handled.{Sent}
use nsb_beta.Daemon.Dispatch.{handle_message}
use nsb_beta.Daemon.Recv.{read_all}
use nsb_beta.Daemon.Server.{
  Action, sends, accepts, shuts, closes, sends_all, Activity, service_channel, handle_read, service,
}

-- What was sent, and which descriptors were closed.
abbrev pub sent_of : List Action → List Sent
sent_of [] = []
sent_of (sends x ∷ acts) = x ∷ sent_of acts
sent_of (act ∷ acts) = sent_of acts

abbrev pub closed_of : List Action → List ℤ
closed_of [] = []
closed_of (closes fd ∷ acts) = fd ∷ closed_of acts
closed_of (act ∷ acts) = closed_of acts

sent_of-append : (xs ys : List Action) → sent_of (xs ++ ys) ≡ sent_of xs ++ sent_of ys
sent_of-append [] ys = refl
sent_of-append (sends x ∷ xs) ys = rw (sent_of-append xs ys)
sent_of-append (accepts fd ∷ xs) ys = sent_of-append xs ys
sent_of-append (shuts fd ∷ xs) ys = sent_of-append xs ys
sent_of-append (closes fd ∷ xs) ys = sent_of-append xs ys

closed_of-append : (xs ys : List Action) → closed_of (xs ++ ys) ≡ closed_of xs ++ closed_of ys
closed_of-append [] ys = refl
closed_of-append (sends x ∷ xs) ys = closed_of-append xs ys
closed_of-append (accepts fd ∷ xs) ys = closed_of-append xs ys
closed_of-append (shuts fd ∷ xs) ys = closed_of-append xs ys
closed_of-append (closes fd ∷ xs) ys = rw (closed_of-append xs ys)

sent_of-sends_all : (xs : List Sent) → sent_of (sends_all xs) ≡ xs
sent_of-sends_all [] = refl
sent_of-sends_all (x ∷ xs) = rw (sent_of-sends_all xs)

closed_of-sends_all : (xs : List Sent) → closed_of (sends_all xs) ≡ []
closed_of-sends_all [] = refl
closed_of-sends_all (x ∷ xs) = closed_of-sends_all xs

-- What a channel of the pass is: not ready, with a request, or with a peer that is gone.
pub data Status : Type 0 where
  not_ready gone : Status
  asks : Bytes → Status

abbrev status_of_read : Bool × Bytes → Status
status_of_read (true, bytes) = asks bytes
status_of_read (false, bytes) = gone

abbrev pub status_of : Option (List Bytes) → Status
status_of none = not_ready
status_of (some calls) = status_of_read (read_all calls)

abbrev pub status : Activity → ℤ → Status
status a fd = status_of (a.recvs fd)

abbrev request_of : ℤ → Status → List (ℤ × Bytes)
request_of fd (asks bytes) = (fd, bytes) ∷ []
request_of fd _ = []

abbrev staying : ℤ → Status → List ℤ
staying fd gone = []
staying fd _ = fd ∷ []

abbrev leaving : ℤ → Status → List ℤ
leaving fd gone = fd ∷ []
leaving fd _ = []

-- The requests of the channels, in their order, and the channels that stay and that leave.
abbrev pub requests : Activity → List ℤ → List (ℤ × Bytes)
requests a [] = []
requests a (fd ∷ fds) = request_of fd (status a fd) ++ requests a fds

abbrev pub stayers : Activity → List ℤ → List ℤ
stayers a [] = []
stayers a (fd ∷ fds) = staying fd (status a fd) ++ stayers a fds

abbrev pub leavers : Activity → List ℤ → List ℤ
leavers a [] = []
leavers a (fd ∷ fds) = leaving fd (status a fd) ++ leavers a fds

-- A pass as an observer of the descriptors sees it.
abbrev pub observed :
    Outcome (Daemon × List ℤ × List Action) → Outcome (Daemon × List ℤ × List Sent × List ℤ)
observed m = m >>= λ (d, stay, acts). ok (d, stay, sent_of acts, closed_of acts)

abbrev pub behind : List Sent → Outcome (Daemon × List Sent) → Outcome (Daemon × List Sent)
behind sent n = n >>= λ (d, more). ok (d, sent ++ more)

abbrev pub with_channels :
    List ℤ → List ℤ → Outcome (Daemon × List Sent) → Outcome (Daemon × List ℤ × List Sent × List ℤ)
with_channels stay close n = n >>= λ (d, sent). ok (d, stay, sent, close)

behind_none : (n : Outcome (Daemon × List Sent)) → behind [] n ≡ n
behind_none (ok r) = refl
behind_none (fault e) = refl

-- What was done before a pass is in front of what the pass does.
observed_after :
    (m : Outcome (Daemon × List ℤ × List Action)) (n : Outcome (Daemon × List Sent))
    (stay0 stay close0 close : List ℤ) (acts0 : List Action) (sent0 : List Sent)
    → sent_of acts0 ≡ sent0
    → closed_of acts0 ≡ close0
    → observed m ≡ with_channels stay close n
    → observed (m >>= λ (d, stay', acts'). ok (d, stay0 ++ stay', acts0 ++ acts'))
      ≡ with_channels (stay0 ++ stay) (close0 ++ close) (behind sent0 n)
observed_after (ok (d, st, acts)) (ok (d', sent)) stay0 stay close0 close acts0 sent0 h k e =
    rw (sent_of-append acts0 acts, closed_of-append acts0 acts, h, k)
      (ap (λ t. t >>= λ (d, st, s, c). ok (d, stay0 ++ st, sent0 ++ s, close0 ++ c)) e)
observed_after (ok r) (fault f) stay0 stay close0 close acts0 sent0 h k e = cc
observed_after (fault f) (ok r) stay0 stay close0 close acts0 sent0 h k e = cc
observed_after (fault f) (fault g) stay0 stay close0 close acts0 sent0 h k e = cc

module _ (codec : Codec) where
  -- One request after the other: the daemon, and all that was sent.
  unfoldable pub handle_each : (ℤ → Bool) → List (ℤ × Bytes) → Daemon → Outcome (Daemon × List Sent)
  handle_each writable [] d = ok (d, [])
  handle_each writable ((fd, bytes) ∷ rest) d = do
    (d', sent) ← handle_message codec writable d fd bytes
    (d'', more) ← handle_each writable rest d'
    ok (d'', sent ++ more)

  module _ (a : Activity) where
    -- A channel that sends nothing, and then the pass over the others.
    silent :
        (fds : List ℤ) (d : Daemon) (stay close : List ℤ) (acts : List Action)
        → sent_of acts ≡ []
        → closed_of acts ≡ close
        → observed (service codec a fds d)
          ≡ with_channels
              (stayers a fds)
              (leavers a fds)
              (handle_each a.writable (requests a fds) d)
        → observed
            (service codec a fds d >>= λ (d', stay', acts'). ok (d', stay ++ stay', acts ++ acts'))
          ≡ with_channels
              (stay ++ stayers a fds)
              (close ++ leavers a fds)
              (handle_each a.writable (requests a fds) d)
    silent fds d stay close acts h k ih =
        observed_after (service codec a fds d) (handle_each a.writable (requests a fds) d) stay
          (stayers a fds) close (leavers a fds) acts [] h k ih
        ∙ ap (with_channels (stay ++ stayers a fds) (close ++ leavers a fds))
            (behind_none (handle_each a.writable (requests a fds) d))

    pass_step :
        (fd : ℤ) (o : Option (List Bytes)) (fds : List ℤ) (d : Daemon)
        → ((d' : Daemon)
            → observed (service codec a fds d')
              ≡ with_channels
                  (stayers a fds)
                  (leavers a fds)
                  (handle_each a.writable (requests a fds) d'))
        → observed (
            service_channel codec a fd o d >>= λ (d', stay, acts).
            service codec a fds d' >>= λ (d'', stay', acts').
            ok (d'', stay ++ stay', acts ++ acts'))
          ≡ with_channels
              (staying fd (status_of o) ++ stayers a fds)
              (leaving fd (status_of o) ++ leavers a fds)
              (handle_each a.writable (request_of fd (status_of o) ++ requests a fds) d)
    unfolding service_channel handle_each
    pass_step fd none fds d ih = silent fds d (fd ∷ []) [] [] refl refl (ih d)
    pass_step fd (some calls) fds d ih = at_read (read_all calls)
      where
        at_handled :
            (m : Outcome (Daemon × List Sent))
            → observed (
                (m >>= λ (d', sent). ok (d', fd ∷ [], sends_all sent)) >>= λ (d', stay, acts).
                service codec a fds d' >>= λ (d'', stay', acts').
                ok (d'', stay ++ stay', acts ++ acts'))
              ≡ with_channels
                  (fd ∷ stayers a fds)
                  (leavers a fds)
                  (m >>= λ (d', sent). behind sent (handle_each a.writable (requests a fds) d'))
        at_handled (fault e) = refl
        at_handled (ok (d', sent)) =
            observed_after (service codec a fds d') (handle_each a.writable (requests a fds) d')
              (fd ∷ []) (stayers a fds) [] (leavers a fds) (sends_all sent) sent
              (sent_of-sends_all sent) (closed_of-sends_all sent) (ih d')

        at_read :
            (r : Bool × Bytes)
            → observed (
                handle_read codec a fd r.0 r.1 d >>= λ (d', stay, acts).
                service codec a fds d' >>= λ (d'', stay', acts').
                ok (d'', stay ++ stay', acts ++ acts'))
              ≡ with_channels
                  (staying fd (status_of_read r) ++ stayers a fds)
                  (leaving fd (status_of_read r) ++ leavers a fds)
                  (handle_each a.writable (request_of fd (status_of_read r) ++ requests a fds) d)
        at_read (false, bytes) =
            silent fds d [] (fd ∷ []) (shuts fd ∷ closes fd ∷ []) refl refl (ih d)
        at_read (true, bytes) = at_handled (handle_message codec a.writable d fd bytes)

    -- A pass of the server over its channels is `handle_message` on the requests that they have, one
    -- after the other in the order of the channels: with the same daemon or the same fault at the
    -- end, and the same messages sent in the same order. The channels with no message are closed,
    -- and the others stay, in their order.
    pub service_is_handle_each :
        (fds : List ℤ) (d : Daemon)
        → observed (service codec a fds d)
          ≡ with_channels
              (stayers a fds)
              (leavers a fds)
              (handle_each a.writable (requests a fds) d)
    unfolding service handle_each
    service_is_handle_each [] d = refl
    service_is_handle_each (fd ∷ fds) d =
        pass_step fd (a.recvs fd) fds d (service_is_handle_each fds)
