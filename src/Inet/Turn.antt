-- ===== src/Inet/Turn.antt =====
-- What one turn of the timer of nsbBasicApp.cc leaves, for every kind of turn.
use nsb_beta.Inet.BasicApp.{
  handle_timer, start_sending, process_start, resolve_local, Options, set_socket_options,
  open_socket, Kind, unset, start, send, stop, BasicApp, Action, sends, send_packet, process_send,
}
use nsb_beta.Outcome.{Returns->>=, Returns_eq, Returns, ok}
use nsb_beta.Config.{MessageEntry, exists}
use nsb_beta.Inet.Packet.{encode_packet}
use nsb_beta.Inet.Schedule.{
  Timely, turns, packets, packets-append, upcoming, InTime, next_timer_lem, upcoming-Timely,
  upcoming-ne-none, upcoming-lt-turns, Timely-InTime,
}
use nsb_beta.Base.{
  ℕ, ◌+◌, ◌<◌, ◌≡◌, refl, sym, subst, ◌≢◌, inl, inr, true, false, Option, none, some, List, [], ◌∷◌,
  ◌++◌, arith, if◌then◌else◌, Bool-cases, is_empty, Bytes, ℤ, pos, negsuc,
}

-- What one turn of the timer leaves, if its clock was `clock` and its kind `k`, and `before`
-- packets were sent before it.
pub record Turned {Addr : Type 0} (k : Kind) (clock wait : ℕ) (stop_time : ℤ) (before : ℕ)
    (r : BasicApp × List (Action Addr)) : Type 0 where
  pub same_stop : r.0.stop_time ≡ stop_time
  pub timely : Timely r.0.stop_time r.0.timer.kind r.0.timer.at
  pub counted : r.0.num_sent ≡ before + packets r.1
  pub fewer :
      (s : ℕ)
      → stop_time ≡ pos s
      → 0 < wait
      → turns s r.0.timer.kind r.0.timer.at < turns s k (some clock)
  pub closed : (s : ℕ) → stop_time ≡ pos s → r.0.timer.at ≡ none → r.0.is_open ≡ false

module _ {Addr : Type 0} (resolve : Bytes → Option Addr) (find_interface : Bytes → Option ℕ) where
  -- What `sendPacket` does once the destination resolves to `x`.
  abbrev pub sent_by : MessageEntry → BasicApp → Addr → BasicApp × List (Action Addr)
  sent_by e a x =
      if exists e
      then (
        record a { num_sent = a.num_sent + 1 },
        sends x a.dest_port (encode_packet e.source e.destination e.payload_obj) ∷ [],
      )
      else (a, [])

  send_packet_lem :
      (e : MessageEntry) (a : BasicApp) (x : Addr)
      → resolve e.destination ≡ some x
      → send_packet resolve find_interface e a ≡ ok (sent_by e a x)
  unfolding send_packet
  send_packet_lem e a x h = ground arith

  module _ (resolves : (name : Bytes) → (x : Addr) × (resolve name ≡ some x))
      (finds : (name : Bytes) → (i : ℕ) × (find_interface name ≡ some i)) where
    process_send_lem :
        (clock wait : ℕ) (e : MessageEntry) (a : BasicApp)
        → a.timer.at ≡ none
        → InTime a.stop_time clock
        → process_send resolve find_interface clock wait e a ≡ (
            let r = sent_by e a (resolves e.destination).0 in
            ok (record (r.0) { timer = upcoming a.stop_time clock wait }, r.1))
    unfolding process_send
    process_send_lem clock wait e a h k =
        ground (arith, (resolves e.destination).1, next_timer_lem a.stop_time clock wait a.timer)

    sent_by-kept :
        (e : MessageEntry) (a : BasicApp) (x : Addr)
        → ((sent_by e a x).0.stop_time ≡ a.stop_time)
          × ((sent_by e a x).0.num_sent ≡ a.num_sent + packets (sent_by e a x).1)
    sent_by-kept e a x = ground arith

    process_send-Turned :
        (k : Kind) (clock wait : ℕ) (e : MessageEntry) (a : BasicApp)
        → a.timer.at ≡ none
        → Timely a.stop_time k (some clock)
        → k ≢ stop
        → Returns
            (Turned k clock wait a.stop_time a.num_sent)
            (process_send resolve find_interface clock wait e a)
    process_send-Turned k clock wait e a h timely n =
        let kept = sent_by-kept e a (resolves e.destination).0 in
        let t = upcoming a.stop_time clock wait in
        Returns_eq (Turned k clock wait a.stop_time a.num_sent) _ _
          (process_send_lem clock wait e a h (Timely-InTime a.stop_time k clock timely))
          (record {
            same_stop = kept.0;
            timely =
                subst (λ st. Timely st t.kind t.at) (sym kept.0)
                  (upcoming-Timely a.stop_time clock wait);
            counted = kept.1;
            fewer = λ s at w.
                subst
                  (λ st.
                    let u = upcoming st clock wait in turns s u.kind u.at < turns s k (some clock))
                  (sym at)
                  (upcoming-lt-turns s clock wait k
                    (subst (λ st. Timely st k (some clock)) at timely) n w);
            closed = λ s at none_left. absurd (upcoming-ne-none a.stop_time clock wait none_left);
          })

    options_send_nothing :
        (o : Options)
        → Returns
            (λ (acts : List (Action Addr)). packets acts ≡ 0)
            (set_socket_options resolve find_interface o)
    unfolding set_socket_options
    options_send_nothing o = ground (arith, (finds o.multicast_interface).1)

    local_resolves :
        (name : Bytes)
        → Returns (λ (local : Option Addr). Unit {0}) (resolve_local resolve find_interface name)
    unfolding resolve_local
    local_resolves name = ground (arith, (resolves name).1)

    open_socket_lem :
        (a : BasicApp)
        → Returns
            (λ (r : BasicApp × List (Action Addr)).
              (r.0 ≡ record a { is_open = true; dest_addresses = a.dest_addresses ++ a.tokens })
              × (packets r.1 ≡ 0))
            (open_socket resolve find_interface a)
    unfolding open_socket
    open_socket_lem a =
        Returns->>= (λ local. Unit {0}) _ (resolve_local resolve find_interface a.local_address) _
          (local_resolves a.local_address)
          (λ local h.
            Returns->>= (λ (acts : List (Action Addr)). packets acts ≡ 0) _
              (set_socket_options resolve find_interface a.options) _
              (options_send_nothing a.options) (λ acts k. (refl, k)))

    schedule_stop :
        (stop_time : ℤ) (clock wait : ℕ) (a : BasicApp)
        → a.stop_time ≡ stop_time
        → a.timer.at ≡ none
        → Timely stop_time start (some clock)
        → is_empty a.dest_addresses ≡ true
        → (e : MessageEntry)
        → Returns
            (Turned start clock wait stop_time a.num_sent)
            (start_sending resolve find_interface clock wait e a)
    unfolding start_sending
    schedule_stop (pos s) clock wait a st h timely none_there e =
        Returns_eq (Turned start clock wait (pos s) a.num_sent) _
          (record a { timer = record { kind = stop; at = some s } }, []) (ground arith)
          (record {
            same_stop = st;
            timely = subst (λ x. Timely x stop (some s)) (sym st) refl;
            counted = omega arith;
            fewer = λ s' same w. omega arith;
            closed = λ s' same left. cc;
          })
    schedule_stop (negsuc n) clock wait a st h timely none_there e =
        Returns_eq (Turned start clock wait (negsuc n) a.num_sent) _ (a, []) (ground arith)
          (record {
            same_stop = st;
            timely = subst (λ o. Timely a.stop_time a.timer.kind o) (sym h) tt;
            counted = omega arith;
            fewer = λ s same w. cc;
            closed = λ s same left. cc;
          })

    start_sending-Turned :
        (clock wait : ℕ) (e : MessageEntry) (a : BasicApp)
        → a.timer.at ≡ none
        → Timely a.stop_time start (some clock)
        → Returns
            (Turned start clock wait a.stop_time a.num_sent)
            (start_sending resolve find_interface clock wait e a)
    unfolding start_sending
    start_sending-Turned clock wait e a h timely = elim (Bool-cases (is_empty a.dest_addresses)) [
      | inl none_there ↦ schedule_stop a.stop_time clock wait a refl h timely none_there e
      | inr some_there ↦
          rw (some_there, start_sending)
            (process_send-Turned start clock wait e
              (record a { timer = record (a.timer) { kind = send } }) h timely (λ e. cc))
    ]

    process_start-Turned :
        (clock wait : ℕ) (e : MessageEntry) (a : BasicApp)
        → a.timer.at ≡ none
        → Timely a.stop_time start (some clock)
        → Returns
            (Turned start clock wait a.stop_time a.num_sent)
            (process_start resolve find_interface clock wait e a)
    unfolding process_start
    process_start-Turned clock wait e a h timely =
        Returns->>= _ _ (open_socket resolve find_interface a) _ (open_socket_lem a)
          (λ (a', acts) (same, nothing).
            Returns->>= (Turned start clock wait a.stop_time a.num_sent) _
              (start_sending resolve find_interface clock wait e a') _
              (subst
                (λ b.
                  Returns (Turned start clock wait a.stop_time a.num_sent)
                    (start_sending resolve find_interface clock wait e b))
                (sym same)
                (start_sending-Turned clock wait e
                  (record a { is_open = true; dest_addresses = a.dest_addresses ++ a.tokens }) h
                  timely))
              (λ (a'', more) t. record {
                same_stop = t.same_stop;
                timely = t.timely;
                counted = omega (arith, t.counted, packets-append acts more, nothing);
                fewer = t.fewer;
                closed = t.closed;
              }))

    pub handle_timer-Turned :
        (k : Kind) (clock wait : ℕ) (e : MessageEntry) (a : BasicApp)
        → a.timer.at ≡ none
        → Timely a.stop_time k (some clock)
        → Returns
            (Turned k clock wait a.stop_time a.num_sent)
            (handle_timer resolve find_interface k clock wait e a)
    unfolding handle_timer
    handle_timer-Turned start clock wait e a h timely = process_start-Turned clock wait e a h timely
    handle_timer-Turned send clock wait e a h timely =
        process_send-Turned send clock wait e a h timely (λ e. cc)
    handle_timer-Turned stop clock wait e a h timely = record {
      same_stop = refl;
      timely = subst (λ o. Timely a.stop_time a.timer.kind o) (sym h) tt;
      counted = omega arith;
      fewer = λ s same w. subst (λ o. turns s a.timer.kind o < 1) (sym h) (omega arith);
      closed = λ s same left. refl;
    }
    handle_timer-Turned unset clock wait e a h timely = absurd (never a.stop_time timely)
      where
        never : (st : ℤ) → ¬ Timely st unset (some clock)
        never (pos s) h = h
        never (negsuc n) h = h
