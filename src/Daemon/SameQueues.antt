-- ===== src/Daemon/SameQueues.antt =====
-- When two daemons of cpp/src/nsb_daemon.cc cannot be told apart by requests that name the queue
-- that they read: their buffers may hold the entries in different orders, if each source's and
-- each destination's are in the same.
use nsb_beta.Base.{
  ◌≡◌, refl, sym, subst, ◌∙◌, ◌≢◌, inl, inr, Bool, true, false, Option, none, some, List, [], ◌∷◌,
  arith, Bool-cases, keep, Bytes, str_eq, str_eq_iff,
}
use nsb_beta.Wire.{Nsbm, Metadata, Operation}
use nsb_beta.Config.{MessageEntry}
use nsb_beta.Daemon.State.{Daemon}
use nsb_beta.Daemon.Buffers.{take_first}
use nsb_beta.Daemon.Queues.{
  tx_queue, rx_queue, take_first_found, take_first_missing, keep-take_first_other, sources_apart,
}

abbrev pub with_buffers : Daemon → List MessageEntry → List MessageEntry → Daemon
with_buffers d tx rx = record d { tx_buffer = tx; rx_buffer = rx }

-- All but the buffers is equal, and every queue is.
abbrev pub SameQueues : Daemon → Daemon → Type 0
SameQueues d d' =
    (d' ≡ with_buffers d d'.tx_buffer d'.rx_buffer)
    × ((s : Bytes) → tx_queue s d ≡ tx_queue s d')
    × ((s : Bytes) → rx_queue s d ≡ rx_queue s d')

-- The first entry of a queue, and what is left of every queue, do not depend on the order of the
-- buffer beyond that of its queues.
module _ (field : MessageEntry → Bytes) where
  abbrev of_field : Bytes → MessageEntry → Bool
  of_field s e = str_eq (field e) s

  pub take_first_same :
      (s : Bytes) (es es' : List MessageEntry)
      → ((x : Bytes) → keep (of_field x) es ≡ keep (of_field x) es')
      → ((take_first (of_field s) es).0 ≡ (take_first (of_field s) es').0)
        × ((x : Bytes)
            → keep (of_field x) (take_first (of_field s) es).1
              ≡ keep (of_field x) (take_first (of_field s) es').1)
  take_first_same s es es' same = by_queue (keep (of_field s) es) refl
    where
      others :
          (x : Bytes)
          → x ≢ s
          → keep (of_field x) (take_first (of_field s) es).1
            ≡ keep (of_field x) (take_first (of_field s) es').1
      others x n =
          keep-take_first_other (of_field s) (of_field x) (λ e. sources_apart s x n (field e)) es
          ∙ same x
          ∙ sym (
              keep-take_first_other (of_field s) (of_field x) (λ e. sources_apart s x n (field e))
                es')

      by_queue :
          (q : List MessageEntry)
          → keep (of_field s) es ≡ q
          → ((take_first (of_field s) es).0 ≡ (take_first (of_field s) es').0)
            × ((x : Bytes)
                → keep (of_field x) (take_first (of_field s) es).1
                  ≡ keep (of_field x) (take_first (of_field s) es').1)
      by_queue [] h =
          rw
            (
              take_first_missing (of_field s) es h,
              take_first_missing (of_field s) es' (sym (same s) ∙ h),
            )
            (refl, same)
      by_queue (e ∷ q) h =
          let (a, b) = take_first_found (of_field s) es e q h in
          let (a', b') = take_first_found (of_field s) es' e q (sym (same s) ∙ h) in
          (
            a ∙ sym a',
            λ x. elim (Bool-cases (str_eq x s)) [
              | inl here ↦
                  subst
                    (λ y.
                      keep (of_field y) (take_first (of_field s) es).1
                      ≡ keep (of_field y) (take_first (of_field s) es').1)
                    (sym ((str_eq_iff x s).0 here)) (b ∙ sym b')
              | inr away ↦ others x (λ y. absurd (ground (arith, str_eq_iff x s, y, away)))
            ],
          )

-- A request that does not ask for the oldest entry of all: a FETCH with metadata has a source, and
-- a RECEIVE with metadata has a destination.
abbrev is_given : Option Bytes → Bool
is_given none = false
is_given (some s) = true

abbrev pub names : Option Metadata → (Metadata → Option Bytes) → Bool
names none field = true
names (some md) field = is_given (field md)

abbrev pub names_queue : Operation → Nsbm → Bool
names_queue Operation.fetch m = names m.metadata (λ md. md.src_id)
names_queue Operation.receive m = names m.metadata (λ md. md.dest_id)
names_queue _ m = true
