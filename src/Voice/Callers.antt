-- ===== src/Voice/Callers.antt =====
-- Who reaches the event handler of src/voiceserver.c.
use bbg_vo_ip.Prelude.{ℕ, ◌≡◌, false, ◌∷◌, Text, arith}
use bbg_vo_ip.Sys.{Env, Call, Log, ok, accept, close, inet_ntop, is_zero}
use bbg_vo_ip.World.{World, Address, Act, ◌>>◌, pure}
use bbg_vo_ip.Connection.{Connection}
use bbg_vo_ip.AddressBook.Lookup.{First, Absent, IsAt, reverse_lookup-Absent, reverse_lookup-First}
use bbg_vo_ip.Voice.{accept_round, s_addr}

module _ (env : Env) (handler : Address → Connection → Act Unit) where
  -- The world, the caller's address in numbers and in text, as `acceptConnections` sees them.
  abbrev pub the_accept : World → Call
  the_accept w = accept w.voice.listen_socket

  abbrev pub log_accepted : World → Log
  log_accepted w = (the_accept w, env.result w.log (the_accept w)) ∷ w.log

  abbrev pub caller_number : World → ℕ
  caller_number w = s_addr (env.bytes w.log (the_accept w))

  abbrev pub caller_ip : World → Text
  caller_ip w = env.text (log_accepted w) (inet_ntop (caller_number w))

  abbrev pub named : World → World
  named w = record w {
    log =
        (inet_ntop (caller_number w), env.result (log_accepted w) (inet_ntop (caller_number w)))
        ∷ log_accepted w;
  }

  -- A caller whose address is that of no entry of the table is hung up on: the connection is closed, the
  -- handler is not called, and the server goes on. This holds wherever `inet_ntop` gives a text.
  pub accept_round-Absent :
      (caller : Address) (w : World)
      → is_zero (env.result (log_accepted w) (inet_ntop (caller_number w))) ≡ false
      → Absent (IsAt (caller_ip w)) w.lookup_table
      → let sock = env.result w.log (the_accept w) in
        accept_round env handler caller w ≡ (
          ok caller,
          record (named w) {
            log = (close sock, env.result (named w).log (close sock)) ∷ (named w).log;
          },
        )
  unfolding accept_round
  accept_round-Absent caller w text absent =
      ground (arith, reverse_lookup-Absent w.lookup_table (caller_ip w) caller absent)

  -- A caller whose address is in the table is handed to the handler as the first entry with that address,
  -- over the connection that was accepted, and the round ends as the handler does.
  pub accept_round-First :
      (caller a : Address) (w : World)
      → is_zero (env.result (log_accepted w) (inet_ntop (caller_number w))) ≡ false
      → First (IsAt (caller_ip w)) a w.lookup_table
      → let conn : Connection = record {
        socket = env.result w.log (the_accept w);
        source_host = caller_number w;
      } in
        accept_round env handler caller w ≡ (handler a conn >> pure a) (named w)
  unfolding accept_round
  accept_round-First caller a w text first =
      ground (arith, reverse_lookup-First w.lookup_table (caller_ip w) caller a first)
