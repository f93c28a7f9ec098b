-- ===== src/Udp/Echo/Answer.antt =====
-- What the server of src/main.c sends back.
use bbg_vo_ip.Prelude.{
  ℕ, ◌+◌, ◌≤◌, ◌≡◌, refl, ap, ◌∙◌, true, false, List, [], ◌∷◌, ◌++◌, arith, Text, before, length,
  take, ltb, length-append, length-take, lt→ltb,
}
use bbg_vo_ip.Prelude.Int.{pos}
use bbg_vo_ip.Sys.{Env, ok, recv_from, send_to, close}
use bbg_vo_ip.World.{World, continue}
use bbg_vo_ip.Udp.{initialize_udp_server, send_through_udp_server, close_udp_server}
use bbg_vo_ip.Udp.Message.{Replies, source, incoming, receive_through_udp_server_lem}
use bbg_vo_ip.Udp.Echo.{
  main, respond, answer, message, message_end, buffer_len, return_length, port,
}

before-join : (s t : Text) → before 0 (before 0 s ++ t) ≡ before 0 s ++ before 0 t
unfolding before
before-join [] t = refl
before-join (c ∷ s) t = ground (arith, before-join s t)

length-before : (s : Text) → length (before 0 s) ≤ length s
unfolding before
length-before [] = omega arith
length-before (c ∷ s) = ground (arith, length-before s)

before-message : (t : Text) → before 0 (message ++ t) ≡ message ++ before 0 t
unfolding before
before-message t = refl

before-message_end : before 0 message_end ≡ message_end
unfolding before
before-message_end = refl

-- The text put together has no NUL inside.
before-answer : (buffer : List ℕ) → before 0 (answer buffer) ≡ answer buffer
before-answer buffer =
    before-message (before 0 buffer ++ message_end)
    ∙ ap (λ t. message ++ t)
        (before-join buffer message_end ∙ ap (λ t. before 0 buffer ++ t) before-message_end)

module _ (env : Env) where
  -- The world in which the server listens.
  abbrev pub listening : World → World
  listening w = (initialize_udp_server env port w).1

  initialize_udp_server_lem :
      (w : World)
      → (initialize_udp_server env port w ≡ (ok tt, listening w))
        × ((listening w).udp.initialized ≡ true)
  unfolding initialize_udp_server
  initialize_udp_server_lem w = (refl, refl)

  -- What is sent back.
  abbrev pub sent_back : List ℕ → World → Text
  sent_back unset w =
      message
      ++ (before 0 (take 4095 (source (incoming env buffer_len (listening w)) unset))
          ++ message_end)

  length-answer : (b : List ℕ) → length (answer b) ≡ 38 + length (before 0 b)
  length-answer b = omega (
    arith,
    length-append message (before 0 b ++ message_end),
    length-append (before 0 b) message_end,
  )

  answer_fits :
      (n : ℕ) (b s : List ℕ)
      → n ≤ 4095
      → before 0 b ≡ before 0 (take n s)
      → ltb (length (answer b)) return_length ≡ true
  answer_fits n b s most e =
      lt→ltb (length (answer b)) return_length (
        omega
          (arith, length-answer b, ap length e, length-before (take n s), length-take n s, most))

  -- What comes after a message.
  respond_lem :
      (sender b : List ℕ) (text : Text) (w : World)
      → w.udp.initialized ≡ true
      → ltb (length (answer b)) return_length ≡ true
      → answer b ≡ text
      → let sends = send_to w.udp.socket_descriptor sender text in
        let log = (sends, env.result w.log sends) ∷ w.log in
        let sock = w.udp.socket_descriptor in
        respond env (sender, b) w ≡ (
          ok 0,
          record w {
            log = (close sock, env.result log (close sock)) ∷ log;
            udp = record { initialized = false; socket_descriptor = pos 0 };
          },
        )
  unfolding respond send_through_udp_server close_udp_server
  respond_lem sender b text w on fits e = rw (fits, on, before-answer b, e) refl

  -- The server of src/main.c ends with 0 and never writes past its buffers: it sends one message, to the
  -- sender of the one that it received, made of that up to its first NUL or its 4095th byte between two fixed
  -- texts, and closes its socket. Where `recvfrom` fails, it sends what its buffer happened to hold.
  pub main_lem :
      (unset : List ℕ) (w : World)
      → Replies env
      → length unset ≡ 4096
      → let w1 = listening w in
        let d = incoming env buffer_len w1 in
        let sock = w1.udp.socket_descriptor in
        let log = (recv_from sock 4096, d.got) ∷ w1.log in
        let sends = send_to sock d.sender (sent_back unset w) in
        let log' = (sends, env.result log sends) ∷ log in
        let (r, w') = main env unset w in
        (r ≡ ok 0)
        × (w'.log ≡ (close sock, env.result log' (close sock)) ∷ log')
        × (w'.udp.initialized ≡ false)
  unfolding main initialize_udp_server
  main_lem unset w replies l =
      let d = incoming env buffer_len (listening w) in
      let (b, got, string, _) =
        receive_through_udp_server_lem env unset 4096 (listening w) replies
          (initialize_udp_server_lem w).1 (omega arith) (omega (arith, l)) (omega arith) in
      let w2 : World = record (listening w) {
        log = (recv_from (listening w).udp.socket_descriptor 4096, d.got) ∷ (listening w).log;
      } in
      let text : answer b ≡ sent_back unset w = ap (λ s. message ++ (s ++ message_end)) string in
      let fits = answer_fits 4095 b (source d unset) (omega arith) string in
      let all : main env unset w ≡ respond env (d.sender, b) w2 =
        ap (λ r. continue r.0 (respond env) r.1) got in
      let end = all ∙ respond_lem d.sender b (sent_back unset w) w2 refl fits text in
      (ap (λ r. r.0) end, ap (λ r. r.1.log) end, ap (λ r. r.1.udp.initialized) end)
