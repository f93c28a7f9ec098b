-- ===== src/App/Tests.antt =====
-- The theorems about src/main_pretty.c: a call that the user refuses, and a name that nobody has.
use bbg_vo_ip.Prelude.{◌≡◌, refl, [], ◌∷◌, codes, inr, arith}
use bbg_vo_ip.Prelude.Int.{pos}
use bbg_vo_ip.Sys.{Env, unfinished}
use bbg_vo_ip.World.{World}
use bbg_vo_ip.Connection.{Connection}
use bbg_vo_ip.Testing.{answering, quiet}
use bbg_vo_ip.App.{Unset, handle_incoming_call, ask_user}
use bbg_vo_ip.App.Answer.{answered, ask_user_lem, handle_incoming_call-Unanswered}
use bbg_vo_ip.Dial

abbrev fine : Env
fine = answering (pos 0) [] []

abbrev conn : Connection
conn = record { socket = pos 3; source_host = 9 }

abbrev unset : Unset
unset = record {
  handshake = 0 ∷ 0 ∷ 0 ∷ 0 ∷ [];
  connection = conn;
  address = record { name = []; inet_address = []; in_addr = 0 };
}

-- The user answers `n`.
abbrev refusing : World
refusing = record quiet { stdin = codes "n\n" }

-- The user types a wrong character and then `n`.
ask_user_lem_example :
    ask_user fine unset 3 2 conn (record quiet { stdin = codes "?n\n" })
    ≡ answered fine unset 3 conn 110 (record quiet { stdin = 10 ∷ [] })
ask_user_lem_example =
    ask_user_lem fine unset 3 2 conn (63 ∷ []) (10 ∷ []) 110 (record quiet { stdin = codes "?n\n" })
      (refl, refl, tt) (inr refl) refl (omega arith)

handle_incoming_call-Unanswered_example :
    let (r, w) = handle_incoming_call fine unset 3 5 conn (record quiet { stdin = codes "ok\n" }) in
    (r ≡ unfinished) × (w.log ≡ (Dial.suspend fine (record quiet { stdin = codes "ok\n" })).1.log)
handle_incoming_call-Unanswered_example =
    handle_incoming_call-Unanswered fine unset 3 5 conn (record quiet { stdin = codes "ok\n" })
      (refl, refl, (refl, refl, (refl, refl, tt)))
