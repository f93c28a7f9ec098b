-- ===== src/Voice/Tests.antt =====
-- The theorems about src/voiceserver.c with a known and an unknown caller.
use bbg_vo_ip.Prelude.{◌≡◌, refl, [], ◌∷◌, codes, ne_of_same_text, same_text}
use bbg_vo_ip.Prelude.Int.{pos}
use bbg_vo_ip.Sys.{Env, ok}
use bbg_vo_ip.World.{Address, Act, done}
use bbg_vo_ip.Connection.{Connection}
use bbg_vo_ip.Testing.{answering, quiet}
use bbg_vo_ip.AddressBook.Lookup.{here, later}
use bbg_vo_ip.Voice.{accept_round}
use bbg_vo_ip.Voice.Callers.{named, accept_round-First}

-- A caller from 10.0.0.20, whose address the table has, and one from 10.0.0.99.
abbrev known : Env
known = answering (pos 5) (10 ∷ 0 ∷ 0 ∷ 20 ∷ []) (codes "10.0.0.20")

abbrev stranger : Env
stranger = answering (pos 5) (10 ∷ 0 ∷ 0 ∷ 99 ∷ []) (codes "10.0.0.99")

abbrev ignore : Address → Connection → Act Unit
ignore caller conn = done

abbrev blank : Address
blank = record { name = []; inet_address = []; in_addr = 0 }

abbrev rulai : Address
rulai = record { name = codes "rulai"; inet_address = codes "10.0.0.20"; in_addr = 0 }

accept_round-First_example :
    accept_round known ignore blank quiet ≡ (ok rulai, named known ignore quiet)
unfolding same_text
accept_round-First_example =
    accept_round-First known ignore blank rulai quiet refl
      (later (ne_of_same_text _ _ refl) (here refl refl))
