-- ===== src/Driver/Tests.antt =====
-- The driver of src/driver/call.c on a system whose peer refuses.
use bbg_vo_ip.Prelude.{ℕ, List, [], ◌∷◌, some, refl, same_text, ◌≡◌}
use bbg_vo_ip.Prelude.Int.{ℤ, pos}
use bbg_vo_ip.Sys.{Env, Log, Call, recv, pa_device, ok}
use bbg_vo_ip.World.{pure, done, World}
use bbg_vo_ip.AddressBook
use bbg_vo_ip.Audio.Control
use bbg_vo_ip.Call.Session
use bbg_vo_ip.Connection
use bbg_vo_ip.Connection.{Connection, connection_ok}
use bbg_vo_ip.Call.Session.{call_reject, int_bytes}
use bbg_vo_ip.Testing.{quiet}
use bbg_vo_ip.Driver.{main, connect_to_self, hang_up, wait_seconds}
use bbg_vo_ip.Driver.Status.{main-zero}
use bbg_vo_ip.Call.Session.Handshake.{handshake}

abbrev answers : Log → Call → ℤ
answers log (recv socket n) = pos 4
answers log (pa_device n) = pos 1
answers log _ = pos 0

abbrev refusing : Env
refusing = record {
  result = answers;
  bytes = λ _ _. int_bytes call_reject;
  text = λ _ _. [];
  inet_pton = λ _. some 7;
}

abbrev unset : List ℕ
unset = 9 ∷ 9 ∷ 9 ∷ 9 ∷ []

abbrev peer : Connection
peer = record { socket = pos 5; source_host = 7 }

main-zero_example :
    (callout : Connection) × (v : World) × (connect_to_self refusing done quiet
      ≡ (ok (connection_ok, callout), v))
    × (handshake refusing unset callout v ≡ int_bytes call_reject)
unfolding main connect_to_self hang_up wait_seconds Control.init Control.require_device
    AddressBook.init AddressBook.resolve AddressBook.lookup Connection.listen_on_port
    Connection.create Connection.connect_result Connection.close_connection Session.begin
    Session.terminate Control.stop Control.teardown same_text
main-zero_example =
    main-zero refusing unset done (pure peer) quiet (main refusing unset done (pure peer) quiet).1
      refl
