-- ===== src/Client/Tests.antt =====
-- Runs of the registration of clients.
use rpi_webrtc_streamer.Base.{ℕ, ◌≡◌, refl, ◌↔◌, ◌⊎◌, true, none, some, List, [], ◌∷◌}
use rpi_webrtc_streamer.Client.ClientInfo.{
  AppClientInfo, new_client_info, register, get_sock_id, is_registered, ClientCall, register_call,
  disconnect_call, client_steps,
}
use rpi_webrtc_streamer.Client.ClientInfo.Registration.{
  registration, registration_steps, client_steps_refines,
}

abbrev started : AppClientInfo
started = new_client_info 0 0 0

-- A second client tries, the first leaves, and the second tries again.
abbrev two_clients : List ClientCall
two_clients =
    register_call 5 1 7 ∷ register_call 6 1 8 ∷ disconnect_call 5 ∷ register_call 6 1 8 ∷ []

client_steps_refines_example :
    (registration (client_steps two_clients started) ≡ some (6, 1, 8))
    × ((is_registered 6 (client_steps two_clients started) ≡ true) ↔ (
        (r : ℕ × ℕ) × (registration_steps two_clients (registration started) ≡ some (6, r.0, r.1))))
    × (((register 6 2 9 (client_steps two_clients started)).0 ≡ true)
        ↔ (registration_steps two_clients (registration started) ≡ none)
          ⊎ ((s : ℕ) × (registration_steps two_clients (registration started) ≡ some (s, 2, 9))))
client_steps_refines_example = client_steps_refines two_clients started 6 2 9

-- A client that registers again from another socket: its messages still go to the first socket.
first_socket_stays :
    ((register 6 1 7 (register 5 1 7 started).1).0 ≡ true)
    × (get_sock_id 7 (register 6 1 7 (register 5 1 7 started).1).1 ≡ some 5)
unfolding register get_sock_id
first_socket_stays = (refl, refl)
