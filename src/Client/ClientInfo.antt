-- ===== src/Client/ClientInfo.antt =====
-- AppClientInfo of src/app_clientinfo.cc. The ids are only compared, and so are numbers here.
pub mod Registration
use rpi_webrtc_streamer.Base.{
  ℕ, Bool, true, false, not, ◌&&◌, Option, none, some, List, [], ◌∷◌, ◌==◌, if◌then◌else◌,
}

pub data ClientState : Type 0 where
  client_disconnected : ClientState
  client_registered : ClientState
  client_disconnect_wait : ClientState

pub record AppClientInfo : Type 0 where
  pub state : ClientState
  pub client_id : ℕ
  pub room_id : ℕ
  pub sockid : ℕ

-- The constructor, which leaves the ids as they are in its memory.
abbrev pub new_client_info : ℕ → ℕ → ℕ → AppClientInfo
new_client_info client room sock = record {
  state = client_disconnected;
  client_id = client;
  room_id = room;
  sockid = sock;
}

-- The part of Register after its switch.
abbrev pub accept : ℕ → ℕ → ℕ → AppClientInfo → Bool × AppClientInfo
accept sock room client c = (
  true,
  record c { sockid = sock; room_id = room; client_id = client; state = client_registered },
)

unfoldable pub register : ℕ → ℕ → ℕ → AppClientInfo → Bool × AppClientInfo
register sock room client c = elim c.state [
  | client_registered ↦ if c.room_id == room && c.client_id == client then (true, c) else (false, c)
  | client_disconnected ↦ accept sock room client (record c { room_id = room; client_id = client })
  | client_disconnect_wait ↦ accept sock room client c
]

unfoldable pub disconnect : ℕ → AppClientInfo → Bool × AppClientInfo
disconnect sock c = if not (c.sockid == sock) then (false, c) else elim c.state [
  | client_registered ↦ (true, record c { state = client_disconnected })
  | client_disconnected ↦ (true, c)
  | client_disconnect_wait ↦ (true, c)
]

unfoldable pub get_sock_id : ℕ → AppClientInfo → Option ℕ
get_sock_id client c = if c.client_id == client then some c.sockid else none

abbrev pub in_registered : ClientState → Bool
in_registered client_registered = true
in_registered client_disconnected = false
in_registered client_disconnect_wait = false

unfoldable pub is_registered : ℕ → AppClientInfo → Bool
is_registered sock c = in_registered c.state && (c.sockid == sock)

unfoldable pub reset_client : AppClientInfo → AppClientInfo
reset_client c = record c { client_id = 0; room_id = 0; sockid = 0; state = client_disconnected }

-- The calls that change the state.
pub data ClientCall : Type 0 where
  register_call : ℕ → ℕ → ℕ → ClientCall
  disconnect_call : ℕ → ClientCall
  reset_call : ClientCall

unfoldable pub client_step : ClientCall → AppClientInfo → AppClientInfo
unfolding register disconnect reset_client
client_step (register_call sock room client) c = (register sock room client c).1
client_step (disconnect_call sock) c = (disconnect sock c).1
client_step reset_call c = reset_client c

unfoldable pub client_steps : List ClientCall → AppClientInfo → AppClientInfo
unfolding client_step
client_steps [] c = c
client_steps (x ∷ xs) c = client_steps xs (client_step x c)
