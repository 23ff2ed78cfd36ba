-- ===== src/Client/ClientInfo/Registration.antt =====
-- The registration that AppClientInfo keeps, as an optional value.
use rpi_webrtc_streamer.Base.{
  ℕ, ◌≡◌, refl, ap, subst, ◌∙◌, ◌↔◌, ◌⊎◌, inl, inr, true, Option, none, some, List, [], ◌∷◌, arith,
  ◌==◌, if◌then◌else◌,
}
use rpi_webrtc_streamer.Client.ClientInfo.{
  ClientState, client_disconnected, client_registered, client_disconnect_wait, AppClientInfo,
  register, disconnect, in_registered, is_registered, reset_client, ClientCall, register_call,
  disconnect_call, reset_call, client_step, client_steps,
}

-- The socket, the room and the client of a registration.
abbrev pub Registration : Type 0
Registration = ℕ × ℕ × ℕ

-- The registration of a state; the ids have no meaning in the other states.
abbrev pub registration : AppClientInfo → Option Registration
registration c = if in_registered c.state then some (c.sockid, c.room_id, c.client_id) else none

-- The first registration holds until its socket disconnects or all is reset.
abbrev pub registration_step : ClientCall → Option Registration → Option Registration
registration_step (register_call sock room client) none = some (sock, room, client)
registration_step (register_call sock room client) (some r) = some r
registration_step (disconnect_call sock) none = none
registration_step (disconnect_call sock) (some r) = if r.0 == sock then none else some r
registration_step reset_call r = none

abbrev pub registration_steps : List ClientCall → Option Registration → Option Registration
registration_steps [] r = r
registration_steps (x ∷ xs) r = registration_steps xs (registration_step x r)

state-cases :
    (s : ClientState)
    → (s ≡ client_registered) ⊎ ((s ≡ client_disconnected) ⊎ (s ≡ client_disconnect_wait))
state-cases client_registered = inl refl
state-cases client_disconnected = inr (inl refl)
state-cases client_disconnect_wait = inr (inr refl)

step_refines :
    (x : ClientCall) (c : AppClientInfo)
    → registration (client_step x c) ≡ registration_step x (registration c)
unfolding client_step register disconnect reset_client
step_refines (register_call sock room client) c = elim (state-cases c.state) [
  | inl e ↦ ground arith
  | inr (inl e) ↦ ground arith
  | inr (inr e) ↦ ground arith
]
step_refines (disconnect_call sock) c = elim (state-cases c.state) [
  | inl e ↦ ground arith
  | inr (inl e) ↦ ground arith
  | inr (inr e) ↦ ground arith
]
step_refines reset_call c = refl

steps_refine :
    (calls : List ClientCall) (c : AppClientInfo)
    → registration (client_steps calls c) ≡ registration_steps calls (registration c)
unfolding client_steps
steps_refine [] c = refl
steps_refine (x ∷ xs) c =
    steps_refine xs (client_step x c) ∙ ap (registration_steps xs) (step_refines x c)

-- The registration that a socket has.
abbrev Holds : ℕ → Option Registration → Type 0
Holds sock r = (ids : ℕ × ℕ) × (r ≡ some (sock, ids.0, ids.1))

-- What lets a room and client register.
abbrev Admits : ℕ → ℕ → Option Registration → Type 0
Admits room client r = (r ≡ none) ⊎ ((s : ℕ) × (r ≡ some (s, room, client)))

registered_lem :
    (sock : ℕ) (c : AppClientInfo) → (is_registered sock c ≡ true) ↔ Holds sock (registration c)
unfolding is_registered
registered_lem sock c = elim (state-cases c.state) [
  | inl e ↦ (λ h. ((c.room_id, c.client_id), ground arith), λ (ids, h). ground arith)
  | inr (inl e) ↦ (λ h. absurd (ground arith), λ (ids, h). absurd (ground arith))
  | inr (inr e) ↦ (λ h. absurd (ground arith), λ (ids, h). absurd (ground arith))
]

register_lem :
    (sock room client : ℕ) (c : AppClientInfo)
    → ((register sock room client c).0 ≡ true) ↔ Admits room client (registration c)
unfolding register
register_lem sock room client c = elim (state-cases c.state) [
  | inl e ↦ (
    λ h. inr (c.sockid, ground arith),
    λ h. elim h [ inl z ↦ absurd (ground arith) | inr (s, z) ↦ ground arith ],
  )
  | inr (inl e) ↦ (λ h. inl (ground arith), λ h. ground arith)
  | inr (inr e) ↦ (λ h. inl (ground arith), λ h. ground arith)
]

-- Whatever calls of Register, Disconnect and Reset are made, the registration develops as
-- registration_steps says: the first one holds until its socket disconnects or all is reset; in the
-- end IsRegistered holds of a socket exactly when it has the registration, and a call of Register
-- succeeds exactly when there is no registration or it is that of the same room and client.
pub client_steps_refines :
    (calls : List ClientCall) (c : AppClientInfo) (sock room client : ℕ)
    → (registration (client_steps calls c) ≡ registration_steps calls (registration c))
      × ((is_registered sock (client_steps calls c) ≡ true)
          ↔ ((r : ℕ × ℕ) × (registration_steps calls (registration c) ≡ some (sock, r.0, r.1))))
      × (((register sock room client (client_steps calls c)).0 ≡ true)
          ↔ (registration_steps calls (registration c) ≡ none)
            ⊎ ((s : ℕ) × (registration_steps calls (registration c) ≡ some (s, room, client))))
client_steps_refines calls c sock room client =
    let same = steps_refine calls c in
    let c' = client_steps calls c in
    (
      same,
      subst (λ r. (is_registered sock c' ≡ true) ↔ Holds sock r) same (registered_lem sock c'),
      subst (λ r. ((register sock room client c').0 ≡ true) ↔ Admits room client r) same
          (register_lem sock room client c'),
    )
