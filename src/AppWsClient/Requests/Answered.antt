-- ===== src/AppWsClient/Requests/Answered.antt =====
-- Each request is answered once.
use rpi_webrtc_streamer.Base.{
  ℕ, ◌≡◌, refl, sym, ap, subst, if_split, same_text→eq, Bool, true, ◌||◌, [], ◌∷◌, if◌then◌else◌,
  Text, same_text, arith,
}
use rpi_webrtc_streamer.AppWsClient.{
  Platform, AppEffect, AppWsClient, event_error, or_empty, send_response, send_event,
}
use rpi_webrtc_streamer.AppWsClient.Commands.{Outcome}
use rpi_webrtc_streamer.AppWsClient.Requests.{
  Response, succeeded, device_info, request_rtc_config, config_save, config_reset, config_apply,
  config_update, request_config, still_capture, request_still, respond, command_request,
}
use rpi_webrtc_streamer.AppWsClient.Keys.{
  key_cmd_type, key_transaction, value_typep_device_info, value_type_rtc_config, value_type_config,
  value_type_still, err_unknown_request_type,
}

abbrev pub is_request_type : Text → Bool
is_request_type t =
    same_text t value_typep_device_info
    || same_text t value_type_rtc_config
    || same_text t value_type_config
    || same_text t value_type_still

-- What a request may not touch: the registration, the sessions and the frames that wait.
pub record SameClient {Device : Type 0} (s t : AppWsClient Device) : Type 0 where
  pub same_app_client : t.app_client ≡ s.app_client
  pub same_signaling : t.signaling ≡ s.signaling
  pub same_frames : t.chunked_frames ≡ s.chunked_frames
  pub same_count : t.num_chunked_frames ≡ s.num_chunked_frames

module _ (P : Platform) (channel : ℕ) where
  abbrev Same : AppWsClient P.Device → AppWsClient P.Device → Type 0
  Same s t = SameClient s t

  Same-refl : (s : AppWsClient P.Device) → Same s s
  Same-refl s = record {
    same_app_client = refl;
    same_signaling = refl;
    same_frames = refl;
    same_count = refl;
  }

  request_rtc_config-Same :
      (sockid : ℕ) (json : P.Value) (s : AppWsClient P.Device)
      → Same s (request_rtc_config P sockid json s).1
  unfolding request_rtc_config
  request_rtc_config-Same sockid json s = record {
    same_app_client = ground arith;
    same_signaling = ground arith;
    same_frames = ground arith;
    same_count = ground arith;
  }

  request_config-Same :
      (json : P.Value) (s : AppWsClient P.Device) → Same s (request_config P channel json s).1
  unfolding request_config config_save config_reset config_apply config_update
  request_config-Same json s = record {
    same_app_client = ground arith;
    same_signaling = ground arith;
    same_frames = ground arith;
    same_count = ground arith;
  }

  request_still-Same :
      (json : P.Value) (s : AppWsClient P.Device) → Same s (request_still P channel json s).1
  unfolding request_still still_capture
  request_still-Same json s = record {
    same_app_client = ground arith;
    same_signaling = ground arith;
    same_frames = ground arith;
    same_count = ground arith;
  }

  -- An outcome that answers a request of this type and transaction.
  pub record Answers (sockid : ℕ) (cmd_type transaction : Text) (s : AppWsClient P.Device)
      (o : Outcome P.Device) : Type 0 where
    pub response : Response
    pub stays : o.0 ≡ true
    pub sent :
        o.1
        ≡ (if is_request_type cmd_type
            then send_response P sockid response.success cmd_type transaction response.data_
                response.error_mesg
            else send_event P sockid event_error err_unknown_request_type)
          ∷ []
    pub same_client : SameClient s o.2

  respond-Answers :
      (sockid : ℕ) (cmd_type known transaction : Text) (s : AppWsClient P.Device)
      (q : Response × AppWsClient P.Device)
      → is_request_type known ≡ true
      → same_text cmd_type known ≡ true
      → Same s q.1
      → Answers sockid cmd_type transaction s (respond P sockid known transaction q)
  unfolding respond
  respond-Answers sockid cmd_type known transaction s (r, t) is_known same kept =
      subst (λ c. Answers sockid c transaction s (respond P sockid known transaction (r, t)))
        (sym (same_text→eq cmd_type known same))
        (record {
          response = r;
          stays = refl;
          sent = ap (λ b. (if b then answer else unknown) ∷ []) (sym is_known);
          same_client = kept;
        })
    where
      answer : AppEffect
      answer = send_response P sockid r.success known transaction r.data_ r.error_mesg

      unknown : AppEffect
      unknown = send_event P sockid event_error err_unknown_request_type

  -- A request of a socket is answered at once by one message to that socket, and the connection is
  -- kept: for the four types that there are by a response with the type and the transaction of the
  -- request, for any other by an error event. The registration, the sessions and the frames that
  -- wait stay as they are.
  pub command_request-Answers :
      (sockid : ℕ) (json : P.Value) (s : AppWsClient P.Device)
      → Answers sockid
          (or_empty (P.get_string json key_cmd_type))
          (or_empty (P.get_string json key_transaction))
          s
          (command_request P channel sockid json s)
  unfolding command_request respond
  command_request-Answers sockid json s =
      if_split Goal (same_text cmd_type value_typep_device_info)
        (λ e.
          respond-Answers sockid cmd_type value_typep_device_info transaction s (device_info P s, s)
            refl e (Same-refl s))
        λ n₁.
          if_split Goal (same_text cmd_type value_type_rtc_config)
            (λ e.
              respond-Answers sockid cmd_type value_type_rtc_config transaction s
                (request_rtc_config P sockid json s) refl e (request_rtc_config-Same sockid json s))
            λ n₂.
              if_split Goal (same_text cmd_type value_type_config)
                (λ e.
                  respond-Answers sockid cmd_type value_type_config transaction s
                    (request_config P channel json s) refl e (request_config-Same json s))
                λ n₃.
                  if_split Goal (same_text cmd_type value_type_still)
                    (λ e.
                      respond-Answers sockid cmd_type value_type_still transaction s
                        (request_still P channel json s) refl e (request_still-Same json s))
                    λ n₄. record {
                      response = succeeded [];
                      stays = refl;
                      sent = ground (arith, n₁, n₂, n₃, n₄);
                      same_client = Same-refl s;
                    }
    where
      cmd_type : Text
      cmd_type = or_empty (P.get_string json key_cmd_type)

      transaction : Text
      transaction = or_empty (P.get_string json key_transaction)

      Goal : Outcome P.Device → Type 0
      Goal = Answers sockid cmd_type transaction s
