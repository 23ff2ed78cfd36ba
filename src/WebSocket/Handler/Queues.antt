-- ===== src/WebSocket/Handler/Queues.antt =====
-- The queues of the sockets are independent and first-in, first-out.
use rpi_webrtc_streamer.Base.{
  ℕ, ◌≡◌, refl, sym, ap, subst, ◌∙◌, ◌≢◌, inl, inr, Option, none, some, List, [], ◌∷◌, ◌++◌, arith,
  ℕ_discrete, ◌==◌, if◌then◌else◌, ==_refl, Option-cases, List-cases, Text,
}
use mathlib.Core.List.{append_assoc, append-nil}
use rpi_webrtc_streamer.WebSocket.Handler.{
  WsInstanceContainer, WsInternalHandlerConfig, find_socket, change_socket, queue_message,
  dequeue_message,
}

-- The messages that wait for a socket; `none` if it is not connected.
abbrev pub waiting : ℕ → WsInternalHandlerConfig → Option (List Text)
waiting sockid h = elim (find_socket sockid h.handler_runtime) [
  | none ↦ none
  | some c ↦ some c.pending_message
]

-- A change that keeps the socket's number changes what is found at this number only.
pub find_socket-change_socket :
    (change : WsInstanceContainer → WsInstanceContainer) (i j : ℕ) (cs : List WsInstanceContainer)
    → ((c : WsInstanceContainer) → (change c).sockid ≡ c.sockid)
    → find_socket j (change_socket change i cs) ≡ (
        if j == i
        then elim (find_socket i cs) [ none ↦ none | some c ↦ some (change c) ]
        else find_socket j cs)
find_socket-change_socket change i j [] keeps = ground arith
find_socket-change_socket change i j (c ∷ cs) keeps =
    ground (arith, keeps c, find_socket-change_socket change i j cs keeps)

abbrev pub add_last : Text → Option (List Text) → Option (List Text)
add_last m none = none
add_last m (some q) = some (q ++ (m ∷ []))

abbrev pub drop_first : Option (List Text) → Option (List Text)
drop_first none = none
drop_first (some []) = some []
drop_first (some (m ∷ ms)) = some ms

abbrev pub first_of : Option (List Text) → Option Text
first_of none = none
first_of (some []) = none
first_of (some (m ∷ ms)) = some m

pub waiting-queue_message :
    (i j : ℕ) (m : Text) (h : WsInternalHandlerConfig)
    → waiting j (queue_message i m h).1 ≡ (if j == i then add_last m (waiting i h) else waiting j h)
unfolding queue_message
waiting-queue_message i j m h = elim (Option-cases (find_socket i h.handler_runtime)) [
  | inl e ↦ ground arith
  | inr (c, e) ↦ ground (
    arith,
    find_socket-change_socket (λ d. record d { pending_message = d.pending_message ++ (m ∷ []) }) i
        j h.handler_runtime (λ c. refl),
  )
]

pub waiting-dequeue_message :
    (i j : ℕ) (h : WsInternalHandlerConfig)
    → ((dequeue_message i h).0 ≡ first_of (waiting i h))
      × (waiting j (dequeue_message i h).1
          ≡ (if j == i then drop_first (waiting i h) else waiting j h))
unfolding dequeue_message
waiting-dequeue_message i j h = elim (Option-cases (find_socket i h.handler_runtime)) [
  | inl e ↦ (ground arith, ground arith)
  | inr (c, e) ↦ elim (List-cases c.pending_message) [
    | inl none_left ↦ (ground arith, ground arith)
    | inr (m, rest, more) ↦ (
      ground arith,
      ground (
        arith,
        find_socket-change_socket (λ d. record d { pending_message = rest }) i j h.handler_runtime
            (λ c. refl),
      ),
    )
  ]
]

-- The calls on the queues, for a socket each.
pub data QueueCall : Type 0 where
  send_call : ℕ → Text → QueueCall
  write_call : ℕ → QueueCall

abbrev pub add_written : ℕ → Option Text → List (ℕ × Text) → List (ℕ × Text)
add_written i none out = out
add_written i (some m) out = (i, m) ∷ out

-- What is written to the sockets, and the handler after it.
unfoldable pub run_queues :
    List QueueCall → WsInternalHandlerConfig → List (ℕ × Text) × WsInternalHandlerConfig
unfolding queue_message dequeue_message
run_queues [] h = ([], h)
run_queues (send_call i m ∷ cs) h = run_queues cs (queue_message i m h).1
run_queues (write_call i ∷ cs) h =
    let (m, h') = dequeue_message i h in let (out, t) = run_queues cs h' in (add_written i m out, t)

abbrev pub sent_to : ℕ → List QueueCall → List Text
sent_to j [] = []
sent_to j (send_call i m ∷ cs) = if j == i then m ∷ sent_to j cs else sent_to j cs
sent_to j (write_call i ∷ cs) = sent_to j cs

abbrev pub written_to : ℕ → List (ℕ × Text) → List Text
written_to j [] = []
written_to j ((i, m) ∷ out) = if j == i then m ∷ written_to j out else written_to j out

-- The messages of a connected socket stay in order: what waited before and what was sent, together,
-- is what was written and what waits after.
abbrev Ordered : ℕ → List QueueCall → List Text → List (ℕ × Text) × WsInternalHandlerConfig → Type 0
Ordered j cs q r =
    (left : List Text) × (waiting j r.1 ≡ some left)
    × (q ++ sent_to j cs ≡ written_to j r.0 ++ left)

write_self :
    (j : ℕ) (cs : List QueueCall) (h : WsInternalHandlerConfig) (q : List Text)
    → waiting j h ≡ some q
    → ((q' : List Text)
        → waiting j (dequeue_message j h).1 ≡ some q'
        → Ordered j cs q' (run_queues cs (dequeue_message j h).1))
    → Ordered j cs q (run_queues (write_call j ∷ cs) h)
unfolding run_queues
write_self j cs h [] connected rest =
    let (first, now) = waiting-dequeue_message j j h in
    let (left, waits, order) = rest [] (ground (arith, now, connected)) in
    (
      left,
      waits,
      order
          ∙ ap
              (λ o.
                written_to j (add_written j o (run_queues cs (dequeue_message j h).1).0) ++ left)
              (sym (first ∙ ap first_of connected)),
    )
write_self j cs h (m ∷ ms) connected rest =
    let (first, now) = waiting-dequeue_message j j h in
    let (left, waits, order) = rest ms (ground (arith, now, connected)) in
    let out = (run_queues cs (dequeue_message j h).1).0 in
    (
      left,
      waits,
      ap (◌∷◌ m) order
          ∙ ap (λ b. (if b then m ∷ written_to j out else written_to j out) ++ left)
              (sym (==_refl j))
          ∙ ap (λ o. written_to j (add_written j o out) ++ left)
              (sym (first ∙ ap first_of connected)),
    )

written_to_other :
    (i j : ℕ) (o : Option Text) (out : List (ℕ × Text))
    → j ≢ i
    → written_to j (add_written i o out) ≡ written_to j out
written_to_other i j none out n = refl
written_to_other i j (some m) out n = ground arith

-- For any calls of QueueMessage and DequeueMessage, for any sockets, the messages that waited for a
-- connected socket and those that were sent to it are those that were written to it and those that
-- still wait, in the same order; so no message is lost, doubled, or sent to another socket.
pub run_queues-Ordered :
    (cs : List QueueCall) (h : WsInternalHandlerConfig) (j : ℕ) (q : List Text)
    → waiting j h ≡ some q
    → (left : List Text) × (waiting j (run_queues cs h).1 ≡ some left)
      × (q ++ sent_to j cs ≡ written_to j (run_queues cs h).0 ++ left)
unfolding run_queues
run_queues-Ordered [] h j q connected = (q, connected, append-nil q)
run_queues-Ordered (send_call i m ∷ cs) h j q connected = elim (ℕ_discrete j i) [
  | yes e ↦
      let now : waiting j (queue_message i m h).1 ≡ some (q ++ (m ∷ [])) =
        ground (arith, waiting-queue_message i j m h, ap (λ k. waiting k h) e) in
      let (left, waits, order) =
        run_queues-Ordered cs (queue_message i m h).1 j (q ++ (m ∷ [])) now in
      let here : sent_to j (send_call i m ∷ cs) ≡ m ∷ sent_to j cs = ground arith in
      (left, waits, ap (◌++◌ q) here ∙ sym (append_assoc q (m ∷ []) (sent_to j cs)) ∙ order)
  | no n ↦
      let now : waiting j (queue_message i m h).1 ≡ some q =
        ground (arith, waiting-queue_message i j m h) in
      let (left, waits, order) = run_queues-Ordered cs (queue_message i m h).1 j q now in
      let other : sent_to j (send_call i m ∷ cs) ≡ sent_to j cs = ground arith in
      (left, waits, ap (◌++◌ q) other ∙ order)
]
run_queues-Ordered (write_call i ∷ cs) h j q connected = elim (ℕ_discrete i j) [
  | yes e ↦
      subst (λ k. Ordered j cs q (run_queues (write_call k ∷ cs) h)) (sym e)
        (write_self j cs h q connected (run_queues-Ordered cs (dequeue_message j h).1 j))
  | no n ↦
      let now : waiting j (dequeue_message i h).1 ≡ some q =
        ground (arith, (waiting-dequeue_message i j h).1) in
      let (left, waits, order) = run_queues-Ordered cs (dequeue_message i h).1 j q now in
      (
        left,
        waits,
        order
            ∙ ap (λ t. t ++ left)
                (sym (
                  written_to_other i j (dequeue_message i h).0
                    (run_queues cs (dequeue_message i h).1).0 (λ e. n (sym e)))),
      )
]
