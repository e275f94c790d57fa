-- ===== src/Mosquitto/Loop/Disconnect.antt =====
-- mosquitto files/loop.c: `do_disconnect`, with WITH_WEBSOCKETS.
use double_swap.Base.{ℕ, Bool, true, false, Option, List, [], ◌∷◌, ◌++◌, Bytes, if◌then◌else◌}

-- `enum mosquitto_client_state`, as far as it is told apart here.
pub data State : Type 0 where
  active : ℕ → State
  disconnecting : State
  disconnect_with_will : State
  disconnected : State
  duplicate : State
  disconnect_ws : State

-- The reasons with a text of their own, and the others by their number.
pub data Reason : Type 0 where
  success : Reason
  malformed_packet : Reason
  protocol : Reason
  conn_lost : Reason
  auth : Reason
  keepalive : Reason
  oversize_packet : Reason
  payload_size : Reason
  nomem : Reason
  not_supported : Reason
  administrative_action : Reason
  errno : Reason
  unknown : ℕ → Reason

-- A line of the log on a client: the text of a reason, or "disconnected.".
pub data Line : Type 0 where
  because : Reason → Line
  plain : Line

-- What is called, in its order; `log` has the client's identifier, or none for "<unknown>".
pub data Call : Type 0 where
  log : Option Bytes → Line → Call
  callback_on_writable : Call
  remove_from_by_sock : Call
  mux_delete : Call
  remove_from_by_id : Call
  context_disconnect : Call

-- `struct mosquitto`, as far as it is used here: whether it has a websocket, and a socket.
pub record Peer : Type 0 where
  pub id : Option Bytes
  pub state : State
  pub wsi : Bool
  pub sock : Bool

abbrev pub is_disconnected : State → Bool
is_disconnected disconnected = true
is_disconnected _ = false

-- The client has asked to go.
abbrev pub asked : State → Bool
asked disconnecting = true
asked disconnect_with_will = true
asked _ = false

abbrev pub is_duplicate : State → Bool
is_duplicate duplicate = true
is_duplicate _ = false

-- The `switch` over the reason, and the line for a client that has asked.
unfoldable pub reason_line : Reason → List Line
reason_line success = []
reason_line r = because r ∷ []

unfoldable pub asked_line : Reason → Line
asked_line administrative_action = because administrative_action
asked_line r = plain

unfoldable pub log_lines : Bool → Peer → Reason → List Line
unfolding reason_line asked_line
log_lines connection_messages c reason =
    if connection_messages
    then if asked c.state then asked_line reason ∷ [] else reason_line reason
    else []

unfoldable pub log_calls : Option Bytes → List Line → List Call
log_calls id [] = []
log_calls id (l ∷ ls) = log id l ∷ log_calls id ls

-- What the functions that are called make of the client: `mosquitto__set_state` of the state, on the
-- way to `mosq_cs_disconnect_ws`, and `context__disconnect` of the client.
pub record Handlers : Type 0 where
  pub set_disconnect_ws : State → State
  pub closed : Peer → Peer

module _ (h : Handlers) where
  -- A client with a websocket, which is not closed here.
  unfoldable pub disconnect_websocket : Peer → List Call × Peer
  disconnect_websocket c = (
    callback_on_writable
        ∷ ((if c.sock then remove_from_by_sock ∷ mux_delete ∷ [] else [])
            ++ (if is_duplicate c.state then remove_from_by_id ∷ [] else [])),
    record c {
      state = if asked c.state then c.state else h.set_disconnect_ws c.state;
      sock = false;
    },
  )

  -- Any other client.
  unfoldable pub disconnect_socket : Bool → Peer → Reason → List Call × Peer
  unfolding log_lines log_calls
  disconnect_socket connection_messages c reason = (
    log_calls c.id (log_lines connection_messages c reason) ++ mux_delete ∷ context_disconnect ∷ [],
    h.closed c,
  )

  unfoldable pub do_disconnect : Bool → Peer → Reason → List Call × Peer
  do_disconnect connection_messages c reason =
      if is_disconnected c.state
      then ([], c)
      else if c.wsi
      then disconnect_websocket c
      else disconnect_socket connection_messages c reason
