-- ===== src/Collab/Channels.antt =====
-- internal/collab/ot.go: the outbound channels of the clients, and the sends on them.
use talyvor_docs.Prelude.{
  ℕ, zero, suc, String, Bool, false, true, List, [], ◌∷◌, ◌++◌, length, ltb, if◌then◌else◌,
}
use talyvor_docs.Prelude.Map.{Map}
use talyvor_docs.Collab.Types.{Message, Channel, CollabClient}

-- make(chan []byte, 64)
abbrev pub send_buffer : ℕ
send_buffer = 64

abbrev pub fresh_channel : Channel
fresh_channel = record { queue = []; closed = false }

-- `trySend`: a send on a full channel is dropped, and so is one on a closed channel, whose panic
-- is recovered.
unfoldable pub push : Message → Channel → Channel
push msg c =
    if c.closed
    then c
    else if ltb (length c.queue) send_buffer
    then record c { queue = c.queue ++ msg ∷ [] }
    else c

unfoldable pub close : Channel → Channel
close c = record c { closed = true }

-- A change of the channel at an address.
unfoldable pub at_address : ℕ → (Channel → Channel) → List Channel → List Channel
at_address a f [] = []
at_address zero f (c ∷ cs) = f c ∷ cs
at_address (suc a) f (c ∷ cs) = c ∷ at_address a f cs

unfoldable pub try_send : ℕ → Message → List Channel → List Channel
unfolding at_address push
try_send a msg cs = at_address a (push msg) cs

-- The loops over `st.clients` that skip one client id, or none.
unfoldable pub broadcast :
    (String → Bool) → Message → Map CollabClient → List Channel → List Channel
unfolding try_send
broadcast skip msg [] cs = cs
broadcast skip msg ((id, c) ∷ clients) cs =
    broadcast skip msg clients (if skip id then cs else try_send c.send msg cs)
