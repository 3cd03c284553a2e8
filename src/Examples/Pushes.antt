-- ===== src/Examples/Pushes.antt =====
-- rpc_server.cpp and rpc_client.cpp: the task that pushes, and the task that waits for the pushes.
use asyncmsg.Base.{ℕ, zero, suc, ◌≤◌, ◌≡◌, false, List, [], ◌∷◌, ◌++◌, is_empty}
use asyncmsg.Packet.{Packet, next_seq, max_body_length}
use asyncmsg.Client.Inbox.{Inbox, Turn, request_turn, wait_turn}
use asyncmsg.Server.{Server}
use asyncmsg.Rpc.{rpc_id}
use asyncmsg.Examples.{HelloMessages, Round, push_name, push_text}

-- The copies of a packet, one for each write of it.
abbrev pub copies_of : Packet → List ℕ → List Packet
copies_of p [] = []
copies_of p (conn ∷ conns) = p ∷ copies_of p conns

abbrev pub sent_packets : List Round → List Packet
sent_packets [] = []
sent_packets ((p, conns, line) ∷ rounds) = copies_of p conns ++ sent_packets rounds

-- The round writes its packet at least once.
abbrev pub IsWritten : Round → Type 0
IsWritten (p, conns, line) = is_empty conns ≡ false

-- The client's part: a wait for the pushes, and then the packets, one by one.
abbrev pub as_requests : List ℕ → List Packet → List Turn
as_requests device_id [] = []
as_requests device_id (p ∷ ps) = request_turn device_id p ∷ as_requests device_id ps

module _ (messages : HelloMessages) (left : ℕ → List ℕ) (hash : List ℕ → ℕ) (device_id : List ℕ)
    (small : messages.pushes.byte_size_long (messages.hello_push push_text) ≤ max_body_length) where
  push_packet : ℕ → Packet
  push_packet seq = record {
    cmd = rpc_id hash push_name;
    seq = seq;
    rsp = false;
    ec = 0;
    device_id = device_id;
    body = messages.pushes.serialize (messages.hello_push push_text);
  }

  push_packets : ℕ → ℕ → List Packet
  push_packets zero generator = []
  push_packets (suc n) generator =
      push_packet (next_seq generator) ∷ push_packets n (next_seq generator)

  -- The rounds have these packets, one after the other.
  IsTask : ℕ → ℕ → List Round → Type 0
  IsTask zero g [] = Unit
  IsTask zero g (round ∷ rounds) = ⊥
  IsTask (suc n) g [] = ⊥
  IsTask (suc n) g ((p, conns, line) ∷ rounds) =
      (p ≡ push_packet (next_seq g)) × IsTask n (next_seq g) rounds

  -- The packets come to the new client, which waits for them.
  abbrev pub pushes_turns : ℕ → List Packet → List Turn
  pushes_turns fresh ps = wait_turn (rpc_id hash push_name) fresh ∷ as_requests device_id ps
