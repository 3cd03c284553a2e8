-- ===== src/Connection/Room.antt =====
-- connection.hpp: where `async_read_some` writes to.
use asyncmsg.Base.{ℕ, ◌+◌, ◌≤◌, ◌<◌, ◌≡◌, subst, arith, true, List, length}
use asyncmsg.ByteOrder.{ByteOrder}
use asyncmsg.IoBuffer.{prepare}
use asyncmsg.IoBuffer.Inv.{sizes, prepare_slab}
use asyncmsg.IoBuffer.Contents.{contents, length-contents}
use asyncmsg.Packet.{header_length, max_body_length}
use asyncmsg.Connection.{Receiver, finished, Read, size_to_read, receive_packet, recv_buf_size}
use asyncmsg.Connection.Total.{IsReady, Settled, size_to_read-positive, receive_packet-Settled}

room :
    (s : Receiver)
    → IsReady s
    → length (contents s.recv_buffer) < header_length + max_body_length
    → let (b, slab) = prepare s.recv_buffer (size_to_read s.recv_buffer) in
      (0 < slab.size)
      × (slab.start + slab.size ≤ recv_buf_size)
      × (length (contents s.recv_buffer) + slab.size ≤ recv_buf_size)
      × (slab.start ≡ b.tail_)
room s ready short =
    let slab = prepare_slab (size_to_read s.recv_buffer) ready.valid in
    let positive = size_to_read-positive s.recv_buffer ready.valid ready.full_size short in
    (
      omega (
        arith,
        slab,
        positive,
        sizes ready.valid,
        length-contents ready.valid,
        ready.full_size,
        short,
      ),
      omega (arith, slab, ready.full_size),
      omega (
        arith,
        slab,
        sizes ready.valid,
        length-contents ready.valid,
        ready.full_size,
        ready.valid.inside,
      ),
      slab.0,
    )

-- After any reads through which the receiving coroutine goes on, from a buffer with less than one largest
-- frame in it: the memory that is handed to the next read is not empty, lies within the receive
-- buffer, directly behind the stored bytes, and holds no more than is free.
pub receive_packet-room :
    (o : ByteOrder) (clock : ℕ → ℕ) (s s' : Receiver) (reads : List Read)
    → IsReady s
    → length (contents s.recv_buffer) < header_length + max_body_length
    → receive_packet o clock s reads ≡ finished s' true
    → let (b, slab) = prepare s'.recv_buffer (size_to_read s'.recv_buffer) in
      (0 < slab.size)
      × (slab.start + slab.size ≤ recv_buf_size)
      × (length (contents s'.recv_buffer) + slab.size ≤ recv_buf_size)
      × (slab.start ≡ b.tail_)
receive_packet-room o clock s s' reads ready short goes_on =
    let settled = subst Settled goes_on (receive_packet-Settled o clock s reads ready short) in
    room s' settled.0 settled.1
