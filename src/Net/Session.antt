-- ===== src/Net/Session.antt =====
-- include/liteim/net/Session.hpp and src/net/Session.cpp: one connection. What `read` and `write` return is
-- given as a list, the end of which stands for EAGAIN. A call in the loop's thread runs at once; one from
-- elsewhere puts a task into the loop's queue, of which `tasks` are those of this session.
-- Its id, the peer's address and the time of its last activity are left out.
pub mod Keeps
pub mod Sound
pub mod Writing
pub mod Output
pub mod Conserved
pub mod Reading
pub mod Input
mod Tests
use lite_im.Prelude.{
  ℕ, ◌+◌, ◌-◌, ◌*◌, Bool, true, false, not, ◌&&◌, ◌||◌, List, [], ◌∷◌, ◌++◌, length, take, ltb,
  ◌==◌, if◌then◌else◌,
}
use lite_im.Status.{Status, success, error, is_ok, invalid_argument, not_found, resource_exhausted}
use lite_im.Protocol.Bytes.{Bytes, bytes}
use lite_im.Protocol.Packet.{Packet, encode_packet}
use lite_im.Protocol.FrameDecoder.{FrameDecoder, new_decoder, Fed, feed}
use lite_im.Net.Buffer.{Buffer, new_buffer, readable_bytes, peek, append, retrieve, retrieve_all}

pub data SessionState : Type 0 where
  new started closing closed : SessionState

-- What is put into the loop's queue.
pub data Task : Type 0 where
  start_task close_task reset_channel_task : Task
  send_task : Bytes → Task

-- The session, and what it has done so far: the bytes it took from `read`, the packets it gave to the
-- message callback, the bytes it accepted for sending, those that `write` took, its calls of the close
-- callback, and whether a message callback threw.
pub record Session : Type 0 where
  pub state : SessionState
  pub closed : Bool
  pub has_fd : Bool
  pub has_channel : Bool
  pub channel_registered : Bool
  pub writing : Bool
  pub decoder : FrameDecoder
  pub output_buffer : Buffer
  pub output_high_water_mark : ℕ
  pub tasks : List Task
  pub received : Bytes
  pub delivered : List Packet
  pub accepted : Bytes
  pub written : Bytes
  pub close_calls : ℕ
  pub thrown : Bool

abbrev pub default_output_high_water_mark : ℕ
default_output_high_water_mark = 4 * 1024 * 1024

abbrev pub initial_buffer_size : ℕ
initial_buffer_size = 1024

-- A session with a mark that was set before it was started.
abbrev pub new_session : ℕ → Session
new_session high_water_mark = record {
  state = new;
  closed = false;
  has_fd = true;
  has_channel = true;
  channel_registered = false;
  writing = false;
  decoder = new_decoder;
  output_buffer = new_buffer initial_buffer_size;
  output_high_water_mark = high_water_mark;
  tasks = [];
  received = [];
  delivered = [];
  accepted = [];
  written = [];
  close_calls = 0;
  thrown = false;
}

abbrev pub is_started : SessionState → Bool
is_started started = true
is_started new = false
is_started closing = false
is_started closed = false

abbrev pub is_new : SessionState → Bool
is_new new = true
is_new started = false
is_new closing = false
is_new closed = false

-- The close callback is called with `closed_` set, so it cannot act on the session any more. One that throws
-- leaves `kClosing`, which no test of the session tells from `kClosed`.
unfoldable pub close_in_loop : Session → Session
close_in_loop s = if s.closed then s else record s {
  closed = true;
  state = closed;
  channel_registered = false;
  has_fd = false;
  output_buffer = retrieve_all s.output_buffer;
  tasks = s.tasks ++ (reset_channel_task ∷ []);
  close_calls = s.close_calls + 1;
}

unfoldable pub start_in_loop : Session → Session
start_in_loop s =
    if not (is_new s.state) || s.closed
    then s
    else record s { channel_registered = true; state = started }

-- Whether `encoded` would take the pending output above the mark.
abbrev pub exceeds_mark : Session → Bytes → Bool
exceeds_mark s encoded =
    ltb s.output_high_water_mark (length encoded)
    || ltb (s.output_high_water_mark - length encoded) (readable_bytes s.output_buffer)

-- The end of `sendEncodedInLoop`, with what the buffer's `append` gave.
abbrev pub appended : Session → Bytes → Buffer × Status → Session × Status
appended s encoded (buffer, status) = if not (is_ok status) then (close_in_loop s, status) else (
  record s {
    output_buffer = buffer;
    writing = if s.has_channel then true else s.writing;
    accepted = s.accepted ++ encoded;
  },
  success,
)

unfoldable pub send_encoded_in_loop : Session → Bytes → Session × Status
send_encoded_in_loop s encoded =
    if not (is_started s.state) || s.closed || length encoded == 0
    then (s, error invalid_argument "session is not writable")
    else if exceeds_mark s encoded
    then (close_in_loop s, error resource_exhausted "session output high water mark exceeded")
    else appended s encoded (append s.output_buffer (bytes encoded))

abbrev pub enqueue : Session → Task → Session
enqueue s t = record s { tasks = s.tasks ++ (t ∷ []) }

unfoldable pub close : Bool → Session → Session
close in_loop s = if in_loop then close_in_loop s else enqueue s close_task

unfoldable pub start : Bool → Session → Session
start in_loop s = if in_loop then start_in_loop s else enqueue s start_task

-- `sendPacket`, with what `encodePacket` gave.
abbrev pub send_encoded : Bool → Session → Bytes × Status → Session × Status
send_encoded in_loop s (encoded, status) =
    if not (is_ok status)
    then (s, status)
    else if ltb s.output_high_water_mark (length encoded)
    then (
      close in_loop s,
      error resource_exhausted "session output high water mark would be exceeded",
    )
    else if in_loop
    then send_encoded_in_loop s encoded
    else (enqueue s (send_task encoded), success)

unfoldable pub send_packet : Bool → Session → Packet → Session × Status
send_packet in_loop s packet =
    if s.closed
    then (s, error not_found "session is closed")
    else send_encoded in_loop s (encode_packet packet)

-- What a message callback may do to the session in the loop's thread; it may throw. It is a function of the
-- session and of the packet: as all packets delivered before are part of the session, it may do something else
-- each time.
pub data Reaction : Type 0 where
  sends : Packet → Reaction
  closes throws : Reaction

-- With whether it threw.
unfoldable pub react : List Reaction → Session → Session × Bool
react [] s = (s, false)
react (sends p ∷ rs) s = react rs (send_packet true s p).0
react (closes ∷ rs) s = react rs (close true s)
react (throws ∷ rs) s = (s, true)

-- What `read` or `write` returns: a value that is not negative, or an errno, EWOULDBLOCK being EAGAIN.
pub data Io (A : Type 0) : Type 0 where
  returned : A → Io A
  interrupted again failed : Io A

module _ (message_callback : Session → Packet → List Reaction) where
  -- One packet is given to the callback.
  abbrev pub give : Packet → Session → Session × Bool
  give p s =
      let given : Session = record s { delivered = s.delivered ++ (p ∷ []) } in
      react (message_callback given p) given

  -- The loop over the packets of one `feed`, with whether `handleRead` goes on. An exception leaves it, and
  -- the loop that catches it leaves the session as it is: the packets that are left are lost.
  unfoldable pub deliver : List Packet → Session → Session × Bool
  deliver [] s = (s, true)
  deliver (p ∷ ps) s =
      let after = give p s in
      let rest = deliver ps after.0 in
      if s.closed
      then (s, false)
      else if after.1
      then (record after.0 { thrown = true }, false)
      else rest

  -- One read of some bytes.
  abbrev pub take_in : Session → Fed → Session × Bool
  take_in s fed =
      if not (is_ok fed.status)
      then (close_in_loop (record s { decoder = fed.decoder }), false)
      else deliver fed.output (record s { decoder = fed.decoder })

  unfoldable pub read_loop : List (Io Bytes) → Session → Session
  read_loop [] s = s
  read_loop (returned [] ∷ rs) s = if not s.has_fd then s else close_in_loop s
  read_loop (returned (b ∷ bs) ∷ rs) s =
      let step =
        take_in (record s { received = s.received ++ (b ∷ bs) })
          (feed s.decoder (bytes (b ∷ bs))) in
      let rest = read_loop rs step.0 in if not s.has_fd then s else if step.1 then rest else step.0
  read_loop (interrupted ∷ rs) s = read_loop rs s
  read_loop (again ∷ rs) s = s
  read_loop (failed ∷ rs) s = if not s.has_fd then s else close_in_loop s

  unfoldable pub handle_read : List (Io Bytes) → Session → Session
  handle_read results s =
      if not (is_started s.state) || s.closed || not s.has_fd then s else read_loop results s

-- `disableWriting` once nothing is pending.
abbrev pub rest_writing : Session → Session
rest_writing s =
    if readable_bytes s.output_buffer == 0 && s.has_channel && s.writing
    then record s { writing = false }
    else s

-- One write of `n` bytes, with what the buffer's `retrieve` gave.
abbrev pub taken : Session → ℕ → Buffer × Status → Session × Bool
taken s n (buffer, status) =
    if is_ok status
    then (
      record s { output_buffer = buffer; written = s.written ++ take n (peek s.output_buffer) },
      true,
    )
    else (close_in_loop s, false)

-- The loop of `handleWrite`, and what follows where it does not return.
unfoldable pub write_loop : List (Io ℕ) → Session → Session
write_loop [] s = rest_writing s
write_loop (returned n ∷ rs) s =
    let step = taken s n (retrieve s.output_buffer n) in
    let rest = write_loop rs step.0 in
    if readable_bytes s.output_buffer == 0 || n == 0
    then rest_writing s
    else if step.1
    then rest
    else step.0
write_loop (interrupted ∷ rs) s =
    let rest = write_loop rs s in
    if readable_bytes s.output_buffer == 0 then rest_writing s else rest
write_loop (again ∷ rs) s = rest_writing s
write_loop (failed ∷ rs) s =
    if readable_bytes s.output_buffer == 0 then rest_writing s else close_in_loop s

unfoldable pub handle_write : List (Io ℕ) → Session → Session
handle_write results s =
    if not (is_started s.state) || s.closed || not s.has_fd then s else write_loop results s

-- The first task in the loop's queue is run.
abbrev pub run_task : Task → Session → Session
run_task start_task s = start_in_loop s
run_task close_task s = close_in_loop s
run_task (send_task encoded) s = (send_encoded_in_loop s encoded).0
run_task reset_channel_task s = if s.closed then record s { has_channel = false } else s

abbrev pub run_first : List Task → Session → Session
run_first [] s = s
run_first (t ∷ ts) s = run_task t (record s { tasks = ts })

-- What happens to a session: calls, from the loop's thread or another, events of its channel, and a turn of
-- the loop's queue.
pub data Event : Type 0 where
  starts closes : Bool → Event
  sends : Bool → Packet → Event
  readable : List (Io Bytes) → Event
  writable : List (Io ℕ) → Event
  channel_fails runs_task : Event

-- The channel calls back only a session that was started, and is not yet taken off the loop.
unfoldable pub step : (Session → Packet → List Reaction) → Session → Event → Session
step callback s (starts in_loop) = start in_loop s
step callback s (closes in_loop) = close in_loop s
step callback s (sends in_loop packet) = (send_packet in_loop s packet).0
step callback s (readable results) = handle_read callback results s
step callback s (writable results) = handle_write results s
step callback s channel_fails = if s.channel_registered then close_in_loop s else s
step callback s runs_task = run_first s.tasks s

unfoldable pub run : (Session → Packet → List Reaction) → Session → List Event → Session
run callback s [] = s
run callback s (e ∷ es) = run callback (step callback s e) es
