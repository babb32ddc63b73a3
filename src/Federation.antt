-- ===== src/Federation.antt =====
-- rust/telesthitium/src/federation.rs: links between hubs: the messages on the wire, what a link
-- does with a message, and which links a frame goes out on. TCP and the async runtime are I/O; a
-- link's byte stream is a list of bytes, its queue a list of bounded length.
pub mod Links
pub mod Setup
pub mod Wire
mod Tests
use telesthete.Base.{
  ℕ, zero, suc, ◌+◌, ◌*◌, ◌%◌, ◌^◌, ◌≡◌, min, ite, List, [], ◌∷◌, ◌++◌, length, take, drop, slice,
  get_or, ltb, leb, if◌then◌else◌, not, ◌==◌, ◌||◌, ◌&&◌, Option, none, some, Bool, true, false,
}
use telesthete.Base.Bytes.{Bytes, to_be_bytes, from_be_bytes}
use telesthete.Base.Results.{Result, ok, err}
use telesthete.Base.Text.{Text, codes, Text-discrete, text_eq}
use telesthete.Crypto.{band_id_len}
use telesthete.Registry.{Registry, Sink, inject_from_link, local_bands}

abbrev pub t_hello : ℕ
t_hello = 0x01

abbrev pub t_bands : ℕ
t_bands = 0x02

abbrev pub t_relay : ℕ
t_relay = 0x03

abbrev pub max_msg : ℕ
max_msg = 4194304

-- In seconds.
abbrev pub bands_poll : ℕ
bands_poll = 1

abbrev pub bands_keepalive : ℕ
bands_keepalive = 15

abbrev pub queue_len : ℕ
queue_len = 4096

abbrev pub bands_marker : Bytes
bands_marker =
    255 ∷ 255 ∷ 255 ∷ 255 ∷ 255 ∷ 255 ∷ 255 ∷ 255 ∷ 255 ∷ 255 ∷ 255 ∷ 255 ∷ 255 ∷ 255 ∷ 255 ∷ 255
    ∷ []

pub data ReadError : Type 0 where
  end_of_stream : ReadError
  bad_msg_len : ReadError

-- `none` is a message that is too large.
unfoldable pub write_msg : ℕ → Bytes → Option Bytes
write_msg t payload =
    let len = 1 + length payload in
    if ltb max_msg (len % 2 ^ 32) then none else some (to_be_bytes 4 len ++ (t ∷ payload))

-- A message and the rest of the stream. `read_msg_split` is the same.
unfoldable pub read_msg : Bytes → Result ReadError ((ℕ × Bytes) × Bytes)
read_msg stream =
    let len = from_be_bytes (take 4 stream) in
    let body = take len (drop 4 stream) in
    if ltb (length stream) 4
    then err end_of_stream
    else if len == 0 || ltb max_msg len
    then err bad_msg_len
    else if ltb (length stream) (4 + len)
    then err end_of_stream
    else ok ((get_or body 0 0, drop 1 body), drop (4 + len) stream)

unfoldable pub band_bytes : List Bytes → Bytes
band_bytes [] = []
band_bytes (b ∷ bs) = b ++ band_bytes bs

unfoldable pub encode_bands : List Bytes → Bytes
encode_bands bands = to_be_bytes 2 (min (length bands) 65535) ++ band_bytes (take 65535 bands)

-- `set.insert`, on a list without repeats.
unfoldable pub contains : Bytes → List Bytes → Bool
contains b [] = false
contains b (c ∷ cs) = text_eq b c || contains b cs

unfoldable pub add_band : Bytes → List Bytes → List Bytes
add_band b set = if contains b set then set else b ∷ set

-- `for _ in 0..count`, from the rest of the payload.
unfoldable pub read_bands : ℕ → Bytes → List Bytes → List Bytes
read_bands zero rest set = set
read_bands (suc count) rest set =
    let more = read_bands count (drop band_id_len rest) (add_band (take band_id_len rest) set) in
    if ltb (length rest) band_id_len then set else more

unfoldable pub decode_bands : Bytes → List Bytes
decode_bands payload =
    if ltb (length payload) 2
    then []
    else read_bands (from_be_bytes (take 2 payload)) (drop 2 payload) []

-- The payload of a RELAY, and what the reader takes from one.
unfoldable pub relay_payload : Bytes → Bytes → Bytes
relay_payload band frame = band ++ (to_be_bytes 4 (length frame) ++ frame)

unfoldable pub parse_relay : Bytes → Option (Bytes × Bytes)
parse_relay payload =
    let flen = from_be_bytes (slice 16 20 payload) in
    if ltb (length payload) (band_id_len + 4)
    then none
    else if ltb (length payload) (band_id_len + 4 + flen)
    then none
    else some (take band_id_len payload, slice 20 (20 + flen) payload)

-- What the writer task makes of an entry of its queue.
unfoldable pub written : Bytes × Bytes → Option Bytes
written (band, frame) =
    if text_eq band bands_marker
    then write_msg t_bands frame
    else write_msg t_relay (relay_payload band frame)

pub record LinkHandle : Type 0 where
  pub id : ℕ
  pub queue : List (Bytes × Bytes)
  pub bands : List Bytes
  pub active : Bool

pub record LinkSet : Type 0 where
  pub links : List LinkHandle
  pub next : ℕ

unfoldable pub new : LinkSet
new = record { links = []; next = 1 }

unfoldable pub add : LinkSet → LinkHandle → LinkSet
add s h = record s { links = s.links ++ (h ∷ []) }

unfoldable pub without : ℕ → List LinkHandle → List LinkHandle
without id [] = []
without id (h ∷ hs) = if h.id == id then without id hs else h ∷ without id hs

unfoldable pub remove : LinkSet → ℕ → LinkSet
remove s id = record s { links = without id s.links }

-- `try_send`: a full queue drops the entry.
unfoldable pub try_send : LinkHandle → Bytes × Bytes → LinkHandle
try_send h entry =
    if ltb (length h.queue) queue_len then record h { queue = h.queue ++ (entry ∷ []) } else h

-- One frame to every active link whose remote has the band.
unfoldable pub fan_egress : Bytes → Bytes → List LinkHandle → List LinkHandle
fan_egress band frame [] = []
fan_egress band frame (h ∷ hs) =
    let rest = fan_egress band frame hs in
    if h.active && contains band h.bands then try_send h (band, frame) ∷ rest else h ∷ rest

-- The first message of the other hub: the link goes up, or is refused.
unfoldable pub open_link : LinkSet → Text → Bool → ℕ × Bytes → Option (LinkSet × LinkHandle)
open_link s secret active (t, payload) =
    let h : LinkHandle = record { id = s.next; queue = []; bands = []; active = active } in
    if not (t == t_hello) || not (text_eq payload secret)
    then none
    else some (add (record s { next = (s.next + 1) % 2 ^ 64 }) h, h)

-- `HashSet` equality.
unfoldable pub covers : List Bytes → List Bytes → Bool
covers [] set = true
covers (b ∷ bs) set = contains b set && covers bs set

-- The task that advertises the local bands: what it sent last, and for how long.
pub record Advert : Type 0 where
  pub last : Option (List Bytes)
  pub since_send : ℕ

unfoldable pub changed : Option (List Bytes) → List Bytes → Bool
changed none set = true
changed (some last) set = not (covers last set && covers set last)

module _ {Addr Ip : Type 0} (d : Discrete Addr) (di : Discrete Ip) (ip : Addr → Ip) where
  -- One tick of that task.
  unfoldable pub advertise : Advert → Registry Addr → LinkHandle → Advert × LinkHandle
  advertise a r h =
      let bands = local_bands d di ip r in
      let since = a.since_send + bands_poll in
      if changed a.last bands || leb bands_keepalive since
      then (
        record { last = some bands; since_send = 0 },
        try_send h (bands_marker, encode_bands bands),
      )
      else (record a { since_send = since }, h)

  -- A message of the remote hub: the link, and the local sinks that a relayed frame reaches.
  unfoldable pub on_message : Registry Addr → LinkHandle → ℕ × Bytes → LinkHandle × List (Sink Addr)
  on_message r h (t, payload) =
      if t == t_bands
      then (record h { bands = decode_bands payload }, [])
      else if t == t_relay
      then if ltb (length payload) (band_id_len + 4) || not h.active
        then (h, [])
        else elim (parse_relay payload) [
          | none ↦ (h, [])
          | some relayed ↦ (h, inject_from_link d di ip r relayed.0 relayed.1)
        ]
      else (h, [])
