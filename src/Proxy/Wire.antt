-- ===== src/Proxy/Wire.antt =====
-- The inter-daemon protocol of libs/gl-signerproxy/src/wire.rs: messages behind their length on a Unix
-- socket, `send_fd` and `recv_fd` of passfd.rs as far as they show on the socket, and
-- `from_client_hsmfd_msg` of pb.rs. File descriptors are numbers, and a socket is what travels on it.
pub mod RoundTrip
use greenlight.Prelude.{
  ℕ, zero, suc, ◌+◌, ◌*◌, ◌%◌, ◌^◌, ◌==◌, Bool, true, false, List, [], ◌∷◌, ◌++◌, if◌then◌else◌,
  length, take, drop, ltb, leb, map,
}
use greenlight.Prelude.Run.{Run, done, fail, panic, ◌>>=◌}
use greenlight.Tlv.Proto.{be_bytes, from_be}

pub record Message : Type 0 where
  pub typ : ℕ
  pub body : List ℕ
  pub fds : List ℕ

-- `BigEndian::read_u16` panics on less than two bytes.
unfoldable pub read_u16 : List ℕ → Run ℕ
read_u16 [] = panic
read_u16 (h ∷ []) = panic
read_u16 (h ∷ l ∷ rest) = done (h * 256 + l)

unfoldable pub new_with_fds : List ℕ → List ℕ → Run Message
new_with_fds raw fds = do typ ← read_u16 raw; done (record { typ = typ; body = raw; fds = fds })

unfoldable pub from_raw : List ℕ → Run Message
from_raw raw = new_with_fds raw []

-- A byte, or the dummy byte 0 that a file descriptor is sent with.
pub data Item : Type 0 where
  plain_byte : ℕ → Item
  with_fd : ℕ → Item

abbrev pub Socket : Type 0
Socket = List Item

abbrev pub byte_of : Item → ℕ
byte_of (plain_byte b) = b
byte_of (with_fd fd) = 0

-- `read_exact` of `n` bytes; a descriptor that comes with one of them is lost.
unfoldable pub read_exact : ℕ → Socket → Run (List ℕ × Socket)
read_exact n s = if ltb (length s) n then fail else done (map byte_of (take n s), drop n s)

abbrev pub count_fds : ℕ → ℕ
count_fds typ = if typ == 109 then 1 else 0

-- `recv_fd`, which takes one byte, that has to come with a descriptor. `installed` is the number under
-- which the receiver gets the file of the sender's descriptor.
unfoldable pub recv_fd : (ℕ → ℕ) → Socket → Run (ℕ × Socket)
recv_fd installed [] = fail
recv_fd installed (plain_byte b ∷ s) = fail
recv_fd installed (with_fd fd ∷ s) = done (installed fd, s)

-- `recv_fd` as often as told.
unfoldable pub recv_fds : (ℕ → ℕ) → ℕ → Socket → Run (List ℕ × Socket)
recv_fds installed zero s = done ([], s)
recv_fds installed (suc n) s = do
  (fd, s1) ← recv_fd installed s
  (fds, rest) ← recv_fds installed n s1
  done (fd ∷ fds, rest)

-- The message, and what is left on the socket.
unfoldable pub read : (ℕ → ℕ) → Socket → Run (Message × Socket)
read installed s = do
  (len_buf, s1) ← read_exact 4 s
  (buf, s2) ← read_exact (from_be 0 len_buf) s1
  typ ← read_u16 buf
  (fds, s3) ← recv_fds installed (count_fds typ) s2
  msg ← new_with_fds buf fds
  done (msg, s3)

-- What is written stands behind what was written before; a length is a `u32`.
unfoldable pub write : Message → Socket → Socket
write msg s =
    s
    ++ (map plain_byte (be_bytes 4 (length msg.body % 2 ^ 32))
        ++ (map plain_byte msg.body ++ map with_fd msg.fds))

pub record HsmRequestContext : Type 0 where
  pub node_id : List ℕ
  pub dbid : ℕ
  pub capabilities : ℕ

-- `&body[a..b]`, which panics beyond the end.
abbrev pub slice : ℕ → ℕ → List ℕ → Run (List ℕ)
slice from len body =
    if leb (from + len) (length body) then done (take len (drop from body)) else panic

unfoldable pub context_of : List ℕ → Run HsmRequestContext
context_of body = do
  node_id ← slice 2 33 body
  dbid ← slice 35 8 body
  caps ← slice 43 8 body
  done (record { node_id = node_id; dbid = from_be 0 dbid; capabilities = from_be 0 caps })

unfoldable pub from_client_hsmfd_msg : Message → Run HsmRequestContext
from_client_hsmfd_msg msg = if msg.typ == 9 then context_of msg.body else fail
