-- ===== src/Proxy/Wire/RoundTrip.antt =====
-- What is written can be read.
use greenlight.Prelude.{
  ℕ, ◌+◌, ◌%◌, false, ltb, map, ◌^◌, ◌<◌, ◌≡◌, ◌∙◌, refl, sym, List, [], ◌∷◌, ◌++◌, length, arith,
  length-append, take-append, drop-append,
}
use mathlib.Core.List.{append_assoc}
use greenlight.Prelude.Run.{done, >>=-eq-done}
use greenlight.Tlv.Proto.{be_bytes, from_be}
use greenlight.Tlv.Proto.RoundTrip.{length-be_bytes, from_be-be_bytes}
use greenlight.Proxy.Wire.{
  Message, Socket, plain_byte, with_fd, byte_of, read_u16, read_exact, recv_fd, recv_fds, count_fds,
  new_with_fds, read, write,
}

map-byte_of : (xs : List ℕ) → map byte_of (map plain_byte xs) ≡ xs
map-byte_of [] = refl
map-byte_of (x ∷ xs) = rw (map-byte_of xs) refl

length-map-byte : (xs : List ℕ) → length (map plain_byte xs) ≡ length xs
length-map-byte [] = refl
length-map-byte (x ∷ xs) = rw (length-map-byte xs) refl

-- The first bytes of a socket.
read_exact-append :
    (xs : List ℕ) (rest : Socket) (n : ℕ)
    → n ≡ length xs
    → read_exact n (map plain_byte xs ++ rest) ≡ done (xs, rest)
unfolding read_exact
read_exact-append xs rest n len =
    let same : n ≡ length (map plain_byte xs) = len ∙ sym (length-map-byte xs) in
    let whole : length (map plain_byte xs ++ rest) ≡ length (map plain_byte xs) + length rest =
      length-append (map plain_byte xs) rest in
    let enough : ltb (length (map plain_byte xs ++ rest)) n ≡ false = ground (arith, same, whole) in
    rw
      (
        enough,
        same,
        take-append (map plain_byte xs) rest,
        drop-append (map plain_byte xs) rest,
        map-byte_of xs,
      )
      refl

-- The descriptors come in their order, under the receiver's numbers.
recv_fds-append :
    (installed : ℕ → ℕ) (fds : List ℕ) (rest : Socket)
    → recv_fds installed (length fds) (map with_fd fds ++ rest) ≡ done (map installed fds, rest)
unfolding recv_fds recv_fd
recv_fds-append installed [] rest = refl
recv_fds-append installed (fd ∷ fds) rest = rw (recv_fds-append installed fds rest) refl

new_with_fds-typ :
    (raw fds : List ℕ) (msg : Message)
    → new_with_fds raw fds ≡ done msg
    → read_u16 raw ≡ done msg.typ
unfolding new_with_fds
new_with_fds-typ raw fds msg h =
    let (typ, typed, made) = >>=-eq-done (read_u16 raw) _ h in ground arith

new_with_fds-installed :
    (raw fds fds' : List ℕ) (msg : Message)
    → new_with_fds raw fds ≡ done msg
    → new_with_fds raw fds' ≡ done (record { typ = msg.typ; body = raw; fds = fds' })
unfolding new_with_fds
new_with_fds-installed raw fds fds' msg h = rw (new_with_fds-typ raw fds msg h) refl

-- A message that was built, whose body is shorter than 2 ^ 32 bytes and which has as many file
-- descriptors as its type asks for, is read as it was written behind nothing, with the receiver's numbers
-- for the descriptors, and what is written behind it is left.
pub read-write :
    (installed : ℕ → ℕ) (msg : Message) (rest : Socket)
    → new_with_fds msg.body msg.fds ≡ done msg
    → length msg.body < 2 ^ 32
    → length msg.fds ≡ count_fds msg.typ
    → read installed (write msg [] ++ rest)
      ≡ done (record msg { fds = map installed msg.fds }, rest)
unfolding read write
read-write installed msg rest built small fds =
    let len = length msg.body % 2 ^ 32 in
    let size : from_be 0 (be_bytes 4 len) ≡ length msg.body =
      from_be-be_bytes 4 len (omega (arith, small)) ∙ omega (arith, small) in
    let sent = map with_fd msg.fds ++ rest in
    let prefix =
      read_exact-append (be_bytes 4 len) (map plain_byte msg.body ++ sent) 4
        (sym (length-be_bytes 4 len)) in
    let body = read_exact-append msg.body sent _ size in
    let received : recv_fds installed (count_fds msg.typ) sent
        ≡ done (map installed msg.fds, rest) =
      rw (sym fds) (recv_fds-append installed msg.fds rest) in
    rw
      (
        append_assoc (map plain_byte (be_bytes 4 len))
            (map plain_byte msg.body ++ map with_fd msg.fds) rest,
        append_assoc (map plain_byte msg.body) (map with_fd msg.fds) rest,
        prefix,
        body,
        new_with_fds-typ msg.body msg.fds msg built,
        received,
        new_with_fds-installed msg.body msg.fds (map installed msg.fds) msg built,
      )
      refl
