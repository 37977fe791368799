-- ===== src/Tlv/Tests.antt =====
-- Streams and numbers as a payment's onion carries them.
use greenlight.Prelude.{◌≡◌, [], ◌∷◌, arith}
use greenlight.Prelude.Run.{done}
use greenlight.Tlv.Stream.{TlvEntry, SerializedTlvStream, to_bytes, from_bytes}
use greenlight.Tlv.Stream.Codec.{from_bytes-to_bytes}

abbrev amount : TlvEntry
amount = record { typ = 2; value = 1 ∷ 0 ∷ [] }

abbrev secret : TlvEntry
secret = record { typ = 8; value = 9 ∷ [] }

abbrev payload : SerializedTlvStream
payload = record { entries = secret ∷ amount ∷ [] }

from_bytes-to_bytes_example : from_bytes (to_bytes payload) ≡ done payload
from_bytes-to_bytes_example =
    from_bytes-to_bytes payload
      (((omega arith), (omega arith)), (((omega arith), (omega arith)), tt))
