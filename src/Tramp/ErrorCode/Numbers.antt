-- ===== src/Tramp/ErrorCode/Numbers.antt =====
-- From an error code to its number and back.
use greenlight.Prelude.{◌≡◌, ◌⊎◌, some, ℤ, pos, negsuc, eqz, arith, true}
use greenlight.Tramp.ErrorCode.{TrampolineErrorCode, from_code, code}

eqz→eq : (a b : ℤ) → eqz a b ≡ true → a ≡ b
eqz→eq (pos a) (pos b) h = ground arith
eqz→eq (negsuc a) (negsuc b) h = ground arith
eqz→eq (pos a) (negsuc b) h = cc
eqz→eq (negsuc a) (pos b) h = cc

-- A number that `from_code` reads is the number of the code it gives, except that 42711, the number
-- of a payment failure, is read as a failure of the peer's node.
pub code-from_code :
    (c : ℤ) (e : TrampolineErrorCode)
    → from_code c ≡ some e
    → (code e ≡ c) ⊎ ((c ≡ pos 42711) × (e ≡ TrampolineErrorCode.peer_node_failure))
unfolding from_code code
code-from_code c e h = ground (
  arith,
  eqz→eq c (pos 42701),
  eqz→eq c (pos 42702),
  eqz→eq c (pos 42703),
  eqz→eq c (pos 42704),
  eqz→eq c (pos 42705),
  eqz→eq c (pos 42706),
  eqz→eq c (pos 42707),
  eqz→eq c (pos 42708),
  eqz→eq c (pos 42709),
  eqz→eq c (pos 42710),
  eqz→eq c (pos 42711),
  eqz→eq c (pos 42712),
  eqz→eq c (pos 42713),
  eqz→eq c (pos 42714),
)
