-- ===== src/Tests/FingerprintTests.antt =====
-- The requests of src/idempotency/request-fingerprint.spec.ts, with a hash that changes nothing.
use overbook.Base.{ℕ, leb, arith, ◌≡◌, refl, true, String}
use Prim.Native.String.{◌++◌ as text_append}
use Prim.Native.Char.{code}
use overbook.Idempotency.Fingerprint.{
  Canon, Value, undefined, number, string, object, no_fields, field, request_fingerprint,
}
use overbook.Idempotency.SameRequest.{
  Same, same_value, same_object, same_field, exchange, left_out, in_turn, request_fingerprint_lem,
}

abbrev initial : String → ℕ
initial String.[] = 0
initial (String.◌∷◌ c s) = code c

pub initial_trans : (a b c : ℕ) → leb a b ≡ true → leb b c ≡ true → leb a c ≡ true
initial_trans a b c h k = ground arith

abbrev pub canon : Canon
canon = record {
  sha256 = λ s. s;
  to_upper_case = λ s. s;
  stringify_string = λ s. text_append "\"" (text_append s "\"");
  stringify_number = λ n. "7";
  locale_le = λ a b. leb (initial a) (initial b);
  locale_le_trans = λ a b c h k. initial_trans (initial a) (initial b) (initial c) h k;
}

abbrev pub body : Value
body = object (field "userId" (string "u1") (field "quantity" (number 2) no_fields))

abbrev pub other : Value
other =
    object (
      field "quantity" (number 2) (field "note" undefined (field "userId" (string "u1") no_fields)))

canonical_text :
    request_fingerprint canon "POST" "/x" other ≡ "POST /x {\"quantity\":7,\"userId\":\"u1\"}"
unfolding request_fingerprint
canonical_text = refl

pub reordered : Same canon other body
reordered = same_object (
    in_turn
      (same_field "quantity" (same_value (number 2))
        (left_out "note" (field "userId" (string "u1") no_fields)))
      (exchange "quantity" "userId" (number 2) (string "u1") no_fields refl))

request_fingerprint_example :
    request_fingerprint canon "POST" "/x" other ≡ request_fingerprint canon "POST" "/x" body
request_fingerprint_example = request_fingerprint_lem canon "POST" "/x" reordered
