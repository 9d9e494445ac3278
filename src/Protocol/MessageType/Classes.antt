-- ===== src/Protocol/MessageType/Classes.antt =====
-- How the three tests on message types divide them.
use lite_im.Prelude.{ℕ, ◌+◌, ◌≡◌, refl, Bool, true, false, not, ◌&&◌, List, [], ◌∷◌, arith}
use lite_im.Protocol.MessageType.{
  is_label, is_request_type, is_response_type, is_push_type, request_types, response_types,
}

all_labels : (ℕ → Bool) → List ℕ → Bool
all_labels p [] = true
all_labels p (c ∷ cs) = p c && all_labels p cs

all_labels-is_label :
    (p : ℕ → Bool) (t : ℕ) (cs : List ℕ)
    → all_labels p cs ≡ true
    → is_label t cs ≡ true
    → p t ≡ true
unfolding all_labels is_label
all_labels-is_label p t [] a l = cc
all_labels-is_label p t (c ∷ cs) a l = ground (arith, all_labels-is_label p t cs)

-- No 16-bit value is a request and a response, or either and a push.
pub classes_disjoint :
    (t : ℕ)
    → (is_request_type t ≡ true → (is_response_type t ≡ false) × (is_push_type t ≡ false))
      × (is_response_type t ≡ true → is_push_type t ≡ false)
unfolding is_request_type is_response_type is_push_type all_labels
classes_disjoint t = (
  λ r. (
    not_true (all_labels-is_label (λ c. not (is_response_type c)) t request_types refl r),
    not_true (all_labels-is_label (λ c. not (is_push_type c)) t request_types refl r),
  ),
  λ r. not_true (all_labels-is_label (λ c. not (is_push_type c)) t response_types refl r),
)
  where
    not_true : {b : Bool} → not b ≡ true → b ≡ false
    not_true {b} e = ground arith

-- The answer to a request has the next value, and is a response; so is the error packet.
pub request-response : (t : ℕ) → is_request_type t ≡ true → is_response_type (t + 1) ≡ true
unfolding is_request_type is_response_type all_labels
request-response t r = all_labels-is_label (λ c. is_response_type (c + 1)) t request_types refl r
