-- ===== src/Service/OfflineMessageService/Limits.antt =====
-- How many messages a request may pull.
use lite_im.Prelude.{ℕ, ◌≤◌, ◌≡◌, true, List, Option, none, some, arith}
use lite_im.Prelude.Assoc.{find}
use lite_im.Status.{Result, ok, err}
use lite_im.Protocol.Bytes.{Bytes}
use lite_im.Protocol.Tlv
use lite_im.Protocol.TlvCodec.{TlvMap, get_uint64}
use lite_im.Service.Fields.{bind_result}
use lite_im.Service.OfflineMessageService.{
  is_valid_limit, request_limit, limit_of, limit_or, hard_max_messages_per_pull,
}

limit_of-ok :
    (most : ℕ) (r : Result ℕ) (n : ℕ)
    → 1 ≤ most
    → bind_result r (limit_of most) ≡ ok n
    → (1 ≤ n) × (n ≤ most)
limit_of-ok most (ok k) n h e = ground (arith, h, e)
limit_of-ok most (err x) n h e = absurd (ground (arith, e))

limit_found :
    (most : ℕ) (r : Result ℕ) (values : Option (List Bytes)) (n : ℕ)
    → 1 ≤ most
    → limit_or most r values ≡ ok n
    → (1 ≤ n) × (n ≤ most)
limit_found most r none n h e = ground (arith, h, e)
limit_found most r (some vs) n h e = limit_of-ok most r n h e

-- For a service that the constructor let pass, a request pulls from 1 message to as many as the service
-- allows, which is no more than the hard limit, whatever limit it asks for.
pub request_limit_bounds :
    (max_messages_per_pull : ℕ) (fields : TlvMap) (n : ℕ)
    → is_valid_limit max_messages_per_pull ≡ true
    → request_limit max_messages_per_pull fields ≡ ok n
    → (1 ≤ n) × (n ≤ max_messages_per_pull) × (max_messages_per_pull ≤ hard_max_messages_per_pull)
unfolding request_limit is_valid_limit
request_limit_bounds most fields n v e =
    let some_messages : 1 ≤ most = ground (arith, v) in
    let b =
      limit_found most (get_uint64 fields Tlv.limit) (find Tlv.limit fields) n some_messages e in
    (b.0, b.1, ground (arith, v))
