-- ===== src/Fileserver/Respond.antt =====
-- What respond does with a response, and what follows from it where it cannot be sent.
use qptools.Prelude.{◌+◌, ◌≤◌, ◌≡◌, true, false, none, some, [], ◌∷◌, ◌++◌, arith}
use qptools.Prelude.Maps.{delete, nat_key}
use qptools.Act.{message, ok}
use qptools.Qp.{Response, Reply, r_error}
use qptools.Fileserver.State.{Request, Server, Host, Protocol, response_too_big}
use qptools.Fileserver.Wire.{is_cancelled, serialize, transmit, too_big, respond}

abbrev pub response_of : Request → Reply → Response
response_of rs reply = record { tag = rs.tag; reply = reply }

-- The response has a type and can be marshalled.
pub record IsEncodable {W : Type 0} (host : Host W) (m : Response) : Type 0 where
  pub typed : host.qp.message_type m ≡ none
  pub marshalled : host.qp.marshal m ≡ none

-- The message, with its header, fits into the negotiated size.
abbrev pub Fits : {W : Type 0} → Host W → Server W → Response → Type 0
Fits host s m = host.qp.encoded_size m + host.qp.header_size ≤ s.msg_size

module _ {W : Type 0} (host : Host W) (rs : Request) (reply : Reply) (s : Server W) where
  -- After the version is negotiated, a response that can be encoded and fits into the message
  -- size changes nothing if the request was cancelled; otherwise, if the write succeeds, it is
  -- written and its tag is free again.
  pub respond-fitting :
      {p : Protocol}
      → s.proto ≡ some p
      → IsEncodable host (response_of rs reply)
      → Fits host s (response_of rs reply)
      → (is_cancelled rs s ≡ true → respond host rs reply s ≡ (ok tt, s))
        × (is_cancelled rs s ≡ false
            → host.write s.sent (response_of rs reply) ≡ none
            → respond host rs reply s ≡ (
              ok tt,
              record s {
                sent = s.sent ++ (record { request = rs.id; response = response_of rs reply }) ∷ [];
                tags = delete rs.tag s.tags;
              },
            ))
  unfolding respond serialize transmit
  respond-fitting e c f = (λ gone. ground arith, λ live fine. ground arith)

  -- The bug: after the version is negotiated, where the response does not fit and the error that
  -- stands for it would, respond changes nothing. Neither of the two is written, and the tag
  -- stays in use.
  pub respond_too_big :
      {p : Protocol}
      → s.proto ≡ some p
      → host.qp.message_type (response_of rs reply) ≡ none
      → ¬ Fits host s (response_of rs reply)
      → IsEncodable host (response_of rs (r_error (message response_too_big)))
      → Fits host s (response_of rs (r_error (message response_too_big)))
      → respond host rs reply s ≡ (ok tt, s)
  unfolding respond serialize too_big
  respond_too_big e c f ec ef = ground arith
