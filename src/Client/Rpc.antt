-- ===== src/Client/Rpc.antt =====
-- Client of client/client.go: the pool of fids, and the pattern that its methods share, from Tag to
-- the check of the response. One call runs at a time. What the server and the loop of Serve do
-- meanwhile is `Peer`, a parameter: whether the message could be written, and what arrives on the
-- channel of its tag.
pub mod Laws
pub mod Pool
use qptools.Prelude.{
  ℕ, zero, suc, ◌+◌, ◌-◌, Bool, true, false, Option, none, some, List, [], ◌∷◌, ◌==◌, is_some,
  if◌then◌else◌, length,
}
use qptools.Prelude.Maps.{Map, lookup, insert, delete, nat_key}
use qptools.Act.{
  Act, Error, reason, Outcome, Result, value, failure, pure, raise, panic, gets, modify, attempt,
  within, or_raise, ◌>>=◌, ◌>>◌,
}
use qptools.Qp.{Qp, Request, get_tag, Reply, r_error}
use qptools.Client.Transport.{
  Transport, take_any, get_channel, finish, fail_with, new_transport, no_such_tag,
}

-- encoder.WriteMessage, and the receive on the channel: nil arrives after a Ditch.
pub record Peer (W : Type 0) : Type 0 where
  pub write : Request → Act W (Unit {0})
  pub arrival : (tag : ℕ) → Act W (Option Reply)

-- A ClientFid is its number: its parent is the client.
pub record Client (W : Type 0) : Type 0 where
  pub fids : Option (Map ℕ ℕ)
  pub transport : Transport Reply
  pub world : W

abbrev pub weird_response : Error
weird_response = reason "weird response"

abbrev pub no_fids_available : Error
no_fids_available = reason "no available fids"

abbrev pub no_such_fid : Error
no_such_fid = reason "no such fid"

abbrev pub no_such_path : Error
no_such_path = reason "no such file or directory"

-- New(rw)
abbrev pub new_client : {W : Type 0} → W → Client W
new_client world = record { fids = some []; transport = new_transport; world = world }

-- the fids in use; a nil map has none
abbrev pub pool : {W : Type 0} → Client W → Map ℕ ℕ
pool c = elim c.fids [ none ↦ [] | some fids ↦ fids ]

-- toError(m), for a message that may be nil
abbrev pub to_error : Option Reply → Option Error
to_error (some (r_error why)) = some (reason why)
to_error _ = none

-- getFid: the loop from fid `i` on, for the rounds that are left
unfoldable pub first_free : (rounds i : ℕ) → Map ℕ ℕ → Option ℕ
first_free zero i fids = none
first_free (suc rounds) i fids =
    let rest = first_free rounds (suc i) fids in if is_some (lookup i fids) then rest else some i

module _ {W : Type 0} where
  abbrev pub on_transport : {A : Type 0} → Act (Transport Reply) A → Act (Client W) A
  on_transport m c = let (r, t) = m c.transport in (r, record c { transport = t })

  abbrev pub on_peer : {A : Type 0} → Act W A → Act (Client W) A
  on_peer m c = let (r, w) = m c.world in (r, record c { world = w })

  -- getFid(): a write to a nil map panics
  unfoldable pub get_fid : (nofid : ℕ) → Act (Client W) ℕ
  unfolding ◌>>=◌
  get_fid nofid = do
    fids ← gets (λ c. pool c)
    elim (first_free nofid 0 fids) [
      | none ↦ raise no_fids_available
      | some i ↦ do
        known ← gets (λ c. is_some c.fids)
        if known
            then (do modify (λ c. record c { fids = some (insert i i fids) }); pure i)
            else panic
    ]

  -- rmFid(f), whose error nobody reads; a nil fid panics
  unfoldable pub rm_fid : ℕ → Act (Client W) (Unit {0})
  unfolding ◌>>=◌
  rm_fid f =
      modify
        (λ c. record c { fids = elim c.fids [ none ↦ none | some fids ↦ some (delete f fids) ] })

  -- `nfid, err := getFid(); if err != nil { rmFid(nfid); … }`: the nfid of an error is nil
  unfoldable pub new_fid : (nofid : ℕ) → Act (Client W) ℕ
  unfolding ◌>>=◌
  new_fid nofid = do r ← attempt (get_fid nofid); elim r [ value f ↦ pure f | failure e ↦ panic ]

  -- a block whose every error return calls rmFid first
  unfoldable pub or_drop : {A : Type 0} → ℕ → Act (Client W) A → Act (Client W) A
  unfolding ◌>>=◌
  or_drop f m = do r ← attempt m; elim r [ value a ↦ pure a | failure e ↦ rm_fid f >> raise e ]

  -- the checks of a response: an error response, or one of the wrong type
  unfoldable pub check : {A : Type 0} → (Reply → Option A) → Option Reply → Act (Client W) A
  unfolding ◌>>=◌
  check parse resp = elim (to_error resp) [
    | some e ↦ raise e
    | none ↦ or_raise (elim resp [ none ↦ none | some reply ↦ parse reply ]) weird_response
  ]

module _ {W : Type 0} (peer : Peer W) where
  -- Send(m), with a channel: the message is written and the response awaited
  unfoldable pub exchange : Request → (ch : ℕ) → Act (Client W) (Option Reply)
  unfolding ◌>>=◌
  exchange m ch = do
    written ← attempt (on_peer (peer.write m))
    elim written [
      | failure e ↦ do
        first ← on_transport (fail_with (some e))
        elim first [ some e' ↦ raise e' | none ↦ pure none ]
      | value _ ↦ do
        got ← on_peer (peer.arrival (get_tag m))
        modify (λ c. record c { transport = finish (get_tag m) ch got c.transport })
        pure got
    ]

  -- Send(m)
  unfoldable pub send : Request → Act (Client W) (Option Reply)
  unfolding ◌>>=◌
  send m = do
    ch ← on_transport (get_channel (get_tag m))
    elim ch [ none ↦ raise no_such_tag | some ch ↦ exchange m ch ]

  -- Tag, Send and the checks, the pattern of the methods
  unfoldable pub call :
      {A : Type 0} → (notag : ℕ) → (ℕ → Request) → (Reply → Option A) → Act (Client W) A
  unfolding ◌>>=◌
  call notag request parse = do
    t ← on_transport (take_any notag)
    resp ← send (request t)
    check parse resp
