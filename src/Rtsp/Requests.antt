-- ===== src/Rtsp/Requests.antt =====
-- The requests of an RTSP client: `_handle_request` and `_reply` of src/okam_native/rtsp.py. The
-- texts of the headers in a reply are left out but for the fields that depend on the state.
pub mod Invariant
use okam_ha_proxy.Prelude.{
  ℕ, suc, ◌+◌, Bool, true, false, not, ◌&&◌, ◌||◌, List, [], ◌∷◌, ◌++◌, Option, none, some, Text,
  codes, equal, ltb, ◌==◌, if◌then◌else◌,
}

-- A bridge of the registry, as far as it matters here.
pub record Bridge : Type 0 where
  pub number : ℕ
  pub battery_camera : Bool

-- What `re` and `int` make of `interleaved=` in the header `transport`: `int` raises ValueError for a number
-- of more digits than Python converts, and is called for the second number only where the first is small.
pub data Channels : Type 0 where
  unnamed : Channels
  numbered : ℕ → ℕ → Channels
  first_overlong : Channels
  second_overlong : ℕ → Channels

-- What Python's `str`, `urlsplit` and `re` make of a request whose first line has two words, and what the
-- registry makes of its path: the method, the header `cseq` (or "0"), whether `urlsplit` takes the target
-- or raises ValueError, the bridge, and whether the header `transport` names RTP/AVP/TCP.
pub record Request : Type 0 where
  pub method : Text
  pub cseq : Text
  pub is_target_valid : Bool
  pub bridge : Option Bridge
  pub over_tcp : Bool
  pub channels : Channels

-- What a reply carries beside its status.
pub data Fields : Type 0 where
  no_fields public_methods description session_only rtp_info : Fields
  transport_over : ℕ → ℕ → Fields

-- A reply that was made, and whether `sendall` has sent it.
pub record Reply : Type 0 where
  pub sent : Bool
  pub status : ℕ
  pub cseq : Text
  pub fields : Fields

-- `_RTSPHandler`: `subscription` is the number that `acquire` gave it, and `has_stream_thread` whether
-- `_stream_thread` was set, which it stays when the thread has ended.
pub record Client : Type 0 where
  pub bridge : Option Bridge
  pub subscription : Option ℕ
  pub has_stream_thread : Bool
  pub stopped : Bool
  pub rtp_channel : ℕ
  pub replies : List Reply

-- `setup`
abbrev pub new_client : Client
new_client = record {
  bridge = none;
  subscription = none;
  has_stream_thread = false;
  stopped = false;
  rtp_channel = 0;
  replies = [];
}

-- What the world answers: whether `sendall` raises OSError for the n-th reply, and the subscription that
-- `session.acquire` gives for a bridge when n replies were made (`none`: it raises).
pub record Outside : Type 0 where
  pub disconnected : ℕ → Bool
  pub acquire : ℕ → Bridge → Bool → Option ℕ

abbrev pub reply_count : List Reply → ℕ
reply_count [] = 0
reply_count (reply ∷ replies) = suc (reply_count replies)

-- `self._bridge is not bridge`
abbrev pub is_same : Option Bridge → Bridge → Bool
is_same none bridge = false
is_same (some chosen) bridge = chosen.number == bridge.number

abbrev pub is_subscribed : Option ℕ → Bool
is_subscribed none = false
is_subscribed (some subscription) = true

-- What `_handle_request` comes to: it returns True or False, or a ValueError escapes from it.
pub data Ending : Type 0 where
  goes_on hangs_up escapes : Ending

abbrev pub continues : Ending → Bool
continues goes_on = true
continues _ = false

module _ (outside : Outside) where
  -- `_reply`
  unfoldable pub reply : ℕ → Text → Fields → Client → Client
  reply status cseq fields client = record client {
    replies =
        client.replies
        ++ record {
          sent = not (outside.disconnected (reply_count client.replies));
          status = status;
          cseq = cseq;
          fields = fields;
        }
          ∷ [];
    stopped = client.stopped || outside.disconnected (reply_count client.replies);
  }

  abbrev pub accept_transport : Bridge → Text → Client → Client
  accept_transport bridge cseq client =
      reply 200 cseq (transport_over client.rtp_channel (client.rtp_channel + 1))
        (record client { bridge = some bridge })

  abbrev pub choose_channel : Bridge → Text → Channels → Client → Client × Ending
  choose_channel bridge cseq unnamed client = (accept_transport bridge cseq client, goes_on)
  choose_channel bridge cseq (numbered channel control) client =
      if ltb 255 channel || ltb 255 control
      then (reply 461 cseq no_fields client, goes_on)
      else (accept_transport bridge cseq (record client { rtp_channel = channel }), goes_on)
  choose_channel bridge cseq first_overlong client = (client, escapes)
  choose_channel bridge cseq (second_overlong channel) client =
      if ltb 255 channel then (reply 461 cseq no_fields client, goes_on) else (client, escapes)

  abbrev pub set_up : Bridge → Request → Client → Client × Ending
  set_up bridge request client =
      if not request.over_tcp
      then (reply 461 request.cseq no_fields client, goes_on)
      else choose_channel bridge request.cseq request.channels client

  -- The stream thread starts behind the reply.
  abbrev pub subscribe : Text → Option ℕ → Client → Client
  subscribe cseq none client = reply 503 cseq no_fields client
  subscribe cseq (some subscription) client =
      record (reply 200 cseq rtp_info (record client { subscription = some subscription })) {
        has_stream_thread = true;
      }

  abbrev pub play : Bridge → Request → Client → Client
  play bridge request client =
      if not (is_same client.bridge bridge) || is_subscribed client.subscription
      then reply 454 request.cseq no_fields client
      else subscribe request.cseq
          (outside.acquire (reply_count client.replies) bridge bridge.battery_camera) client

  -- The methods that need a bridge.
  unfoldable pub serve : Bridge → Request → Client → Client × Ending
  serve bridge request client =
      if equal request.method (codes "DESCRIBE")
      then (reply 200 request.cseq description client, goes_on)
      else if equal request.method (codes "SETUP")
      then set_up bridge request client
      else if equal request.method (codes "PLAY")
      then (play bridge request client, goes_on)
      else if equal request.method (codes "GET_PARAMETER")
      then (reply 200 request.cseq session_only client, goes_on)
      else if equal request.method (codes "TEARDOWN")
      then (record (reply 200 request.cseq session_only client) { stopped = true }, hangs_up)
      else (reply 501 request.cseq no_fields client, goes_on)

  abbrev pub serve_known : Option Bridge → Request → Client → Client × Ending
  serve_known none request client = (reply 404 request.cseq no_fields client, goes_on)
  serve_known (some bridge) request client = serve bridge request client

  -- `_handle_request`; `none` is a request whose first line has fewer than two words
  unfoldable pub handle_request : Option Request → Client → Client × Ending
  unfolding serve
  handle_request none client = (client, hangs_up)
  handle_request (some request) client =
      if not request.is_target_valid
      then (client, escapes)
      else if equal request.method (codes "OPTIONS")
      then (reply 200 request.cseq public_methods client, goes_on)
      else serve_known request.bridge request client

  -- The requests of a connection, until one ends it.
  unfoldable pub handle_all : List (Option Request) → Client → Client
  unfolding handle_request
  handle_all [] client = client
  handle_all (request ∷ requests) client =
      let (after, ending) = handle_request request client in
      let rest = handle_all requests after in if continues ending then rest else after
