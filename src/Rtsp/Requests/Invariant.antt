-- ===== src/Rtsp/Requests/Invariant.antt =====
-- What holds of a client's connection after any requests, and that each of them is answered.
use mathlib.Core.Path.{subst}
use okam_ha_proxy.Prelude.{
  ℕ, ◌<◌, ◌≤◌, ◌≡◌, ◌⊎◌, sym, equal-eq, refl, arith, true, false, not, ◌||◌, List, [], ◌∷◌, ◌++◌,
  Option, none, some, Text, codes, equal, ltb, Bool-cases, inl, inr,
}
use okam_ha_proxy.Rtsp.Requests.{
  Channels, unnamed, numbered, first_overlong, second_overlong, Ending, goes_on, hangs_up, escapes,
  continues, Bridge, Request, Fields, Reply, Client, Outside, is_same, is_subscribed, reply,
  accept_transport, choose_channel, set_up, subscribe, play, serve, reply_count, serve_known,
  handle_request, handle_all, no_fields, public_methods, description, session_only, rtp_info,
}

abbrev pub HasBridge : Option Bridge → Type 0
HasBridge none = ⊥
HasBridge (some bridge) = Unit

-- A stream thread was started exactly where there is a subscription, a subscription is there only where a
-- bridge was chosen, and the channel fits one byte.
abbrev pub IsSound : Client → Type 0
IsSound client =
    (client.has_stream_thread ≡ is_subscribed client.subscription)
    × (is_subscribed client.subscription ≡ true → HasBridge client.bridge)
    × (client.rtp_channel < 256)

-- One reply more, with the given number; where it could not be sent, the stream is told to stop.
abbrev pub Answers : Text → List Reply → Client → Type 0
Answers cseq before after =
    ((answer : Reply) × (after.replies ≡ before ++ answer ∷ [])
      × (answer.cseq ≡ cseq)
      × ((answer.sent ≡ true) ⊎ (after.stopped ≡ true)))
    × IsSound after

-- `int` raises on the numbers of `interleaved=`.
abbrev pub HasOverlong : Channels → Type 0
HasOverlong unnamed = ⊥
HasOverlong (numbered channel control) = ⊥
HasOverlong first_overlong = Unit
HasOverlong (second_overlong channel) = channel ≤ 255

-- What a request comes to: a reply, or an exception for what Python cannot read in it, which leaves the
-- connection as it was.
abbrev pub Settles : Request → Client → Client × Ending → Type 0
Settles request client (after, escapes) =
    (after ≡ client)
    × ((request.is_target_valid ≡ false)
        ⊎ ((request.method ≡ codes "SETUP") × HasOverlong request.channels))
Settles request client (after, goes_on) = Answers request.cseq client.replies after
Settles request client (after, hangs_up) = Answers request.cseq client.replies after

HasBridge-same :
    (chosen : Option Bridge) (bridge : Bridge) → is_same chosen bridge ≡ true → HasBridge chosen
HasBridge-same none bridge h = cc
HasBridge-same (some chosen) bridge h = tt

module _ (outside : Outside) where
  reply-stopped :
      (status : ℕ) (cseq : Text) (fields : Fields) (client : Client)
      → (not (outside.disconnected (reply_count client.replies)) ≡ true)
        ⊎ ((reply outside status cseq fields client).stopped ≡ true)
  unfolding reply
  reply-stopped status cseq carried client =
      elim (Bool-cases (outside.disconnected (reply_count client.replies))) [
        | inl gone ↦ inr (ground arith)
        | inr there ↦ inl (ground arith)
      ]

  reply-Answers :
      (status : ℕ) (cseq : Text) (fields : Fields) (client : Client)
      → IsSound client
      → Answers cseq client.replies (reply outside status cseq fields client)
  unfolding reply
  reply-Answers status cseq fields client sound =
      ((_, refl, refl, reply-stopped status cseq fields client), sound)

  accept_transport-Answers :
      (bridge : Bridge) (cseq : Text) (client : Client)
      → IsSound client
      → Answers cseq client.replies (accept_transport outside bridge cseq client)
  accept_transport-Answers bridge cseq client (streams, chosen, channel) =
      reply-Answers 200 cseq _ (record client { bridge = some bridge })
        (streams, (λ e. tt), channel)

  choose_channel-Settles :
      (bridge : Bridge) (request : Request) (channels : Channels) (client : Client)
      → request.channels ≡ channels
      → request.method ≡ codes "SETUP"
      → IsSound client
      → Settles request client (choose_channel outside bridge request.cseq channels client)
  choose_channel-Settles bridge request unnamed client is setup sound =
      accept_transport-Answers bridge request.cseq client sound
  choose_channel-Settles bridge request (numbered channel control) client is setup
        (streams, chosen, fits) =
      elim (Bool-cases (ltb 255 channel || ltb 255 control)) [
        | inl wide ↦
            rw wide (reply-Answers 461 request.cseq no_fields client (streams, chosen, fits))
        | inr narrow ↦ rw narrow (
            accept_transport-Answers bridge request.cseq (record client { rtp_channel = channel })
              (streams, chosen, ground arith))
      ]
  choose_channel-Settles bridge request first_overlong client is setup sound =
      (refl, inr (setup, rw is tt))
  choose_channel-Settles bridge request (second_overlong channel) client is setup sound =
      elim (Bool-cases (ltb 255 channel)) [
        | inl wide ↦ rw wide (reply-Answers 461 request.cseq no_fields client sound)
        | inr narrow ↦
            let small : channel ≤ 255 = ground arith in
            rw narrow (refl, inr (setup, subst HasOverlong (sym is) small))
      ]

  set_up-Settles :
      (bridge : Bridge) (request : Request) (client : Client)
      → request.method ≡ codes "SETUP"
      → IsSound client
      → Settles request client (set_up outside bridge request client)
  set_up-Settles bridge request client setup sound = elim (Bool-cases (not request.over_tcp)) [
    | inl other ↦ rw other (reply-Answers 461 request.cseq no_fields client sound)
    | inr tcp ↦
        rw tcp (choose_channel-Settles bridge request request.channels client refl setup sound)
  ]

  subscribe-Answers :
      (cseq : Text) (subscription : Option ℕ) (client : Client)
      → IsSound client
      → HasBridge client.bridge
      → Answers cseq client.replies (subscribe outside cseq subscription client)
  unfolding reply
  subscribe-Answers cseq none client sound chosen = reply-Answers 503 cseq no_fields client sound
  subscribe-Answers cseq (some subscription) client (streams, known, fits) chosen = (
    (
      _,
      refl,
      refl,
      reply-stopped 200 cseq rtp_info (record client { subscription = some subscription }),
    ),
    (refl, (λ e. chosen), fits),
  )

  play-Answers :
      (bridge : Bridge) (request : Request) (client : Client)
      → IsSound client
      → Answers request.cseq client.replies (play outside bridge request client)
  play-Answers bridge request client sound = elim (Bool-cases (is_same client.bridge bridge)) [
    | inr differs ↦ rw differs (reply-Answers 454 request.cseq no_fields client sound)
    | inl same ↦ elim (Bool-cases (is_subscribed client.subscription)) [
      | inl playing ↦ rw (same, playing) (reply-Answers 454 request.cseq no_fields client sound)
      | inr idle ↦
          rw (same, idle)
            (subscribe-Answers request.cseq
              (outside.acquire (reply_count client.replies) bridge bridge.battery_camera) client
              sound (HasBridge-same client.bridge bridge same))
    ]
  ]

  hung_up :
      (cseq : Text) (client : Client)
      → (answer : Reply) × ((reply outside 200 cseq session_only client).replies
          ≡ client.replies ++ answer ∷ [])
        × (answer.cseq ≡ cseq)
        × ((answer.sent ≡ true) ⊎ ((reply outside 200 cseq session_only client).stopped ≡ true))
      → (answer : Reply) × ((reply outside 200 cseq session_only client).replies
          ≡ client.replies ++ answer ∷ [])
        × (answer.cseq ≡ cseq)
        × ((answer.sent ≡ true) ⊎ (true ≡ true))
  hung_up cseq client (answer, more, number, sent) = (answer, more, number, inr refl)

  serve-Settles :
      (bridge : Bridge) (request : Request) (client : Client)
      → IsSound client
      → Settles request client (serve outside bridge request client)
  unfolding serve
  serve-Settles bridge request client sound =
      elim (Bool-cases (equal request.method (codes "DESCRIBE"))) [
        | inl describe ↦ rw describe (reply-Answers 200 request.cseq description client sound)
        | inr not_describe ↦
            rw not_describe (elim (Bool-cases (equal request.method (codes "SETUP"))) [
              | inl setup ↦
                  rw setup
                    (set_up-Settles bridge request client (equal-eq request.method _ setup) sound)
              | inr not_setup ↦
                  rw not_setup (elim (Bool-cases (equal request.method (codes "PLAY"))) [
                    | inl starts ↦ rw starts (play-Answers bridge request client sound)
                    | inr not_play ↦
                        rw not_play
                          (elim (Bool-cases (equal request.method (codes "GET_PARAMETER"))) [
                            | inl get ↦
                                rw get (reply-Answers 200 request.cseq session_only client sound)
                            | inr not_get ↦
                                rw not_get
                                  (elim (Bool-cases (equal request.method (codes "TEARDOWN"))) [
                                    | inl teardown ↦
                                        let (answered, still) =
                                          reply-Answers 200 request.cseq session_only client
                                            sound in
                                        rw teardown (hung_up request.cseq client answered, still)
                                    | inr unknown ↦
                                        rw unknown
                                          (reply-Answers 501 request.cseq no_fields client sound)
                                  ])
                          ])
                  ])
            ])
      ]

  known-Settles :
      (bridge : Option Bridge) (request : Request) (client : Client)
      → IsSound client
      → Settles request client (serve_known outside bridge request client)
  known-Settles none request client sound = reply-Answers 404 request.cseq no_fields client sound
  known-Settles (some bridge) request client sound = serve-Settles bridge request client sound

  -- Whatever the method of a request and the state of the connection that has come about so far, one of
  -- two things: exactly one reply is made to it, with its own sequence number, behind the replies before,
  -- and either it is sent or the stream is told to stop; or an exception escapes and nothing has changed,
  -- because `urlsplit` refuses the target, or the request is a SETUP whose channel numbers `int` refuses.
  -- A reply leaves the connection so that a stream thread was started exactly where there is a
  -- subscription, a subscription is there only where SETUP has chosen a bridge, and the channel for the
  -- packets fits one byte.
  pub handle_request-Settles :
      (request : Request) (client : Client)
      → IsSound client
      → Settles request client (handle_request outside (some request) client)
  unfolding handle_request
  handle_request-Settles request client sound = elim (Bool-cases (not request.is_target_valid)) [
    | inl refused ↦ rw refused (refl, inl (ground arith))
    | inr taken ↦ rw taken (elim (Bool-cases (equal request.method (codes "OPTIONS"))) [
      | inl options ↦ rw options (reply-Answers 200 request.cseq public_methods client sound)
      | inr other ↦ rw other (known-Settles request.bridge request client sound)
    ])
  ]

  Settles-IsSound :
      (request : Request) (client after : Client) (ending : Ending)
      → IsSound client
      → Settles request client (after, ending)
      → IsSound after
  Settles-IsSound request client after goes_on sound (answered, still) = still
  Settles-IsSound request client after hangs_up sound (answered, still) = still
  Settles-IsSound request client after escapes sound (same, because) = rw same sound

  -- The same of the connection after any requests, up to the one that ends it.
  pub handle_all-IsSound :
      (requests : List (Option Request)) (client : Client)
      → IsSound client
      → IsSound (handle_all outside requests client)
  unfolding handle_all handle_request
  handle_all-IsSound [] client sound = sound
  handle_all-IsSound (none ∷ requests) client sound = sound
  handle_all-IsSound (some request ∷ requests) client sound =
      let (after, ending) = handle_request outside (some request) client in
      let still =
        Settles-IsSound request client after ending sound
          (handle_request-Settles request client sound) in
      elim (Bool-cases (continues ending)) [
        | inl further ↦ rw further (handle_all-IsSound requests after still)
        | inr ends ↦ rw ends still
      ]
