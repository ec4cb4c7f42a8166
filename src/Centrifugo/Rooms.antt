-- ===== src/Centrifugo/Rooms.antt =====
-- What a publication to a conversation has done, and who may listen to its channel.
use be_modami_chat_service.Prelude.{
  ◌≡◌, refl, sym, ◌∙◌, String, true, ◌++◌, none, some, eqb, arith, inl, inr, Bool-cases,
}
use be_modami_chat_service.Text.{GoString, bytes}
use be_modami_chat_service.Result.{Result, ok, err, is_ok, Result-cases}
use be_modami_chat_service.Exec.{run-cases, wrap_result}
use be_modami_chat_service.Port.{EventData}
use be_modami_chat_service.Centrifugo.{
  ApiRequest, publish_request, HttpResponse, Http, Client, status_ok, post, call, publish,
  publish_to_conversation,
}

is_ok-wrap_result : {A : Type 0} (msg : String) (r : Result A) → is_ok (wrap_result msg r) ≡ is_ok r
is_ok-wrap_result msg (ok a) = refl
is_ok-wrap_result msg (err e) = refl

module _ {W : Type 0} (http : Http W) (c : Client) where
  -- What stands behind a call of the API that succeeded.
  abbrev pub Accepted : ApiRequest → W → W → Type 0
  Accepted req w w' =
      (body : GoString) × (resp : HttpResponse) × (http.marshal req ≡ ok body)
      × (http.do_request (post c body) w ≡ (ok resp, w'))
      × (resp.status_code ≡ status_ok)
      × (http.decode resp.body ≡ ok none)

  call-Accepted :
      (req : ApiRequest) (w : W)
      → is_ok (call http c req w).0 ≡ true
      → Accepted req w (call http c req w).1
  unfolding call
  call-Accepted req w h = elim (Result-cases (http.marshal req)) [
    | inr (e, bad) ↦ cc (rw bad at h)
    | inl (body, good) ↦ elim (Result-cases (http.new_request c.api_url)) [
      | inr (e, bad) ↦ cc (rw (good, bad) at h)
      | inl (u, made) ↦ elim (run-cases (http.do_request (post c body) w)) [
        | inr (e, w', failed) ↦ cc (rw (good, made, failed) at h)
        | inl (resp, w', done) ↦ elim (Bool-cases (eqb resp.status_code status_ok)) [
          | inr other ↦ cc (rw (good, made, done, other) at h)
          | inl fine ↦ elim (Result-cases (http.decode resp.body)) [
            | inr (e, bad) ↦ cc (rw (good, made, done, fine, bad) at h)
            | inl (some e, refused) ↦ cc (rw (good, made, done, fine, refused) at h)
            | inl (none, read) ↦
                rw (good, made, done, fine, read) (body, resp, refl, done, ground arith, read)
          ]
        ]
      ]
    ]
  ]

  -- A publication to a conversation reports success only after one exchange with the server's API,
  -- with the key of the client, that asked to publish the encoded event on the conversation's channel
  -- and was answered with status 200 and no error.
  pub publish_to_conversation_ends :
      (encode : String → EventData → Result GoString) (conversation_id : GoString)
      (event_type : String) (data' : EventData) (w : W)
      → is_ok (publish_to_conversation http encode c conversation_id event_type data' w).0 ≡ true
      → (encoded : GoString) × (encode event_type data' ≡ ok encoded)
        × Accepted
            (publish_request (bytes "chat:room:" ++ conversation_id) encoded)
            w
            (publish_to_conversation http encode c conversation_id event_type data' w).1
  unfolding publish_to_conversation publish
  publish_to_conversation_ends encode conversation_id event_type data' w h =
      elim (Result-cases (encode event_type data')) [
        | inr (e, bad) ↦ cc (rw bad at h)
        | inl (encoded, good) ↦
            let req = publish_request (bytes "chat:room:" ++ conversation_id) encoded in
            let sent : is_ok (call http c req w).0 ≡ true =
              sym (is_ok-wrap_result "publish to conversation" (call http c req w).0)
              ∙ (rw good at h) in
            rw good (encoded, refl, call-Accepted req w sent)
      ]
