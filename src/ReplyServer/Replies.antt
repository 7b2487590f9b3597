-- ===== src/ReplyServer/Replies.antt =====
-- The exchange of requests and replies. A zmq reply socket takes one reply for each request, and no
-- request before that reply.
use general_tools.Common.{
  ℕ, ◌≡◌, ◌≢◌, ◌⊎◌, inl, inr, refl, Bool, true, false, not, List, [], ◌∷◌, map, all, arith,
}
use general_tools.Message.{MessageVector}
use general_tools.Socket.{Socket, receive}
use general_tools.ReplyServer.{
  ReplyServer, Action, sends, receives, request_handler, init, send_reply, send_replies, on_request,
  serve,
}

-- One reply and then the next request, over and over.
abbrev pub exchange : List MessageVector → List Action
exchange [] = []
exchange (reply ∷ replies) = sends reply ∷ receives ∷ exchange replies

-- The reply to a request: the one of the handler, and an empty one if it throws.
abbrev pub reply_of : List MessageVector × Bool → MessageVector
reply_of (replies, true) = []
reply_of ([], false) = []
reply_of (reply ∷ replies, false) = reply

-- A handler that replies once and returns, or throws before it replied.
abbrev pub replies_once : List MessageVector × Bool → Bool
replies_once ([], threw) = threw
replies_once (reply ∷ [], threw) = not threw
replies_once (reply ∷ r ∷ replies, threw) = false

-- The server while it waits for a request.
abbrev pub Waits : ReplyServer → Type 0
Waits s =
    (s.socket.smart_message_handler ≡ request_handler) × (s.socket.error_handler ≡ s.error_handler)

once-cases :
    (r : List MessageVector × Bool)
    → replies_once r ≡ true
    → (r ≡ ([], true)) ⊎ ((reply : MessageVector) × (r ≡ (reply ∷ [], false)))
once-cases ([], true) e = inl refl
once-cases ([], false) e = absurd (ground (arith, e))
once-cases (reply ∷ [], true) e = absurd (ground (arith, e))
once-cases (reply ∷ [], false) e = inr (reply, refl)
once-cases (reply ∷ r ∷ replies, threw) e = absurd (ground (arith, e))

module _ (react : ℕ → MessageVector → List MessageVector × Bool) where
  on_request-once :
      (s : ReplyServer) (request : MessageVector)
      → s.reply_handler ≢ 0
      → Waits s
      → replies_once (react s.reply_handler request) ≡ true
      → on_request react s request ≡ (s, exchange (reply_of (react s.reply_handler request) ∷ []))
  unfolding on_request send_replies send_reply receive
  on_request-once s request set ready once =
      elim (once-cases (react s.reply_handler request) once) [
        | inl threw ↦ rw threw (ground (arith, set, ready))
        | inr (reply, replied) ↦ rw replied (ground (arith, set, ready))
      ]

  serve-once :
      (s : ReplyServer) (requests : List MessageVector)
      → s.reply_handler ≢ 0
      → Waits s
      → all (λ m. replies_once (react s.reply_handler m)) requests ≡ true
      → serve react s requests
        ≡ (s, exchange (map (λ m. reply_of (react s.reply_handler m)) requests))
  unfolding serve
  serve-once s [] set ready once = refl
  serve-once s (m ∷ requests) set ready once =
      let first : replies_once (react s.reply_handler m) ≡ true = ground (arith, once) in
      let others : all (λ m. replies_once (react s.reply_handler m)) requests ≡ true =
        ground (arith, once) in
      rw (on_request-once s m set ready first, serve-once s requests set ready others) refl

-- The server answers each request once and then takes the next, whether the handler throws or not:
-- if for each request the handler either sends one reply and returns, or throws before it replied,
-- then a new server sends for each request in turn the reply of the handler, an empty one where it
-- threw, and after each reply asks for one more request. At the end it waits as at the start.
pub serve-exchange :
    (react : ℕ → MessageVector → List MessageVector × Bool) (socket : Socket) (handler error : ℕ)
    (requests : List MessageVector)
    → handler ≢ 0
    → all (λ m. replies_once (react handler m)) requests ≡ true
    → let (s, actions) = init socket handler error in
      (actions ≡ receives ∷ [])
      × (serve react s requests ≡ (s, exchange (map (λ m. reply_of (react handler m)) requests)))
unfolding init receive
serve-exchange react socket handler error requests set once =
    (refl, serve-once react (init socket handler error).0 requests set (refl, refl) once)
