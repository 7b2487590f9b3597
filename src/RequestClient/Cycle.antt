-- ===== src/RequestClient/Cycle.antt =====
-- The requests of a client and their ends, along every history.
use general_tools.Common.{
  ℕ, suc, ◌+◌, ◌≡◌, true, false, Option, List, [], ◌∷◌, ◌++◌, if◌then◌else◌, ok,
}
use general_tools.Message.{MessageVector}
use general_tools.TopicStore.{GuidTopicMap}
use general_tools.RequestClient.{
  RequestClient, ErrorCode, none_set, connection_already_in_progress, not_connected, timed_out,
  of_send, Action, connects, disconnects, sends, receives, waits, cancels, replies, fails, init,
  on_directory_topics_changed, request, send_reply_to_handler, on_timeout,
}

-- What can happen to a client, with the actions: requests at any time, changes of the topic's advertisers,
-- and, while a request is under way, its reply or its timeout.
pub data Step (c : RequestClient) : RequestClient → List Action → Type 0 where
  asks :
      (message : MessageVector) (send_error reply error : ℕ) (timeout : Option ℕ)
      → Step c
          (request c message send_error reply error timeout).0
          (request c message send_error reply error timeout).2
  gets :
      c.waiting_for_receive ≡ true → Step c (send_reply_to_handler c).0 (send_reply_to_handler c).1
  expires :
      (error : ℕ) {c' : RequestClient} {actions : List Action}
      → c.waiting_for_receive ≡ true
      → on_timeout c false error ≡ ok (c', actions)
      → Step c c' actions
  changes :
      (topics : GuidTopicMap) {c' : RequestClient} {actions : List Action}
      → on_directory_topics_changed c topics ≡ ok (c', actions)
      → Step c c' actions

pub data History : RequestClient → List Action → Type 0 where
  new : History init []
  next :
      {c c' : RequestClient} {before actions : List Action}
      → History c before
      → Step c c' actions
      → History c' (before ++ actions)

-- How often a reply is asked for, and how often one is passed on or given up for.
abbrev pub awaited : List Action → ℕ
awaited [] = 0
awaited (receives s e ∷ actions) = suc (awaited actions)
awaited (connects s a ∷ actions) = awaited actions
awaited (disconnects s a ∷ actions) = awaited actions
awaited (sends s m ∷ actions) = awaited actions
awaited (waits n ∷ actions) = awaited actions
awaited (cancels ∷ actions) = awaited actions
awaited (replies h ∷ actions) = awaited actions
awaited (fails h e ∷ actions) = awaited actions

abbrev pub is_timeout : ErrorCode → ℕ
is_timeout none_set = 0
is_timeout connection_already_in_progress = 0
is_timeout not_connected = 0
is_timeout timed_out = 1
is_timeout (of_send n) = 0

abbrev pub ended : List Action → ℕ
ended [] = 0
ended (replies h ∷ actions) = suc (ended actions)
ended (fails h e ∷ actions) = is_timeout e + ended actions
ended (receives s e ∷ actions) = ended actions
ended (connects s a ∷ actions) = ended actions
ended (disconnects s a ∷ actions) = ended actions
ended (sends s m ∷ actions) = ended actions
ended (waits n ∷ actions) = ended actions
ended (cancels ∷ actions) = ended actions

abbrev pub under_way : RequestClient → ℕ
under_way c = if c.waiting_for_receive then 1 else 0

-- The actions neither ask for a reply nor end a request, and the client waits as before.
abbrev Idle : RequestClient → RequestClient × List Action → Type 0
Idle c r = (awaited r.1 ≡ 0) × (ended r.1 ≡ 0) × (r.0.waiting_for_receive ≡ c.waiting_for_receive)

-- The balance of a client before and after some actions.
abbrev Balanced : RequestClient → RequestClient → List Action → Type 0
Balanced c c' actions = under_way c + awaited actions ≡ ended actions + under_way c'
