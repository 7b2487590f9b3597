-- ===== src/Directory/Envelope.antt =====
-- `Directory::send` and `handleEvent`: the sender and the command at the front of a datagram.
use general_tools.Common.{
  ℕ, ◌+◌, ◌<◌, ◌≡◌, refl, sym, subst, Bool, true, false, ◌&&◌, not, [], ◌∷◌, ◌++◌, Text, text_eq,
  ◌==◌, get_or, length, is_empty, ok, arith, append_assoc,
}
use general_tools.Address
use general_tools.Wire.{event_buffer_size, dispatch, space, c_str, next_token}
use general_tools.Wire.Tokens.{c_str-at, next_token-space, next_token-nul}
use general_tools.Directory.{Directory, datagram}
use general_tools.Directory.Announce.{is_name, past, past-append, length-past}
use general_tools.Directory.Receive.{dispatch_event, handle_event}

byte-at : (pre : Text) (c : ℕ) (rest : Text) → get_or (pre ++ c ∷ rest) (length pre) 0 ≡ c
byte-at [] c rest = refl
byte-at (x ∷ pre) c rest = byte-at pre c rest

starts-dispatch : (rest : Text) → Address.starts_with dispatch (dispatch ++ rest) ≡ true
unfolding Address.starts_with
starts-dispatch rest = refl

abbrev is_command : ℕ → Bool
is_command c = not (c == space) && not (c == 0)

module _ (on_network : Text → Bool) (d : Directory) (now : ℕ) (sender : Text)
    (sender-is : is_name sender ≡ true) (fits : length sender + 11 < event_buffer_size) where
  -- The offset behind the guid, and that behind the command.
  abbrev pub after_guid : ℕ
  after_guid = 9 + length sender + 1

  abbrev pub head : Text
  head = past dispatch sender

  guid-read :
      (rest : Text)
      → let (command, buf) = next_token (dispatch ++ (sender ++ space ∷ rest)) 0 9 in
        (command ≡ after_guid) × (buf ≡ head ++ rest) × (c_str buf 9 ≡ sender)
  guid-read rest =
      rw (next_token-space dispatch sender rest 0 9 refl (ground arith) (omega arith)) (
        refl,
        sym (past-append dispatch sender rest),
        c_str-at dispatch sender rest 9 refl (ground arith),
      )

  -- The node ignores every datagram that bears its own guid.
  pub own-ignored :
      (rest : Text)
      → text_eq sender d.my_guid ≡ true
      → handle_event on_network d now (dispatch ++ (sender ++ space ∷ rest)) ≡ ok (d, [])
  unfolding handle_event
  own-ignored rest own = ground (arith, guid-read rest, starts-dispatch (sender ++ space ∷ rest))

  module _ (other : text_eq sender d.my_guid ≡ false) (c : ℕ) (command : is_command c ≡ true) where
    abbrev front : Text
    front = past head (c ∷ [])

    at-command : length head ≡ 0 + after_guid
    at-command = omega (arith, length-past dispatch sender)

    command-byte : (rest : Text) → get_or (front ++ rest) after_guid 0 ≡ c
    command-byte rest =
        let at : length head ≡ after_guid = omega (arith, at-command) in
        rw append_assoc
          (subst (λ i. get_or (head ++ c ∷ (0 ∷ rest)) i 0 ≡ c) at (byte-at head c (0 ∷ rest)))

    command-read :
        (rest : Text)
        → next_token (head ++ (c ∷ space ∷ rest)) 0 after_guid ≡ (after_guid + 2, front ++ rest)
    command-read rest =
        let at : after_guid + length (c ∷ []) + 1 ≡ after_guid + 2 = omega arith in
        rw (← at, past-append head (c ∷ []) rest)
          (next_token-space head (c ∷ []) rest 0 after_guid at-command (ground arith) (omega arith))

    -- A command with arguments reaches its handler with the guid, and the arguments in place.
    pub delivered :
        (args : Text)
        → handle_event on_network d now
            (dispatch ++ (sender ++ (space ∷ (c ∷ (space ∷ (args ++ 0 ∷ []))))))
          ≡ dispatch_event on_network d now sender c (front ++ (args ++ 0 ∷ [])) (after_guid + 2)
    unfolding handle_event
    delivered args =
        let rest = c ∷ (space ∷ (args ++ 0 ∷ [])) in
        ground (
          arith,
          starts-dispatch (sender ++ space ∷ rest),
          guid-read rest,
          command-read (args ++ 0 ∷ []),
          command-byte (args ++ 0 ∷ []),
        )

    -- A command without arguments.
    pub delivered-bare :
        handle_event on_network d now (dispatch ++ (sender ++ (space ∷ (c ∷ 0 ∷ []))))
        ≡ dispatch_event on_network d now sender c (head ++ (c ∷ 0 ∷ [])) (after_guid + 1)
    unfolding handle_event
    delivered-bare =
        let at : length head ≡ after_guid = omega (arith, at-command) in
        ground (
          arith,
          starts-dispatch (sender ++ space ∷ (c ∷ 0 ∷ [])),
          guid-read (c ∷ 0 ∷ []),
          next_token-nul head (c ∷ []) [] 0 after_guid at-command (ground arith) (omega arith),
          subst (λ i. get_or (head ++ c ∷ (0 ∷ [])) i 0 ≡ c) at (byte-at head c (0 ∷ [])),
        )

pub datagram-args :
    (sender : Text) (c : ℕ) (args : Text)
    → is_empty args ≡ false
    → datagram sender c args ++ 0 ∷ []
      ≡ dispatch ++ (sender ++ (space ∷ (c ∷ (space ∷ (args ++ 0 ∷ [])))))
unfolding datagram
datagram-args sender c args some_args = rw some_args (simp append_assoc)

pub length-front :
    (sender : Text) (c : ℕ)
    → length (past (past dispatch sender) (c ∷ [])) ≡ 9 + length sender + 1 + 2
length-front sender c =
    omega (arith, length-past (past dispatch sender) (c ∷ []), length-past dispatch sender)
