-- ===== src/Wire/Tokens.antt =====
-- `nextToken` on a buffer that holds a token where it is asked for one.
use general_tools.Common.{
  ℕ, zero, suc, ◌+◌, ◌-◌, ◌<◌, ◌≡◌, refl, ap, subst, Bool, true, ◌&&◌, ◌||◌, not, List, [], ◌∷◌,
  ◌++◌, Text, ◌==◌, get_or, set, drop, length, length-append, arith, all, append_assoc,
}
use general_tools.Wire.{event_buffer_size, space, until_nul, c_str, token_end, next_token}

-- No byte of a token is a space or NUL.
abbrev pub is_token : Text → Bool
is_token = all (λ c. not (c == space) && not (c == 0))

get_or-append : (pre : List ℕ) (x : ℕ) (rest : List ℕ) → get_or (pre ++ x ∷ rest) (length pre) 0 ≡ x
get_or-append [] x rest = refl
get_or-append (y ∷ pre) x rest = get_or-append pre x rest

set-append :
    (pre : List ℕ) (x y : ℕ) (rest : List ℕ)
    → set (pre ++ x ∷ rest) (length pre) y ≡ pre ++ y ∷ rest
set-append [] x y rest = refl
set-append (z ∷ pre) x y rest = ap (◌∷◌ z) (set-append pre x y rest)

drop-append : (pre rest : List ℕ) → drop (length pre) (pre ++ rest) ≡ rest
drop-append [] rest = refl
drop-append (x ∷ pre) rest = drop-append pre rest

until_nul-append : (tok rest : List ℕ) → is_token tok ≡ true → until_nul (tok ++ 0 ∷ rest) ≡ tok
unfolding until_nul
until_nul-append [] rest e = refl
until_nul-append (c ∷ tok) rest e = ground (arith, until_nul-append tok rest)

-- The C string at the end of a prefix is the token that stands there.
pub c_str-at :
    (pre tok rest : List ℕ) (i : ℕ)
    → i ≡ length pre
    → is_token tok ≡ true
    → c_str (pre ++ (tok ++ 0 ∷ rest)) i ≡ tok
c_str-at pre tok rest i at e =
    rw (at, drop-append pre (tok ++ 0 ∷ rest)) (until_nul-append tok rest e)

token_end-at :
    (pre tok : List ℕ) (stop : ℕ) (rest : List ℕ) (event end rounds : ℕ)
    → length pre ≡ event + end
    → is_token tok ≡ true
    → (stop == space || stop == 0) ≡ true
    → length tok < rounds
    → token_end (pre ++ (tok ++ stop ∷ rest)) event rounds end ≡ end + length tok
unfolding token_end
token_end-at pre tok stop rest event end zero at e s h = absurd (omega arith)
token_end-at pre [] stop rest event end (suc rounds) at e s h =
    ground
      (arith, subst (λ i. get_or (pre ++ stop ∷ rest) i 0 ≡ stop) at (get_or-append pre stop rest))
token_end-at pre (c ∷ tok) stop rest event end (suc rounds) at e s h =
    let first =
      subst (λ i. get_or (pre ++ (c ∷ (tok ++ stop ∷ rest))) i 0 ≡ c) at
        (get_or-append pre c (tok ++ stop ∷ rest)) in
    let later =
      token_end-at (pre ++ c ∷ []) tok stop rest event (end + 1) rounds
        (omega (arith, length-append pre (c ∷ []))) (ground arith) s (omega arith) in
    let later' = rw append_assoc at later in ground (arith, first, later')

module _ (pre tok rest : List ℕ) (event start : ℕ) (at : length pre ≡ event + start)
    (is : is_token tok ≡ true) (fits : start + length tok < event_buffer_size) where
  read-stop :
      (stop : ℕ) → get_or (pre ++ (tok ++ stop ∷ rest)) (event + (start + length tok)) 0 ≡ stop
  read-stop stop = rw (← append_assoc pre tok (stop ∷ rest)) (
      subst (λ i. get_or ((pre ++ tok) ++ stop ∷ rest) i 0 ≡ stop)
        (omega (arith, length-append pre tok)) (get_or-append (pre ++ tok) stop rest))

  write-stop :
      (stop y : ℕ)
      → set (pre ++ (tok ++ stop ∷ rest)) (event + (start + length tok)) y
        ≡ pre ++ (tok ++ y ∷ rest)
  write-stop stop y =
      rw (← append_assoc pre tok (stop ∷ rest), ← append_assoc pre tok (y ∷ rest))
        (subst (λ i. set ((pre ++ tok) ++ stop ∷ rest) i y ≡ (pre ++ tok) ++ y ∷ rest)
          (omega (arith, length-append pre tok)) (set-append (pre ++ tok) stop y rest))

  -- A token that a space ends: the space becomes NUL, and the next token begins behind it.
  pub next_token-space :
      next_token (pre ++ (tok ++ space ∷ rest)) event start
      ≡ (start + length tok + 1, pre ++ (tok ++ 0 ∷ rest))
  unfolding next_token
  next_token-space = ground (
    arith,
    token_end-at pre tok space rest event start (event_buffer_size - start) at is refl
        (omega arith),
    read-stop space,
    write-stop space 0,
  )

  -- A token that the end of the text ends: the buffer stays, and the next token begins at the NUL.
  pub next_token-nul :
      next_token (pre ++ (tok ++ 0 ∷ rest)) event start
      ≡ (start + length tok, pre ++ (tok ++ 0 ∷ rest))
  unfolding next_token
  next_token-nul = ground (
    arith,
    token_end-at pre tok 0 rest event start (event_buffer_size - start) at is refl (omega arith),
    read-stop 0,
  )
