-- ===== src/Directory/Announce.antt =====
-- The five fields of an announcement, as `discoveryAvailable` splits them.
use general_tools.Common.{
  ℕ, ◌+◌, ◌<◌, ◌≡◌, refl, sym, Bool, true, false, ◌&&◌, not, some, [], ◌∷◌, ◌++◌, Text, ◌==◌,
  get_or, length, length-append, is_empty, arith, append_assoc,
}
use general_tools.Wire.{event_buffer_size, space, c_str}
use general_tools.Wire.Tokens.{is_token, c_str-at, next_token-space, next_token-nul}
use general_tools.Directory.Receive.{token, named_token, fields}

abbrev pub is_name : Text → Bool
is_name t = not (is_empty t) && is_token t

-- A prefix with one more token and the NUL behind it.
abbrev pub past : Text → Text → Text
past pre tok = pre ++ (tok ++ 0 ∷ [])

pub past-append : (pre tok rest : Text) → past pre tok ++ rest ≡ pre ++ (tok ++ 0 ∷ rest)
past-append pre tok rest = simp append_assoc

pub length-past : (pre tok : Text) → length (past pre tok) ≡ length pre + length tok + 1
length-past pre tok = omega (arith, length-append pre (tok ++ 0 ∷ []), length-append tok (0 ∷ []))

module _ (pre tok rest : Text) (event start : ℕ) (at : length pre ≡ event + start)
    (is : is_name tok ≡ true) (fits : start + length tok < event_buffer_size) where
  tok-is : is_token tok ≡ true
  tok-is = ground arith

  token-space :
      token (pre ++ (tok ++ space ∷ rest)) event start
      ≡ some (start + length tok + 1, past pre tok ++ rest)
  unfolding token
  token-space =
      ground
        (arith, next_token-space pre tok rest event start at tok-is fits, past-append pre tok rest)

first-byte :
    (pre tok rest : Text) (i : ℕ)
    → i ≡ length pre
    → is_name tok ≡ true
    → (get_or (past pre tok ++ rest) i 0 == 0) ≡ false
first-byte [] [] rest i at is = cc
first-byte [] (c ∷ tok) rest i at is = rw at (ground arith)
first-byte (x ∷ pre) tok rest i at is = rw at (first-byte pre tok rest (length pre) refl is)

named-space :
    (pre tok rest : Text) (event start : ℕ)
    → length pre ≡ event + start
    → is_name tok ≡ true
    → start + length tok < event_buffer_size
    → named_token (pre ++ (tok ++ space ∷ rest)) event start
      ≡ some (start + length tok + 1, past pre tok ++ rest)
unfolding named_token
named-space pre tok rest event start at is fits = ground (
  arith,
  token-space pre tok rest event start at is fits,
  first-byte pre tok rest (event + start) (sym at) is,
)

last-token :
    (pre tok : Text) (event start : ℕ)
    → length pre ≡ event + start
    → is_name tok ≡ true
    → start + length tok < event_buffer_size
    → token (pre ++ (tok ++ 0 ∷ [])) event start ≡ some (start + length tok, past pre tok)
unfolding token
last-token pre [] event start at is fits = cc
last-token pre (c ∷ tok) event start at is fits =
    ground (arith, next_token-nul pre (c ∷ tok) [] event start at (ground arith) fits)

-- The five fields of an announcement behind the prefix `pre`.
module _ (pre name type address ins outs : Text) (event : ℕ) (at : length pre ≡ event)
    (name-is : is_name name ≡ true) (type-is : is_name type ≡ true)
    (address-is : is_name address ≡ true) (ins-is : is_name ins ≡ true)
    (outs-is : is_name outs ≡ true)
    (fits : length name + length type + length address + length ins + length outs + 4
      < event_buffer_size) where
  abbrev pub info : Text
  info = name ++ (space ∷ (type ++ (space ∷ (address ++ (space ∷ (ins ++ (space ∷ outs)))))))

  abbrev pub pre1 : Text
  pre1 = past pre name

  abbrev pub pre2 : Text
  pre2 = past pre1 type

  abbrev pub pre3 : Text
  pre3 = past pre2 address

  abbrev pub pre4 : Text
  pre4 = past pre3 ins

  abbrev pub p1 : ℕ
  p1 = 0 + length name + 1

  abbrev pub p2 : ℕ
  p2 = p1 + length type + 1

  abbrev pub p3 : ℕ
  p3 = p2 + length address + 1

  abbrev pub p4 : ℕ
  p4 = p3 + length ins + 1

  pub fields_lem :
      fields
        (pre
          ++ (name
              ++ (space
                  ∷ (type
                      ++ (space ∷ (address ++ (space ∷ (ins ++ (space ∷ (outs ++ 0 ∷ []))))))))))
        event
      ≡ some (p1, p2, p3, p4, past pre4 outs)
  unfolding fields
  fields_lem = rw (e1, e2, e3, e4, e5)
    where
      at1 : length pre1 ≡ event + p1
      at1 = omega (arith, length-past pre name)

      at2 : length pre2 ≡ event + p2
      at2 = omega (arith, at1, length-past pre1 type)

      at3 : length pre3 ≡ event + p3
      at3 = omega (arith, at2, length-past pre2 address)

      at4 : length pre4 ≡ event + p4
      at4 = omega (arith, at3, length-past pre3 ins)

      rest4 : Text
      rest4 = outs ++ 0 ∷ []

      rest3 : Text
      rest3 = ins ++ (space ∷ rest4)

      rest2 : Text
      rest2 = address ++ (space ∷ rest3)

      rest1 : Text
      rest1 = type ++ (space ∷ rest2)

      e1 : named_token (pre ++ (name ++ space ∷ rest1)) event 0 ≡ some (p1, pre1 ++ rest1)
      e1 = named-space pre name rest1 event 0 (omega (arith, at)) name-is (omega arith)

      e2 : named_token (pre1 ++ rest1) event p1 ≡ some (p2, pre2 ++ rest2)
      e2 = named-space pre1 type rest2 event p1 at1 type-is (omega arith)

      e3 : named_token (pre2 ++ rest2) event p2 ≡ some (p3, pre3 ++ rest3)
      e3 = named-space pre2 address rest3 event p2 at2 address-is (omega arith)

      e4 : token (pre3 ++ rest3) event p3 ≡ some (p4, pre4 ++ rest4)
      e4 = token-space pre3 ins rest4 event p3 at3 ins-is (omega arith)

      e5 : token (pre4 ++ rest4) event p4 ≡ some (p4 + length outs, past pre4 outs)
      e5 = last-token pre4 outs event p4 at4 outs-is (omega arith)

  read :
      (front tok back : Text) (i : ℕ)
      → past pre4 outs ≡ front ++ (tok ++ 0 ∷ back)
      → event + i ≡ length front
      → is_name tok ≡ true
      → c_str (past pre4 outs) (event + i) ≡ tok
  read front tok back i e here is = rw e (c_str-at front tok back (event + i) here (ground arith))

  pub fields_read :
      (c_str (past pre4 outs) (event + 0) ≡ name)
      × (c_str (past pre4 outs) (event + p1) ≡ type)
      × (c_str (past pre4 outs) (event + p2) ≡ address)
      × (c_str (past pre4 outs) (event + p3) ≡ ins)
      × (c_str (past pre4 outs) (event + p4) ≡ outs)
  fields_read = (
    read pre name (type ++ (0 ∷ (address ++ (0 ∷ (ins ++ (0 ∷ (outs ++ 0 ∷ []))))))) 0
        (simp append_assoc) (omega (arith, at)) name-is,
    read pre1 type (address ++ (0 ∷ (ins ++ (0 ∷ (outs ++ 0 ∷ []))))) p1 (simp append_assoc)
        (omega (arith, at, length-past pre name)) type-is,
    read pre2 address (ins ++ (0 ∷ (outs ++ 0 ∷ []))) p2 (simp append_assoc)
        (omega (arith, at, length-past pre name, length-past pre1 type)) address-is,
    read pre3 ins (outs ++ 0 ∷ []) p3 (simp append_assoc)
        (omega (arith, at, length-past pre name, length-past pre1 type, length-past pre2 address))
        ins-is,
    read pre4 outs [] p4 refl
        (omega (
          arith,
          at,
          length-past pre name,
          length-past pre1 type,
          length-past pre2 address,
          length-past pre3 ins,
        ))
        outs-is,
  )
