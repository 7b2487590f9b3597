-- ===== src/GenericUdp/Datagrams.antt =====
-- What a peer reads from a datagram, and where datagrams go.
use general_tools.Common.{
  ℕ, zero, suc, ◌-◌, ◌*◌, ◌/◌, ◌≤◌, ◌≡◌, refl, ap, sym, ◌∙◌, true, Option, none, some, List, [],
  ◌∷◌, ◌++◌, length, length-take, length-append, take, drop, if◌then◌else◌, is_empty, arith,
}
use general_tools.GenericUdp.{
  GenericUdp, receives, handles, sends_to, init, memory, numbers, receive_limit, parser, on_receive,
  send,
}

take-append :
    {A : Type 0} (m : ℕ) (xs ys : List A)
    → length xs ≤ m
    → take m (xs ++ ys) ≡ xs ++ take (m - length xs) ys
take-append m [] ys h = ap (λ k. take k ys) (omega arith)
take-append zero (x ∷ xs) ys h = absurd (omega arith)
take-append (suc m) (x ∷ xs) ys h =
    let e : suc m - suc (length xs) ≡ m - length xs = omega arith in
    ap (◌∷◌ x) (take-append m xs ys (omega arith)) ∙ ap (λ k. x ∷ (xs ++ take k ys)) (sym e)

take-prefix : {A : Type 0} (xs ys : List A) → take (length xs) (xs ++ ys) ≡ xs
take-prefix [] ys = refl
take-prefix (x ∷ xs) ys = ap (◌∷◌ x) (take-prefix xs ys)

drop-prefix : {A : Type 0} (xs ys : List A) → drop (length xs) (xs ++ ys) ≡ ys
drop-prefix [] ys = refl
drop-prefix (x ∷ xs) ys = drop-prefix xs ys

take-all : {A : Type 0} (m : ℕ) (xs : List A) → length xs ≤ m → take m xs ≡ xs
take-all zero [] h = refl
take-all (suc m) [] h = refl
take-all zero (x ∷ xs) h = absurd (omega arith)
take-all (suc m) (x ∷ xs) h = ap (◌∷◌ x) (take-all m xs (omega arith))

module _ {D : Type 0} (to_bytes : D → List ℕ) (of_bytes : List ℕ → D)
    (wide : (x : D) → length (to_bytes x) ≡ 8) (same : (x : D) → of_bytes (to_bytes x) ≡ x) where
  length-memory : (v : List D) → length (memory to_bytes of_bytes v) ≡ 8 * length v
  unfolding memory
  length-memory [] = omega arith
  length-memory (x ∷ v) =
      omega
        (arith, length-append (to_bytes x) (memory to_bytes of_bytes v), wide x, length-memory v)

  numbers-memory :
      (k m : ℕ) (v : List D)
      → 8 * k ≤ m
      → k ≤ length v
      → numbers to_bytes of_bytes k (take m (memory to_bytes of_bytes v)) ≡ take k v
  unfolding numbers memory
  numbers-memory zero m v h l = refl
  numbers-memory (suc k) m [] h l = absurd (omega arith)
  numbers-memory (suc k) m (x ∷ v) h l =
      let b = to_bytes x in
      let rest = take (m - 8) (memory to_bytes of_bytes v) in
      let parts : take m (b ++ memory to_bytes of_bytes v) ≡ b ++ rest =
        take-append m b (memory to_bytes of_bytes v) (omega (arith, wide x))
        ∙ ap (λ j. b ++ take (m - j) (memory to_bytes of_bytes v)) (wide x) in
      let first : take 8 (b ++ rest) ≡ b =
        ap (λ j. take j (b ++ rest)) (sym (wide x)) ∙ take-prefix b rest in
      let later : drop 8 (b ++ rest) ≡ rest =
        ap (λ j. drop j (b ++ rest)) (sym (wide x)) ∙ drop-prefix b rest in
      ap (λ w. of_bytes (take 8 w) ∷ numbers to_bytes of_bytes k (drop 8 w)) parts
      ∙ ap (λ w. of_bytes w ∷ numbers to_bytes of_bytes k (drop 8 (b ++ rest))) first
      ∙ ap (λ w. of_bytes b ∷ numbers to_bytes of_bytes k w) later
      ∙ ap (λ y. y ∷ numbers to_bytes of_bytes k rest) (same x)
      ∙ ap (◌∷◌ x) (numbers-memory k (m - 8) v (omega arith) (omega arith))

  parser_lem :
      (bytes : List ℕ)
      → 8 ≤ length bytes
      → length bytes ≤ 1024
      → parser to_bytes of_bytes (take receive_limit bytes)
        ≡ handles (numbers to_bytes of_bytes (length bytes / 8) bytes) ∷ []
  unfolding parser
  parser_lem bytes eight limit = rw (take-all receive_limit bytes limit) (ground arith)

  -- Of the numbers that a connected socket sends, at least eight and at most the limit of a datagram, a
  -- peer that receives the datagram hands the first eighth to its handler, and then receives again. A
  -- number takes eight bytes, from which it is read back.
  pub peer_reads_an_eighth :
      (u peer : GenericUdp) (sender : ℕ) (v : List D)
      → u.first_message ≡ true
      → 8 ≤ length v
      → length v ≤ 1024
      → let bytes = take (length v) (memory to_bytes of_bytes v) in
        (send to_bytes of_bytes u v ≡ sends_to u.target bytes ∷ [])
        × ((on_receive to_bytes of_bytes peer 0 sender bytes).1
            ≡ handles (take (length v / 8) v) ∷ receives ∷ [])
  unfolding send on_receive
  peer_reads_an_eighth u peer sender v first eight limit =
      let bytes = take (length v) (memory to_bytes of_bytes v) in
      let size : length bytes ≡ length v =
        omega (arith, length-take (length v) (memory to_bytes of_bytes v), length-memory v) in
      (
        rw first refl,
        ap (λ w. w ++ receives ∷ [])
            (parser_lem bytes (omega (arith, size)) (omega (arith, size))
              ∙ ap (λ n. handles (numbers to_bytes of_bytes (n / 8) bytes) ∷ []) size
              ∙ ap (λ w. handles w ∷ [])
                  (numbers-memory (length v / 8) (length v) v (omega arith) (omega arith))),
      )

-- What happens to a socket: a datagram arrives, with its sender, or a receive error.
pub data Event : Type 0 where
  arrives : ℕ → List ℕ → Event
  errs : ℕ → Event

-- The sender of the last datagram.
abbrev pub last_sender : Option ℕ → List Event → Option ℕ
last_sender found [] = found
last_sender found (arrives sender bytes ∷ es) = last_sender (some sender) es
last_sender found (errs error ∷ es) = last_sender found es

module _ {D : Type 0} (to_bytes : D → List ℕ) (of_bytes : List ℕ → D) where
  abbrev pub after : GenericUdp → Event → GenericUdp
  after u (arrives sender bytes) = (on_receive to_bytes of_bytes u 0 sender bytes).0
  after u (errs error) = (on_receive to_bytes of_bytes u (suc error) 0 []).0

  abbrev pub after_all : GenericUdp → List Event → GenericUdp
  after_all u [] = u
  after_all u (e ∷ es) = after_all (after u e) es

  history :
      (es : List Event) (u : GenericUdp)
      → ((after_all u es).target ≡ last_sender u.target es)
        × ((after_all u es).first_message ≡ (if is_empty es then u.first_message else true))
  unfolding on_receive
  history [] u = (refl, refl)
  history (arrives sender bytes ∷ es) u =
      let ih = history es (after u (arrives sender bytes)) in (ih.0, ground (arith, ih.1))
  history (errs error ∷ es) u =
      let ih = history es (after u (errs error)) in (ih.0, ground (arith, ih.1))

  -- A new socket sends nothing before the first event, be it a datagram or an error. After it, each
  -- `send` goes to the sender of the last datagram, or, where there were only errors, to no one's address.
  pub send_after_history :
      (es : List Event) (v : List D)
      → send to_bytes of_bytes (after_all (init {D = D}).0 es) v ≡ (
          if is_empty es
          then []
          else sends_to (last_sender none es) (take (length v) (memory to_bytes of_bytes v)) ∷ [])
  unfolding send init
  send_after_history es v = ground (arith, history es (init {D = D}).0)
