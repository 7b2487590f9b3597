-- ===== src/SmartCapnpBuilder/Frame.antt =====
-- The layout of a built message.
use general_tools.Common.{
  ℕ, ◌+◌, ◌-◌, ◌*◌, ◌/◌, ◌%◌, ◌^◌, ◌≤◌, ◌≡◌, refl, ap, ap₂, drop-drop, drop-all, sym, subst, ◌∙◌,
  List, [], ◌∷◌, ◌++◌, if◌then◌else◌, ◌==◌, length, length-append, length-drop, length-take,
  take-append-drop, append_assoc, append-nil, take, drop, arith, Bool-cases, inl, inr,
}
use general_tools.Common.Bytes.{to_bytes, write, write_lem, length-to_bytes}
use general_tools.SmartCapnpBuilder.{
  word_size, words_bytes, write_sizes, write_segments, build_smart_message,
}

-- The sizes of the segments, in words.
abbrev pub sizes_bytes : List (List ℕ) → List ℕ
sizes_bytes [] = []
sizes_bytes (s ∷ ss) = to_bytes 4 (length s % 2 ^ 32) ++ sizes_bytes ss

abbrev pub contents : List (List ℕ) → List ℕ
contents [] = []
contents (s ∷ ss) = words_bytes s ++ contents ss

-- The framing of capnp for streams: the number of segments less one, the size of each, each in four
-- bytes, padding to a whole word, and the segments.
abbrev pub framed : List (List ℕ) → List ℕ
framed segments =
    to_bytes 4 ((length segments + 2 ^ 32 - 1) % 2 ^ 32)
    ++ (sizes_bytes segments
        ++ ((if length segments % 2 == 0 then to_bytes 4 0 else []) ++ contents segments))

abbrev pub total_words : List (List ℕ) → ℕ
total_words [] = 0
total_words (s ∷ ss) = length s + total_words ss

length-words_bytes : (s : List ℕ) → length (words_bytes s) ≡ length s * word_size
length-words_bytes [] = refl
length-words_bytes (w ∷ s) =
    omega (
      arith,
      length-append (to_bytes 8 w) (words_bytes s),
      length-to_bytes 8 w,
      length-words_bytes s,
    )

length-sizes_bytes : (ss : List (List ℕ)) → length (sizes_bytes ss) ≡ 4 * length ss
length-sizes_bytes [] = refl
length-sizes_bytes (s ∷ ss) = omega (
  arith,
  length-append (to_bytes 4 (length s % 2 ^ 32)) (sizes_bytes ss),
  length-to_bytes 4 (length s % 2 ^ 32),
  length-sizes_bytes ss,
)

length-contents : (ss : List (List ℕ)) → length (contents ss) ≡ total_words ss * word_size
length-contents [] = refl
length-contents (s ∷ ss) =
    omega
      (arith, length-append (words_bytes s) (contents ss), length-words_bytes s, length-contents ss)

-- A write of `bytes` at the end of what is done, into a rest that has room for it.
write-front :
    (done rest bytes : List ℕ) (at : ℕ)
    → at ≡ length done
    → length bytes ≤ length rest
    → write (done ++ rest) at bytes ≡ (done ++ bytes) ++ drop (length bytes) rest
write-front done rest bytes at e room =
    let n = length bytes in
    subst (λ l. write (done ++ l) at bytes ≡ (done ++ bytes) ++ drop n rest)
      (take-append-drop n rest)
      (write_lem done (take n rest) bytes (drop n rest) at e (omega (arith, length-take n rest))
        ∙ sym (append_assoc done bytes (drop n rest)))

write_sizes-eq :
    (ss : List (List ℕ)) (done rest : List ℕ) (i : ℕ)
    → 4 * (i + 1) ≡ length done
    → 4 * length ss ≤ length rest
    → write_sizes (done ++ rest) i ss ≡ (done ++ sizes_bytes ss) ++ drop (4 * length ss) rest
unfolding write_sizes
write_sizes-eq [] done rest i at room = ap (λ d. d ++ rest) (sym (append-nil done))
write_sizes-eq (s ∷ ss) done rest i at room =
    let bytes = to_bytes 4 (length s % 2 ^ 32) in
    let four = length-to_bytes 4 (length s % 2 ^ 32) in
    ap (λ l. write_sizes l (i + 1) ss)
      (write-front done rest bytes (4 * (i + 1)) at (omega (arith, four)))
    ∙ write_sizes-eq ss (done ++ bytes) (drop (length bytes) rest) (i + 1)
        (omega (arith, four, length-append done bytes))
        (omega (arith, four, length-drop (length bytes) rest))
    ∙ ap₂ ◌++◌ (append_assoc done bytes (sizes_bytes ss)) (
        drop-drop (length bytes) (4 * length ss) rest ∙ ap (λ n. drop n rest) (omega (arith, four)))

write_segments-eq :
    (ss : List (List ℕ)) (done rest : List ℕ) (dst : ℕ)
    → dst ≡ length done
    → total_words ss * word_size ≤ length rest
    → write_segments (done ++ rest) dst ss
      ≡ (done ++ contents ss) ++ drop (total_words ss * word_size) rest
unfolding write_segments
write_segments-eq [] done rest dst at room = ap (λ d. d ++ rest) (sym (append-nil done))
write_segments-eq (s ∷ ss) done rest dst at room =
    let bytes = words_bytes s in
    let size = length-words_bytes s in
    ap (λ l. write_segments l (dst + length s * word_size) ss)
      (write-front done rest bytes dst at (omega (arith, size)))
    ∙ write_segments-eq ss (done ++ bytes) (drop (length bytes) rest) (dst + length s * word_size)
        (omega (arith, size, length-append done bytes))
        (omega (arith, size, length-drop (length bytes) rest))
    ∙ ap₂ ◌++◌ (append_assoc done bytes (contents ss)) (
        drop-drop (length bytes) (total_words ss * word_size) rest
        ∙ ap (λ n. drop n rest) (omega (arith, size)))

abbrev padding : ℕ → List ℕ
padding count = if count % 2 == 0 then to_bytes 4 0 else []

length-padding :
    (count : ℕ) → 4 * (count + 1) + length (padding count) ≡ (count / 2 + 1) * word_size
length-padding count = ground (arith, length-to_bytes 4 0)

padding-eq :
    (done rest : List ℕ) (count : ℕ)
    → 4 * (count + 1) ≡ length done
    → length (padding count) ≤ length rest
    → (if count % 2 == 0
        then write (done ++ rest) (4 * (count + 1)) (to_bytes 4 0)
        else done ++ rest)
      ≡ (done ++ padding count) ++ drop (length (padding count)) rest
padding-eq done rest count at room = elim (Bool-cases (count % 2 == 0)) [
  | inl even ↦ rw even (
      write-front done rest (to_bytes 4 0) (4 * (count + 1)) at
        (subst (λ b. length (if b then to_bytes 4 0 else []) ≤ length rest) even room))
  | inr odd ↦ rw odd (ap (λ d. d ++ rest) (sym (append-nil done)))
]

-- `buildSmartMessage` writes every byte of the message: whatever the memory held before, it holds the
-- framing of capnp for the segments after, if it has the size of that.
pub build_smart_message-framed :
    (buf : List ℕ) (segments : List (List ℕ))
    → length buf ≡ (length segments / 2 + 1 + total_words segments) * word_size
    → build_smart_message buf segments ≡ framed segments
unfolding build_smart_message
build_smart_message-framed buf segments size =
    ap
      (λ t.
        write_segments (if n % 2 == 0 then write t (4 * (n + 1)) (to_bytes 4 0) else t) start
          segments)
      sizes
    ∙ ap (λ t. write_segments t start segments)
        (padding-eq table rest n (omega (arith, length-table))
          (omega (arith, length-rest, length-padding n, size)))
    ∙ write_segments-eq segments (table ++ padding n) (drop (length (padding n)) rest) start
        (omega (arith, length-table, length-append table (padding n), length-padding n))
        (omega (arith, length-rest, length-drop (length (padding n)) rest, length-padding n, size))
    ∙ ap (◌++◌ ((table ++ padding n) ++ contents segments)) (
        drop-all (total_words segments * word_size) (drop (length (padding n)) rest) (
          omega
            (arith, length-rest, length-drop (length (padding n)) rest, length-padding n, size)))
    ∙ simp (append-nil, append_assoc)
  where
    n : ℕ
    n = length segments

    start : ℕ
    start = (n / 2 + 1) * word_size

    hd : List ℕ
    hd = to_bytes 4 ((length segments + 2 ^ 32 - 1) % 2 ^ 32)

    four : length hd ≡ 4
    four = length-to_bytes 4 ((length segments + 2 ^ 32 - 1) % 2 ^ 32)

    table : List ℕ
    table = hd ++ sizes_bytes segments

    rest : List ℕ
    rest = drop (4 + 4 * n) buf

    length-table : length table ≡ 4 * (n + 1)
    length-table =
        omega (arith, four, length-append hd (sizes_bytes segments), length-sizes_bytes segments)

    length-rest : length rest ≡ length buf - (4 + 4 * n)
    length-rest = length-drop (4 + 4 * n) buf

    sizes : write_sizes (write buf 0 hd) 0 segments ≡ table ++ rest
    sizes =
        ap (λ l. write_sizes l 0 segments)
          (write-front [] buf hd 0 refl (omega (arith, four, size)))
        ∙ write_sizes-eq segments hd (drop (length hd) buf) 0 (omega (arith, four))
            (omega (arith, four, length-drop (length hd) buf, size))
        ∙ ap (◌++◌ table) (drop-drop (length hd) (4 * n) buf ∙ ap (λ k. drop (k + 4 * n) buf) four)

pub length-framed :
    (segments : List (List ℕ))
    → length (framed segments) ≡ (length segments / 2 + 1 + total_words segments) * word_size
length-framed segments =
    let hd = to_bytes 4 ((length segments + 2 ^ 32 - 1) % 2 ^ 32) in
    let tail = padding (length segments) ++ contents segments in
    omega (
      arith,
      length-append hd (sizes_bytes segments ++ tail),
      length-to_bytes 4 ((length segments + 2 ^ 32 - 1) % 2 ^ 32),
      length-append (sizes_bytes segments) tail,
      length-sizes_bytes segments,
      length-append (padding (length segments)) (contents segments),
      length-padding (length segments),
      length-contents segments,
    )
