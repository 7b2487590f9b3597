-- ===== src/Topic/Path.antt =====
-- The parts of the full name.
use general_tools.Common.{
  ◌≡◌, refl, ◌∙◌, Bool, true, false, ◌||◌, List, [], ◌∷◌, ◌++◌, Text, if◌then◌else◌, is_empty,
  arith, append_assoc,
}
use general_tools.Topic.{Topic, slash, ends_open, append_part, str}

-- The parts that are not empty, with a slash between each two.
abbrev pub join : List Text → Text
join [] = []
join (p ∷ ps) =
    if is_empty p then join ps else if is_empty (join ps) then p else p ++ (slash ∷ join ps)

ends_open-append : (s p : Text) → ends_open p ≡ true → ends_open (s ++ p) ≡ true
ends_open-append [] p e = e
ends_open-append (c ∷ []) [] e = absurd (ground (arith, e))
ends_open-append (c ∷ []) (d ∷ p) e = e
ends_open-append (c ∷ d ∷ s) p e = ends_open-append (d ∷ s) p e

-- A text that is empty or does not end in a slash.
abbrev pub open_or_empty : Text → Bool
open_or_empty s = is_empty s || ends_open s

append_part-empty : (s : Text) → append_part s [] ≡ s
unfolding append_part
append_part-empty s = refl

append_part-open :
    (s p : Text) → is_empty p ≡ false → ends_open s ≡ true → append_part s p ≡ s ++ (slash ∷ p)
unfolding append_part
append_part-open [] p filled e = absurd (ground (arith, e))
append_part-open (c ∷ s) [] filled e = absurd (ground (arith, filled))
append_part-open (c ∷ s) (d ∷ p) filled e = ground (arith, e)

append_part-start : (p : Text) → append_part [] p ≡ p
unfolding append_part
append_part-start [] = refl
append_part-start (c ∷ p) = refl

join-parts :
    (d n t : Text)
    → open_or_empty d ≡ true
    → open_or_empty n ≡ true
    → append_part (append_part (if is_empty d then [] else d) n) t ≡ join (d ∷ n ∷ t ∷ [])
join-parts [] [] [] device node = append_part-empty (append_part [] []) ∙ append_part-start []
join-parts [] (c ∷ n) [] device node =
    append_part-empty (append_part [] (c ∷ n)) ∙ append_part-start (c ∷ n)
join-parts [] [] (x ∷ t) device node = rw (append_part-start []) (append_part-start (x ∷ t))
join-parts [] (c ∷ n) (x ∷ t) device node =
    rw (append_part-start (c ∷ n)) (append_part-open (c ∷ n) (x ∷ t) refl node)
join-parts (e ∷ d) [] [] device node =
    append_part-empty (append_part (e ∷ d) []) ∙ append_part-empty (e ∷ d)
join-parts (e ∷ d) [] (x ∷ t) device node =
    rw (append_part-empty (e ∷ d)) (append_part-open (e ∷ d) (x ∷ t) refl device)
join-parts (e ∷ d) (c ∷ n) [] device node =
    append_part-empty (append_part (e ∷ d) (c ∷ n)) ∙ append_part-open (e ∷ d) (c ∷ n) refl device
join-parts (e ∷ d) (c ∷ n) (x ∷ t) device node =
    let joined = append_part-open (e ∷ d) (c ∷ n) refl device in
    rw joined (
      append_part-open (e ∷ d ++ (slash ∷ c ∷ n)) (x ∷ t) refl
        (ends_open-append (e ∷ d) (slash ∷ c ∷ n) node)
      ∙ append_assoc (e ∷ d) (slash ∷ c ∷ n) (slash ∷ x ∷ t))

-- The full name is the parts with a slash between each two of them: empty parts are left out with
-- their slash, where the device's and the node's name do not end in a slash of their own.
pub str-join :
    (t : Topic)
    → open_or_empty t.device_name ≡ true
    → open_or_empty t.node_name ≡ true
    → str t ≡ join (t.device_name ∷ t.node_name ∷ t.topic ∷ [])
unfolding str
str-join t device node = join-parts t.device_name t.node_name t.topic device node
